-- ===== src/Gateway/Writer.antt =====
-- The response writers of internal/gateway/proxy.go: statusRecorder and attemptWriter, over net/http's
-- ResponseWriter, which is the record Client.
use gpu_platform_control_pla.Base.{
  ℕ, Bool, true, ◌&&◌, List, [], ◌∷◌, ◌++◌, Option, none, some, if◌then◌else◌, leb, not, ◌==◌,
}
use gpu_platform_control_pla.Base.Text.{Text}
use gpu_platform_control_pla.Base.Maps.{Map, lookup, insert}

abbrev pub Headers : Type 0
Headers = Map (List Text)

abbrev pub or_empty : Option (List Text) → List Text
or_empty none = []
or_empty (some vs) = vs

-- Header().Set and Header().Add.
unfoldable pub set_header : Text → Text → Headers → Headers
set_header k v h = insert k (v ∷ []) h

unfoldable pub add_header : Text → Text → Headers → Headers
add_header k v h = insert k (or_empty (lookup k h) ++ (v ∷ [])) h

-- maps.Copy(dst, src).
unfoldable pub copy_headers : Headers → Headers → Headers
copy_headers [] dst = dst
copy_headers ((k, vs) ∷ src) dst = copy_headers src (insert k vs dst)

-- The response to the client: the header map, the status line with the headers that went out with
-- it once there is one, and the body so far. What enters the map later is a trailer.
pub record Client : Type 0 where
  pub live : Headers
  pub sent : Option (ℕ × Headers)
  pub body : List Text

-- A status before the final one, which net/http sends at once and forgets; 101 is final.
abbrev pub is_informational : ℕ → Bool
is_informational c = leb 100 c && (leb c 199 && not (c == 101))

unfoldable pub client_write_header : ℕ → Client → Client
client_write_header c w = elim w.sent [
  | none ↦ if is_informational c then w else record w { sent = some (c, w.live) }
  | some _ ↦ w
]

unfoldable pub client_write : Text → Client → Client
unfolding client_write_header
client_write b w = let w' = client_write_header 200 w in record w' { body = w'.body ++ (b ∷ []) }

pub record StatusRecorder : Type 0 where
  pub client : Client
  pub code : ℕ
  pub answered : Bool

unfoldable pub rec_write_header : ℕ → StatusRecorder → StatusRecorder
unfolding client_write_header
rec_write_header c r = record r {
  client = client_write_header c r.client;
  code = c;
  answered = true;
}

unfoldable pub rec_write : Text → StatusRecorder → StatusRecorder
unfolding client_write
rec_write b r = record r { client = client_write b r.client; answered = true }

pub record AttemptWriter : Type 0 where
  pub rec : StatusRecorder
  pub scratch : Option Headers
  pub suppress : Bool
  pub failed : Bool
  pub wrote : Bool
  pub replayable : Bool

abbrev pub or_no_headers : Option Headers → Headers
or_no_headers none = []
or_no_headers (some h) = h

-- A change of the map that Header() returns.
unfoldable pub on_header : (Headers → Headers) → AttemptWriter → AttemptWriter
on_header f a =
    if a.wrote
    then record a {
      rec = record (a.rec) { client = record (a.rec.client) { live = f a.rec.client.live } };
    }
    else record a { scratch = some (f (or_no_headers a.scratch)) }

unfoldable pub promote : AttemptWriter → AttemptWriter
unfolding copy_headers
promote a = elim a.scratch [
  | none ↦ a
  | some h ↦ record a {
    rec = record (a.rec) {
      client = record (a.rec.client) { live = copy_headers h a.rec.client.live };
    };
    scratch = none;
  }
]

unfoldable pub att_write_header : ℕ → AttemptWriter → AttemptWriter
unfolding promote rec_write_header
att_write_header c a =
    let p = promote a in
    if a.failed && a.suppress then a else record p { wrote = true; rec = rec_write_header c p.rec }

unfoldable pub att_write : Text → AttemptWriter → AttemptWriter
unfolding promote rec_write
att_write b a =
    let p = promote a in
    if a.failed && a.suppress then a else record p { wrote = true; rec = rec_write b p.rec }

-- What the reverse proxy does with the response of an upstream.
pub data Call : Type 0 where
  adds_header : Text → Text → Call
  writes_header : ℕ → Call
  writes : Text → Call

unfoldable pub perform : List Call → AttemptWriter → AttemptWriter
unfolding on_header att_write_header att_write add_header
perform [] a = a
perform (adds_header k v ∷ cs) a = perform cs (on_header (add_header k v) a)
perform (writes_header c ∷ cs) a = perform cs (att_write_header c a)
perform (writes b ∷ cs) a = perform cs (att_write b a)
