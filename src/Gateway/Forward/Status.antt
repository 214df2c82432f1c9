-- ===== src/Gateway/Forward/Status.antt =====
-- The status line of a forwarded request.
use gpu_platform_control_pla.Base.{
  ℕ, ◌≡◌, refl, sym, ◌∙◌, ap, subst, ◌⊎◌, inl, inr, true, false, List, [], ◌∷◌, none, some,
  if◌then◌else◌, arith, Bool-cases, Option-cases, All,
}
use gpu_platform_control_pla.Base.Text.{Text, text}
use gpu_platform_control_pla.Gateway.Writer.{
  Headers, set_header, add_header, is_informational, client_write_header, client_write,
  StatusRecorder, rec_write_header, rec_write, AttemptWriter, on_header, promote, att_write_header,
  att_write, Call, adds_header, writes_header, writes, perform, copy_headers,
}
use gpu_platform_control_pla.Gateway.Forward.{
  RoundTripError, Outcome, answered, broke, Attempt, failure_code, write_json_error, json_error,
  error_code, public_upstream_message, serve, attempt_writer, attempt, call_back, try_from,
  try_backends, cap_backend_attempts,
}
use gpu_platform_control_pla.Gateway.Forward.Attempts.{Outcome-cases, attempt-broke}
use gpu_platform_control_pla.Gateway.Forward.Replay.{stops, try-next, try-stop}

-- After the final status: the body and the trailers.
abbrev pub IsTail : List Call → Type 0
IsTail [] = Unit
IsTail (adds_header k v ∷ cs) = IsTail cs
IsTail (writes_header c ∷ cs) = true ≡ false
IsTail (writes b ∷ cs) = IsTail cs

-- The calls of the reverse proxy for a response: headers and informational statuses, one final
-- status, then the tail.
abbrev pub IsResponse : List Call → Type 0
IsResponse [] = true ≡ false
IsResponse (adds_header k v ∷ cs) = IsResponse cs
IsResponse (writes_header c ∷ cs) = if is_informational c then IsResponse cs else IsTail cs
IsResponse (writes b ∷ cs) = true ≡ false

abbrev pub IsProper : Outcome → Type 0
IsProper (answered cut cs) = IsResponse cs
IsProper (broke e) = Unit

-- The client has a status line, and the recorder has that status.
pub record IsTold (r : StatusRecorder) : Type 0 where
  pub status : ℕ
  pub headers : Headers
  pub sent : r.client.sent ≡ some (status, headers)
  pub code : r.code ≡ status
  pub answered : r.answered ≡ true

on_header-IsTold :
    (f : Headers → Headers) (a : AttemptWriter) → IsTold a.rec → IsTold (on_header f a).rec
unfolding on_header
on_header-IsTold f a t = elim (Bool-cases a.wrote) [
  | inl e ↦ rw (e) (record {
    status = t.status;
    headers = t.headers;
    sent = t.sent;
    code = t.code;
    answered = t.answered;
  })
  | inr e ↦ rw (e) t
]

promote-IsTold : (a : AttemptWriter) → IsTold a.rec → IsTold (promote a).rec
unfolding promote
promote-IsTold a t = elim (Option-cases a.scratch) [
  | inl e ↦ rw (e) t
  | inr (h, e) ↦ rw (e) (record {
    status = t.status;
    headers = t.headers;
    sent = t.sent;
    code = t.code;
    answered = t.answered;
  })
]

rec_write-IsTold : (b : Text) (r : StatusRecorder) → IsTold r → IsTold (rec_write b r)
unfolding rec_write client_write client_write_header
rec_write-IsTold b r t = record {
  status = t.status;
  headers = t.headers;
  sent = rw (client_write_header, t.sent) t.sent;
  code = t.code;
  answered = refl;
}

att_write-rec :
    (b : Text) (a : AttemptWriter)
    → a.failed ≡ false
    → (att_write b a).rec ≡ rec_write b (promote a).rec
unfolding att_write
att_write-rec b a g = simp (g)

att_write_header-rec :
    (c : ℕ) (a : AttemptWriter)
    → a.failed ≡ false
    → (att_write_header c a).rec ≡ rec_write_header c (promote a).rec
unfolding att_write_header
att_write_header-rec c a g = simp (g)

att_write-IsTold :
    (b : Text) (a : AttemptWriter) → a.failed ≡ false → IsTold a.rec → IsTold (att_write b a).rec
att_write-IsTold b a g t =
    subst IsTold (sym (att_write-rec b a g))
      (rec_write-IsTold b (promote a).rec (promote-IsTold a t))

on_header-failed : (f : Headers → Headers) (a : AttemptWriter) → (on_header f a).failed ≡ a.failed
unfolding on_header
on_header-failed f a = ground arith

promote-failed : (a : AttemptWriter) → (promote a).failed ≡ a.failed
unfolding promote
promote-failed a = ground arith

att_write-failed : (b : Text) (a : AttemptWriter) → (att_write b a).failed ≡ a.failed
unfolding att_write promote
att_write-failed b a = ground arith

att_write_header-failed : (c : ℕ) (a : AttemptWriter) → (att_write_header c a).failed ≡ a.failed
unfolding att_write_header promote
att_write_header-failed c a = ground arith

-- The tail of a response changes neither.
tail-IsTold :
    (cs : List Call) (a : AttemptWriter)
    → IsTail cs
    → a.failed ≡ false
    → IsTold a.rec
    → IsTold (perform cs a).rec
unfolding perform
tail-IsTold [] a p g t = t
tail-IsTold (adds_header k v ∷ cs) a p g t =
    tail-IsTold cs (on_header (add_header k v) a) p (on_header-failed (add_header k v) a ∙ g)
      (on_header-IsTold (add_header k v) a t)
tail-IsTold (writes_header c ∷ cs) a p g t = absurd (cc)
tail-IsTold (writes b ∷ cs) a p g t =
    tail-IsTold cs (att_write b a) p (att_write-failed b a ∙ g) (att_write-IsTold b a g t)

on_header-sent :
    (f : Headers → Headers) (a : AttemptWriter)
    → (on_header f a).rec.client.sent ≡ a.rec.client.sent
unfolding on_header
on_header-sent f a = ground arith

promote-sent : (a : AttemptWriter) → (promote a).rec.client.sent ≡ a.rec.client.sent
unfolding promote
promote-sent a = ground arith

informs :
    (c : ℕ) (a : AttemptWriter)
    → is_informational c ≡ true
    → a.failed ≡ false
    → a.rec.client.sent ≡ none
    → (att_write_header c a).rec.client.sent ≡ none
unfolding rec_write_header
informs c a i g n =
    let m : (promote a).rec.client.sent ≡ none = promote-sent a ∙ n in
    ap (λ r. r.client.sent) (att_write_header-rec c a g) ∙ rw (client_write_header, m, i) m

tells_rec :
    (c : ℕ) (r : StatusRecorder)
    → is_informational c ≡ false
    → r.client.sent ≡ none
    → IsTold (rec_write_header c r)
unfolding rec_write_header
tells_rec c r i n = record {
  status = c;
  headers = r.client.live;
  sent = rw (client_write_header, n, i) refl;
  code = refl;
  answered = refl;
}

tells :
    (c : ℕ) (a : AttemptWriter)
    → is_informational c ≡ false
    → a.failed ≡ false
    → a.rec.client.sent ≡ none
    → IsTold (att_write_header c a).rec
tells c a i g n =
    subst IsTold (sym (att_write_header-rec c a g))
      (tells_rec c (promote a).rec i (promote-sent a ∙ n))

response-IsTold :
    (cs : List Call) (a : AttemptWriter)
    → IsResponse cs
    → a.failed ≡ false
    → a.rec.client.sent ≡ none
    → IsTold (perform cs a).rec
unfolding perform
response-IsTold [] a p g n = absurd (cc)
response-IsTold (adds_header k v ∷ cs) a p g n =
    response-IsTold cs (on_header (add_header k v) a) p (on_header-failed (add_header k v) a ∙ g)
      (on_header-sent (add_header k v) a ∙ n)
response-IsTold (writes b ∷ cs) a p g n = absurd (cc)
response-IsTold (writes_header c ∷ cs) a p g n = elim (Bool-cases (is_informational c)) [
  | inl i ↦
      let q : IsResponse cs = subst (λ k. if k then IsResponse cs else IsTail cs) i p in
      response-IsTold cs (att_write_header c a) q (att_write_header-failed c a ∙ g)
        (informs c a i g n)
  | inr i ↦
      let q : IsTail cs = subst (λ k. if k then IsResponse cs else IsTail cs) i p in
      tail-IsTold cs (att_write_header c a) q (att_write_header-failed c a ∙ g) (tells c a i g n)
]

failure_is_final : (e : RoundTripError) → is_informational (failure_code e) ≡ false
unfolding failure_code
failure_is_final e = elim (Bool-cases e.is_timeout) [ inl t ↦ rw (t) refl | inr t ↦ rw (t) refl ]

-- A failure of the last attempt is told with its code.
failure-IsTold :
    (r : StatusRecorder) (e : RoundTripError)
    → r.client.sent ≡ none
    → IsTold (serve (broke e) (attempt_writer (call_back true (broke e) r) false)).rec
unfolding serve attempt_writer write_json_error on_header att_write_header att_write promote
failure-IsTold r e n =
    let code = failure_code e in
    let headers = set_header (text "Content-Type") (text "application/json") [] in
    let told : StatusRecorder = record r {
      client = record (r.client) { live = copy_headers headers r.client.live };
      code = code;
    } in
    rec_write-IsTold (json_error (error_code code) (public_upstream_message code))
      (rec_write_header code told) (tells_rec code told (failure_is_final e) n)

-- The last attempt always tells the client.
last-IsTold :
    (r : StatusRecorder) (a : Attempt)
    → IsProper a.outcome
    → r.client.sent ≡ none
    → IsTold (attempt r true a).rec
unfolding attempt attempt_writer serve
last-IsTold r a p n = elim (Outcome-cases a.outcome) [
  | inr (cut, cs, e) ↦
      let q : IsResponse cs = subst IsProper e p in
      subst (λ o. IsTold (serve o (attempt_writer (call_back true o r) false)).rec) (sym e)
        (response-IsTold cs (attempt_writer r false) q refl n)
  | inl (e, h) ↦
      subst (λ o. IsTold (serve o (attempt_writer (call_back true o r) false)).rec) (sym h)
        (failure-IsTold r e n)
]

-- An earlier attempt tells the client, or leaves the recorder as it was.
earlier-IsTold :
    (r : StatusRecorder) (a : Attempt)
    → IsProper a.outcome
    → r.client.sent ≡ none
    → IsTold (attempt r false a).rec ⊎ ((attempt r false a).rec.client.sent ≡ none)
unfolding attempt attempt_writer serve
earlier-IsTold r a p n = elim (Outcome-cases a.outcome) [
  | inl (e, h) ↦ inr (ap (λ x. x.client.sent) (attempt-broke r a e h).0 ∙ n)
  | inr (cut, cs, e) ↦
      let q : IsResponse cs = subst IsProper e p in
      inl (
        subst (λ o. IsTold (serve o (attempt_writer (call_back false o r) true)).rec) (sym e)
          (response-IsTold cs (attempt_writer r true) q refl n))
]

-- Whatever the attempts do, the client has a status line that the recorder knows, or none.
pub try_backends-IsTold :
    (r : StatusRecorder) (attempts : List Attempt)
    → All (λ a. IsProper a.outcome) attempts
    → r.client.sent ≡ none
    → IsTold (try_backends true r attempts).rec
      ⊎ ((try_backends true r attempts).rec.client.sent ≡ none)
unfolding try_backends try_from cap_backend_attempts
try_backends-IsTold r [] p n = inr n
try_backends-IsTold r (a ∷ []) (p, q) n = inl (last-IsTold r a p n)
try_backends-IsTold r (a ∷ (b ∷ rest)) (p, (q, k)) n = elim (Bool-cases (stops true r a)) [
  | inl s ↦
      subst (λ x. IsTold x ⊎ (x.client.sent ≡ none)) (sym (try-stop true r a b rest s).0)
        (earlier-IsTold r a p n)
  | inr s ↦
      subst (λ x. IsTold x ⊎ (x.client.sent ≡ none)) (sym (try-next true r a b rest s).0)
        (inl (last-IsTold r b q n))
]
