-- ===== src/Gateway/Manager/Departures.antt =====
-- What the sections of Unregister and of an eviction keep of the fleet's invariant.
use gpu_platform_control_pla.Base.{
  ◌≡◌, refl, sym, ap, ◌∙◌, inl, inr, true, false, none, some, arith, Bool-cases, Option-cases,
}
use gpu_platform_control_pla.Base.Text.{Text, text_eq, text_eq_iff, text_eq_refl}
use gpu_platform_control_pla.Base.Maps.{Map, lookup, insert, erase, lookup-insert, lookup-erase}
use gpu_platform_control_pla.Base.Clock.{Time}
use gpu_platform_control_pla.Gateway.Types.{BackendRef, backend_key}
use gpu_platform_control_pla.Gateway.Scraper.{BackendScraper, labels3}
use gpu_platform_control_pla.Gateway.Manager.{
  cutoff_at, routed_after, delete_backend_gauges, take_key,
}
use gpu_platform_control_pla.Gateway.Manager.Fleet.{
  Departure, Fleet, sweep_takes, unregister_takes, unregister_waits, unregister_ends,
}
use gpu_platform_control_pla.Gateway.Manager.Removal.{taken_keeps, deleted-was}
use gpu_platform_control_pla.Gateway.Manager.States.{Owner, Inv}

-- A departure that is new, or that replaces one with the same labels, takes no owner.
pub departed-Owner :
    (call : Text) (d' : Departure) (ss : Map BackendScraper) (ds : Map Departure) (l : Text)
    → ((d : Departure) → lookup call ds ≡ some d → labels3 d'.scraper.ref ≡ labels3 d.scraper.ref)
    → Owner ss ds l
    → Owner ss (insert call d' ds) l
departed-Owner call d' ss ds l same (inl k) = inl k
departed-Owner call d' ss ds l same (inr (c, d, e, label)) = elim (Bool-cases (text_eq call c)) [
  | inl hit ↦ inr (
    c,
    d',
    ground (arith, lookup-insert call c d' ds),
    same d (ground (arith, text_eq_iff call c)) ∙ label,
  )
  | inr miss ↦ inr (c, d, ground (arith, lookup-insert call c d' ds), label)
]

-- The owner of a gauge once its scraper is taken: the call that took it.
taken-Owner :
    (call key : Text) (d' : Departure) (ss : Map BackendScraper) (ds : Map Departure) (l : Text)
    → lookup call ds ≡ none
    → lookup key ss ≡ some d'.scraper
    → Owner ss ds l
    → Owner (erase key ss) (insert call d' ds) l
taken-Owner call key d' ss ds l fresh found (inl (k, t, e, label)) =
    elim (Bool-cases (text_eq key k)) [
      | inl same ↦
          let t_is : t ≡ d'.scraper = ground (arith, text_eq_iff key k) in
          inr (
            call,
            d',
            ground (arith, lookup-insert call call d' ds, text_eq_refl call),
            sym (ap (λ x. labels3 x.ref) t_is) ∙ label,
          )
      | inr other ↦ inl (k, t, ground (arith, lookup-erase key k ss), label)
    ]
taken-Owner call key d' ss ds l fresh found (inr o) =
    let (c, d, e, label) = o in
    inr (c, d, ground (arith, lookup-insert call c d' ds, text_eq_iff call c), label)

pub departing_insert :
    (call : Text) (d' : Departure) (ds : Map Departure)
    → labels3 d'.scraper.ref ≡ labels3 d'.backend
    → (c : Text) (d : Departure) → lookup c (insert call d' ds) ≡ some d
    → (lookup c ds ≡ some d → labels3 d.scraper.ref ≡ labels3 d.backend)
    → labels3 d.scraper.ref ≡ labels3 d.backend
departing_insert call d' ds same c d h before = ground (arith, lookup-insert call c d' ds)

-- Unregister past its unlock, and an eviction before s.Stop.
abbrev taken : Text → Text → BackendRef → BackendScraper → Fleet → Fleet
taken call key b s f = record f {
  manager = take_key key f.manager;
  departures = insert call (record { backend = b; scraper = s; running = true }) f.departures;
}

taken-Inv :
    (call key : Text) (b : BackendRef) (s : BackendScraper) (f : Fleet)
    → lookup call f.departures ≡ none
    → lookup key f.manager.scrapers ≡ some s
    → labels3 s.ref ≡ labels3 b
    → Inv f
    → Inv (taken call key b s f)
unfolding take_key
taken-Inv call key b s f fresh found same v =
    let d : Departure = record { backend = b; scraper = s; running = true } in
    record {
      filed = λ k t h. v.filed k t (taken_keeps key k f.manager h).0;
      routed = λ k t h.
          let (was, other) = taken_keeps key k f.manager h in
          let (at, q) = v.routed k t was in
          (at, ground (arith, lookup-erase key k f.manager.last_routed));
      departing = λ c e h. departing_insert call d f.departures same c e h (v.departing c e);
      closed = λ h. let none_there = (v.closed h).1 key in absurd (cc);
      untaken = v.untaken;
      gauged = λ h l x g.
          taken-Owner call key d f.manager.scrapers f.departures l fresh found (v.gauged h l x g);
    }

pub unregister_takes-Inv :
    (call : Text) (b : BackendRef) (f : Fleet)
    → lookup call f.departures ≡ none
    → ((s : BackendScraper)
        → lookup (backend_key b) f.manager.scrapers ≡ some s
        → labels3 s.ref ≡ labels3 b)
    → Inv f
    → Inv (unregister_takes call b f)
unfolding unregister_takes
unregister_takes-Inv call b f fresh same v =
    elim (Option-cases (lookup (backend_key b) f.manager.scrapers)) [
      | inl e ↦ rw (e, unregister_takes) v
      | inr (s, e) ↦
          rw (e, unregister_takes) (taken-Inv call (backend_key b) b s f fresh e (same s e) v)
    ]

pub sweep_takes-Inv :
    (call key : Text) (now : Time) (f : Fleet)
    → lookup call f.departures ≡ none
    → Inv f
    → Inv (sweep_takes call key now f)
unfolding sweep_takes
sweep_takes-Inv call key now f fresh v = elim (Option-cases (lookup key f.manager.scrapers)) [
  | inl e ↦ rw (e, sweep_takes) v
  | inr (s, e) ↦
      elim (Bool-cases (routed_after (cutoff_at f.manager.cfg now) f.manager.last_routed key)) [
        | inl kept ↦ rw (e, sweep_takes) (rw kept v)
        | inr idle ↦ rw (e, sweep_takes) (rw idle (taken-Inv call key s.ref s f fresh e refl v))
      ]
]

pub unregister_waits-Inv : (call : Text) (f : Fleet) → Inv f → Inv (unregister_waits call f)
unfolding unregister_waits
unregister_waits-Inv call f v = elim (Option-cases (lookup call f.departures)) [
  | inl e ↦ rw (e, unregister_waits) v
  | inr (d, e) ↦
      let d' : Departure = record d { running = false } in
      rw (e, unregister_waits)
        (record {
          filed = v.filed;
          routed = v.routed;
          departing = λ c q h.
              departing_insert call d' f.departures (v.departing call d e) c q h (v.departing c q);
          closed = v.closed;
          untaken = v.untaken;
          gauged = λ h l x g.
              departed-Owner call d' f.manager.scrapers f.departures l
                (λ o k.
                  let same : o ≡ d = ground arith in ap (λ x. labels3 x.scraper.ref) (sym same))
                (v.gauged h l x g);
        })
]

-- The gauges of a departure go with it.
ended-Owner :
    (call : Text) (d : Departure) (ss : Map BackendScraper) (ds : Map Departure) (l : Text)
    → lookup call ds ≡ some d
    → text_eq (labels3 d.scraper.ref) l ≡ false
    → Owner ss ds l
    → Owner ss (erase call ds) l
ended-Owner call d ss ds l found other (inl k) = inl k
ended-Owner call d ss ds l found other (inr (c, o, e, label)) = inr (
  c,
  o,
  ground (arith, lookup-erase call c ds, text_eq_iff call c, text_eq_iff (labels3 d.scraper.ref) l),
  label,
)

ended-Inv :
    (call : Text) (d : Departure) (f : Fleet)
    → lookup call f.departures ≡ some d
    → Inv f
    → Inv (record f {
      manager = record (f.manager) { gauges = delete_backend_gauges d.backend f.manager.gauges };
      departures = erase call f.departures;
    })
ended-Inv call d f found v = record {
  filed = v.filed;
  routed = v.routed;
  departing = λ c e h. v.departing c e (ground (arith, lookup-erase call c f.departures));
  closed = v.closed;
  untaken = v.untaken;
  gauged = λ h l x g.
      let (was, other) = deleted-was d.backend f.manager.gauges l g in
      ended-Owner call d f.manager.scrapers f.departures l found
        (ap (λ k. text_eq k l) (v.departing call d found) ∙ other) (v.gauged h l x was);
}

pub unregister_ends-Inv : (call : Text) (f : Fleet) → Inv f → Inv (unregister_ends call f)
unfolding unregister_ends
unregister_ends-Inv call f v = elim (Option-cases (lookup call f.departures)) [
  | inl e ↦ rw (e, unregister_ends) v
  | inr (d, e) ↦ elim (Bool-cases d.running) [
    | inl runs ↦ rw (e, unregister_ends) (rw runs v)
    | inr gone ↦ rw (e, unregister_ends) (rw gone (ended-Inv call d f e v))
  ]
]
