-- ===== src/Gateway/Manager/Removal.antt =====
-- What evictions and Stop's second section keep of the fleet's invariant.
use gpu_platform_control_pla.Base.{
  ◌≡◌, refl, inl, inr, false, not, ◌&&◌, List, [], ◌∷◌, some, arith, Bool-cases, Option-cases,
  &&_true,
}
use gpu_platform_control_pla.Base.Text.{Text, text_eq, text_eq_iff}
use gpu_platform_control_pla.Base.Maps.{Map, lookup, erase, lookup-erase}
use gpu_platform_control_pla.Base.Int.{ℤ}
use gpu_platform_control_pla.Base.Float.{Float}
use gpu_platform_control_pla.Gateway.Types.{BackendRef}
use gpu_platform_control_pla.Gateway.Scraper.{BackendScraper, Gauges, labels3}
use gpu_platform_control_pla.Gateway.Manager.{
  ScraperManager, delete_backend_gauges, take_all, evict, routed_after, sweep_keys,
}
use gpu_platform_control_pla.Gateway.Manager.Fleet.{Departure, Fleet, stop_empties}
use gpu_platform_control_pla.Gateway.Manager.States.{Owner, Inv}

pub taken_keeps :
    (key k : Text) (m : ScraperManager) {s : BackendScraper}
    → lookup k (erase key m.scrapers) ≡ some s
    → (lookup k m.scrapers ≡ some s) × (text_eq key k ≡ false)
taken_keeps key k m h = ground (arith, lookup-erase key k m.scrapers)

pub deleted-was :
    (ref : BackendRef) (g : Gauges) (l : Text) {x : Float}
    → lookup l (delete_backend_gauges ref g).guard_engaged ≡ some x
    → (lookup l g.guard_engaged ≡ some x) × (text_eq (labels3 ref) l ≡ false)
unfolding delete_backend_gauges
deleted-was ref g l h = ground (arith, lookup-erase (labels3 ref) l g.guard_engaged)

-- An owner under another label outlives the scraper under a key.
erased-Owner :
    (key : Text) (s : BackendScraper) (ss : Map BackendScraper) (ds : Map Departure) (l : Text)
    → lookup key ss ≡ some s
    → text_eq (labels3 s.ref) l ≡ false
    → Owner ss ds l
    → Owner (erase key ss) ds l
erased-Owner key s ss ds l found other (inl (k, t, e, label)) = inl (
  k,
  t,
  ground (arith, lookup-erase key k ss, text_eq_iff key k, text_eq_iff (labels3 s.ref) l),
  label,
)
erased-Owner key s ss ds l found other (inr d) = inr d

evict-Inv :
    (key : Text) (s : BackendScraper) (f : Fleet)
    → lookup key f.manager.scrapers ≡ some s
    → Inv f
    → Inv (record f { manager = evict key s f.manager })
unfolding evict
evict-Inv key s f found v = record {
  filed = λ k t h. v.filed k t (taken_keeps key k f.manager h).0;
  routed = λ k t h.
      let (was, other) = taken_keeps key k f.manager h in
      let (at, e) = v.routed k t was in
      (at, ground (arith, lookup-erase key k f.manager.last_routed));
  departing = v.departing;
  closed = λ h. (
    (v.closed h).0,
    (λ k. ground (arith, lookup-erase key k f.manager.scrapers, (v.closed h).1 k)),
  );
  untaken = v.untaken;
  gauged = λ h l x e.
      let (was, other) = deleted-was s.ref f.manager.gauges l e in
      erased-Owner key s f.manager.scrapers f.departures l found other (v.gauged h l x was);
}

pub sweep_keys-Inv :
    (cutoff : ℤ) (js : List Text) (f : Fleet)
    → Inv f
    → Inv (record f { manager = sweep_keys cutoff js f.manager })
unfolding sweep_keys
sweep_keys-Inv cutoff [] f v = v
sweep_keys-Inv cutoff (j ∷ js) f v = elim (Option-cases (lookup j f.manager.scrapers)) [
  | inl e ↦ rw e (sweep_keys-Inv cutoff js f v)
  | inr (s, e) ↦ elim (Bool-cases (routed_after cutoff f.manager.last_routed j)) [
    | inl kept ↦ rw e (rw kept (sweep_keys-Inv cutoff js f v))
    | inr idle ↦ rw e (
        rw idle (
          sweep_keys-Inv cutoff js (record f { manager = evict j s f.manager })
            (evict-Inv j s f e v)))
  ]
]

pub stop_empties-Inv : (f : Fleet) → Inv f → Inv (stop_empties f)
unfolding stop_empties take_all lookup
stop_empties-Inv f v = elim (Bool-cases (f.manager.stopped && not f.emptied)) [
  | inr e ↦ rw (e, stop_empties) v
  | inl e ↦
      rw (e, stop_empties)
        (record {
          filed = λ k s h. absurd (cc);
          routed = λ k s h. absurd (cc);
          departing = v.departing;
          closed = λ h. ((&&_true f.manager.stopped (not f.emptied) e).0, (λ k. refl));
          untaken = λ h. absurd (cc);
          gauged = λ h. absurd (cc);
        })
]
