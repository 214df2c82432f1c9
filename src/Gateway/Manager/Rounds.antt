-- ===== src/Gateway/Manager/Rounds.antt =====
-- What the scrapers' rounds keep of the fleet's invariant.
use gpu_platform_control_pla.Base.{
  ◌≡◌, refl, sym, ◌∙◌, ap, ◌⊎◌, inl, inr, Bool, true, some, arith, Bool-cases, Option-cases,
}
use gpu_platform_control_pla.Base.Text.{Text, text_eq, text_eq_iff, text_eq_refl}
use gpu_platform_control_pla.Base.Maps.{Map, lookup, insert, lookup-insert}
use gpu_platform_control_pla.Base.Int.{ℤ}
use gpu_platform_control_pla.Base.Results.{Result, ok, err}
use gpu_platform_control_pla.Base.Float.{Float}
use gpu_platform_control_pla.Gateway.Exposition.{KvSample, ScrapeError}
use gpu_platform_control_pla.Gateway.Pressure.{observe}
use gpu_platform_control_pla.Base.Clock.{Time}
use gpu_platform_control_pla.Gateway.Scraper.{
  BackendScraper, Gauges, ScrapeOutcome, labels3, scrape, finish_tick, tick, bool_to_float,
  ready_state,
}
use gpu_platform_control_pla.Gateway.Manager.{ScraperManager, tick_for}
use gpu_platform_control_pla.Gateway.Manager.Fleet.{Departure, Fleet, tick_departing, tick_closing}
use gpu_platform_control_pla.Gateway.Manager.Departures.{departed-Owner, departing_insert}
use gpu_platform_control_pla.Gateway.Manager.States.{Owner, Inv}

finish_tick-ref :
    (s : BackendScraper) (g : Gauges) (r : Result ScrapeError KvSample) (now : Time)
    → (finish_tick s g r now).0.ref ≡ s.ref
unfolding finish_tick
finish_tick-ref s g (err e) now = refl
finish_tick-ref s g (ok sample) now = refl

finish_tick-guard_engaged :
    (s : BackendScraper) (g : Gauges) (r : Result ScrapeError KvSample) (now : Time) (l : Text)
    {x : Float}
    → lookup l (finish_tick s g r now).1.guard_engaged ≡ some x
    → (labels3 s.ref ≡ l) ⊎ ((y : Float) × (lookup l g.guard_engaged ≡ some y))
unfolding finish_tick
finish_tick-guard_engaged s g (err e) now l h = ground (
  arith,
  text_eq_iff (labels3 s.ref) l,
  lookup-insert (labels3 s.ref) l (bool_to_float s.state.engaged) g.guard_engaged,
)
finish_tick-guard_engaged s g (ok sample) now l h = ground (
  arith,
  text_eq_iff (labels3 s.ref) l,
  lookup-insert (labels3 s.ref) l (bool_to_float (observe (ready_state s now) sample now).engaged)
      g.guard_engaged,
)

-- An owner outlives a round of the scraper under a key, which stays the same backend's.
moved-Owner :
    (key : Text) (s s' : BackendScraper) (ss : Map BackendScraper) (ds : Map Departure) (l : Text)
    → lookup key ss ≡ some s
    → s'.ref ≡ s.ref
    → Owner ss ds l
    → Owner (insert key s' ss) ds l
moved-Owner key s s' ss ds l found same (inr d) = inr d
moved-Owner key s s' ss ds l found same (inl (k, t, e, label)) = elim (Bool-cases (text_eq key k)) [
  | inl hit ↦ inl (
    k,
    s',
    ground (arith, lookup-insert key k s' ss),
    ground (arith, text_eq_iff key k, same, label, e, found),
  )
  | inr miss ↦ inl (k, t, ground (arith, lookup-insert key k s' ss), label)
]

-- A round of the map's scraper under a key.
ticked-Inv :
    (f : Fleet) (key : Text) (s : BackendScraper) (r : Result ScrapeError KvSample) (now : Time)
    → lookup key f.manager.scrapers ≡ some s
    → Inv f
    → let after = finish_tick s f.manager.gauges r now in
      Inv (record f {
        manager = record (f.manager) {
          scrapers = insert key after.0 f.manager.scrapers;
          gauges = after.1;
        };
      })
ticked-Inv f key s r now found v = record {
  filed = λ k t h. ground (
    arith,
    lookup-insert key k next.0 m.scrapers,
    text_eq_iff key k,
    same,
    v.filed key s found,
    v.filed k t,
  );
  routed = λ k t h. ground (
    arith,
    lookup-insert key k next.0 m.scrapers,
    text_eq_iff key k,
    v.routed key s found,
    v.routed k t,
  );
  departing = v.departing;
  closed = λ h. let none_there = (v.closed h).1 key in absurd (cc);
  untaken = v.untaken;
  gauged = λ h l x e. elim (finish_tick-guard_engaged s m.gauges r now l e) [
    | inl mine ↦ inl (
      key,
      next.0,
      ground (arith, lookup-insert key key next.0 m.scrapers, text_eq_refl key),
      ap labels3 same ∙ mine,
    )
    | inr (y, old) ↦
        moved-Owner key s next.0 m.scrapers f.departures l found same (v.gauged h l y old)
  ];
}
  where
    m : ScraperManager
    m = f.manager

    next : BackendScraper × Gauges
    next = finish_tick s m.gauges r now

    same : next.0.ref ≡ s.ref
    same = finish_tick-ref s m.gauges r now

pub tick_for-Inv :
    (wild : ℤ) (f : Fleet) (key : Text) (o : ScrapeOutcome) (now : Time)
    → Inv f
    → Inv (record f { manager = tick_for wild f.manager key o now })
unfolding tick_for
tick_for-Inv wild f key o now v = elim (Option-cases (lookup key f.manager.scrapers)) [
  | inl e ↦ rw (e, tick_for) v
  | inr (s, e) ↦ rw (e, tick_for) (unfold tick in ticked-Inv f key s (scrape wild o) now e v)
]

-- A round of a scraper that an Unregister waits for.
departing_ticked-Inv :
    (f : Fleet) (call : Text) (d : Departure) (runs : Bool) (r : Result ScrapeError KvSample)
    (now : Time)
    → lookup call f.departures ≡ some d
    → Inv f
    → let after = finish_tick d.scraper f.manager.gauges r now in
      Inv (record f {
        manager = record (f.manager) { gauges = after.1 };
        departures = insert call (record d { scraper = after.0; running = runs }) f.departures;
      })
departing_ticked-Inv f call d runs r now found v = record {
  filed = v.filed;
  routed = v.routed;
  departing = λ c q h.
      departing_insert call d' f.departures (ap labels3 same ∙ v.departing call d found) c q h
        (v.departing c q);
  closed = v.closed;
  untaken = v.untaken;
  gauged = λ h l x e. elim (finish_tick-guard_engaged d.scraper m.gauges r now l e) [
    | inl mine ↦ inr (
      call,
      d',
      ground (arith, lookup-insert call call d' f.departures, text_eq_refl call),
      ap labels3 same ∙ mine,
    )
    | inr (y, old) ↦
        departed-Owner call d' m.scrapers f.departures l
          (λ o k.
            let is : o ≡ d = ground arith in
            ap labels3 same ∙ ap (λ x. labels3 x.scraper.ref) (sym is))
          (v.gauged h l y old)
  ];
}
  where
    m : ScraperManager
    m = f.manager

    next : BackendScraper × Gauges
    next = finish_tick d.scraper m.gauges r now

    d' : Departure
    d' = record d { scraper = next.0; running = runs }

    same : next.0.ref ≡ d.scraper.ref
    same = finish_tick-ref d.scraper m.gauges r now

pub tick_departing-Inv :
    (wild : ℤ) (call : Text) (o : ScrapeOutcome) (now : Time) (f : Fleet)
    → Inv f
    → Inv (tick_departing wild call o now f)
unfolding tick_departing
tick_departing-Inv wild call o now f v = elim (Option-cases (lookup call f.departures)) [
  | inl e ↦ rw (e, tick_departing) v
  | inr (d, e) ↦ elim (Bool-cases d.running) [
    | inr gone ↦ rw (e, tick_departing) (rw gone v)
    | inl runs ↦
        rw (e, tick_departing)
          (rw runs (unfold tick in departing_ticked-Inv f call d true (scrape wild o) now e v))
  ]
]

-- A round of a scraper that Stop has taken: the map is empty by then.
pub tick_closing-Inv :
    (wild : ℤ) (key : Text) (o : ScrapeOutcome) (now : Time) (f : Fleet)
    → Inv f
    → Inv (tick_closing wild key o now f)
unfolding tick_closing
tick_closing-Inv wild key o now f v = elim (Option-cases (lookup key f.closing)) [
  | inl e ↦ rw (e, tick_closing) v
  | inr (s, e) ↦
      rw (e, tick_closing)
        (record {
          filed = v.filed;
          routed = v.routed;
          departing = v.departing;
          closed = v.closed;
          untaken = λ h. let none_yet = v.untaken h key in absurd (cc);
          gauged = λ h. let none_yet = v.untaken h key in absurd (cc);
        })
]
