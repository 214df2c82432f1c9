-- ===== src/Gateway/Manager/Invariant.antt =====
-- The fleet under every interleaving of its steps.
use gpu_platform_control_pla.Base.{◌≡◌, refl, sym, ◌∙◌, ap, inl, inr, some, arith}
use gpu_platform_control_pla.Base.Text.{Text, text_eq_iff}
use gpu_platform_control_pla.Base.Maps.{lookup, keys, lookup-erase}
use gpu_platform_control_pla.Gateway.Manager.Sweep.{register-scrapers, register-last_routed}
use gpu_platform_control_pla.Base.Clock.{Time}
use gpu_platform_control_pla.Gateway.Types.{BackendRef, backend_key}
use gpu_platform_control_pla.Gateway.Scraper.{ScraperConfig, BackendScraper, new_backend_scraper}
use gpu_platform_control_pla.Gateway.Manager.{
  ScraperManager, new_scraper_manager, register, sweep, cutoff_at, mark_stopped,
}
use gpu_platform_control_pla.Gateway.Manager.Fleet.{Fleet, new_fleet, stop_marks, stop_waits}
use gpu_platform_control_pla.Gateway.Manager.Removal.{stop_empties-Inv, sweep_keys-Inv}
use gpu_platform_control_pla.Gateway.Manager.Departures.{
  sweep_takes-Inv, unregister_takes-Inv, unregister_waits-Inv, unregister_ends-Inv,
}
use gpu_platform_control_pla.Gateway.Manager.Rounds.{
  tick_for-Inv, tick_departing-Inv, tick_closing-Inv,
}
use gpu_platform_control_pla.Gateway.Manager.States.{
  Step, Reach, Inv, registered, swept, sweep_took, ticked, unregister_took, unregister_waited,
  unregister_ended, departing_ticked, stop_marked, stop_emptied, stop_waited, closing_ticked, here,
  next,
}

new_ref : (b : BackendRef) (c : ScraperConfig) → (new_backend_scraper b c).ref ≡ b
unfolding new_backend_scraper
new_ref b c = refl

register-rest :
    (m : ScraperManager) (b : BackendRef) (now : Time)
    → ((register m b now).stopped ≡ m.stopped) × ((register m b now).gauges ≡ m.gauges)
unfolding register
register-rest m b now = ground arith

-- Register keeps every scraper that runs.
register_keeps :
    (m : ScraperManager) (b : BackendRef) (now : Time) (k : Text) {s : BackendScraper}
    → lookup k m.scrapers ≡ some s
    → lookup k (register m b now).scrapers ≡ some s
register_keeps m b now k h = ground (arith, register-scrapers m b now k)

register-Inv :
    (f : Fleet) (b : BackendRef) (now : Time)
    → Inv f
    → Inv (record f { manager = register f.manager b now })
register-Inv f b now v =
    let m : ScraperManager = f.manager in
    record {
      filed = λ k s h. ground (
        arith,
        register-scrapers m b now k,
        text_eq_iff (backend_key b) k,
        new_ref b m.cfg,
        v.filed k s,
      );
      routed = λ k s h.
          ground (arith, register-scrapers m b now k, register-last_routed m b now k, v.routed k s);
      departing = v.departing;
      closed = λ h. (
        (register-rest m b now).0 ∙ (v.closed h).0,
        (λ k.
            let (on, empty) = v.closed h in
            let there = empty k in ground (arith, register-scrapers m b now k)),
      );
      untaken = v.untaken;
      gauged = λ h l x e.
          elim (v.gauged h l x
            (ap (λ g. lookup l g.guard_engaged) (sym (register-rest m b now).1) ∙ e)) [
              | inl (k, s, found, label) ↦ inl (k, s, register_keeps m b now k found, label)
              | inr d ↦ inr d
            ];
    }

new-Inv : (cfg : ScraperConfig) → Inv (new_fleet cfg)
unfolding new_fleet new_scraper_manager lookup
new-Inv cfg = record {
  filed = λ k s h. absurd (cc);
  routed = λ k s h. absurd (cc);
  departing = λ c d h. absurd (cc);
  closed = λ h. absurd (cc);
  untaken = λ h k. refl;
  gauged = λ h l x e. absurd (cc);
}

stop_marks-Inv : (f : Fleet) → Inv f → Inv (stop_marks f)
unfolding stop_marks mark_stopped
stop_marks-Inv f v = record {
  filed = v.filed;
  routed = v.routed;
  departing = v.departing;
  closed = λ h. (refl, (v.closed h).1);
  untaken = v.untaken;
  gauged = v.gauged;
}

stop_waits-Inv : (key : Text) (f : Fleet) → Inv f → Inv (stop_waits key f)
unfolding stop_waits
stop_waits-Inv key f v = record {
  filed = v.filed;
  routed = v.routed;
  departing = v.departing;
  closed = v.closed;
  untaken = λ h k. let was = v.untaken h k in ground (arith, lookup-erase key k f.closing);
  gauged = v.gauged;
}

Step-Inv : {f g : Fleet} → Step f g → Inv f → Inv g
Step-Inv {f} (registered b now) v = register-Inv f b now v
Step-Inv {f} (swept now) v =
    unfold sweep in sweep_keys-Inv (cutoff_at f.manager.cfg now) (keys f.manager.scrapers) f v
Step-Inv {f} (sweep_took call key now fresh) v = sweep_takes-Inv call key now f fresh v
Step-Inv {f} (ticked wild key o now) v = tick_for-Inv wild f key o now v
Step-Inv {f} (unregister_took call b fresh same) v = unregister_takes-Inv call b f fresh same v
Step-Inv {f} (unregister_waited call) v = unregister_waits-Inv call f v
Step-Inv {f} (unregister_ended call) v = unregister_ends-Inv call f v
Step-Inv {f} (departing_ticked wild call o now) v = tick_departing-Inv wild call o now f v
Step-Inv {f} stop_marked v = stop_marks-Inv f v
Step-Inv {f} stop_emptied v = stop_empties-Inv f v
Step-Inv {f} (stop_waited key) v = stop_waits-Inv key f v
Step-Inv {f} (closing_ticked wild key o now) v = tick_closing-Inv wild key o now f v

Reach-Inv : {f g : Fleet} → Inv f → Reach f g → Inv g
Reach-Inv v here = v
Reach-Inv v (next r s) = Step-Inv s (Reach-Inv v r)

-- Whatever the request path, the scrapers, the janitor, calls of Unregister and the shutdown do, their
-- sections in any order: a scraper in the map is filed under its own backend's key, and its backend has
-- been routed to; once Stop has emptied the map, the manager is stopped and no scraper enters the map;
-- until then Stop has taken none, and every pressure gauge shown belongs to a scraper in the map, or to
-- one that an Unregister or a sweep has taken and whose gauges it is still to delete. Each call of
-- Unregister is given the backend that the scraper was started for, up to the address.
pub new-Reach-Inv : (cfg : ScraperConfig) {f : Fleet} → Reach (new_fleet cfg) f → Inv f
new-Reach-Inv cfg r = Reach-Inv (new-Inv cfg) r
