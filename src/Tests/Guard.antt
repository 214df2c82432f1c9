-- ===== src/Tests/Guard.antt =====
-- The pressure guard's results at concrete values.
use gpu_platform_control_pla.Base.{
  ◌≡◌, refl, sym, ap, ◌↔◌, inl, true, false, [], ◌∷◌, ◌++◌, some, arith,
}
use gpu_platform_control_pla.Base.Text.{text, text_eq}
use gpu_platform_control_pla.Base.Maps.{lookup, insert}
use gpu_platform_control_pla.Base.Int.{pos, ◌≤ℤ◌}
use gpu_platform_control_pla.Base.Clock.{Time, since}
use gpu_platform_control_pla.Gateway.Types.{
  backend_key, standard, kv_cache_pressure, telemetry_stale,
}
use gpu_platform_control_pla.Gateway.Exposition.{transport_failed}
use gpu_platform_control_pla.Gateway.Pressure.{observed, run, step, PressureConfig}
use gpu_platform_control_pla.Gateway.Pressure.Thresholds.{IsOrdered}
use gpu_platform_control_pla.Gateway.Pressure.Engage.{IsOver, LastOver, engages_iff}
use gpu_platform_control_pla.Gateway.Pressure.Release.{releases_iff}
use gpu_platform_control_pla.Gateway.Pressure.Streaks.{Streak}
use gpu_platform_control_pla.Gateway.Pressure.Stuck.{engaged_for_good}
use gpu_platform_control_pla.Gateway.Scraper.{
  BackendScraper, BackendSnapshot, labels3, new_backend_scraper, no_response, scrape,
}
use gpu_platform_control_pla.Gateway.Manager.{
  new_scraper_manager, register, sweep, snapshot_for, tick_for,
}
use gpu_platform_control_pla.Gateway.Manager.Sweep.{register-survives_sweep}
use gpu_platform_control_pla.Gateway.Manager.Invariant.{new-Reach-Inv}
use gpu_platform_control_pla.Gateway.Manager.States.{
  here, next, registered, unregister_took, stop_marked, departing_ticked, unregister_waited,
  unregister_ended, stop_emptied, Inv,
}
use gpu_platform_control_pla.Gateway.Manager.Fleet.{
  Fleet, new_fleet, unregister_takes, unregister_waits, unregister_ends, tick_departing, stop_marks,
  stop_empties,
}
use gpu_platform_control_pla.Gateway.Admission.{kv_admit, admit_with}
use gpu_platform_control_pla.Gateway.Admission.Guard.{kv_refuses_iff, blind_admits}
use gpu_platform_control_pla.Tests.Data.{
  guard_cfg, high, low, spikes, scraper_cfg, head_backend, spare_backend, long_meta, manager,
  kv_arm,
}

guard_cfg-IsOrdered : IsOrdered guard_cfg
guard_cfg-IsOrdered = record { usage_ordered = refl; waiting_ordered = omega arith }

engages_iff_example :
    ((run guard_cfg spikes).engaged ≡ true)
    ↔ (IsOver guard_cfg (observed high 20) × LastOver guard_cfg (observed high 10 ∷ []))
engages_iff_example =
    engages_iff guard_cfg (observed high 10 ∷ []) (observed high 20) guard_cfg-IsOrdered
      (unfold run step in refl)

releases_iff_example :
    ((run guard_cfg (observed low 36 ∷ (observed low 30 ∷ spikes))).engaged ≡ false) ↔ (
      (u : Time) × Streak guard_cfg u (observed low 36 ∷ (observed low 30 ∷ spikes))
      × (pos 5 ≤ℤ since 36 u))
releases_iff_example =
    releases_iff guard_cfg (observed low 30 ∷ spikes) low 36 guard_cfg-IsOrdered
      (omega arith, (omega arith, (omega arith, tt))) (unfold run step in refl)

abbrev stuck_cfg : PressureConfig
stuck_cfg = record guard_cfg { waiting_thresh = pos 1 }

engaged_for_good_example :
    (run stuck_cfg ((observed low 90 ∷ (observed low 50 ∷ [])) ++ spikes)).engaged ≡ true
engaged_for_good_example =
    engaged_for_good stuck_cfg (observed low 90 ∷ (observed low 50 ∷ [])) spikes (omega arith)
      (omega arith, (omega arith, tt)) (unfold run step in refl)

register-survives_sweep_example :
    (s : BackendScraper) × (lookup
        (backend_key spare_backend)
        (register manager spare_backend 60).scrapers
      ≡ some s)
    × (lookup (backend_key spare_backend) (sweep (register manager spare_backend 60) 150).scrapers
        ≡ some s)
register-survives_sweep_example =
    register-survives_sweep manager spare_backend 60 150 refl (omega arith)

abbrev routed_fleet : Fleet
routed_fleet = record (new_fleet scraper_cfg) {
  manager = register (new_scraper_manager scraper_cfg) head_backend 40;
}

-- An Unregister under way while Stop begins, a round of its scraper in between.
abbrev closing_fleet : Fleet
closing_fleet = stop_empties (
    unregister_ends (text "u") (
      unregister_waits (text "u") (
        tick_departing (pos 0) (text "u") no_response 70
          (stop_marks (unregister_takes (text "u") head_backend routed_fleet)))))

head_labels :
    (s : BackendScraper)
    → lookup (backend_key head_backend) routed_fleet.manager.scrapers ≡ some s
    → labels3 s.ref ≡ labels3 head_backend
unfolding new_fleet new_scraper_manager register lookup insert backend_key text_eq
    new_backend_scraper
head_labels s h =
    let e : new_backend_scraper head_backend routed_fleet.manager.cfg ≡ s = cc in
    ap (λ x. labels3 x.ref) (sym e)

new-Reach-Inv_example : Inv closing_fleet
unfolding new_fleet new_scraper_manager
new-Reach-Inv_example = new-Reach-Inv scraper_cfg (
    next
      (next
        (next
          (next
            (next
              (next (next here (registered head_backend 40)) (
                unregister_took (text "u") head_backend (unfold new_fleet lookup in refl)
                  head_labels))
              stop_marked)
            (departing_ticked (pos 0) (text "u") no_response 70))
          (unregister_waited (text "u")))
        (unregister_ended (text "u")))
      stop_emptied)

kv_refuses_iff_example :
    (((kv_admit kv_arm long_meta head_backend standard).admitted ≡ false) ↔ (
      (snap : BackendSnapshot) × (snapshot_for manager (backend_key head_backend) ≡ some snap)
      × (snap.fresh ≡ true)
      × (snap.engaged ≡ true)
      × (standard ≡ standard)
      × (pos 8 ≤ℤ pos 9)))
    × ((kv_admit kv_arm long_meta head_backend standard).admitted ≡ false
        → (kv_admit kv_arm long_meta head_backend standard).reason ≡ kv_cache_pressure)
kv_refuses_iff_example = kv_refuses_iff kv_arm long_meta head_backend standard

blind_admits_example :
    kv_admit
      (record kv_arm {
        manager = tick_for (pos 0) manager (backend_key head_backend) no_response 70;
      })
      long_meta
      head_backend
      standard
    ≡ admit_with telemetry_stale
blind_admits_example =
    blind_admits (pos 0) kv_arm head_backend (new_backend_scraper head_backend scraper_cfg)
      no_response transport_failed 70 long_meta standard (unfold backend_key lookup text_eq in refl)
      (unfold scrape in refl) (inl (unfold new_backend_scraper in refl))
