-- ===== src/HealthChecker/Runs.antt =====
-- Shared/Discovery/HealthChecker.cpp: the calls as values, and runs of them.
use mathlib.Core.Path.{subst}
use mathlib.Core.Option.{some-injective}
use helianthus.Prelude.{
  ℕ, ◌≡◌, sym, ◌∙◌, inl, inr, Bool, true, false, not, ◌||◌, Option, none, some, List, [], ◌∷◌,
  find_id, put_id, remove_id, find_id-put_id, find_id-remove_id, ◌==◌, if◌then◌else◌, Bool-cases,
}
use helianthus.Discovery.{DiscoveryResult}
use helianthus.HealthChecker.{
  HealthCheckConfig, HealthCheckEntry, HealthChecker, initialize, shutdown, new_entry,
  register_health_check, update_health_check, unregister_health_check, started, stopped,
  start_health_check, stop_health_check, start_all_health_checks, stop_all_health_checks, checked,
  update_health_entry, perform_probe, perform_custom_health_check, scheduled,
  process_scheduled_checks, set_health_thresholds, set_health_check_interval,
}
use helianthus.HealthChecker.Sound.{
  IsSound, AllSound, change_entry-AllSound, each-AllSound, checked-IsSound, scheduled-IsSound,
  new_entry-IsSound,
}

pub data Call : Type 0 where
  initialization : HealthCheckConfig → Call
  end : Call
  registration : ℕ → ℕ → HealthCheckConfig → Call
  configuration : ℕ → HealthCheckConfig → Call
  removal start stop : ℕ → Call
  start_all stop_all : Call
  probe : ℕ → ℕ → Bool → ℕ → Call
  custom : ℕ → ℕ → Option Bool → ℕ → Call
  round : ℕ → Call
  thresholds : ℕ → ℕ → ℕ → Call
  interval : ℕ → ℕ → Call

unfoldable pub perform : Call → HealthChecker → HealthChecker
perform (Call.initialization c) h = (initialize c h).1
perform Call.end h = shutdown h
perform (Call.registration now id c) h = (register_health_check now id c h).1
perform (Call.configuration id c) h = (update_health_check id c h).1
perform (Call.removal id) h = (unregister_health_check id h).1
perform (Call.start id) h = start_health_check id h
perform (Call.stop id) h = stop_health_check id h
perform Call.start_all h = start_all_health_checks h
perform Call.stop_all h = stop_all_health_checks h
perform (Call.probe now id ok timeout) h = (perform_probe now id ok timeout h).1
perform (Call.custom now id f response) h = (perform_custom_health_check now id f response h).1
perform (Call.round now) h = process_scheduled_checks now h
perform (Call.thresholds id bad good) h = set_health_thresholds id bad good h
perform (Call.interval id ms) h = set_health_check_interval id ms h

unfoldable pub perform_all : List Call → HealthChecker → HealthChecker
unfolding perform
perform_all [] h = h
perform_all (c ∷ cs) h = perform_all cs (perform c h)

-- A change that leaves the numbers and the state alone.
with_config-IsSound :
    (c : HealthCheckConfig) (running paused : Bool) (e : HealthCheckEntry)
    → IsSound e
    → IsSound (record e { config = c; is_running = running; is_paused = paused })
with_config-IsSound c running paused e s = record {
  bounded = s.bounded;
  one_row = s.one_row;
  counted = s.counted;
  judged = s.judged;
}

register-AllSound :
    (now id : ℕ) (c : HealthCheckConfig) (h : HealthChecker)
    → AllSound h.health_checks
    → AllSound (register_health_check now id c h).1.health_checks
unfolding register_health_check
register-AllSound now id c h s = by_test (not h.initialized || id == 0) (find_id id h.health_checks)
  where
    entered : AllSound (put_id id (new_entry now c) h.health_checks)
    entered j e found =
        by_id (id == j) (sym (find_id-put_id id j (new_entry now c) h.health_checks) ∙ found)
      where
        by_id :
            (b : Bool)
            → (if b then some (new_entry now c) else find_id j h.health_checks) ≡ some e
            → IsSound e
        by_id true q =
            subst IsSound (some-injective (new_entry now c) e q) (new_entry-IsSound now c)
        by_id false q = s j e q

    by_test :
        (b : Bool) (o : Option HealthCheckEntry)
        → (let r : DiscoveryResult × HealthChecker =
              (if b then (DiscoveryResult.invalid_service_info, h) else elim o [
                | some e ↦ (DiscoveryResult.service_already_registered, h)
                | none ↦ (
                  DiscoveryResult.success,
                  record h { health_checks = put_id id (new_entry now c) h.health_checks },
                )
              ]) in
            AllSound r.1.health_checks)
    by_test true o = s
    by_test false (some e) = s
    by_test false none = entered

unregister-AllSound :
    (id : ℕ) (h : HealthChecker)
    → AllSound h.health_checks
    → AllSound (unregister_health_check id h).1.health_checks
unfolding unregister_health_check
unregister-AllSound id h s = by_entry (find_id id h.health_checks)
  where
    kept : AllSound (remove_id id h.health_checks)
    kept j e found = by_id (id == j) (sym (find_id-remove_id id j h.health_checks) ∙ found)
      where
        by_id : (b : Bool) → (if b then none else find_id j h.health_checks) ≡ some e → IsSound e
        by_id true q = cc
        by_id false q = s j e q

    by_entry :
        (o : Option HealthCheckEntry)
        → (let r : DiscoveryResult × HealthChecker = elim o [
          | none ↦ (DiscoveryResult.service_not_found, h)
          | some e ↦
              (DiscoveryResult.success, record h { health_checks = remove_id id h.health_checks })
        ] in
            AllSound r.1.health_checks)
    by_entry none = s
    by_entry (some e) = kept

initialize-AllSound :
    (c : HealthCheckConfig) (h : HealthChecker)
    → AllSound h.health_checks
    → AllSound (initialize c h).1.health_checks
unfolding initialize
initialize-AllSound c h s = elim (Bool-cases h.initialized) [ inl e ↦ rw e s | inr e ↦ rw e s ]

shutdown-AllSound :
    (h : HealthChecker) → AllSound h.health_checks → AllSound (shutdown h).health_checks
unfolding shutdown find_id
shutdown-AllSound h s = by_test h.initialized
  where
    by_test :
        (b : Bool)
        → (let r : HealthChecker =
              (if b then record h { initialized = false; health_checks = [] } else h) in
            AllSound r.health_checks)
    by_test true = λ j e found. cc
    by_test false = s

perform-AllSound :
    (c : Call) (h : HealthChecker) → AllSound h.health_checks → AllSound (perform c h).health_checks
unfolding perform update_health_check start_health_check stop_health_check start_all_health_checks
    stop_all_health_checks perform_probe update_health_entry perform_custom_health_check
    process_scheduled_checks set_health_thresholds set_health_check_interval started stopped
perform-AllSound (Call.initialization c) h s = initialize-AllSound c h s
perform-AllSound Call.end h s = shutdown-AllSound h s
perform-AllSound (Call.registration now id c) h s = register-AllSound now id c h s
perform-AllSound (Call.configuration id c) h s =
    change_entry-AllSound (λ e. record e { config = c }) id h.health_checks
      (λ e. with_config-IsSound c e.is_running e.is_paused e) s
perform-AllSound (Call.removal id) h s = unregister-AllSound id h s
perform-AllSound (Call.start id) h s =
    change_entry-AllSound started id h.health_checks
      (λ e. with_config-IsSound e.config true false e) s
perform-AllSound (Call.stop id) h s =
    change_entry-AllSound stopped id h.health_checks
      (λ e. with_config-IsSound e.config false e.is_paused e) s
perform-AllSound Call.start_all h s =
    each-AllSound started h.health_checks (λ e. with_config-IsSound e.config true false e) s
perform-AllSound Call.stop_all h s =
    each-AllSound stopped h.health_checks (λ e. with_config-IsSound e.config false e.is_paused e) s
perform-AllSound (Call.probe now id ok timeout) h s =
    change_entry-AllSound (checked now ok timeout) id h.health_checks
      (checked-IsSound now ok timeout) s
perform-AllSound (Call.custom now id none response) h s = s
perform-AllSound (Call.custom now id (some ok) response) h s =
    change_entry-AllSound (checked now ok response) id h.health_checks
      (checked-IsSound now ok response) s
perform-AllSound (Call.round now) h s =
    each-AllSound (scheduled now) h.health_checks (scheduled-IsSound now) s
perform-AllSound (Call.thresholds id bad good) h s =
    change_entry-AllSound
      (λ e. record e {
        config = record e.config { unhealthy_threshold = bad; healthy_threshold = good };
      })
      id h.health_checks
      (λ e.
        with_config-IsSound
          (record e.config { unhealthy_threshold = bad; healthy_threshold = good }) e.is_running
          e.is_paused e)
      s
perform-AllSound (Call.interval id ms) h s =
    change_entry-AllSound (λ e. record e { config = record e.config { interval_ms = ms } }) id
      h.health_checks
      (λ e. with_config-IsSound (record e.config { interval_ms = ms }) e.is_running e.is_paused e) s

-- After any calls on a checker whose entries are sound, every entry is sound: its score is at most
-- 100, one of its two rows of outcomes is empty, its checks are the good and the bad ones modulo
-- 2^64, and its state is the one of its numbers, or is UNKNOWN while no check is counted.
pub perform_all-AllSound :
    (cs : List Call) (h : HealthChecker)
    → AllSound h.health_checks
    → AllSound (perform_all cs h).health_checks
unfolding perform_all
perform_all-AllSound [] h s = s
perform_all-AllSound (c ∷ cs) h s = perform_all-AllSound cs (perform c h) (perform-AllSound c h s)
