-- ===== src/HealthChecker/Tests.antt =====
-- Shared/Discovery/HealthChecker.cpp: applications at a checker with one instance.
use helianthus.Prelude.{ℕ, ◌≡◌, refl, true, false, some, List, [], ◌∷◌, arith, find_id, put_id}
use helianthus.Discovery.{ServiceState}
use helianthus.HealthChecker.{
  HealthCheckConfig, HealthChecker, initialize, new_entry, register_health_check, get_health_score,
  get_health_state,
}
use helianthus.HealthChecker.Sound.{AllSound}
use helianthus.HealthChecker.Runs.{Call, perform, perform_all, perform_all-AllSound}
use helianthus.HealthChecker.Settles.{update_all, update_all-settles}
use helianthus.HealthChecker.Rounds.{rounds, rounds-health}

abbrev each_minute : HealthCheckConfig
each_minute = record {
  interval_ms = 60000;
  timeout_ms = 5000;
  unhealthy_threshold = 3;
  healthy_threshold = 2;
}

abbrev no_checks : HealthChecker
no_checks = record {
  initialized = false;
  default_config = each_minute;
  global_interval = 0;
  global_timeout = 0;
  health_checks = [];
}

abbrev morning : List Call
morning =
    Call.initialization each_minute
    ∷ Call.registration 100 7 each_minute
    ∷ Call.start 7
    ∷ Call.probe 200 7 false 5000
    ∷ Call.round 70000
    ∷ Call.custom 70100 7 (some true) 3
    ∷ []

abbrev one_check : HealthChecker
one_check = record no_checks { health_checks = (7, new_entry 100 each_minute) ∷ [] }

no_checks-AllSound : AllSound no_checks.health_checks
unfolding find_id
no_checks-AllSound id e found = cc

one_check-AllSound : AllSound one_check.health_checks
unfolding perform_all perform initialize register_health_check find_id put_id
one_check-AllSound =
    perform_all-AllSound
      (Call.initialization each_minute ∷ Call.registration 100 7 each_minute ∷ []) no_checks
      no_checks-AllSound

perform_all-AllSound_example : AllSound (perform_all morning no_checks).health_checks
perform_all-AllSound_example = perform_all-AllSound morning no_checks no_checks-AllSound

abbrev nine_times : List (ℕ × ℕ)
nine_times =
    (1, 5000)
    ∷ (2, 5000)
    ∷ (3, 5000)
    ∷ (4, 5000)
    ∷ (5, 5000)
    ∷ (6, 5000)
    ∷ (7, 5000)
    ∷ (8, 5000)
    ∷ (9, 5000)
    ∷ []

abbrev five_times : List (ℕ × ℕ)
five_times = (1, 20) ∷ (2, 30) ∷ (3, 20) ∷ (4, 10) ∷ (5, 20) ∷ []

update_all-settles_example :
    (get_health_state 7 (update_all 7 false nine_times one_check) ≡ ServiceState.critical)
    × (get_health_state 7 (update_all 7 true five_times one_check) ≡ ServiceState.healthy)
unfolding find_id
update_all-settles_example =
    update_all-settles 7 nine_times five_times (new_entry 100 each_minute) one_check
      one_check-AllSound refl (omega arith) (omega arith)

rounds-health_example :
    (get_health_state 7 (rounds (60200 ∷ 120300 ∷ []) one_check) ≡ get_health_state 7 one_check)
    × (get_health_score 7 (rounds (60200 ∷ 120300 ∷ []) one_check) ≡ get_health_score 7 one_check)
rounds-health_example = rounds-health (60200 ∷ 120300 ∷ []) 7 one_check
