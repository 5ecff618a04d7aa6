-- ===== src/HealthChecker.antt =====
-- Shared/Discovery/HealthChecker.cpp: the checks of the instances. The clock and the outcome of a
-- probe are arguments; the threads, the callbacks and the log are left out, and of a configuration
-- what is read here is kept.
use helianthus.Prelude.{
  ℕ, ◌+◌, ◌-◌, ◌*◌, ◌/◌, ◌%◌, min, Bool, true, false, not, ◌&&◌, ◌||◌, Option, none, some, List, [],
  ◌∷◌, u32_mod, u64_mod, find_id, put_id, remove_id, ltb, leb, ◌==◌, if◌then◌else◌,
}
use helianthus.Discovery.{DiscoveryResult, ServiceState, max_health_score, is_healthy_state}
pub mod Entries
pub mod Sound
pub mod Runs
pub mod Settles
pub mod Rounds
mod Tests

pub record HealthCheckConfig : Type 0 where
  pub interval_ms : ℕ
  pub timeout_ms : ℕ
  pub unhealthy_threshold : ℕ
  pub healthy_threshold : ℕ

pub record HealthCheckEntry : Type 0 where
  pub config : HealthCheckConfig
  pub current_state : ServiceState
  pub current_score : ℕ
  pub consecutive_failures : ℕ
  pub consecutive_successes : ℕ
  pub last_check_time : ℕ
  pub next_check_time : ℕ
  pub is_running : Bool
  pub is_paused : Bool
  pub total_checks : ℕ
  pub successful_checks : ℕ
  pub failed_checks : ℕ
  pub last_response_time : ℕ
  pub total_response_time : ℕ

abbrev pub Entries : Type 0
Entries = List (ℕ × HealthCheckEntry)

pub record HealthChecker : Type 0 where
  pub initialized : Bool
  pub default_config : HealthCheckConfig
  pub global_interval : ℕ
  pub global_timeout : ℕ
  pub health_checks : Entries

unfoldable pub initialize : HealthCheckConfig → HealthChecker → DiscoveryResult × HealthChecker
initialize c h = if h.initialized then (DiscoveryResult.internal_error, h) else (
  DiscoveryResult.success,
  record h {
    initialized = true;
    default_config = c;
    global_interval = c.interval_ms;
    global_timeout = c.timeout_ms;
  },
)

unfoldable pub shutdown : HealthChecker → HealthChecker
shutdown h = if h.initialized then record h { initialized = false; health_checks = [] } else h

-- The id 0 is invalid.
unfoldable pub new_entry : ℕ → HealthCheckConfig → HealthCheckEntry
new_entry now c = record {
  config = c;
  current_state = ServiceState.unknown;
  current_score = max_health_score / 2;
  consecutive_failures = 0;
  consecutive_successes = 0;
  last_check_time = 0;
  next_check_time = (now + c.interval_ms) % u64_mod;
  is_running = false;
  is_paused = false;
  total_checks = 0;
  successful_checks = 0;
  failed_checks = 0;
  last_response_time = 0;
  total_response_time = 0;
}

unfoldable pub register_health_check :
    ℕ → ℕ → HealthCheckConfig → HealthChecker → DiscoveryResult × HealthChecker
unfolding new_entry
register_health_check now id c h =
    if not h.initialized || id == 0
    then (DiscoveryResult.invalid_service_info, h)
    else elim (find_id id h.health_checks) [
      | some e ↦ (DiscoveryResult.service_already_registered, h)
      | none ↦ (
        DiscoveryResult.success,
        record h { health_checks = put_id id (new_entry now c) h.health_checks },
      )
    ]

-- Changes the entry of an id, if there is one.
unfoldable pub change_entry : (HealthCheckEntry → HealthCheckEntry) → ℕ → Entries → Entries
change_entry f id es = elim (find_id id es) [ none ↦ es | some e ↦ put_id id (f e) es ]

unfoldable pub is_health_check_registered : ℕ → HealthChecker → Bool
is_health_check_registered id h = elim (find_id id h.health_checks) [ none ↦ false | some e ↦ true ]

abbrev pub found_or_not : ℕ → HealthChecker → DiscoveryResult
found_or_not id h = elim (find_id id h.health_checks) [
  | none ↦ DiscoveryResult.service_not_found
  | some e ↦ DiscoveryResult.success
]

unfoldable pub update_health_check :
    ℕ → HealthCheckConfig → HealthChecker → DiscoveryResult × HealthChecker
unfolding change_entry
update_health_check id c h = (
  found_or_not id h,
  record h { health_checks = change_entry (λ e. record e { config = c }) id h.health_checks },
)

unfoldable pub unregister_health_check : ℕ → HealthChecker → DiscoveryResult × HealthChecker
unregister_health_check id h = elim (find_id id h.health_checks) [
  | none ↦ (DiscoveryResult.service_not_found, h)
  | some e ↦ (DiscoveryResult.success, record h { health_checks = remove_id id h.health_checks })
]

unfoldable pub get_health_check_config : ℕ → HealthChecker → HealthCheckConfig
get_health_check_config id h = elim (find_id id h.health_checks) [
  | none ↦ h.default_config
  | some e ↦ e.config
]

unfoldable pub started : HealthCheckEntry → HealthCheckEntry
started e = record e { is_running = true; is_paused = false }

unfoldable pub stopped : HealthCheckEntry → HealthCheckEntry
stopped e = record e { is_running = false }

unfoldable pub start_health_check : ℕ → HealthChecker → HealthChecker
unfolding change_entry started
start_health_check id h = record h { health_checks = change_entry started id h.health_checks }

unfoldable pub stop_health_check : ℕ → HealthChecker → HealthChecker
unfolding change_entry stopped
stop_health_check id h = record h { health_checks = change_entry stopped id h.health_checks }

-- A loop over all entries.
unfoldable pub each : (HealthCheckEntry → HealthCheckEntry) → Entries → Entries
each f [] = []
each f ((id, e) ∷ es) = (id, f e) ∷ each f es

unfoldable pub start_all_health_checks : HealthChecker → HealthChecker
unfolding each started
start_all_health_checks h = record h { health_checks = each started h.health_checks }

unfoldable pub stop_all_health_checks : HealthChecker → HealthChecker
unfolding each stopped
stop_all_health_checks h = record h { health_checks = each stopped h.health_checks }

unfoldable pub is_health_check_running : ℕ → HealthChecker → Bool
is_health_check_running id h = elim (find_id id h.health_checks) [
  | none ↦ false
  | some e ↦ e.is_running
]

unfoldable pub get_health_score : ℕ → HealthChecker → ℕ
get_health_score id h = elim (find_id id h.health_checks) [ none ↦ 0 | some e ↦ e.current_score ]

unfoldable pub get_health_state : ℕ → HealthChecker → ServiceState
get_health_state id h = elim (find_id id h.health_checks) [
  | none ↦ ServiceState.unknown
  | some e ↦ e.current_state
]

unfoldable pub is_healthy : ℕ → HealthChecker → Bool
unfolding get_health_state
is_healthy id h = is_healthy_state (get_health_state id h)

-- The successes are not looked at.
unfoldable pub determine_service_state : ℕ → ℕ → ℕ → ServiceState
determine_service_state score failures successes =
    if leb 80 score && failures == 0
    then ServiceState.healthy
    else if leb 50 score && ltb failures 3
    then ServiceState.healthy
    else if leb 20 score
    then ServiceState.unhealthy
    else ServiceState.critical

unfoldable pub checked : ℕ → Bool → ℕ → HealthCheckEntry → HealthCheckEntry
unfolding determine_service_state
checked now ok response e =
    let successes = if ok then (e.consecutive_successes + 1) % u32_mod else 0 in
    let failures = if ok then 0 else (e.consecutive_failures + 1) % u32_mod in
    let score =
      if ok
      then min max_health_score ((e.current_score + 10) % u32_mod)
      else if ltb 10 e.current_score
      then e.current_score - 10
      else 0 in
    record e {
      current_state = determine_service_state score failures successes;
      current_score = score;
      consecutive_failures = failures;
      consecutive_successes = successes;
      last_check_time = now;
      total_checks = (e.total_checks + 1) % u64_mod;
      successful_checks = if ok then (e.successful_checks + 1) % u64_mod else e.successful_checks;
      failed_checks = if ok then e.failed_checks else (e.failed_checks + 1) % u64_mod;
      last_response_time = response;
      total_response_time = (e.total_response_time + response) % u64_mod;
    }

unfoldable pub update_health_entry : ℕ → ℕ → Bool → ℕ → HealthChecker → HealthChecker
unfolding change_entry checked
update_health_entry now id ok response h = record h {
  health_checks = change_entry (checked now ok response) id h.health_checks;
}

-- The checks over TCP and HTTP and the ping: each reports its time limit as the response time.
unfoldable pub perform_probe : ℕ → ℕ → Bool → ℕ → HealthChecker → DiscoveryResult × HealthChecker
unfolding update_health_entry
perform_probe now id ok timeout h = (
  if ok then DiscoveryResult.success else DiscoveryResult.failed,
  update_health_entry now id ok timeout h,
)

-- A function that throws has failed.
unfoldable pub perform_custom_health_check :
    ℕ → ℕ → Option Bool → ℕ → HealthChecker → DiscoveryResult × HealthChecker
unfolding update_health_entry
perform_custom_health_check now id none response h = (DiscoveryResult.invalid_service_info, h)
perform_custom_health_check now id (some ok) response h = (
  if ok then DiscoveryResult.success else DiscoveryResult.failed,
  update_health_entry now id ok response h,
)

unfoldable pub perform_heartbeat_check : ℕ → ℕ → HealthChecker → DiscoveryResult
perform_heartbeat_check now id h = elim (find_id id h.health_checks) [
  | none ↦ DiscoveryResult.service_not_found
  | some e ↦
      if ltb ((now + u64_mod - e.last_check_time) % u32_mod) (e.config.interval_ms * 2 % u32_mod)
      then DiscoveryResult.success
      else DiscoveryResult.failed
]

-- The score that a scheduled check draws is logged and not kept.
unfoldable pub scheduled : ℕ → HealthCheckEntry → HealthCheckEntry
scheduled now e =
    if not e.is_running || e.is_paused
    then e
    else if leb e.next_check_time now
    then record e { next_check_time = (now + e.config.interval_ms) % u64_mod }
    else e

unfoldable pub process_scheduled_checks : ℕ → HealthChecker → HealthChecker
unfolding each scheduled
process_scheduled_checks now h = record h { health_checks = each (scheduled now) h.health_checks }

unfoldable pub set_health_thresholds : ℕ → ℕ → ℕ → HealthChecker → HealthChecker
unfolding change_entry
set_health_thresholds id bad good h = record h {
  health_checks =
      change_entry
        (λ e. record e {
          config = record e.config { unhealthy_threshold = bad; healthy_threshold = good };
        })
        id h.health_checks;
}

unfoldable pub set_health_check_interval : ℕ → ℕ → HealthChecker → HealthChecker
unfolding change_entry
set_health_check_interval id ms h = record h {
  health_checks =
      change_entry (λ e. record e { config = record e.config { interval_ms = ms } }) id
        h.health_checks;
}

unfoldable pub get_health_check_interval : ℕ → HealthChecker → ℕ
get_health_check_interval id h = elim (find_id id h.health_checks) [
  | none ↦ h.default_config.interval_ms
  | some e ↦ e.config.interval_ms
]
