-- ===== src/HealthChecker/Settles.antt =====
-- Shared/Discovery/HealthChecker.cpp: where a row of equal outcomes leads.
use helianthus.Prelude.{
  ℕ, ◌+◌, ◌-◌, ◌*◌, ◌≤◌, ◌<◌, min, ◌≡◌, ap, ◌∙◌, Bool, true, false, Option, none, some, List, [],
  ◌∷◌, arith, find_id, length,
}
use helianthus.Discovery.{ServiceState}
use helianthus.HealthChecker.{
  HealthCheckEntry, HealthChecker, get_health_state, determine_service_state, checked,
  update_health_entry,
}
use helianthus.HealthChecker.Entries.{find_id-change_entry}
use helianthus.HealthChecker.Sound.{AllSound}

-- Checks of one instance with one outcome: the time of each, and its response time.
unfoldable pub update_all : ℕ → Bool → List (ℕ × ℕ) → HealthChecker → HealthChecker
update_all id ok [] h = h
update_all id ok ((now, response) ∷ times) h =
    update_all id ok times (update_health_entry now id ok response h)

unfoldable checked_all : Bool → List (ℕ × ℕ) → HealthCheckEntry → HealthCheckEntry
checked_all ok [] e = e
checked_all ok ((now, response) ∷ times) e = checked_all ok times (checked now ok response e)

find_id-update_all :
    (id : ℕ) (ok : Bool) (times : List (ℕ × ℕ)) (h : HealthChecker) (e : HealthCheckEntry)
    → find_id id h.health_checks ≡ some e
    → find_id id (update_all id ok times h).health_checks ≡ some (checked_all ok times e)
unfolding update_all checked_all update_health_entry
find_id-update_all id ok [] h e found = found
find_id-update_all id ok ((now, response) ∷ times) h e found =
    let c = find_id-change_entry (checked now ok response) id id h.health_checks in
    find_id-update_all id ok times (update_health_entry now id ok response h)
      (checked now ok response e) (ground arith)

score-failures :
    (times : List (ℕ × ℕ)) (e : HealthCheckEntry)
    → (checked_all false times e).current_score ≡ e.current_score - 10 * length times
unfolding checked_all checked
score-failures [] e = omega arith
score-failures ((now, response) ∷ times) e =
    let r = score-failures times (checked now false response e) in ground arith

score-successes :
    (times : List (ℕ × ℕ)) (e : HealthCheckEntry)
    → e.current_score ≤ 100
    → (checked_all true times e).current_score ≡ min 100 (e.current_score + 10 * length times)
unfolding checked_all checked
score-successes [] e h = omega arith
score-successes ((now, response) ∷ times) e h =
    let r = score-successes times (checked now true response e) (omega arith) in omega arith

-- The state after a row that is not empty.
state-failures :
    (times : List (ℕ × ℕ)) (e : HealthCheckEntry)
    → 0 < length times
    → (checked_all false times e).current_score < 20
    → (checked_all false times e).current_state ≡ ServiceState.critical
unfolding checked_all checked determine_service_state
state-failures [] e h low = absurd (omega arith)
state-failures ((now, response) ∷ []) e h low = ground arith
state-failures ((now, response) ∷ (t ∷ times)) e h low =
    state-failures (t ∷ times) (checked now false response e) (omega arith) low

state-successes :
    (times : List (ℕ × ℕ)) (e : HealthCheckEntry)
    → 0 < length times
    → 50 ≤ (checked_all true times e).current_score
    → (checked_all true times e).current_state ≡ ServiceState.healthy
unfolding checked_all checked determine_service_state
state-successes [] e h high = absurd (omega arith)
state-successes ((now, response) ∷ []) e h high = ground arith
state-successes ((now, response) ∷ (t ∷ times)) e h high =
    state-successes (t ∷ times) (checked now true response e) (omega arith) high

-- An instance of a checker whose entries are sound is critical after nine failures or more in a row,
-- and healthy after five successes or more in a row, whatever its thresholds are.
pub update_all-settles :
    (id : ℕ) (failures successes : List (ℕ × ℕ)) (e : HealthCheckEntry) (h : HealthChecker)
    → AllSound h.health_checks
    → find_id id h.health_checks ≡ some e
    → 9 ≤ length failures
    → 5 ≤ length successes
    → (get_health_state id (update_all id false failures h) ≡ ServiceState.critical)
      × (get_health_state id (update_all id true successes h) ≡ ServiceState.healthy)
unfolding get_health_state
update_all-settles id failures successes e h s found many some_good =
    let state : Option HealthCheckEntry → ServiceState =
      λ o. elim o [ none ↦ ServiceState.unknown | some x ↦ x.current_state ] in
    let b = (s id e found).bounded in
    let low = score-failures failures e in
    let high = score-successes successes e b in
    (
      ap state (find_id-update_all id false failures h e found)
          ∙ state-failures failures e (omega arith) (omega arith),
      ap state (find_id-update_all id true successes h e found)
          ∙ state-successes successes e (omega arith) (omega arith),
    )
