-- ===== src/HealthChecker/Rounds.antt =====
-- Shared/Discovery/HealthChecker.cpp: the rounds of the thread that checks.
use helianthus.Prelude.{ℕ, ◌≡◌, refl, ap, ◌∙◌, Option, none, some, List, [], ◌∷◌, arith, find_id}
use helianthus.Discovery.{ServiceState}
use helianthus.HealthChecker.{
  HealthCheckEntry, HealthChecker, get_health_score, get_health_state, scheduled,
  process_scheduled_checks,
}
use helianthus.HealthChecker.Entries.{find_id-each}

-- The thread, at the times of its rounds.
unfoldable pub rounds : List ℕ → HealthChecker → HealthChecker
unfolding process_scheduled_checks
rounds [] h = h
rounds (now ∷ times) h = rounds times (process_scheduled_checks now h)

abbrev state_of : Option HealthCheckEntry → ServiceState
state_of o = elim o [ none ↦ ServiceState.unknown | some e ↦ e.current_state ]

abbrev score_of : Option HealthCheckEntry → ℕ
score_of o = elim o [ none ↦ 0 | some e ↦ e.current_score ]

scheduled-health :
    (now : ℕ) (e : HealthCheckEntry)
    → ((scheduled now e).current_state ≡ e.current_state)
      × ((scheduled now e).current_score ≡ e.current_score)
unfolding scheduled
scheduled-health now e = (ground arith, ground arith)

process_scheduled_checks-health :
    (now id : ℕ) (h : HealthChecker)
    → (get_health_state id (process_scheduled_checks now h) ≡ get_health_state id h)
      × (get_health_score id (process_scheduled_checks now h) ≡ get_health_score id h)
unfolding process_scheduled_checks get_health_state get_health_score
process_scheduled_checks-health now id h =
    let f = find_id-each (scheduled now) id h.health_checks in
    let (a, b) = by_entry (find_id id h.health_checks) in (ap state_of f ∙ a, ap score_of f ∙ b)
  where
    by_entry :
        (o : Option HealthCheckEntry)
        → (state_of (elim o [ none ↦ none | some e ↦ some (scheduled now e) ]) ≡ state_of o)
          × (score_of (elim o [ none ↦ none | some e ↦ some (scheduled now e) ]) ≡ score_of o)
    by_entry none = (refl, refl)
    by_entry (some e) = scheduled-health now e

-- No number of rounds changes the state or the score of any instance.
pub rounds-health :
    (times : List ℕ) (id : ℕ) (h : HealthChecker)
    → (get_health_state id (rounds times h) ≡ get_health_state id h)
      × (get_health_score id (rounds times h) ≡ get_health_score id h)
unfolding rounds
rounds-health [] id h = (refl, refl)
rounds-health (now ∷ times) id h =
    let (a, b) = rounds-health times id (process_scheduled_checks now h) in
    let (c, d) = process_scheduled_checks-health now id h in (a ∙ c, b ∙ d)
