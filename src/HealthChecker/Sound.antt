-- ===== src/HealthChecker/Sound.antt =====
-- Shared/Discovery/HealthChecker.cpp: what holds of every entry after any calls.
use mathlib.Core.Path.{subst}
use mathlib.Core.Option.{some-injective}
use helianthus.Prelude.{
  ℕ, ◌+◌, ◌%◌, ◌≤◌, ◌≡◌, refl, sym, ◌∙◌, ◌⊎◌, inl, inr, Bool, true, false, not, ◌||◌, Option, none,
  some, arith, u64_mod, find_id, leb, ◌==◌, if◌then◌else◌,
}
use helianthus.Discovery.{ServiceState}
use helianthus.HealthChecker.{
  HealthCheckConfig, HealthCheckEntry, Entries, new_entry, change_entry, each,
  determine_service_state, checked, scheduled,
}
use helianthus.HealthChecker.Entries.{find_id-change_entry, find_id-each}

-- The score is at most 100, one of the two rows is empty, the checks are the good and the bad ones,
-- and the state is the one of the score and the failures, or is UNKNOWN and no check is counted.
pub record IsSound (e : HealthCheckEntry) : Type 0 where
  pub bounded : e.current_score ≤ 100
  pub one_row : (e.consecutive_failures ≡ 0) ⊎ (e.consecutive_successes ≡ 0)
  pub counted : e.total_checks ≡ (e.successful_checks + e.failed_checks) % u64_mod
  pub judged :
      ((e.current_state ≡ ServiceState.unknown) × (e.total_checks ≡ 0))
      ⊎ (e.current_state
          ≡ determine_service_state e.current_score e.consecutive_failures e.consecutive_successes)

abbrev pub AllSound : Entries → Type 0
AllSound es = (id : ℕ) (e : HealthCheckEntry) → find_id id es ≡ some e → IsSound e

abbrev pub Keeps : (HealthCheckEntry → HealthCheckEntry) → Type 0
Keeps f = (e : HealthCheckEntry) → IsSound e → IsSound (f e)

pub change_entry-AllSound :
    (f : HealthCheckEntry → HealthCheckEntry) (k : ℕ) (es : Entries)
    → Keeps f
    → AllSound es
    → AllSound (change_entry f k es)
change_entry-AllSound f k es keeps h id e found =
    by_test (k == id) refl (sym (find_id-change_entry f k id es) ∙ found)
  where
    by_entry :
        (o : Option HealthCheckEntry)
        → find_id k es ≡ o
        → elim o [ none ↦ none | some x ↦ some (f x) ] ≡ some e
        → IsSound e
    by_entry none p q = cc
    by_entry (some x) p q = subst IsSound (some-injective (f x) e q) (keeps x (h k x p))

    by_test :
        (b : Bool)
        → (k == id) ≡ b
        → (if b then elim (find_id k es) [ none ↦ none | some x ↦ some (f x) ] else find_id id es)
          ≡ some e
        → IsSound e
    by_test true p q = by_entry (find_id k es) refl q
    by_test false p q = h id e q

pub each-AllSound :
    (f : HealthCheckEntry → HealthCheckEntry) (es : Entries)
    → Keeps f
    → AllSound es
    → AllSound (each f es)
each-AllSound f es keeps h id e found =
    by_entry (find_id id es) refl (sym (find_id-each f id es) ∙ found)
  where
    by_entry :
        (o : Option HealthCheckEntry)
        → find_id id es ≡ o
        → elim o [ none ↦ none | some x ↦ some (f x) ] ≡ some e
        → IsSound e
    by_entry none p q = cc
    by_entry (some x) p q = subst IsSound (some-injective (f x) e q) (keeps x (h id x p))

pub checked-IsSound :
    (now : ℕ) (ok : Bool) (response : ℕ) (e : HealthCheckEntry)
    → IsSound e
    → IsSound (checked now ok response e)
unfolding checked
checked-IsSound now true response e s = record {
  bounded = omega arith;
  one_row = inl refl;
  counted = omega (arith, s.counted);
  judged = inr refl;
}
checked-IsSound now false response e s = record {
  bounded = ground (arith, s.bounded);
  one_row = inr refl;
  counted = omega (arith, s.counted);
  judged = inr refl;
}

pub scheduled-IsSound : (now : ℕ) (e : HealthCheckEntry) → IsSound e → IsSound (scheduled now e)
unfolding scheduled
scheduled-IsSound now e s = by_test (not e.is_running || e.is_paused) (leb e.next_check_time now)
  where
    by_test :
        (idle due : Bool)
        → IsSound (
            if idle
            then e
            else if due
            then record e { next_check_time = (now + e.config.interval_ms) % u64_mod }
            else e)
    by_test true due = s
    by_test false true = record {
      bounded = s.bounded;
      one_row = s.one_row;
      counted = s.counted;
      judged = s.judged;
    }
    by_test false false = s

pub new_entry-IsSound : (now : ℕ) (c : HealthCheckConfig) → IsSound (new_entry now c)
unfolding new_entry
new_entry-IsSound now c = record {
  bounded = omega arith;
  one_row = inl refl;
  counted = refl;
  judged = inl (refl, refl);
}
