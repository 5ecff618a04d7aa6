-- ===== src/HealthChecker/Entries.antt =====
-- Shared/Discovery/HealthChecker.cpp: what is found after an entry, or every entry, was changed.
use helianthus.Prelude.{
  ℕ, ◌≡◌, refl, Option, none, some, [], ◌∷◌, arith, find_id, put_id, find_id-put_id, ◌==◌,
  if◌then◌else◌,
}
use helianthus.HealthChecker.{HealthCheckEntry, Entries, change_entry, each}

pub find_id-change_entry :
    (f : HealthCheckEntry → HealthCheckEntry) (k j : ℕ) (es : Entries)
    → find_id j (change_entry f k es)
      ≡ (if k == j then elim (find_id k es) [ none ↦ none | some e ↦ some (f e) ] else find_id j es)
unfolding change_entry
find_id-change_entry f k j es = by_entry (find_id k es) refl
  where
    by_entry :
        (o : Option HealthCheckEntry)
        → find_id k es ≡ o
        → find_id j (elim o [ none ↦ es | some e ↦ put_id k (f e) es ])
          ≡ (if k == j then elim o [ none ↦ none | some e ↦ some (f e) ] else find_id j es)
    by_entry none h = ground arith
    by_entry (some e) h = find_id-put_id k j (f e) es

pub find_id-each :
    (f : HealthCheckEntry → HealthCheckEntry) (j : ℕ) (es : Entries)
    → find_id j (each f es) ≡ elim (find_id j es) [ none ↦ none | some e ↦ some (f e) ]
unfolding each find_id
find_id-each f j [] = refl
find_id-each f j ((k, e) ∷ es) = let r = find_id-each f j es in ground arith
