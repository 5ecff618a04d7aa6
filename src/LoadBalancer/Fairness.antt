-- ===== src/LoadBalancer/Fairness.antt =====
-- Shared/Discovery/LoadBalancer.cpp, SelectRoundRobin: each available instance in its turn.
use native.Mathlib.Nat.{suc-mod, mod-eq_of_lt}
use mathlib.Core.Path.{ap₂}
use helianthus.Prelude.{
  ℕ, zero, suc, ◌+◌, ◌%◌, ◌<◌, ◌≡◌, refl, sym, ap, ◌∙◌, inl, inr, Option, some, List, [], ◌∷◌,
  arith, u32_mod, find_id, put_id, length, get_elem?, drop, Option-cases,
}
use helianthus.LoadBalancer.{
  LoadBalanceEntry, ServiceLoadBalanceInfo, available_ids, selected, update_selection_stats,
  select_round_robin,
}

-- What this many selections in a row answer, each at its time.
abbrev pub turns : ℕ → List ℕ → ServiceLoadBalanceInfo → List (Option ℕ)
turns t [] s = []
turns t (now ∷ nows) s =
    (select_round_robin t now s).0 ∷ turns t nows (select_round_robin t now s).1

abbrev pub all_some : List ℕ → List (Option ℕ)
all_some [] = []
all_some (id ∷ ids) = some id ∷ all_some ids

available_ids-put :
    (t now id : ℕ) (e : LoadBalanceEntry) (es : List (ℕ × LoadBalanceEntry))
    → find_id id es ≡ some e
    → available_ids t (put_id id (selected now e) es) ≡ available_ids t es
unfolding available_ids find_id put_id
available_ids-put t now id e [] f = cc
available_ids-put t now id e ((j, d) ∷ es) f = ground (arith, available_ids-put t now id e es)

available_ids-noted :
    (t now id : ℕ) (s : ServiceLoadBalanceInfo)
    → (available_ids t (update_selection_stats now id s).instances ≡ available_ids t s.instances)
      × ((update_selection_stats now id s).round_robin_index ≡ s.round_robin_index)
unfolding update_selection_stats
available_ids-noted t now id s = elim (Option-cases (find_id id s.instances)) [
  | inl e ↦ rw (e, update_selection_stats) (refl, refl)
  | inr found ↦
      rw (found.1, update_selection_stats)
        (available_ids-put t now id found.0 s.instances found.1, refl)
]

drop-cons :
    (ids : List ℕ) (r : ℕ)
    → r < length ids
    → (id : ℕ) × (get_elem? ids r ≡ some id) × (drop r ids ≡ id ∷ drop (suc r) ids)
drop-cons [] r h = absurd (omega arith)
drop-cons (id ∷ ids) zero h = (id, refl, refl)
drop-cons (id ∷ ids) (suc r) h = drop-cons ids r (omega arith)

round_robin-step :
    (t now id : ℕ) (ids : List ℕ) (s : ServiceLoadBalanceInfo)
    → available_ids t s.instances ≡ ids
    → get_elem? ids (s.round_robin_index % length ids) ≡ some id
    → ((select_round_robin t now s).0 ≡ some id)
      × (available_ids t (select_round_robin t now s).1.instances ≡ ids)
      × ((select_round_robin t now s).1.round_robin_index ≡ (s.round_robin_index + 1) % u32_mod)
unfolding select_round_robin
round_robin-step t now id [] s e g = cc
round_robin-step t now id (j ∷ js) s e g =
    let s' : ServiceLoadBalanceInfo = record s {
      round_robin_index = (s.round_robin_index + 1) % u32_mod;
    } in
    let (a, b) = available_ids-noted t now id s' in rw (e, select_round_robin, g) (refl, a ∙ e, b)

drop-all : (ids : List ℕ) → drop (length ids) ids ≡ []
drop-all [] = refl
drop-all (id ∷ ids) = drop-all ids

next-remainder :
    (index n r : ℕ)
    → index % n ≡ r
    → suc r < n
    → index + 1 < u32_mod
    → (index + 1) % u32_mod % n ≡ suc r
next-remainder index n r e l b =
    let w : (index + 1) % u32_mod ≡ suc index = omega arith in
    ap (λ i. i % n) w ∙ suc-mod index n ∙ ap (λ m. suc m % n) e ∙ mod-eq_of_lt l

turns-rest :
    (t : ℕ) (nows ids : List ℕ) (r : ℕ) (s : ServiceLoadBalanceInfo)
    → available_ids t s.instances ≡ ids
    → (r < length ids → s.round_robin_index % length ids ≡ r)
    → r + length nows ≡ length ids
    → s.round_robin_index + length nows < u32_mod
    → turns t nows s ≡ all_some (drop r ids)
turns-rest t [] ids r s e m n b =
    let z : r ≡ length ids = omega arith in
    ap all_some (sym (ap (λ i. drop i ids) z ∙ drop-all ids))
turns-rest t (now ∷ nows) ids r s e m n b =
    let k = m (omega arith) in
    let (id, g, d) = drop-cons ids r (omega arith) in
    let (a, e', i) = round_robin-step t now id ids s e (ap (get_elem? ids) k ∙ g) in
    let rest =
      turns-rest t nows ids (suc r) (select_round_robin t now s).1 e'
        (λ l.
          ap (λ x. x % length ids) i
          ∙ next-remainder s.round_robin_index (length ids) r k l (omega arith))
        (omega arith) (omega arith) in
    rw d (ap₂ (λ x xs. x ∷ xs) a rest)

-- With as many selections in a row as there are available instances, from an index that is a
-- multiple of their number and does not wrap, each of them is selected once, in order.
pub turns-available_ids :
    (t : ℕ) (nows : List ℕ) (s : ServiceLoadBalanceInfo)
    → length nows ≡ length (available_ids t s.instances)
    → s.round_robin_index % length (available_ids t s.instances) ≡ 0
    → s.round_robin_index + length nows < u32_mod
    → turns t nows s ≡ all_some (available_ids t s.instances)
turns-available_ids t nows s n z b =
    turns-rest t nows (available_ids t s.instances) 0 s refl (λ l. z) (omega arith) b
