-- ===== src/LoadBalancer/Weights.antt =====
-- Shared/Discovery/LoadBalancer.cpp, SelectWeightedRandom: how many draws select each instance.
use mathlib.Core.Path.{ap₂}
use helianthus.Prelude.{
  ℕ, zero, suc, ◌+◌, ◌%◌, ◌≤◌, ◌<◌, ◌≡◌, refl, sym, ap, ◌∙◌, inl, inr, Bool, false, Option, none,
  some, List, [], ◌∷◌, arith, u32_mod, one_if, leb, ◌==◌, if◌then◌else◌, ==_iff, Bool-cases,
}
use helianthus.LoadBalancer.{
  ServiceLoadBalanceInfo, noted, valid_weights, total_weight, weighted_pick, select_weighted_random,
}

abbrev pub is_this : ℕ → Option ℕ → Bool
is_this id none = false
is_this id (some j) = j == id

abbrev pub sum_weights : List (ℕ × ℕ) → ℕ
sum_weights [] = 0
sum_weights ((id, w) ∷ ws) = w + sum_weights ws

abbrev pub weight_of : ℕ → List (ℕ × ℕ) → ℕ
weight_of id [] = 0
weight_of id ((j, w) ∷ ws) = if j == id then w + weight_of id ws else weight_of id ws

-- How many of the next draws above `current` pick this instance.
picks : ℕ → ℕ → List (ℕ × ℕ) → ℕ → ℕ
picks id current ws zero = 0
picks id current ws (suc k) =
    one_if (is_this id (weighted_pick (current + suc k) current ws)) + picks id current ws k

picks-first :
    (id current j w : ℕ) (ws : List (ℕ × ℕ)) (k : ℕ)
    → current + w < u32_mod
    → k ≤ w
    → picks id current ((j, w) ∷ ws) k ≡ (if j == id then k else 0)
unfolding picks weighted_pick
picks-first id current j w ws zero h l = ground arith
picks-first id current j w ws (suc k) h l = ground (arith, picks-first id current j w ws k)

weighted_pick-later :
    (current j w : ℕ) (ws : List (ℕ × ℕ)) (k : ℕ)
    → current + w < u32_mod
    → weighted_pick (current + suc (w + k)) current ((j, w) ∷ ws)
      ≡ weighted_pick (current + w + suc k) (current + w) ws
unfolding weighted_pick
weighted_pick-later current j w ws k h =
    let m : (current + w) % u32_mod ≡ current + w = omega arith in
    let l : leb (current + suc (w + k)) (current + w) ≡ false = ground arith in
    let q : current + suc (w + k) ≡ current + w + suc k = omega arith in
    rw (m, l, weighted_pick) (ap (λ d. weighted_pick d (current + w) ws) q)

picks-later :
    (id current j w : ℕ) (ws : List (ℕ × ℕ)) (k : ℕ)
    → current + w < u32_mod
    → picks id current ((j, w) ∷ ws) (w + k)
      ≡ (if j == id then w else 0) + picks id (current + w) ws k
unfolding picks weighted_pick
picks-later id current j w ws zero h =
    let first = picks-first id current j w ws w h (omega arith) in
    let z : w + 0 ≡ w = omega arith in ap (picks id current ((j, w) ∷ ws)) z ∙ first ∙ omega arith
picks-later id current j w ws (suc k) h =
    let z : w + suc k ≡ suc (w + k) = omega arith in
    let p = weighted_pick-later current j w ws k h in
    let rest = picks-later id current j w ws k h in
    ap (picks id current ((j, w) ∷ ws)) z
    ∙ ap (λ o. one_if (is_this id o) + picks id current ((j, w) ∷ ws) (w + k)) p
    ∙ omega arith

picks-weight_of :
    (id current : ℕ) (ws : List (ℕ × ℕ))
    → current + sum_weights ws < u32_mod
    → picks id current ws (sum_weights ws) ≡ weight_of id ws
unfolding picks
picks-weight_of id current [] h = refl
picks-weight_of id current ((j, w) ∷ ws) h =
    let a = picks-later id current j w ws (sum_weights ws) (omega arith) in
    let b = picks-weight_of id (current + w) ws (omega arith) in ground arith

total_weight-sum :
    (sum : ℕ) (ws : List (ℕ × ℕ))
    → sum + sum_weights ws < u32_mod
    → total_weight sum ws ≡ sum + sum_weights ws
total_weight-sum sum [] h = omega arith
total_weight-sum sum ((id, w) ∷ ws) h =
    let m : (sum + w) % u32_mod ≡ sum + w = omega arith in
    let rest = total_weight-sum (sum + w) ws (omega arith) in rw m (rest ∙ omega arith)

noted-answer : (now : ℕ) (o : Option ℕ) (s : ServiceLoadBalanceInfo) → (noted now o s).0 ≡ o
noted-answer now none s = refl
noted-answer now (some id) s = refl

-- How many of the draws from 1 on select this instance.
abbrev pub draws : ℕ → ℕ → ℕ → ServiceLoadBalanceInfo → ℕ → ℕ
draws id t now s zero = 0
draws id t now s (suc k) =
    one_if (is_this id (select_weighted_random t now (suc k) s).0) + draws id t now s k

select_weighted_random-pick :
    (t now drawn : ℕ) (s : ServiceLoadBalanceInfo)
    → (total_weight 0 (valid_weights t s.instances) == 0) ≡ false
    → (select_weighted_random t now drawn s).0 ≡ weighted_pick drawn 0 (valid_weights t s.instances)
unfolding select_weighted_random
select_weighted_random-pick t now drawn s h =
    rw (h, select_weighted_random)
      (noted-answer now (weighted_pick drawn 0 (valid_weights t s.instances)) s)

draws-picks :
    (id t now : ℕ) (s : ServiceLoadBalanceInfo) (k : ℕ)
    → (total_weight 0 (valid_weights t s.instances) == 0) ≡ false
    → draws id t now s k ≡ picks id 0 (valid_weights t s.instances) k
unfolding picks
draws-picks id t now s zero h = refl
draws-picks id t now s (suc k) h =
    let z : suc k ≡ 0 + suc k = omega arith in
    let p : (select_weighted_random t now (suc k) s).0
        ≡ weighted_pick (0 + suc k) 0 (valid_weights t s.instances) =
      select_weighted_random-pick t now (suc k) s h
      ∙ ap (λ d. weighted_pick d 0 (valid_weights t s.instances)) z in
    ap₂ (λ o n. one_if (is_this id o) + n) p (draws-picks id t now s k h)

-- Of the draws from 1 to the total weight of the available instances, below 2^32, each instance is
-- selected by exactly as many as its weight.
pub draws-weight_of :
    (id t now : ℕ) (s : ServiceLoadBalanceInfo)
    → sum_weights (valid_weights t s.instances) < u32_mod
    → draws id t now s (total_weight 0 (valid_weights t s.instances))
      ≡ weight_of id (valid_weights t s.instances)
unfolding picks
draws-weight_of id t now s h =
    let ws = valid_weights t s.instances in
    let n = total_weight-sum 0 ws (omega arith) in
    let k = picks-weight_of id 0 ws (omega arith) in
    elim (Bool-cases (total_weight 0 ws == 0)) [
      | inl e ↦
          let z : total_weight 0 ws ≡ 0 = (==_iff (total_weight 0 ws) 0).0 e in
          let z' : sum_weights ws ≡ 0 = omega arith in
          ap (draws id t now s) z ∙ sym (ap (picks id 0 ws) z') ∙ k
      | inr e ↦
          let z : total_weight 0 ws ≡ sum_weights ws = omega arith in
          draws-picks id t now s (total_weight 0 ws) e ∙ ap (picks id 0 ws) z ∙ k
    ]
