-- ===== src/LoadBalancer/Availability.antt =====
-- Shared/Discovery/LoadBalancer.cpp: every strategy selects an available instance.
use mathlib.Core.Bool.{true≢false}
use helianthus.Prelude.{
  ℕ, zero, suc, ◌+◌, ◌-◌, ◌%◌, max, ◌≡◌, refl, sym, ◌∙◌, ◌⊎◌, inl, Bool, true, false, ◌&&◌, ◌||◌,
  Option, none, some, List, [], ◌∷◌, ◌++◌, arith, u32_mod, length, get_elem?, replicate, ◌==◌,
}
use helianthus.LoadBalancer.{
  LoadBalanceEntry, ServiceLoadBalanceInfo, LoadBalanceStrategy, is_instance_available,
  available_ids, noted, next_of, select_round_robin, least_of, select_least_connections,
  weighted_ids, select_weighted_round_robin, valid_weights, weighted_pick, select_weighted_random,
  average_response_time, fastest_of, select_fastest_response, select_random_instance, select_by,
}

-- An entry for this instance is available.
abbrev pub offers : ℕ → ℕ → List (ℕ × LoadBalanceEntry) → Bool
offers threshold id [] = false
offers threshold id ((j, e) ∷ es) =
    ((j == id) && is_instance_available threshold e) || offers threshold id es

is_in : ℕ → List ℕ → Bool
is_in id [] = false
is_in id (j ∷ js) = (j == id) || is_in id js

get_elem?-is_in : (ids : List ℕ) (i id : ℕ) → get_elem? ids i ≡ some id → is_in id ids ≡ true
unfolding is_in
get_elem?-is_in [] i id e = cc
get_elem?-is_in (j ∷ js) zero id e = ground arith
get_elem?-is_in (j ∷ js) (suc i) id e = let rest = get_elem?-is_in js i id e in ground arith

is_in-available :
    (t id : ℕ) (es : List (ℕ × LoadBalanceEntry))
    → is_in id (available_ids t es) ≡ true
    → offers t id es ≡ true
unfolding is_in available_ids
is_in-available t id [] h = h
is_in-available t id ((j, e) ∷ es) h = ground (arith, is_in-available t id es)

is_in-append : (id : ℕ) (xs ys : List ℕ) → is_in id (xs ++ ys) ≡ (is_in id xs || is_in id ys)
unfolding is_in
is_in-append id [] ys = refl
is_in-append id (x ∷ xs) ys = ground (arith, is_in-append id xs ys)

is_in-replicate : (id j n : ℕ) → is_in id (replicate n j) ≡ true → (j == id) ≡ true
unfolding is_in
is_in-replicate id j zero h = absurd (true≢false (sym h))
is_in-replicate id j (suc n) h = ground (arith, is_in-replicate id j n)

is_in-weighted :
    (t id : ℕ) (es : List (ℕ × LoadBalanceEntry))
    → is_in id (weighted_ids t es) ≡ true
    → offers t id es ≡ true
unfolding is_in weighted_ids
is_in-weighted t id [] h = h
is_in-weighted t id ((j, e) ∷ es) h = ground (
  arith,
  is_in-weighted t id es,
  is_in-append id (replicate (max 1 e.weight) j) (weighted_ids t es),
  is_in-replicate id j (max 1 e.weight),
)

noted-answer : (now : ℕ) (o : Option ℕ) (s : ServiceLoadBalanceInfo) → (noted now o s).0 ≡ o
noted-answer now none s = refl
noted-answer now (some id) s = refl

next_of-is_in :
    (now id : ℕ) (ids : List ℕ) (s : ServiceLoadBalanceInfo)
    → (next_of now ids s).0 ≡ some id
    → is_in id ids ≡ true
next_of-is_in now id [] s e = cc
next_of-is_in now id (j ∷ js) s e =
    get_elem?-is_in (j ∷ js) (s.round_robin_index % length (j ∷ js)) id (
      sym (
        noted-answer now (get_elem? (j ∷ js) (s.round_robin_index % length (j ∷ js)))
          (record s { round_robin_index = (s.round_robin_index + 1) % u32_mod }))
      ∙ e)

-- The searches through the entries keep the best so far.
module _ (t id : ℕ) where
  least_of-offers :
      (fewest : ℕ) (best : Option ℕ) (es : List (ℕ × LoadBalanceEntry))
      → least_of t fewest best es ≡ some id
      → (best ≡ some id) ⊎ (offers t id es ≡ true)
  unfolding least_of
  least_of-offers fewest best [] h = inl h
  least_of-offers fewest best ((j, e) ∷ es) h =
      ground
        (arith, least_of-offers e.active_connections (some j) es, least_of-offers fewest best es)

  fastest_of-offers :
      (fastest : ℕ) (best : Option ℕ) (es : List (ℕ × LoadBalanceEntry))
      → fastest_of t fastest best es ≡ some id
      → (best ≡ some id) ⊎ (offers t id es ≡ true)
  unfolding fastest_of
  fastest_of-offers fastest best [] h = inl h
  fastest_of-offers fastest best ((j, e) ∷ es) h = ground (
    arith,
    fastest_of-offers (average_response_time e) (some j) es,
    fastest_of-offers fastest best es,
  )

  weighted_pick-offers :
      (drawn current : ℕ) (es : List (ℕ × LoadBalanceEntry))
      → weighted_pick drawn current (valid_weights t es) ≡ some id
      → offers t id es ≡ true
  unfolding weighted_pick
  weighted_pick-offers drawn current [] h = cc
  weighted_pick-offers drawn current ((j, e) ∷ es) h = ground (
    arith,
    weighted_pick-offers drawn current es,
    weighted_pick-offers drawn ((current + e.weight) % u32_mod) es,
  )

-- Whatever the strategy and the draw, the instance selected is one that is available.
pub select_by-available :
    (strategy : LoadBalanceStrategy) (t now drawn id : ℕ) (s : ServiceLoadBalanceInfo)
    → (select_by strategy t now drawn s).0 ≡ some id
    → offers t id s.instances ≡ true
unfolding select_round_robin select_least_connections select_weighted_round_robin
    select_weighted_random select_fastest_response select_random_instance
select_by-available LoadBalanceStrategy.round_robin t now drawn id s h =
    is_in-available t id s.instances (next_of-is_in now id (available_ids t s.instances) s h)
select_by-available LoadBalanceStrategy.weighted_least_connections t now drawn id s h =
    is_in-available t id s.instances (next_of-is_in now id (available_ids t s.instances) s h)
select_by-available LoadBalanceStrategy.consistent_hash t now drawn id s h =
    is_in-available t id s.instances (next_of-is_in now id (available_ids t s.instances) s h)
select_by-available LoadBalanceStrategy.ip_hash t now drawn id s h =
    is_in-available t id s.instances (next_of-is_in now id (available_ids t s.instances) s h)
select_by-available LoadBalanceStrategy.weighted_round_robin t now drawn id s h =
    is_in-weighted t id s.instances (next_of-is_in now id (weighted_ids t s.instances) s h)
select_by-available LoadBalanceStrategy.least_connections t now drawn id s h =
    let k = least_of-offers t id (u32_mod - 1) none s.instances in
    let n = noted-answer now (least_of t (u32_mod - 1) none s.instances) s in ground arith
select_by-available LoadBalanceStrategy.least_response_time t now drawn id s h =
    let k = fastest_of-offers t id (u32_mod - 1) none s.instances in
    let n = noted-answer now (fastest_of t (u32_mod - 1) none s.instances) s in ground arith
select_by-available LoadBalanceStrategy.weighted_random t now drawn id s h =
    let k = weighted_pick-offers t id drawn 0 s.instances in
    let n = noted-answer now (weighted_pick drawn 0 (valid_weights t s.instances)) s in ground arith
select_by-available LoadBalanceStrategy.random t now drawn id s h =
    let n = noted-answer now (get_elem? (available_ids t s.instances) drawn) s in
    is_in-available t id s.instances
      (get_elem?-is_in (available_ids t s.instances) drawn id (sym n ∙ h))

abbrev pub unrecorded : List (ℕ × LoadBalanceEntry) → Bool
unrecorded [] = true
unrecorded ((id, e) ∷ es) = (e.response_time_count == 0) && unrecorded es

fastest_of-unrecorded :
    (t fastest : ℕ) (best : Option ℕ) (es : List (ℕ × LoadBalanceEntry))
    → unrecorded es ≡ true
    → fastest_of t fastest best es ≡ best
unfolding fastest_of
fastest_of-unrecorded t fastest best [] h = refl
fastest_of-unrecorded t fastest best ((j, e) ∷ es) h =
    ground (arith, fastest_of-unrecorded t fastest best es)

-- Before any response time was recorded, the strategy of the least response time selects nothing,
-- although instances may be available.
pub select_fastest_response-none :
    (t now : ℕ) (s : ServiceLoadBalanceInfo)
    → unrecorded s.instances ≡ true
    → (select_fastest_response t now s).0 ≡ none
unfolding select_fastest_response
select_fastest_response-none t now s h =
    noted-answer now (fastest_of t (u32_mod - 1) none s.instances) s
    ∙ fastest_of-unrecorded t (u32_mod - 1) none s.instances h
