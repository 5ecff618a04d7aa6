-- ===== src/LoadBalancer.antt =====
-- Shared/Discovery/LoadBalancer.cpp: how an instance of a service is selected. An instance is named
-- by its id, and the entries of a service are in the map's iteration order. The lock of the services is
-- held for each call. Random draws are arguments.
pub mod Availability
pub mod Fairness
pub mod Weights
pub mod Registry
pub mod Recorded
pub mod Entries
pub mod Known
mod Tests
use helianthus.Prelude.{
  ℕ, zero, suc, ◌+◌, ◌-◌, ◌*◌, ◌/◌, ◌%◌, ◌^◌, ◌≤◌, ◌<◌, min, max, ◌≡◌, refl, sym, ap, ◌∙◌, ◌≢◌, ◌↔◌,
  ◌⊎◌, inl, inr, Bool, true, false, not, ◌&&◌, ◌||◌, Option, none, some, List, [], ◌∷◌, ◌++◌, map,
  arith, dec_lt, ℕ_discrete, u32_mod, u64_mod, le_bytes, le_value, length-le_bytes,
  le_value-le_bytes, take-le_bytes, drop-le_bytes, one_if, count, erase, length-erase, count-erase,
  count-append, find_id, put_id, remove_id, find_id-put_id, find_id-remove_id, length, get_elem?,
  set, length-append, length-set, get_elem?-set_self, get_elem?-set_ne, get_or, take, drop,
  replicate, take-append-drop, length-take, length-drop, length-replicate, length-map,
  take-length_append, drop-length_append, take-append_le, drop-append_le, All, Name, same_name,
  same_name→eq, same_name_self, eq→same_name, ne→same_name, find, put, remove, find-put,
  find-remove, map_laws, ltb, leb, ◌==◌, if◌then◌else◌, ltb→lt, lt→ltb, leb→le, ==_iff, tests,
  Bool-cases, Option-cases,
}

pub record LoadBalanceEntry : Type 0 where
  pub weight : ℕ
  pub current_health : ℕ
  pub active_connections : ℕ
  pub max_connections : ℕ
  pub is_failed : Bool
  pub total_response_time : ℕ
  pub response_time_count : ℕ
  pub selection_count : ℕ
  pub last_selected_time : ℕ

pub record ServiceLoadBalanceInfo : Type 0 where
  pub round_robin_index : ℕ
  pub instances : List (ℕ × LoadBalanceEntry)
  pub total_selections : ℕ

pub data LoadBalanceStrategy : Type 0 where
  round_robin weighted_round_robin least_connections : LoadBalanceStrategy
  weighted_least_connections random weighted_random : LoadBalanceStrategy
  least_response_time consistent_hash ip_hash : LoadBalanceStrategy

abbrev pub is_instance_healthy : ℕ → LoadBalanceEntry → Bool
is_instance_healthy threshold e = leb threshold e.current_health

abbrev pub is_instance_available : ℕ → LoadBalanceEntry → Bool
is_instance_available threshold e =
    not e.is_failed && is_instance_healthy threshold e && ltb e.active_connections e.max_connections

unfoldable pub available_ids : ℕ → List (ℕ × LoadBalanceEntry) → List ℕ
available_ids threshold [] = []
available_ids threshold ((id, e) ∷ es) =
    if is_instance_available threshold e
    then id ∷ available_ids threshold es
    else available_ids threshold es

abbrev pub selected : ℕ → LoadBalanceEntry → LoadBalanceEntry
selected now e = record e {
  selection_count = (e.selection_count + 1) % u64_mod;
  last_selected_time = now;
}

-- UpdateSelectionStats, for an instance that is there.
unfoldable pub update_selection_stats : ℕ → ℕ → ServiceLoadBalanceInfo → ServiceLoadBalanceInfo
update_selection_stats now id s = elim (find_id id s.instances) [
  | none ↦ s
  | some e ↦ record s {
    instances = put_id id (selected now e) s.instances;
    total_selections = (s.total_selections + 1) % u64_mod;
  }
]

-- Notes a selection, if there is one.
abbrev pub noted : ℕ → Option ℕ → ServiceLoadBalanceInfo → Option ℕ × ServiceLoadBalanceInfo
noted now none s = (none, s)
noted now (some id) s = (some id, update_selection_stats now id s)

-- The element at an index that goes around, and the index after it.
abbrev pub next_of : ℕ → List ℕ → ServiceLoadBalanceInfo → Option ℕ × ServiceLoadBalanceInfo
next_of now [] s = (none, s)
next_of now (id ∷ ids) s =
    noted now (get_elem? (id ∷ ids) (s.round_robin_index % length (id ∷ ids)))
      (record s { round_robin_index = (s.round_robin_index + 1) % u32_mod })

unfoldable pub select_round_robin :
    ℕ → ℕ → ServiceLoadBalanceInfo → Option ℕ × ServiceLoadBalanceInfo
select_round_robin threshold now s = next_of now (available_ids threshold s.instances) s

unfoldable pub least_of : ℕ → ℕ → Option ℕ → List (ℕ × LoadBalanceEntry) → Option ℕ
least_of threshold fewest best [] = best
least_of threshold fewest best ((id, e) ∷ es) =
    let better = least_of threshold e.active_connections (some id) es in
    let same = least_of threshold fewest best es in
    if is_instance_available threshold e && ltb e.active_connections fewest then better else same

unfoldable pub select_least_connections :
    ℕ → ℕ → ServiceLoadBalanceInfo → Option ℕ × ServiceLoadBalanceInfo
select_least_connections threshold now s =
    noted now (least_of threshold (u32_mod - 1) none s.instances) s

-- Every available instance as often as its weight, and at least once.
unfoldable pub weighted_ids : ℕ → List (ℕ × LoadBalanceEntry) → List ℕ
weighted_ids threshold [] = []
weighted_ids threshold ((id, e) ∷ es) =
    if is_instance_available threshold e
    then replicate (max 1 e.weight) id ++ weighted_ids threshold es
    else weighted_ids threshold es

unfoldable pub select_weighted_round_robin :
    ℕ → ℕ → ServiceLoadBalanceInfo → Option ℕ × ServiceLoadBalanceInfo
select_weighted_round_robin threshold now s = next_of now (weighted_ids threshold s.instances) s

abbrev pub valid_weights : ℕ → List (ℕ × LoadBalanceEntry) → List (ℕ × ℕ)
valid_weights threshold [] = []
valid_weights threshold ((id, e) ∷ es) =
    if is_instance_available threshold e
    then (id, e.weight) ∷ valid_weights threshold es
    else valid_weights threshold es

-- The weights are summed in 32 bits.
abbrev pub total_weight : ℕ → List (ℕ × ℕ) → ℕ
total_weight sum [] = sum
total_weight sum ((id, w) ∷ ws) = total_weight ((sum + w) % u32_mod) ws

unfoldable pub weighted_pick : ℕ → ℕ → List (ℕ × ℕ) → Option ℕ
weighted_pick drawn current [] = none
weighted_pick drawn current ((id, w) ∷ ws) =
    if leb drawn ((current + w) % u32_mod)
    then some id
    else weighted_pick drawn ((current + w) % u32_mod) ws

-- `drawn` is the value of the distribution, from 1 to the total weight.
unfoldable pub select_weighted_random :
    ℕ → ℕ → ℕ → ServiceLoadBalanceInfo → Option ℕ × ServiceLoadBalanceInfo
select_weighted_random threshold now drawn s =
    let ws = valid_weights threshold s.instances in
    if total_weight 0 ws == 0 then (none, s) else noted now (weighted_pick drawn 0 ws) s

abbrev pub average_response_time : LoadBalanceEntry → ℕ
average_response_time e =
    if ltb 0 e.response_time_count then e.total_response_time / e.response_time_count else 0

unfoldable pub fastest_of : ℕ → ℕ → Option ℕ → List (ℕ × LoadBalanceEntry) → Option ℕ
fastest_of threshold fastest best [] = best
fastest_of threshold fastest best ((id, e) ∷ es) =
    let better = fastest_of threshold (average_response_time e) (some id) es in
    let same = fastest_of threshold fastest best es in
    if is_instance_available threshold e
      && ltb (average_response_time e) fastest
      && ltb 0 (average_response_time e)
    then better
    else same

unfoldable pub select_fastest_response :
    ℕ → ℕ → ServiceLoadBalanceInfo → Option ℕ × ServiceLoadBalanceInfo
select_fastest_response threshold now s =
    noted now (fastest_of threshold (u32_mod - 1) none s.instances) s

-- `drawn` is an index into the available instances.
unfoldable pub select_random_instance :
    ℕ → ℕ → ℕ → ServiceLoadBalanceInfo → Option ℕ × ServiceLoadBalanceInfo
select_random_instance threshold now drawn s =
    noted now (get_elem? (available_ids threshold s.instances) drawn) s

unfoldable pub healthiest_of : ℕ → ℕ → Option ℕ → List (ℕ × LoadBalanceEntry) → Option ℕ
healthiest_of threshold score best [] = best
healthiest_of threshold score best ((id, e) ∷ es) =
    let better = healthiest_of threshold e.current_health (some id) es in
    let same = healthiest_of threshold score best es in
    if is_instance_available threshold e && ltb score e.current_health then better else same

unfoldable pub select_healthiest_instance :
    ℕ → ℕ → ServiceLoadBalanceInfo → Option ℕ × ServiceLoadBalanceInfo
select_healthiest_instance threshold now s =
    noted now (healthiest_of threshold 0 none s.instances) s

-- SelectHealthyInstance.
abbrev pub select_by :
    LoadBalanceStrategy → ℕ → ℕ → ℕ → ServiceLoadBalanceInfo → Option ℕ × ServiceLoadBalanceInfo
select_by LoadBalanceStrategy.round_robin threshold now drawn s = select_round_robin threshold now s
select_by LoadBalanceStrategy.least_connections threshold now drawn s =
    select_least_connections threshold now s
select_by LoadBalanceStrategy.weighted_round_robin threshold now drawn s =
    select_weighted_round_robin threshold now s
select_by LoadBalanceStrategy.weighted_random threshold now drawn s =
    select_weighted_random threshold now drawn s
select_by LoadBalanceStrategy.least_response_time threshold now drawn s =
    select_fastest_response threshold now s
select_by LoadBalanceStrategy.random threshold now drawn s =
    select_random_instance threshold now drawn s
select_by _ threshold now drawn s = select_round_robin threshold now s
