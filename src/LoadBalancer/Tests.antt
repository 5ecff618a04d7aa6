-- ===== src/LoadBalancer/Tests.antt =====
-- Shared/Discovery/LoadBalancer.cpp: runs and applications at concrete values.
use helianthus.Prelude.{ℕ, ◌≡◌, refl, true, false, some, [], ◌∷◌, arith, Name, find_id}
use helianthus.LoadBalancer.{
  LoadBalanceEntry, ServiceLoadBalanceInfo, LoadBalanceStrategy, available_ids, least_of,
  select_least_connections, valid_weights, total_weight,
}
use helianthus.Discovery.{ServiceInstance, ServiceState}
use helianthus.LoadBalancer.Registry.{LoadBalancer, get_active_connections}
use helianthus.LoadBalancer.Known.{Call, perform_all, IsKnown, get_active_connections_total}
use helianthus.LoadBalancer.Availability.{offers, select_by-available}
use helianthus.LoadBalancer.Fairness.{turns, all_some, turns-available_ids}
use helianthus.LoadBalancer.Weights.{weight_of, draws, draws-weight_of}

abbrev entry : ℕ → ℕ → LoadBalanceEntry
entry weight active = record {
  weight = weight;
  current_health = 100;
  active_connections = active;
  max_connections = 10;
  is_failed = false;
  total_response_time = 0;
  response_time_count = 0;
  selection_count = 0;
  last_selected_time = 0;
}

abbrev service : ServiceLoadBalanceInfo
service = record {
  round_robin_index = 4;
  instances = (7, entry 2 3) ∷ (8, entry 3 10) ∷ (9, entry 1 0) ∷ [];
  total_selections = 0;
}

select_by-available_example : offers 50 9 service.instances ≡ true
unfolding select_least_connections least_of
select_by-available_example =
    select_by-available LoadBalanceStrategy.least_connections 50 5 0 9 service refl

turns-available_ids_example :
    turns 50 (5 ∷ 6 ∷ []) service ≡ all_some (available_ids 50 service.instances)
unfolding available_ids
turns-available_ids_example = turns-available_ids 50 (5 ∷ 6 ∷ []) service refl refl (omega arith)

draws-weight_of_example :
    draws 7 50 5 service (total_weight 0 (valid_weights 50 service.instances))
    ≡ weight_of 7 (valid_weights 50 service.instances)
draws-weight_of_example = draws-weight_of 7 50 5 service (omega arith)

abbrev games : Name
games = 103 ∷ []

abbrev chats : Name
chats = 99 ∷ []

abbrev known : LoadBalancer
known = record {
  initialized = true;
  default_weight = 100;
  health_threshold = 50;
  services = (games, service) ∷ [];
  instance_to_service = (7, games) ∷ (8, games) ∷ (9, games) ∷ [];
}

abbrev instance_of : Name → ServiceInstance
instance_of name = record {
  instance_id = 4;
  service_name = name;
  state = ServiceState.healthy;
  current_health_score = 90;
  active_connections = 0;
  max_connections = 1000;
  tags = [];
  region = [];
  zone = [];
}

abbrev fresh : LoadBalancer
fresh = record {
  initialized = true;
  default_weight = 100;
  health_threshold = 50;
  services = [];
  instance_to_service = [];
}

fresh-IsKnown : IsKnown fresh
unfolding IsKnown find_id
fresh-IsKnown = λ id name e. cc

get_active_connections_total_example :
    (n : ℕ) × (get_active_connections 4 (
        perform_all
          (Call.add (some (instance_of games)) ∷ Call.connection 4 ∷ Call.removal 9 ∷ [])
          fresh)
      ≡ some n)
get_active_connections_total_example =
    get_active_connections_total
      (Call.add (some (instance_of games)) ∷ Call.connection 4 ∷ Call.removal 9 ∷ []) 4 fresh
      fresh-IsKnown
