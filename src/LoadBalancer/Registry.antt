-- ===== src/LoadBalancer/Registry.antt =====
-- Shared/Discovery/LoadBalancer.cpp: which instances a service has, and what is recorded of them.
use helianthus.Prelude.{
  ℕ, ◌+◌, ◌-◌, ◌%◌, Bool, true, false, Option, none, some, List, [], ◌∷◌, u32_mod, find_id, put_id,
  remove_id, Name, find, put, remove, if◌then◌else◌,
}
use helianthus.Discovery.{DiscoveryResult, ServiceInstance}
use helianthus.LoadBalancer.{LoadBalanceEntry, ServiceLoadBalanceInfo}

pub record LoadBalancer : Type 0 where
  pub initialized : Bool
  pub default_weight : ℕ
  pub health_threshold : ℕ
  pub services : List (Name × ServiceLoadBalanceInfo)
  pub instance_to_service : List (ℕ × Name)

abbrev pub empty_service : ServiceLoadBalanceInfo
empty_service = record { round_robin_index = 0; instances = []; total_selections = 0 }

abbrev pub empty_entry : LoadBalanceEntry
empty_entry = record {
  weight = 100;
  current_health = 100;
  active_connections = 0;
  max_connections = 1000;
  is_failed = false;
  total_response_time = 0;
  response_time_count = 0;
  selection_count = 0;
  last_selected_time = 0;
}

-- `Services[name]`, which adds an empty service.
abbrev pub service_or_new : Name → LoadBalancer → ServiceLoadBalanceInfo
service_or_new name lb = elim (find name lb.services) [ none ↦ empty_service | some s ↦ s ]

abbrev pub entry_or_new : ℕ → ServiceLoadBalanceInfo → LoadBalanceEntry
entry_or_new id s = elim (find_id id s.instances) [ none ↦ empty_entry | some e ↦ e ]

abbrev pub put_entry : Name → ℕ → LoadBalanceEntry → LoadBalancer → LoadBalancer
put_entry name id e lb = record lb {
  services =
      put name
        (record (service_or_new name lb) {
          instances = put_id id e (service_or_new name lb).instances;
        })
        lb.services;
}

abbrev pub added : ServiceInstance → LoadBalancer → LoadBalancer
added x lb =
    record (put_entry x.service_name x.instance_id
      (record empty_entry {
        weight = lb.default_weight;
        current_health = x.current_health_score;
        active_connections = x.active_connections;
      })
      lb) { instance_to_service = put_id x.instance_id x.service_name lb.instance_to_service }

unfoldable pub add_service_instance :
    Option ServiceInstance → LoadBalancer → DiscoveryResult × LoadBalancer
add_service_instance none lb = (DiscoveryResult.invalid_service_info, lb)
add_service_instance (some x) lb =
    if lb.initialized
    then (DiscoveryResult.success, added x lb)
    else (DiscoveryResult.invalid_service_info, lb)

abbrev pub is_nil : List (ℕ × LoadBalanceEntry) → Bool
is_nil [] = true
is_nil (e ∷ es) = false

-- A service without instances is removed. The source names the service by a reference into the entry
-- that it has erased; here the name is read before.
abbrev pub without_instance : Name → ℕ → LoadBalancer → LoadBalancer
without_instance name id lb =
    let rest = remove_id id (service_or_new name lb).instances in
    record lb {
      services =
          if is_nil rest
          then remove name lb.services
          else put name (record (service_or_new name lb) { instances = rest }) lb.services;
      instance_to_service = remove_id id lb.instance_to_service;
    }

unfoldable pub remove_service_instance : ℕ → LoadBalancer → DiscoveryResult × LoadBalancer
remove_service_instance id lb = elim (find_id id lb.instance_to_service) [
  | none ↦ (DiscoveryResult.service_not_found, lb)
  | some name ↦ (DiscoveryResult.success, without_instance name id lb)
]

abbrev pub updated : ServiceInstance → LoadBalanceEntry → LoadBalanceEntry
updated x e = record e {
  current_health = x.current_health_score;
  active_connections = x.active_connections;
}

abbrev pub weighing : ℕ → LoadBalanceEntry → LoadBalanceEntry
weighing weight e = record e { weight = weight }

abbrev pub healthy_by : ℕ → LoadBalanceEntry → LoadBalanceEntry
healthy_by score e = record e { current_health = score }

abbrev pub connected : LoadBalanceEntry → LoadBalanceEntry
connected e = record e { active_connections = (e.active_connections + 1) % u32_mod }

abbrev pub disconnected : LoadBalanceEntry → LoadBalanceEntry
disconnected e = record e { active_connections = e.active_connections - 1 }

abbrev pub responded : ℕ → LoadBalanceEntry → LoadBalanceEntry
responded ms e = record e {
  total_response_time = (e.total_response_time + ms) % u32_mod;
  response_time_count = (e.response_time_count + 1) % u32_mod;
}

-- Changes the entry of an instance that is known.
abbrev pub change_entry :
    (LoadBalanceEntry → LoadBalanceEntry) → ℕ → LoadBalancer → DiscoveryResult × LoadBalancer
change_entry f id lb = elim (find_id id lb.instance_to_service) [
  | none ↦ (DiscoveryResult.service_not_found, lb)
  | some name ↦
      (DiscoveryResult.success, put_entry name id (f (entry_or_new id (service_or_new name lb))) lb)
]

unfoldable pub update_service_instance :
    Option ServiceInstance → LoadBalancer → DiscoveryResult × LoadBalancer
update_service_instance none lb = (DiscoveryResult.invalid_service_info, lb)
update_service_instance (some x) lb = change_entry (updated x) x.instance_id lb

unfoldable pub set_instance_weight : ℕ → ℕ → LoadBalancer → DiscoveryResult × LoadBalancer
set_instance_weight id weight lb = change_entry (weighing weight) id lb

unfoldable pub update_instance_health : ℕ → ℕ → LoadBalancer → LoadBalancer
update_instance_health id score lb = (change_entry (healthy_by score) id lb).1

unfoldable pub record_connection : ℕ → LoadBalancer → DiscoveryResult × LoadBalancer
record_connection id lb = change_entry connected id lb

unfoldable pub record_disconnection : ℕ → LoadBalancer → DiscoveryResult × LoadBalancer
record_disconnection id lb = change_entry disconnected id lb

unfoldable pub record_response_time : ℕ → ℕ → LoadBalancer → LoadBalancer
record_response_time id ms lb = (change_entry (responded ms) id lb).1

-- `Services.at` throws where the service is absent: none.
unfoldable pub get_active_connections : ℕ → LoadBalancer → Option ℕ
get_active_connections id lb = elim (find_id id lb.instance_to_service) [
  | none ↦ some 0
  | some name ↦ elim (find name lb.services) [
    | none ↦ none
    | some s ↦ elim (find_id id s.instances) [ none ↦ some 0 | some e ↦ some e.active_connections ]
  ]
]

-- Takes the instances of a service out of the map of instances.
unfoldable pub forgotten : List (ℕ × LoadBalanceEntry) → List (ℕ × Name) → List (ℕ × Name)
forgotten [] known = known
forgotten ((id, e) ∷ entries) known = forgotten entries (remove_id id known)

unfoldable pub clear_service_instances : Name → LoadBalancer → LoadBalancer
unfolding forgotten
clear_service_instances [] lb = record lb { services = []; instance_to_service = [] }
clear_service_instances (c ∷ s) lb = elim (find (c ∷ s) lb.services) [
  | none ↦ lb
  | some info ↦ record lb {
    services = remove (c ∷ s) lb.services;
    instance_to_service = forgotten info.instances lb.instance_to_service;
  }
]

unfoldable pub shutdown : LoadBalancer → LoadBalancer
shutdown lb =
    if lb.initialized
    then record lb { initialized = false; services = []; instance_to_service = [] }
    else lb
