-- ===== src/ServiceRegistry.antt =====
-- Shared/Discovery/ServiceRegistry.cpp: the state of the registry, and the calls that change it. The
-- clock is an argument. An instance is a value: a client that changes one it was handed is not
-- modelled. The callbacks and the cleanup thread's sleep are left out.
pub mod Removal
pub mod Lookup
pub mod Listing
pub mod Contents
pub mod Erasing
pub mod Directory
pub mod Indexed
pub mod Refines
pub mod Agreement
pub mod Refinement
pub mod Cleanup
mod Tests
use helianthus.Prelude.{
  ℕ, zero, suc, ◌+◌, ◌-◌, ◌*◌, ◌/◌, ◌%◌, ◌^◌, ◌≤◌, ◌<◌, min, max, ◌≡◌, refl, sym, ap, ◌∙◌, ◌≢◌, ◌↔◌,
  ◌⊎◌, inl, inr, Bool, true, false, not, ◌&&◌, ◌||◌, Option, none, some, List, [], ◌∷◌, ◌++◌, map,
  arith, dec_lt, ℕ_discrete, u32_mod, u64_mod, le_bytes, le_value, length-le_bytes,
  le_value-le_bytes, take-le_bytes, drop-le_bytes, one_if, count, erase, length-erase, count-erase,
  count-append, find_id, put_id, remove_id, find_id-put_id, find_id-remove_id, length, get_elem?,
  set, length-append, length-set, get_elem?-set_self, get_elem?-set_ne, get_or, take, drop,
  replicate, take-append-drop, length-take, length-drop, length-replicate, length-map,
  take-length_append, drop-length_append, take-append_le, drop-append_le, All, Name, same_name,
  same_name→eq, same_name_self, eq→same_name, ne→same_name, find, put, remove, find-put,
  find-remove, map_laws, ltb, leb, ◌==◌, if◌then◌else◌, ltb→lt, lt→ltb, leb→le, ==_iff, tests,
  Bool-cases, Option-cases,
}
use helianthus.Discovery.{DiscoveryResult, ServiceState, ServiceInstance}

-- What is read of the configuration.
pub record RegistryConfig : Type 0 where
  pub max_services : ℕ
  pub default_ttl_ms : ℕ
  pub cleanup_interval_ms : ℕ

pub record DiscoveryStats : Type 0 where
  pub total_services : ℕ
  pub total_service_instances : ℕ
  pub registration_count : ℕ
  pub deregistration_count : ℕ

pub record ServiceInstanceEntry : Type 0 where
  pub instance : ServiceInstance
  pub registration_time : ℕ
  pub last_heartbeat : ℕ
  pub ttl_ms : ℕ

-- `Now - LastHeartbeat` is unsigned: a heartbeat later than the clock counts as expired.
unfoldable pub is_expired : ℕ → ServiceInstanceEntry → Bool
is_expired now e = ltb e.ttl_ms ((now + u64_mod - e.last_heartbeat) % u64_mod)

pub record ServiceRegistry : Type 0 where
  pub config : RegistryConfig
  pub initialized : Bool
  pub maintenance_mode : Bool
  pub shutting_down : Bool
  pub cleanup_started : Bool
  pub services : List (ℕ × ServiceInstanceEntry)
  pub services_by_name : List (Name × List ℕ)
  pub next_instance_id : ℕ
  pub stats : DiscoveryStats

unfoldable pub initialize : RegistryConfig → ServiceRegistry → DiscoveryResult × ServiceRegistry
initialize config r = if r.initialized then (DiscoveryResult.internal_error, r) else (
  DiscoveryResult.success,
  record r {
    config = config;
    initialized = true;
    shutting_down = false;
    cleanup_started = ltb 0 config.cleanup_interval_ms || r.cleanup_started;
  },
)

unfoldable pub reset_registry : ServiceRegistry → ServiceRegistry
reset_registry r = record r { services = []; services_by_name = [] }

unfoldable pub shutdown : ServiceRegistry → ServiceRegistry
unfolding reset_registry
shutdown r =
    if r.initialized
    then (record (reset_registry r) {
      shutting_down = true;
      cleanup_started = false;
      initialized = false;
    })
    else r

unfoldable pub set_maintenance_mode : Bool → ServiceRegistry → ServiceRegistry
set_maintenance_mode enable r = record r { maintenance_mode = enable }

unfoldable pub update_config : RegistryConfig → ServiceRegistry → ServiceRegistry
update_config config r = record r { config = config }

-- The ids listed for a name.
abbrev pub ids_of : Name → List (Name × List ℕ) → List ℕ
ids_of name m = elim (find name m) [ none ↦ [] | some ids ↦ ids ]

abbrev pub size_stats : ServiceRegistry → DiscoveryStats
size_stats r = record r.stats {
  total_services = length r.services_by_name % u32_mod;
  total_service_instances = length r.services % u32_mod;
}

unfoldable pub update_stats_on_registration : ServiceRegistry → ServiceRegistry
update_stats_on_registration r = record r {
  stats = record (size_stats r) { registration_count = (r.stats.registration_count + 1) % u64_mod };
}

unfoldable pub update_stats_on_deregistration : ServiceRegistry → ServiceRegistry
update_stats_on_deregistration r = record r {
  stats = record (size_stats r) {
    deregistration_count = (r.stats.deregistration_count + 1) % u64_mod;
  };
}

abbrev pub new_entry : ℕ → ServiceInstance → ServiceRegistry → ServiceInstanceEntry
new_entry now x r = record {
  instance = record x { instance_id = r.next_instance_id };
  registration_time = now;
  last_heartbeat = now;
  ttl_ms = r.config.default_ttl_ms;
}

-- Enters an instance under a new id.
abbrev pub entered : ℕ → ServiceInstance → ServiceRegistry → ServiceRegistry
entered now x r = record r {
  next_instance_id = (r.next_instance_id + 1) % u64_mod;
  services = put_id r.next_instance_id (new_entry now x r) r.services;
  services_by_name =
      put x.service_name (ids_of x.service_name r.services_by_name ++ (r.next_instance_id ∷ []))
        r.services_by_name;
}

abbrev pub is_empty : Name → Bool
is_empty [] = true
is_empty (c ∷ s) = false

-- The id is that of the new instance.
unfoldable pub register_service :
    ℕ → ServiceInstance → ServiceRegistry → DiscoveryResult × Option ℕ × ServiceRegistry
unfolding update_stats_on_registration
register_service now x r =
    if not r.initialized || r.maintenance_mode
    then (DiscoveryResult.internal_error, none, r)
    else if is_empty x.service_name
    then (DiscoveryResult.invalid_service_info, none, r)
    else if leb r.config.max_services (length r.services)
    then (DiscoveryResult.registry_full, none, r)
    else (
      DiscoveryResult.success,
      some r.next_instance_id,
      update_stats_on_registration (entered now x r),
    )

-- Changes the entry of an instance that is registered.
abbrev pub change_entry :
    (ServiceInstanceEntry → ServiceInstanceEntry)
    → ℕ
    → ServiceRegistry
    → DiscoveryResult × ServiceRegistry
change_entry f id r = elim (find_id id r.services) [
  | none ↦ (DiscoveryResult.service_not_found, r)
  | some e ↦ (DiscoveryResult.success, record r { services = put_id id (f e) r.services })
]

abbrev pub with_instance : ℕ → ServiceInstance → ServiceInstanceEntry → ServiceInstanceEntry
with_instance id x e = record e { instance = record x { instance_id = id } }

abbrev pub heard_at : ℕ → ServiceInstanceEntry → ServiceInstanceEntry
heard_at now e = record e { last_heartbeat = now }

abbrev pub with_state : ServiceState → ServiceInstanceEntry → ServiceInstanceEntry
with_state s e = record e { instance = record e.instance { state = s } }

abbrev pub with_health : ℕ → ServiceInstanceEntry → ServiceInstanceEntry
with_health score e = record e { instance = record e.instance { current_health_score = score } }

abbrev pub with_load : ℕ → ServiceInstanceEntry → ServiceInstanceEntry
with_load n e = record e { instance = record e.instance { active_connections = n } }

unfoldable pub update_service :
    ℕ → ServiceInstance → ServiceRegistry → DiscoveryResult × ServiceRegistry
update_service id x r = change_entry (with_instance id x) id r

-- RenewService is the same call.
unfoldable pub send_heartbeat : ℕ → ℕ → ServiceRegistry → DiscoveryResult × ServiceRegistry
send_heartbeat now id r = change_entry (heard_at now) id r

unfoldable pub update_service_state :
    ℕ → ServiceState → ServiceRegistry → DiscoveryResult × ServiceRegistry
update_service_state id s r = change_entry (with_state s) id r

unfoldable pub update_service_health : ℕ → ℕ → ServiceRegistry → DiscoveryResult × ServiceRegistry
update_service_health id score r = change_entry (with_health score) id r

unfoldable pub update_service_load : ℕ → ℕ → ServiceRegistry → DiscoveryResult × ServiceRegistry
update_service_load id n r = change_entry (with_load n) id r
