-- ===== src/ServiceRegistry/Directory.antt =====
-- What the registry of Shared/Discovery/ServiceRegistry.cpp promises: one map from ids to instances,
-- in which names are looked up by searching, and the calls with their replies.
use helianthus.Prelude.{
  ℕ, ◌+◌, Bool, true, false, not, ◌||◌, Option, none, some, List, [], ◌∷◌, ◌++◌, find_id, put_id,
  remove_id, length, Name, leb, if◌then◌else◌,
}
use helianthus.Discovery.{DiscoveryResult, ServiceState, ServiceInstance}
use helianthus.ServiceRegistry.{
  ServiceRegistry, is_empty, register_service, update_service, send_heartbeat, update_service_state,
  update_service_health, update_service_load, set_maintenance_mode, reset_registry,
}
use helianthus.ServiceRegistry.Removal.{deregister_service, deregister_service_by_name}
use helianthus.ServiceRegistry.Lookup.{get_service, get_services_by_name}
use helianthus.ServiceRegistry.Listing.{named, unnamed}

pub data Call : Type 0 where
  register : ℕ → ServiceInstance → Call
  update : ℕ → ServiceInstance → Call
  heartbeat health load : ℕ → ℕ → Call
  state : ℕ → ServiceState → Call
  deregister get : ℕ → Call
  deregister_name get_name : Name → Call
  maintenance : Bool → Call
  reset : Call

pub data Reply : Type 0 where
  answer : DiscoveryResult → Reply
  entry : DiscoveryResult → Option ℕ → Reply
  found : Option ServiceInstance → Reply
  listed : List ServiceInstance → Reply
  done : Reply

unfoldable pub perform : Call → ServiceRegistry → Reply × ServiceRegistry
perform (Call.register now x) r =
    let (a, id, r') = register_service now x r in (Reply.entry a id, r')
perform (Call.update id x) r = let (a, r') = update_service id x r in (Reply.answer a, r')
perform (Call.heartbeat now id) r = let (a, r') = send_heartbeat now id r in (Reply.answer a, r')
perform (Call.health id n) r = let (a, r') = update_service_health id n r in (Reply.answer a, r')
perform (Call.load id n) r = let (a, r') = update_service_load id n r in (Reply.answer a, r')
perform (Call.state id s) r = let (a, r') = update_service_state id s r in (Reply.answer a, r')
perform (Call.deregister id) r = let (a, r') = deregister_service id r in (Reply.answer a, r')
perform (Call.deregister_name name) r =
    let (a, r') = deregister_service_by_name name r in (Reply.answer a, r')
perform (Call.get id) r = (Reply.found (get_service id r), r)
perform (Call.get_name name) r = (Reply.listed (get_services_by_name name r), r)
perform (Call.maintenance b) r = (Reply.done, set_maintenance_mode b r)
perform Call.reset r = (Reply.done, reset_registry r)

unfoldable pub perform_all : List Call → ServiceRegistry → List Reply
perform_all [] r = []
perform_all (c ∷ cs) r = let (a, r') = perform c r in a ∷ perform_all cs r'

pub record Directory : Type 0 where
  pub initialized : Bool
  pub maintenance_mode : Bool
  pub capacity : ℕ
  pub next : ℕ
  pub instances : List (ℕ × ServiceInstance)

abbrev pub change : (ServiceInstance → ServiceInstance) → ℕ → Directory → Reply × Directory
change f id d = elim (find_id id d.instances) [
  | none ↦ (Reply.answer DiscoveryResult.service_not_found, d)
  | some x ↦
      (Reply.answer DiscoveryResult.success, record d { instances = put_id id (f x) d.instances })
]

abbrev pub nothing_named : List ServiceInstance → Bool
nothing_named [] = true
nothing_named (x ∷ xs) = false

abbrev pub admitted : ServiceInstance → Directory → Directory
admitted x d = record d {
  next = d.next + 1;
  instances = d.instances ++ ((d.next, record x { instance_id = d.next }) ∷ []);
}

unfoldable pub expected : Call → Directory → Reply × Directory
expected (Call.register now x) d =
    if not d.initialized || d.maintenance_mode
    then (Reply.entry DiscoveryResult.internal_error none, d)
    else if is_empty x.service_name
    then (Reply.entry DiscoveryResult.invalid_service_info none, d)
    else if leb d.capacity (length d.instances)
    then (Reply.entry DiscoveryResult.registry_full none, d)
    else (Reply.entry DiscoveryResult.success (some d.next), admitted x d)
expected (Call.update id x) d = change (λ y. record x { instance_id = id }) id d
expected (Call.heartbeat now id) d = change (λ y. y) id d
expected (Call.health id n) d = change (λ y. record y { current_health_score = n }) id d
expected (Call.load id n) d = change (λ y. record y { active_connections = n }) id d
expected (Call.state id s) d = change (λ y. record y { state = s }) id d
expected (Call.deregister id) d = elim (find_id id d.instances) [
  | none ↦ (Reply.answer DiscoveryResult.service_not_found, d)
  | some x ↦
      (Reply.answer DiscoveryResult.success, record d { instances = remove_id id d.instances })
]
expected (Call.deregister_name name) d =
    if nothing_named (named name d.instances)
    then (Reply.answer DiscoveryResult.service_not_found, d)
    else (Reply.answer DiscoveryResult.success, record d { instances = unnamed name d.instances })
expected (Call.get id) d = (Reply.found (find_id id d.instances), d)
expected (Call.get_name name) d = (Reply.listed (named name d.instances), d)
expected (Call.maintenance b) d = (Reply.done, record d { maintenance_mode = b })
expected Call.reset d = (Reply.done, record d { instances = [] })

unfoldable pub expected_all : List Call → Directory → List Reply
expected_all [] d = []
expected_all (c ∷ cs) d = let (a, d') = expected c d in a ∷ expected_all cs d'
