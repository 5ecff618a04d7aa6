-- ===== src/ServiceRegistry/Lookup.antt =====
-- Shared/Discovery/ServiceRegistry.cpp: the calls that only read. The services come in the order of
-- the list that stands for the map.
use helianthus.Prelude.{
  ℕ, ◌%◌, Bool, true, false, ◌&&◌, ◌||◌, Option, none, some, List, [], ◌∷◌, map, u32_mod, find_id,
  length, Name, same_name, find, leb, if◌then◌else◌,
}
use helianthus.Discovery.{ServiceState, ServiceInstance, state_code, is_healthy}
use helianthus.ServiceRegistry.{ServiceInstanceEntry, ServiceRegistry, ids_of, is_empty}

unfoldable pub get_service : ℕ → ServiceRegistry → Option ServiceInstance
get_service id r = elim (find_id id r.services) [ none ↦ none | some e ↦ some e.instance ]

-- The instances of ids, without those that are not registered.
unfoldable pub instances_of : List ℕ → List (ℕ × ServiceInstanceEntry) → List ServiceInstance
instances_of [] m = []
instances_of (id ∷ ids) m =
    let rest = instances_of ids m in
    elim (find_id id m) [ none ↦ rest | some e ↦ e.instance ∷ rest ]

unfoldable pub get_services_by_name : Name → ServiceRegistry → List ServiceInstance
get_services_by_name name r = instances_of (ids_of name r.services_by_name) r.services

unfoldable pub get_all_services : ServiceRegistry → List ServiceInstance
get_all_services r = map (λ p. p.1.instance) r.services

unfoldable pub kept_by : (ServiceInstance → Bool) → List ServiceInstance → List ServiceInstance
kept_by test [] = []
kept_by test (x ∷ xs) = if test x then x ∷ kept_by test xs else kept_by test xs

unfoldable pub get_healthy_services : Name → ServiceRegistry → List ServiceInstance
unfolding kept_by is_healthy
get_healthy_services name r = kept_by is_healthy (get_services_by_name name r)

unfoldable pub matches_tags : List (Name × Name) → ServiceInstance → Bool
matches_tags [] x = true
matches_tags ((k, v) ∷ wanted) x =
    elim (find k x.tags) [ none ↦ false | some w ↦ same_name w v ] && matches_tags wanted x

unfoldable pub matches_filters :
    List (Name × Name) → Name → Name → ServiceState → ServiceInstance → Bool
unfolding matches_tags
matches_filters wanted region zone min_state x =
    leb (state_code min_state) (state_code x.state)
    && ((is_empty region || same_name x.region region)
        && ((is_empty zone || same_name x.zone zone) && matches_tags wanted x))

unfoldable pub find_services :
    Name → List (Name × Name) → Name → Name → ServiceState → ServiceRegistry → List ServiceInstance
find_services name wanted region zone min_state r =
    kept_by (matches_filters wanted region zone min_state) (get_services_by_name name r)

unfoldable pub find_services_by_tag : Name → Name → ServiceRegistry → List ServiceInstance
find_services_by_tag key value r =
    kept_by
      (λ x. elim (find key x.tags) [ none ↦ false | some w ↦ is_empty value || same_name w value ])
      (get_all_services r)

unfoldable pub find_services_by_region : Name → ServiceRegistry → List ServiceInstance
find_services_by_region region r = kept_by (λ x. same_name x.region region) (get_all_services r)

unfoldable pub find_services_by_zone : Name → ServiceRegistry → List ServiceInstance
find_services_by_zone zone r = kept_by (λ x. same_name x.zone zone) (get_all_services r)

unfoldable pub get_service_state : ℕ → ServiceRegistry → ServiceState
get_service_state id r = elim (find_id id r.services) [
  | none ↦ ServiceState.unknown
  | some e ↦ e.instance.state
]

unfoldable pub get_service_names : ServiceRegistry → List Name
get_service_names r = map (λ p. p.0) r.services_by_name

unfoldable pub get_service_count : ServiceRegistry → ℕ
get_service_count r = length r.services_by_name % u32_mod

unfoldable pub get_service_instance_count : ServiceRegistry → ℕ
get_service_instance_count r = length r.services % u32_mod
