-- ===== src/ServiceRegistry/Removal.antt =====
-- Shared/Discovery/ServiceRegistry.cpp: the calls that take services out. ServicesMutex is not
-- recursive, so a call that locks it while it is held does not return: the result is `none`.
use helianthus.Prelude.{
  ℕ, Bool, true, false, Option, none, some, List, [], ◌∷◌, find_id, remove_id, Name, find, put,
  remove, ◌==◌, if◌then◌else◌,
}
use helianthus.Discovery.{DiscoveryResult}
use helianthus.ServiceRegistry.{
  ServiceInstanceEntry, is_expired, ServiceRegistry, ids_of, update_stats_on_deregistration,
}

-- `std::remove` of every occurrence.
unfoldable pub without : ℕ → List ℕ → List ℕ
without id [] = []
without id (i ∷ ids) = if i == id then without id ids else i ∷ without id ids

abbrev pub no_ids : List ℕ → Bool
no_ids [] = true
no_ids (i ∷ ids) = false

-- A name that lists no id is taken out.
abbrev pub unlisted : Name → ℕ → List (Name × List ℕ) → List (Name × List ℕ)
unlisted name id m =
    let rest = without id (ids_of name m) in if no_ids rest then remove name m else put name rest m

abbrev pub deregistered : ℕ → ServiceInstanceEntry → ServiceRegistry → ServiceRegistry
deregistered id e r = record r {
  services_by_name = unlisted e.instance.service_name id r.services_by_name;
  services = remove_id id r.services;
}

-- What DeregisterService does once it has the lock.
unfoldable pub deregister_service : ℕ → ServiceRegistry → DiscoveryResult × ServiceRegistry
unfolding update_stats_on_deregistration
deregister_service id r = elim (find_id id r.services) [
  | none ↦ (DiscoveryResult.service_not_found, r)
  | some e ↦ (DiscoveryResult.success, update_stats_on_deregistration (deregistered id e r))
]

-- Whether the thread holds ServicesMutex already.
unfoldable pub lock_and_deregister :
    Bool → ℕ → ServiceRegistry → Option (DiscoveryResult × ServiceRegistry)
lock_and_deregister held id r = if held then none else some (deregister_service id r)

unfoldable pub erase_all : List ℕ → ServiceRegistry → ServiceRegistry
unfolding update_stats_on_deregistration
erase_all [] r = r
erase_all (id ∷ ids) r =
    erase_all ids (update_stats_on_deregistration (record r { services = remove_id id r.services }))

unfoldable pub deregister_service_by_name :
    Name → ServiceRegistry → DiscoveryResult × ServiceRegistry
deregister_service_by_name name r = elim (find name r.services_by_name) [
  | none ↦ (DiscoveryResult.service_not_found, r)
  | some ids ↦
      let rest = erase_all ids r in
      (
        DiscoveryResult.success,
        record rest { services_by_name = remove name rest.services_by_name },
      )
]

unfoldable pub expired_ids : ℕ → List (ℕ × ServiceInstanceEntry) → List ℕ
unfolding is_expired
expired_ids now [] = []
expired_ids now ((id, e) ∷ m) =
    if is_expired now e then id ∷ expired_ids now m else expired_ids now m

unfoldable pub deregister_all : Bool → List ℕ → ServiceRegistry → Option ServiceRegistry
unfolding lock_and_deregister
deregister_all held [] r = some r
deregister_all held (id ∷ ids) r = elim (lock_and_deregister held id r) [
  | none ↦ none
  | some (answer, r') ↦ deregister_all held ids r'
]

-- The loop runs with the mutex held.
unfoldable pub cleanup_expired_services : ℕ → ServiceRegistry → Option ServiceRegistry
cleanup_expired_services now r = deregister_all true (expired_ids now r.services) r
