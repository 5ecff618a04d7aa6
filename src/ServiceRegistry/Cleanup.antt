-- ===== src/ServiceRegistry/Cleanup.antt =====
-- Shared/Discovery/ServiceRegistry.cpp: the cleanup of expired services, and an update of a name.
use helianthus.Prelude.{
  ℕ, ◌≡◌, refl, ap, inl, inr, true, false, none, some, List, [], ◌∷◌, arith, find_id,
  find_id-put_id, All, find, ◌==◌, Bool-cases,
}
use helianthus.Discovery.{ServiceInstance}
use helianthus.ServiceRegistry.{
  ServiceInstanceEntry, is_expired, ServiceRegistry, change_entry, with_instance, update_service,
}
use helianthus.ServiceRegistry.Removal.{
  no_ids, expired_ids, deregister_all, cleanup_expired_services,
}
use helianthus.ServiceRegistry.Lookup.{get_service, instances_of, get_services_by_name}
use helianthus.ServiceRegistry.Listing.{Services}

expired_ids-none :
    (now : ℕ) (m : Services) → All (λ p. is_expired now p.1 ≡ false) m → expired_ids now m ≡ []
unfolding expired_ids
expired_ids-none now [] h = refl
expired_ids-none now ((k, d) ∷ m) h = ground (arith, expired_ids-none now m)

expired_ids-some :
    (now id : ℕ) (e : ServiceInstanceEntry) (m : Services)
    → find_id id m ≡ some e
    → is_expired now e ≡ true
    → no_ids (expired_ids now m) ≡ false
unfolding expired_ids find_id
expired_ids-some now id e [] f x = cc
expired_ids-some now id e ((k, d) ∷ m) f x = elim (Bool-cases (k == id)) [
  | inl t ↦ let s : d ≡ e = ground arith in let y = ap (is_expired now) s in ground arith
  | inr t ↦ ground (arith, expired_ids-some now id e m)
]

deregister_all-held :
    (ids : List ℕ) (r : ServiceRegistry) → no_ids ids ≡ false → deregister_all true ids r ≡ none
unfolding deregister_all
deregister_all-held [] r h = cc
deregister_all-held (id ∷ ids) r h = refl

cleanup_expired_services-none_expired :
    (now : ℕ) (r : ServiceRegistry)
    → All (λ p. is_expired now p.1 ≡ false) r.services
    → cleanup_expired_services now r ≡ some r
unfolding cleanup_expired_services deregister_all
cleanup_expired_services-none_expired now r h =
    ap (λ ids. deregister_all true ids r) (expired_ids-none now r.services h)

-- The cleanup does not return if a service has expired.
pub cleanup_expired_services-blocks :
    (now id : ℕ) (e : ServiceInstanceEntry) (r : ServiceRegistry)
    → find_id id r.services ≡ some e
    → is_expired now e ≡ true
    → cleanup_expired_services now r ≡ none
unfolding cleanup_expired_services
cleanup_expired_services-blocks now id e r f x =
    deregister_all-held (expired_ids now r.services) r (expired_ids-some now id e r.services f x)

-- An instance that is updated to a name which is not listed has that name from then on, but is not
-- found under it.
pub update_service-renamed :
    (id : ℕ) (x : ServiceInstance) (e : ServiceInstanceEntry) (r : ServiceRegistry)
    → find_id id r.services ≡ some e
    → find x.service_name r.services_by_name ≡ none
    → (let r' = (update_service id x r).1 in
        (get_service id r' ≡ some (record x { instance_id = id }))
        × (get_services_by_name x.service_name r' ≡ []))
unfolding update_service get_service get_services_by_name instances_of
update_service-renamed id x e r f n =
    let p = find_id-put_id id id (with_instance id x e) r.services in
    (rw (change_entry, f) (ground arith), rw (change_entry, f) (ground arith))
