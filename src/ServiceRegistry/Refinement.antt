-- ===== src/ServiceRegistry/Refinement.antt =====
-- Shared/Discovery/ServiceRegistry.cpp: runs of calls against the directory.
use mathlib.Core.Path.{subst, ap₂}
use helianthus.Prelude.{
  ℕ, ◌+◌, ◌<◌, ◌≡◌, refl, sym, ap, ◌∙◌, some, List, [], ◌∷◌, arith, u64_mod, find_id, length,
}
use helianthus.Discovery.{ServiceInstance}
use helianthus.ServiceRegistry.{
  ServiceInstanceEntry, ServiceRegistry, reset_registry, set_maintenance_mode, with_instance,
  heard_at, with_state, with_health, with_load, update_service, send_heartbeat,
  update_service_state, update_service_health, update_service_load,
}
use helianthus.ServiceRegistry.Listing.{contents}
use helianthus.ServiceRegistry.Contents.{find_id-contents}
use helianthus.ServiceRegistry.Indexed.{IsIndexed, empty-IsIndexed}
use helianthus.ServiceRegistry.Directory.{Call, perform, perform_all, expected, expected_all}
use helianthus.ServiceRegistry.Refines.{
  directory, Indexed, NameOf, KeepsName, KeepNames, Agrees, change-Agrees,
}
use helianthus.ServiceRegistry.Agreement.{
  register-Agrees, deregister-Agrees, deregister_name-Agrees, get-Agrees, get_name-Agrees,
}

updated_name :
    (id : ℕ) (x : ServiceInstance) (r : ServiceRegistry) (e : ServiceInstanceEntry)
    → KeepsName (Call.update id x) (directory r)
    → find_id id r.services ≡ some e
    → x.service_name ≡ e.instance.service_name
unfolding KeepsName directory
updated_name id x r e k f =
    let c = find_id-contents id r.services in
    let z : find_id id (contents r.services) ≡ some e.instance = ground arith in
    subst (λ o. NameOf o x.service_name) z k

perform-Agrees :
    (c : Call) (r : ServiceRegistry)
    → Indexed r
    → KeepsName c (directory r)
    → r.next_instance_id + 1 < u64_mod
    → Agrees (perform c r) (expected c (directory r)) r.next_instance_id
unfolding perform expected update_service send_heartbeat update_service_health update_service_load
    update_service_state set_maintenance_mode reset_registry directory contents
perform-Agrees (Call.register now x) r h k b = register-Agrees now x r h b
perform-Agrees (Call.update id x) r h k b =
    change-Agrees (with_instance id x) (λ y. record x { instance_id = id }) id r (λ e. refl)
      (λ e f. updated_name id x r e k f) h
perform-Agrees (Call.heartbeat now id) r h k b =
    change-Agrees (heard_at now) (λ y. y) id r (λ e. refl) (λ e f. refl) h
perform-Agrees (Call.health id n) r h k b =
    change-Agrees (with_health n) (λ y. record y { current_health_score = n }) id r (λ e. refl)
      (λ e f. refl) h
perform-Agrees (Call.load id n) r h k b =
    change-Agrees (with_load n) (λ y. record y { active_connections = n }) id r (λ e. refl)
      (λ e f. refl) h
perform-Agrees (Call.state id s) r h k b =
    change-Agrees (with_state s) (λ y. record y { state = s }) id r (λ e. refl) (λ e f. refl) h
perform-Agrees (Call.deregister id) r h k b = deregister-Agrees id r h
perform-Agrees (Call.deregister_name name) r h k b = deregister_name-Agrees name r h
perform-Agrees (Call.get id) r h k b = get-Agrees id r h
perform-Agrees (Call.get_name name) r h k b = get_name-Agrees name r h
perform-Agrees (Call.maintenance on) r h k b = (refl, refl, h, omega arith)
perform-Agrees Call.reset r h k b = (refl, refl, empty-IsIndexed r.next_instance_id, omega arith)

-- From a registry whose index of names is right, any run of registrations, updates that keep the
-- name, heartbeats, updates of health, load and state, removals by id and by name, lookups by id
-- and by name, switches of the maintenance mode and resets, of fewer calls than ids are left, is
-- answered as by one map from ids to instances that is searched.
pub perform_all_refines :
    (cs : List Call) (r : ServiceRegistry)
    → IsIndexed r.services r.services_by_name r.next_instance_id
    → KeepNames cs (directory r)
    → r.next_instance_id + length cs < u64_mod
    → perform_all cs r ≡ expected_all cs (directory r)
unfolding perform_all expected_all KeepNames
perform_all_refines [] r h k b = refl
perform_all_refines (c ∷ cs) r h k b =
    let a = perform-Agrees c r h k.0 (omega arith) in
    let d = sym a.1 in
    let r' = (perform c r).1 in
    let ih =
      perform_all_refines cs r' a.2 (subst (λ x. KeepNames cs x) d k.1) (omega (arith, a.3)) in
    ap₂ ◌∷◌ a.0 (ih ∙ ap (expected_all cs) (sym d))
