-- ===== src/LoadBalancer/Recorded.antt =====
-- Shared/Discovery/LoadBalancer.cpp: recorded connections, and an instance that changes its service.
use helianthus.Prelude.{
  ℕ, ◌+◌, ◌-◌, ◌%◌, ◌<◌, ◌≡◌, refl, sym, ap, ◌∙◌, true, false, none, some, List, arith, u32_mod,
  find_id, put_id, remove_id, find_id-put_id, find_id-remove_id, Name, same_name, same_name_self,
  find, find-put, find-remove,
}
use helianthus.LoadBalancer.{LoadBalanceEntry, ServiceLoadBalanceInfo}
use helianthus.Discovery.{ServiceInstance}
use helianthus.LoadBalancer.Registry.{
  LoadBalancer, empty_entry, service_or_new, entry_or_new, put_entry, connected, disconnected,
  added, add_service_instance, without_instance, remove_service_instance, change_entry,
  record_connection, record_disconnection, get_active_connections,
}

found_after_put {ℓ} :
    {V : Type ℓ} (k : ℕ) (v : V) (m : List (ℕ × V)) → find_id k (put_id k v m) ≡ some v
found_after_put k v m = let p = find_id-put_id k k v m in ground arith

service-put_entry :
    (name : Name) (id : ℕ) (e : LoadBalanceEntry) (lb : LoadBalancer)
    → find name (put_entry name id e lb).services
      ≡ some (record (service_or_new name lb) {
        instances = put_id id e (service_or_new name lb).instances;
      })
service-put_entry name id e lb =
    let s : ServiceLoadBalanceInfo = record (service_or_new name lb) {
      instances = put_id id e (service_or_new name lb).instances;
    } in
    let k = find-put name name s lb.services in let n = same_name_self name in ground arith

entry-put_entry :
    (name : Name) (id : ℕ) (e : LoadBalanceEntry) (lb : LoadBalancer)
    → find_id id (service_or_new name (put_entry name id e lb)).instances ≡ some e
entry-put_entry name id e lb =
    let p = found_after_put id e (service_or_new name lb).instances in
    rw (service-put_entry name id e lb, service_or_new) p

other-put_entry :
    (name other : Name) (id : ℕ) (e : LoadBalanceEntry) (lb : LoadBalancer)
    → same_name name other ≡ false
    → find other (put_entry name id e lb).services ≡ find other lb.services
other-put_entry name other id e lb n =
    let k =
      find-put name other
        (record (service_or_new name lb) {
          instances = put_id id e (service_or_new name lb).instances;
        })
        lb.services in
    ground arith

change_entry-known :
    (f : LoadBalanceEntry → LoadBalanceEntry) (id : ℕ) (name : Name) (lb : LoadBalancer)
    → find_id id lb.instance_to_service ≡ some name
    → (change_entry f id lb).1 ≡ put_entry name id (f (entry_or_new id (service_or_new name lb))) lb
change_entry-known f id name lb e = rw (e, change_entry) refl

pub get_active_connections-known :
    (id : ℕ) (name : Name) (s : ServiceLoadBalanceInfo) (e : LoadBalanceEntry) (lb : LoadBalancer)
    → find_id id lb.instance_to_service ≡ some name
    → find name lb.services ≡ some s
    → find_id id s.instances ≡ some e
    → get_active_connections id lb ≡ some e.active_connections
unfolding get_active_connections
get_active_connections-known id name s e lb f g k = rw (f, get_active_connections, g, k) refl

pub service_or_new-found :
    (name : Name) (s : ServiceLoadBalanceInfo) (lb : LoadBalancer)
    → find name lb.services ≡ some s
    → service_or_new name lb ≡ s
service_or_new-found name s lb g = rw (g, service_or_new) refl

entry_or_new-found :
    (id : ℕ) (e : LoadBalanceEntry) (s : ServiceLoadBalanceInfo)
    → find_id id s.instances ≡ some e
    → entry_or_new id s ≡ e
entry_or_new-found id e s k = rw (k, entry_or_new) refl

-- A connection that is recorded and then its end leave the count of an instance as it was, below 2^32.
pub record_disconnection-connection :
    (id : ℕ) (name : Name) (s : ServiceLoadBalanceInfo) (e : LoadBalanceEntry) (lb : LoadBalancer)
    → find_id id lb.instance_to_service ≡ some name
    → find name lb.services ≡ some s
    → find_id id s.instances ≡ some e
    → e.active_connections + 1 < u32_mod
    → get_active_connections id (record_disconnection id (record_connection id lb).1).1
      ≡ get_active_connections id lb
unfolding record_disconnection record_connection
record_disconnection-connection id name s e lb f g k b =
    let more : LoadBalanceEntry → LoadBalanceEntry = connected in
    let fewer : LoadBalanceEntry → LoadBalanceEntry = disconnected in
    let e1 : LoadBalanceEntry = more e in
    let lb1 : LoadBalancer = put_entry name id e1 lb in
    let lb2 : LoadBalancer = put_entry name id (fewer e1) lb1 in
    let u : (record_connection id lb).1 ≡ lb1 =
      change_entry-known more id name lb f
      ∙ ap (λ d. put_entry name id (more d) lb)
          (entry_or_new-found id e (service_or_new name lb)
            (ap (λ z. find_id id z.instances) (service_or_new-found name s lb g) ∙ k)) in
    let v : (record_disconnection id lb1).1 ≡ lb2 =
      change_entry-known fewer id name lb1 f
      ∙ ap (λ d. put_entry name id (fewer d) lb1)
          (entry_or_new-found id e1 (service_or_new name lb1) (entry-put_entry name id e1 lb)) in
    let a =
      get_active_connections-known id name
        (record (service_or_new name lb1) {
          instances = put_id id (fewer e1) (service_or_new name lb1).instances;
        })
        (fewer e1) lb2 f (service-put_entry name id (fewer e1) lb1)
        (found_after_put id (fewer e1) (service_or_new name lb1).instances) in
    let c = get_active_connections-known id name s e lb f g k in
    let n : (e.active_connections + 1) % u32_mod - 1 ≡ e.active_connections = omega arith in
    ap (λ l. get_active_connections id (record_disconnection id l).1) u
    ∙ ap (get_active_connections id) v
    ∙ a
    ∙ ap some n
    ∙ sym c

other-without_instance :
    (name other : Name) (id : ℕ) (lb : LoadBalancer)
    → same_name name other ≡ false
    → find other (without_instance name id lb).services ≡ find other lb.services
other-without_instance name other id lb n =
    let k =
      find-put name other
        (record (service_or_new name lb) {
          instances = remove_id id (service_or_new name lb).instances;
        })
        lb.services in
    let r = find-remove name other lb.services in ground arith

pub same_service :
    (name : Name) (a b : LoadBalancer)
    → find name a.services ≡ find name b.services
    → service_or_new name a ≡ service_or_new name b
same_service name a b e = rw (e, service_or_new) refl

pub add-initialized :
    (x : ServiceInstance) (lb : LoadBalancer)
    → lb.initialized ≡ true
    → (add_service_instance (some x) lb).1 ≡ added x lb
unfolding add_service_instance
add-initialized x lb i = ground arith

remove-known :
    (id : ℕ) (name : Name) (lb : LoadBalancer)
    → find_id id lb.instance_to_service ≡ some name
    → (remove_service_instance id lb).1 ≡ without_instance name id lb
unfolding remove_service_instance
remove-known id name lb e = rw (e, remove_service_instance) refl

-- An instance that is added under one service, then under another, and then removed, is removed from
-- the second only: the first service still has it, while the load balancer no longer knows it.
pub remove-add-moved :
    (x y : ServiceInstance) (lb : LoadBalancer)
    → lb.initialized ≡ true
    → x.instance_id ≡ y.instance_id
    → same_name y.service_name x.service_name ≡ false
    → (let both = (add_service_instance (some y) (add_service_instance (some x) lb).1).1 in
        let after = (remove_service_instance y.instance_id both).1 in
        (e : LoadBalanceEntry) × (find_id x.instance_id
            (service_or_new x.service_name after).instances
          ≡ some e)
        × (find_id x.instance_id after.instance_to_service ≡ none))
remove-add-moved x y lb i h n =
    let lb1 : LoadBalancer = added x lb in
    let lb2 : LoadBalancer = added y lb1 in
    let after : LoadBalancer = without_instance y.service_name y.instance_id lb2 in
    let e : LoadBalanceEntry = record empty_entry {
      weight = lb.default_weight;
      current_health = x.current_health_score;
      active_connections = x.active_connections;
    } in
    let known = found_after_put y.instance_id y.service_name lb1.instance_to_service in
    let d : LoadBalanceEntry = record empty_entry {
      weight = lb1.default_weight;
      current_health = y.current_health_score;
      active_connections = y.active_connections;
    } in
    let kept : service_or_new x.service_name after ≡ service_or_new x.service_name lb1 =
      same_service x.service_name after lb1 (
        other-without_instance y.service_name x.service_name y.instance_id lb2 n
        ∙ other-put_entry y.service_name x.service_name y.instance_id d lb1 n) in
    let gone = find_id-remove_id y.instance_id y.instance_id lb2.instance_to_service in
    let r : (remove_service_instance y.instance_id
          (add_service_instance (some y) (add_service_instance (some x) lb).1).1).1
        ≡ after =
      ap (λ l. (remove_service_instance y.instance_id (add_service_instance (some y) l).1).1)
        (add-initialized x lb i)
      ∙ ap (λ l. (remove_service_instance y.instance_id l).1) (add-initialized y lb1 i)
      ∙ remove-known y.instance_id y.service_name lb2 known in
    let none_left : find_id y.instance_id after.instance_to_service ≡ none = ground arith in
    (
      e,
      ap (λ l. find_id x.instance_id (service_or_new x.service_name l).instances) r
          ∙ ap (λ s. find_id x.instance_id s.instances) kept
          ∙ entry-put_entry x.service_name x.instance_id e lb,
      ap (λ l. find_id x.instance_id l.instance_to_service) r
          ∙ ap (λ k. find_id k after.instance_to_service) h
          ∙ none_left,
    )
