-- ===== src/LoadBalancer/Known.antt =====
-- Shared/Discovery/LoadBalancer.cpp: the map from instances to services, over runs of calls.
use helianthus.Prelude.{
  ℕ, ◌≡◌, refl, sym, ap, ◌∙◌, false, ◌&&◌, ◌==◌, none, some, Option, List, [], ◌∷◌, arith, find_id,
  find_id-put_id, find_id-remove_id, Name, same_name, same_name→eq, eq→same_name, find, find-remove,
  remove, remove_id, if◌then◌else◌, Bool, true, Option-cases, Bool-cases, inl, inr,
}
use helianthus.LoadBalancer.{LoadBalanceEntry, ServiceLoadBalanceInfo}
use helianthus.Discovery.{ServiceInstance}
use helianthus.LoadBalancer.Registry.{
  updated, connected, disconnected, weighing, healthy_by, responded, LoadBalancer, service_or_new,
  empty_entry, entry_or_new, put_entry, added, add_service_instance, without_instance,
  remove_service_instance, change_entry, update_service_instance, set_instance_weight,
  update_instance_health, record_connection, record_disconnection, record_response_time,
  get_active_connections, forgotten, clear_service_instances, shutdown,
}
use helianthus.LoadBalancer.Entries.{find_id-put_entry, find_id-absent, find_id-without_instance}
use helianthus.LoadBalancer.Recorded.{
  add-initialized, get_active_connections-known, service_or_new-found,
}

pub data Call : Type 0 where
  add update : Option ServiceInstance → Call
  removal connection disconnection : ℕ → Call
  weight health response_time : ℕ → ℕ → Call
  clearing : Name → Call
  end : Call

unfoldable pub perform : Call → LoadBalancer → LoadBalancer
perform (Call.add x) lb = (add_service_instance x lb).1
perform (Call.update x) lb = (update_service_instance x lb).1
perform (Call.removal id) lb = (remove_service_instance id lb).1
perform (Call.connection id) lb = (record_connection id lb).1
perform (Call.disconnection id) lb = (record_disconnection id lb).1
perform (Call.weight id n) lb = (set_instance_weight id n lb).1
perform (Call.health id n) lb = update_instance_health id n lb
perform (Call.response_time id n) lb = record_response_time id n lb
perform (Call.clearing name) lb = clear_service_instances name lb
perform Call.end lb = shutdown lb

unfoldable pub perform_all : List Call → LoadBalancer → LoadBalancer
perform_all [] lb = lb
perform_all (c ∷ cs) lb = perform_all cs (perform c lb)

-- An instance that is known is in its service.
unfoldable pub IsKnown : LoadBalancer → Type 0
IsKnown lb =
    (id : ℕ) (name : Name)
    → find_id id lb.instance_to_service ≡ some name
    → (e : LoadBalanceEntry) × (find_id id (service_or_new name lb).instances ≡ some e)

put_entry-IsKnown :
    (n : Name) (i : ℕ) (e : LoadBalanceEntry) (lb : LoadBalancer)
    → IsKnown lb
    → IsKnown (put_entry n i e lb)
unfolding IsKnown
put_entry-IsKnown n i e lb h = λ j m k.
    let p = find_id-put_entry n m i j e lb in
    let (d, q) = h j m k in
    elim (Bool-cases (same_name n m && (i == j))) [
      | inl t ↦ (e, ground arith)
      | inr t ↦ (d, ground arith)
    ]

added-IsKnown : (x : ServiceInstance) (lb : LoadBalancer) → IsKnown lb → IsKnown (added x lb)
unfolding IsKnown
added-IsKnown x lb h = λ j m k.
    let d : LoadBalanceEntry = record empty_entry {
      weight = lb.default_weight;
      current_health = x.current_health_score;
      active_connections = x.active_connections;
    } in
    let p = find_id-put_entry x.service_name m x.instance_id j d lb in
    let l = find_id-put_id x.instance_id j x.service_name lb.instance_to_service in
    elim (Bool-cases (x.instance_id == j)) [
      | inl t ↦
          let s : x.service_name ≡ m = ground arith in
          let u = eq→same_name x.service_name m s in (d, ground arith)
      | inr t ↦ let (c, q) = h j m (ground arith) in (c, ground arith)
    ]

without_instance-IsKnown :
    (n : Name) (i : ℕ) (lb : LoadBalancer) → IsKnown lb → IsKnown (without_instance n i lb)
unfolding IsKnown
without_instance-IsKnown n i lb h = λ j m k.
    let p = find_id-without_instance n m i j lb in
    let l = find_id-remove_id i j lb.instance_to_service in
    let f : (i == j) ≡ false = ground arith in
    let (c, q) = h j m (ground arith) in (c, ground arith)

change_entry-IsKnown :
    (f : LoadBalanceEntry → LoadBalanceEntry) (id : ℕ) (lb : LoadBalancer)
    → IsKnown lb
    → IsKnown (change_entry f id lb).1
change_entry-IsKnown f id lb h = elim (Option-cases (find_id id lb.instance_to_service)) [
  | inl e ↦ rw (e, change_entry) h
  | inr found ↦
      let (name, e) = found in
      rw (e, change_entry)
        (put_entry-IsKnown name id (f (entry_or_new id (service_or_new name lb))) lb h)
]

uninitialized-add :
    (x : ServiceInstance) (lb : LoadBalancer)
    → lb.initialized ≡ false
    → (add_service_instance (some x) lb).1 ≡ lb
unfolding add_service_instance
uninitialized-add x lb t = ground arith

add-IsKnown :
    (x : ServiceInstance) (lb : LoadBalancer)
    → IsKnown lb
    → IsKnown (add_service_instance (some x) lb).1
add-IsKnown x lb h = elim (Bool-cases lb.initialized) [
  | inl t ↦ rw (add-initialized x lb t) (added-IsKnown x lb h)
  | inr t ↦ rw (uninitialized-add x lb t) h
]

remove-IsKnown :
    (id : ℕ) (lb : LoadBalancer) → IsKnown lb → IsKnown (remove_service_instance id lb).1
unfolding remove_service_instance
remove-IsKnown id lb h = elim (Option-cases (find_id id lb.instance_to_service)) [
  | inl e ↦ rw (e, remove_service_instance) h
  | inr found ↦
      let (name, e) = found in
      rw (e, remove_service_instance) (without_instance-IsKnown name id lb h)
]

find_id-forgotten :
    (j : ℕ) (entries : List (ℕ × LoadBalanceEntry)) (known : List (ℕ × Name))
    → find_id j (forgotten entries known)
      ≡ elim (find_id j entries) [ none ↦ find_id j known | some e ↦ none ]
unfolding forgotten find_id
find_id-forgotten j [] known = refl
find_id-forgotten j ((i, e) ∷ entries) known =
    let r = find_id-forgotten j entries (remove_id i known) in
    let l = find_id-remove_id i j known in ground arith

clear-IsKnown :
    (name : Name) (lb : LoadBalancer) → IsKnown lb → IsKnown (clear_service_instances name lb)
unfolding clear_service_instances IsKnown find_id
clear-IsKnown [] lb h = λ j m k. cc
clear-IsKnown (c ∷ s) lb h = by_service (find (c ∷ s) lb.services) refl
  where
    by_service :
        (o : Option ServiceLoadBalanceInfo)
        → find (c ∷ s) lb.services ≡ o
        → (let cleared : LoadBalancer = elim o [
          | none ↦ lb
          | some info ↦ record lb {
            services = remove (c ∷ s) lb.services;
            instance_to_service = forgotten info.instances lb.instance_to_service;
          }
        ] in
            IsKnown cleared)
    by_service none p = h
    by_service (some info) p = λ j m k.
        let f = find_id-forgotten j info.instances lb.instance_to_service in
        let r = find-remove (c ∷ s) m lb.services in
        let (e, q) = h j m (ground arith) in
        elim (Bool-cases (same_name (c ∷ s) m)) [
          | inl t ↦
              let u = same_name→eq (c ∷ s) m t in
              let v : find m lb.services ≡ some info = ap (λ n. find n lb.services) (sym u) ∙ p in
              absurd (ground arith)
          | inr t ↦ (e, ground arith)
        ]

shutdown-IsKnown : (lb : LoadBalancer) → IsKnown lb → IsKnown (shutdown lb)
unfolding shutdown IsKnown find_id
shutdown-IsKnown lb h = by_test lb.initialized
  where
    by_test :
        (b : Bool)
        → (let r : LoadBalancer =
              (if b
                then record lb { initialized = false; services = []; instance_to_service = [] }
                else lb) in
            IsKnown r)
    by_test true = λ j m k. cc
    by_test false = h

perform-IsKnown : (c : Call) (lb : LoadBalancer) → IsKnown lb → IsKnown (perform c lb)
unfolding perform add_service_instance update_service_instance remove_service_instance
    record_connection record_disconnection set_instance_weight update_instance_health
    record_response_time
perform-IsKnown (Call.add none) lb h = h
perform-IsKnown (Call.add (some x)) lb h = add-IsKnown x lb h
perform-IsKnown (Call.update none) lb h = h
perform-IsKnown (Call.update (some x)) lb h = change_entry-IsKnown (updated x) x.instance_id lb h
perform-IsKnown (Call.removal id) lb h = remove-IsKnown id lb h
perform-IsKnown (Call.connection id) lb h = change_entry-IsKnown connected id lb h
perform-IsKnown (Call.disconnection id) lb h = change_entry-IsKnown disconnected id lb h
perform-IsKnown (Call.weight id n) lb h = change_entry-IsKnown (weighing n) id lb h
perform-IsKnown (Call.health id n) lb h = change_entry-IsKnown (healthy_by n) id lb h
perform-IsKnown (Call.response_time id n) lb h = change_entry-IsKnown (responded n) id lb h
perform-IsKnown (Call.clearing name) lb h = clear-IsKnown name lb h
perform-IsKnown Call.end lb h = shutdown-IsKnown lb h

-- Any calls keep that each instance that is known has an entry in its service.
pub perform_all-IsKnown :
    (cs : List Call) (lb : LoadBalancer) → IsKnown lb → IsKnown (perform_all cs lb)
unfolding perform_all
perform_all-IsKnown [] lb h = h
perform_all-IsKnown (c ∷ cs) lb h = perform_all-IsKnown cs (perform c lb) (perform-IsKnown c lb h)

known-get_active_connections :
    (id : ℕ) (lb : LoadBalancer) → IsKnown lb → (n : ℕ) × (get_active_connections id lb ≡ some n)
unfolding IsKnown get_active_connections
known-get_active_connections id lb h = elim (Option-cases (find_id id lb.instance_to_service)) [
  | inl e ↦ (0, rw (e, get_active_connections) refl)
  | inr found ↦
      let (name, e) = found in
      let (d, q) = h id name e in
      elim (Option-cases (find name lb.services)) [
        | inl u ↦ let a = find_id-absent id name lb u in ground arith
        | inr there ↦
            let (s, u) = there in
            let a = ap (λ z. find_id id z.instances) (service_or_new-found name s lb u) in
            (d.active_connections, get_active_connections-known id name s d lb e u (sym a ∙ q))
      ]
]

-- Whatever calls that add, update, remove or clear instances, count connections, record weights,
-- health and response times, or shut down are made on a load balancer in which each known instance
-- has an entry in its service, the number of connections of any id can be read afterwards: the
-- lookup that may throw does not.
pub get_active_connections_total :
    (cs : List Call) (id : ℕ) (lb : LoadBalancer)
    → IsKnown lb
    → (n : ℕ) × (get_active_connections id (perform_all cs lb) ≡ some n)
get_active_connections_total cs id lb h =
    known-get_active_connections id (perform_all cs lb) (perform_all-IsKnown cs lb h)
