-- ===== src/LoadBalancer/Entries.antt =====
-- Shared/Discovery/LoadBalancer.cpp: which entries a change leaves in which service.
use helianthus.Prelude.{
  ℕ, ◌≡◌, refl, ap, true, ◌&&◌, ◌==◌, none, some, List, [], ◌∷◌, arith, find_id, put_id, remove_id,
  find_id-put_id, find_id-remove_id, Name, same_name, same_name→eq, find, find-put, find-remove,
  if◌then◌else◌, Bool-cases, inl, inr,
}
use helianthus.LoadBalancer.{LoadBalanceEntry, ServiceLoadBalanceInfo}
use helianthus.LoadBalancer.Registry.{
  LoadBalancer, service_or_new, put_entry, is_nil, without_instance,
}
use helianthus.LoadBalancer.Recorded.{service_or_new-found, same_service}

pub find_id-put_entry :
    (n m : Name) (i j : ℕ) (e : LoadBalanceEntry) (lb : LoadBalancer)
    → find_id j (service_or_new m (put_entry n i e lb)).instances
      ≡ (if same_name n m && (i == j) then some e else find_id j (service_or_new m lb).instances)
find_id-put_entry n m i j e lb =
    let s : ServiceLoadBalanceInfo = record (service_or_new n lb) {
      instances = put_id i e (service_or_new n lb).instances;
    } in
    let k = find-put n m s lb.services in
    let p = find_id-put_id i j e (service_or_new n lb).instances in
    elim (Bool-cases (same_name n m)) [
      | inl t ↦
          let q = ap (λ z. find_id j (service_or_new z lb).instances) (same_name→eq n m t) in
          let f : find m (put_entry n i e lb).services ≡ some s = ground arith in
          let g =
            ap (λ z. find_id j z.instances) (service_or_new-found m s (put_entry n i e lb) f) in
          ground arith
      | inr t ↦
          let f : find m (put_entry n i e lb).services ≡ find m lb.services = ground arith in
          let g = ap (λ z. find_id j z.instances) (same_service m (put_entry n i e lb) lb f) in
          ground arith
    ]

find_id-is_nil : (j : ℕ) (es : List (ℕ × LoadBalanceEntry)) → is_nil es ≡ true → find_id j es ≡ none
unfolding find_id
find_id-is_nil j [] u = refl
find_id-is_nil j (e ∷ es) u = cc

pub find_id-absent :
    (j : ℕ) (m : Name) (lb : LoadBalancer)
    → find m lb.services ≡ none
    → find_id j (service_or_new m lb).instances ≡ none
unfolding find_id
find_id-absent j m lb f = rw (f, service_or_new) refl

pub find_id-without_instance :
    (n m : Name) (i j : ℕ) (lb : LoadBalancer)
    → find_id j (service_or_new m (without_instance n i lb)).instances
      ≡ (if same_name n m && (i == j) then none else find_id j (service_or_new m lb).instances)
find_id-without_instance n m i j lb =
    let rest = remove_id i (service_or_new n lb).instances in
    let s : ServiceLoadBalanceInfo = record (service_or_new n lb) { instances = rest } in
    let k = find-put n m s lb.services in
    let r = find-remove n m lb.services in
    let p = find_id-remove_id i j (service_or_new n lb).instances in
    elim (Bool-cases (same_name n m)) [
      | inl t ↦
          let q = ap (λ z. find_id j (service_or_new z lb).instances) (same_name→eq n m t) in
          elim (Bool-cases (is_nil rest)) [
            | inl u ↦
                let f : find m (without_instance n i lb).services ≡ none = ground arith in
                let v = find_id-is_nil j rest u in
                let g : find_id j (service_or_new m (without_instance n i lb)).instances ≡ none =
                  find_id-absent j m (without_instance n i lb) f in
                ground arith
            | inr u ↦
                let f : find m (without_instance n i lb).services ≡ some s = ground arith in
                let g =
                  ap (λ z. find_id j z.instances)
                    (service_or_new-found m s (without_instance n i lb) f) in
                ground arith
          ]
      | inr t ↦
          let f : find m (without_instance n i lb).services ≡ find m lb.services = ground arith in
          let g = ap (λ z. find_id j z.instances) (same_service m (without_instance n i lb) lb f) in
          ground arith
    ]
