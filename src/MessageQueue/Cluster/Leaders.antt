-- ===== src/MessageQueue/Cluster/Leaders.antt =====
-- Shared/MessageQueue/MessageQueue.cpp, PromoteToLeader and GetCurrentLeader: how many leaders a
-- shard has.
use helianthus.Prelude.{
  ℕ, zero, suc, ◌<◌, ◌≡◌, refl, ap, ◌∙◌, inl, inr, Bool, true, false, none, some, List, [], ◌∷◌,
  arith, length, get_elem?, get_elem?-set_self, Name, same_name, same_name→eq, if◌then◌else◌,
  Bool-cases,
}
use helianthus.MessageQueue.Types.{QueueResult}
use helianthus.MessageQueue.Cluster.{
  ReplicaRole, ReplicaInfo, ShardInfo, is_leader, demote_leaders, set_first_role, promote_in,
  promote_to_leader, first_leader, get_current_leader,
}

abbrev pub count_leaders : List ReplicaInfo → ℕ
count_leaders [] = 0
count_leaders (r ∷ rs) = if is_leader r.role then suc (count_leaders rs) else count_leaders rs

abbrev pub has_node : Name → List ReplicaInfo → Bool
has_node node [] = false
has_node node (r ∷ rs) = if same_name r.node_id node then true else has_node node rs

count_leaders-demote_leaders : (rs : List ReplicaInfo) → count_leaders (demote_leaders rs) ≡ 0
unfolding demote_leaders
count_leaders-demote_leaders [] = refl
count_leaders-demote_leaders (r ∷ rs) = ground (arith, count_leaders-demote_leaders rs)

has_node-demote_leaders :
    (node : Name) (rs : List ReplicaInfo) → has_node node (demote_leaders rs) ≡ has_node node rs
unfolding demote_leaders
has_node-demote_leaders node [] = refl
has_node-demote_leaders node (r ∷ rs) = ground (arith, has_node-demote_leaders node rs)

first_leader-none : (rs : List ReplicaInfo) → count_leaders rs ≡ 0 → first_leader rs ≡ none
unfolding first_leader
first_leader-none [] h = refl
first_leader-none (r ∷ rs) h = ground (arith, first_leader-none rs)

-- Giving a role to the only leader of a list.
set_first_role-leader :
    (node : Name) (rs : List ReplicaInfo)
    → count_leaders rs ≡ 0
    → has_node node rs ≡ true
    → (rs' : List ReplicaInfo) × (set_first_role ReplicaRole.leader node rs ≡ some rs')
      × (count_leaders rs' ≡ 1)
      × (first_leader rs' ≡ some node)
unfolding set_first_role first_leader
set_first_role-leader node [] h k = cc
set_first_role-leader node (r ∷ rs) h k = elim (Bool-cases (same_name r.node_id node)) [
  | inl e ↦ (
    record r { role = ReplicaRole.leader } ∷ rs,
    ground arith,
    ground arith,
    ap some (same_name→eq r.node_id node e),
  )
  | inr e ↦
      let (rs', f, c, l) = set_first_role-leader node rs (ground arith) (ground arith) in
      (r ∷ rs', ground arith, ground arith, ground arith)
]

set_first_role-none :
    (role : ReplicaRole) (node : Name) (rs : List ReplicaInfo)
    → has_node node rs ≡ false
    → set_first_role role node rs ≡ none
unfolding set_first_role
set_first_role-none role node [] h = refl
set_first_role-none role node (r ∷ rs) h = ground (arith, set_first_role-none role node rs)

get_elem?-length {ℓ} :
    {A : Type ℓ} (xs : List A) (i : ℕ) {x : A} → get_elem? xs i ≡ some x → i < length xs
get_elem?-length [] i e = cc
get_elem?-length (x ∷ xs) zero e = omega arith
get_elem?-length (x ∷ xs) (suc i) e = let rest = get_elem?-length xs i e in omega arith

-- Promoting a node that holds a replica of the shard succeeds; the shard then has exactly one leader,
-- and GetCurrentLeader answers that node.
pub promote-get_current_leader :
    (shard : ℕ) (node out : Name) (info : ShardInfo) (shards : List ShardInfo)
    → get_elem? shards shard ≡ some info
    → has_node node info.replicas ≡ true
    → ((promote_to_leader shard node shards).1 ≡ QueueResult.success)
      × (get_current_leader shard out (promote_to_leader shard node shards).0
          ≡ (QueueResult.success, node))
      × (rs : List ReplicaInfo) × (get_elem? (promote_to_leader shard node shards).0 shard
          ≡ some (record info { replicas = rs }))
      × (count_leaders rs ≡ 1)
unfolding promote_to_leader promote_in get_current_leader
promote-get_current_leader shard node out info shards e h =
    let (rs, f, c, l) =
      set_first_role-leader node (demote_leaders info.replicas)
        (count_leaders-demote_leaders info.replicas)
        (has_node-demote_leaders node info.replicas ∙ h) in
    let k =
      get_elem?-set_self shards shard (record info { replicas = rs })
        (get_elem?-length shards shard e) in
    (
      rw (e, promote_to_leader, f, promote_in) refl,
      rw (e, promote_to_leader, f, promote_in, k, get_current_leader, l) refl,
      rs,
      rw (e, promote_to_leader, f, promote_in) k,
      c,
    )

-- Promoting a node without a replica of the shard answers QUEUE_NOT_FOUND, but after the old leader
-- was demoted: GetCurrentLeader then finds none.
pub promote-leaderless :
    (shard : ℕ) (node out : Name) (info : ShardInfo) (shards : List ShardInfo)
    → get_elem? shards shard ≡ some info
    → has_node node info.replicas ≡ false
    → ((promote_to_leader shard node shards).1 ≡ QueueResult.queue_not_found)
      × (get_current_leader shard out (promote_to_leader shard node shards).0
          ≡ (QueueResult.queue_not_found, []))
unfolding promote_to_leader promote_in get_current_leader
promote-leaderless shard node out info shards e h =
    let f =
      set_first_role-none ReplicaRole.leader node (demote_leaders info.replicas)
        (has_node-demote_leaders node info.replicas ∙ h) in
    let k =
      get_elem?-set_self shards shard (record info { replicas = demote_leaders info.replicas })
        (get_elem?-length shards shard e) in
    let l =
      first_leader-none (demote_leaders info.replicas)
        (count_leaders-demote_leaders info.replicas) in
    (
      rw (e, promote_to_leader, f, promote_in) refl,
      rw (e, promote_to_leader, f, promote_in, k, get_current_leader, l) refl,
    )
