-- ===== src/MessageQueue/Cluster/Failover.antt =====
-- Shared/MessageQueue/MessageQueue.cpp, ProcessHeartbeat and RouteMessage: who takes over from an
-- unhealthy leader, and which replica a message goes to.
use helianthus.Prelude.{
  ◌≤◌, ◌<◌, ◌≡◌, refl, ◌⊎◌, inl, inr, Bool, true, false, not, ◌&&◌, ◌||◌, List, [], ◌∷◌, arith,
  Name, same_name, same_name→eq, same_name_self, eq→same_name, Bool-cases,
}
use helianthus.MessageQueue.Cluster.{
  ReplicaInfo, is_leader, old_leader, select_replica, leader_healthy, takeover_node, switch_roles,
  elect,
}
use helianthus.MessageQueue.Cluster.Leaders.{count_leaders, has_node}

-- Every replica stands on a node of its own, and every node has a name.
abbrev pub distinct_nodes : List ReplicaInfo → Bool
distinct_nodes [] = true
distinct_nodes (r ∷ rs) =
    not (same_name r.node_id []) && not (has_node r.node_id rs) && distinct_nodes rs

abbrev pub any_healthy : List ReplicaInfo → Bool
any_healthy [] = false
any_healthy (r ∷ rs) = r.healthy || any_healthy rs

-- No healthy replica stands on this node.
idle : Name → List ReplicaInfo → Bool
idle node [] = true
idle node (r ∷ rs) = (not (same_name r.node_id node) || not r.healthy) && idle node rs

-- Only replicas on this node lead.
leaders_on : Name → List ReplicaInfo → Bool
leaders_on node [] = true
leaders_on node (r ∷ rs) =
    (same_name r.node_id node || not (is_leader r.role)) && leaders_on node rs

has_healthy : Name → List ReplicaInfo → Bool
has_healthy node [] = false
has_healthy node (r ∷ rs) = (same_name r.node_id node && r.healthy) || has_healthy node rs

takeover_node-named :
    (current : Name) (rs : List ReplicaInfo)
    → distinct_nodes rs ≡ true
    → any_healthy rs ≡ true
    → idle current rs ≡ true
    → same_name (takeover_node current rs) [] ≡ false
unfolding takeover_node idle
takeover_node-named current [] d a i = cc
takeover_node-named current (r ∷ rs) d a i = ground (arith, takeover_node-named current rs)

takeover_node-healthy :
    (current : Name) (rs : List ReplicaInfo)
    → same_name (takeover_node current rs) [] ≡ false
    → (same_name (takeover_node current rs) current ≡ false)
      × (has_healthy (takeover_node current rs) rs ≡ true)
unfolding takeover_node has_healthy same_name
takeover_node-healthy current [] h = cc
takeover_node-healthy current (r ∷ rs) h =
    ground (arith, takeover_node-healthy current rs, same_name_self r.node_id)

leaderless :
    (found : Name) (h : Bool) (rs : List ReplicaInfo)
    → count_leaders rs ≡ 0
    → (old_leader found rs ≡ found) × (leader_healthy h rs ≡ h) × (leaders_on found rs ≡ true)
unfolding old_leader leader_healthy leaders_on
leaderless found h [] c = (refl, refl, refl)
leaderless found h (r ∷ rs) c = ground (arith, leaderless found h rs)

idle-absent : (node : Name) (rs : List ReplicaInfo) → has_node node rs ≡ false → idle node rs ≡ true
unfolding idle
idle-absent node [] h = refl
idle-absent node (r ∷ rs) h = ground (arith, idle-absent node rs)

old_leader-present :
    (found : Name) (rs : List ReplicaInfo)
    → (old_leader found rs ≡ found) ⊎ (has_node (old_leader found rs) rs ≡ true)
unfolding old_leader
old_leader-present found [] = inl refl
old_leader-present found (r ∷ rs) = ground (
  arith,
  old_leader-present found rs,
  old_leader-present r.node_id rs,
  eq→same_name r.node_id (old_leader r.node_id rs),
)

old_leader-idle :
    (rs : List ReplicaInfo)
    → distinct_nodes rs ≡ true
    → count_leaders rs ≤ 1
    → leader_healthy false rs ≡ false
    → (idle (old_leader [] rs) rs ≡ true) × (leaders_on (old_leader [] rs) rs ≡ true)
unfolding old_leader leader_healthy leaders_on idle
old_leader-idle [] d c l = (refl, refl)
old_leader-idle (r ∷ rs) d c l = ground (
  arith,
  leaderless r.node_id r.healthy rs,
  idle-absent r.node_id rs,
  old_leader-idle rs,
  old_leader-present [] rs,
  same_name_self r.node_id,
  same_name→eq r.node_id (old_leader [] rs),
)

count_leaders-switch_absent :
    (current takeover : Name) (rs : List ReplicaInfo)
    → has_node takeover rs ≡ false
    → leaders_on current rs ≡ true
    → count_leaders (switch_roles current takeover rs) ≡ 0
unfolding switch_roles leaders_on
count_leaders-switch_absent current takeover [] h l = refl
count_leaders-switch_absent current takeover (r ∷ rs) h l =
    ground (arith, count_leaders-switch_absent current takeover rs)

has_healthy-absent :
    (node : Name) (rs : List ReplicaInfo) → has_node node rs ≡ false → has_healthy node rs ≡ false
unfolding has_healthy
has_healthy-absent node [] h = refl
has_healthy-absent node (r ∷ rs) h = ground (arith, has_healthy-absent node rs)

count_leaders-switch :
    (current takeover : Name) (h : Bool) (rs : List ReplicaInfo)
    → distinct_nodes rs ≡ true
    → has_healthy takeover rs ≡ true
    → leaders_on current rs ≡ true
    → (count_leaders (switch_roles current takeover rs) ≡ 1)
      × (leader_healthy h (switch_roles current takeover rs) ≡ true)
unfolding switch_roles leaders_on has_healthy leader_healthy
count_leaders-switch current takeover h [] d k l = cc
count_leaders-switch current takeover h (r ∷ rs) d k l = ground (
  arith,
  same_name→eq r.node_id takeover,
  count_leaders-switch_absent current takeover rs,
  leaderless [] r.healthy (switch_roles current takeover rs),
  count_leaders-switch current takeover h rs,
  has_healthy-absent takeover rs,
)

count_leaders-leader_healthy :
    (rs : List ReplicaInfo) → leader_healthy false rs ≡ true → 0 < count_leaders rs
count_leaders-leader_healthy rs h = ground (arith, leaderless [] false rs)

-- Among replicas on distinct, named nodes of which at most one leads and some are healthy, the
-- election of a heartbeat leaves exactly one leader, and that leader is healthy.
pub elect-healthy :
    (rs : List ReplicaInfo)
    → distinct_nodes rs ≡ true
    → count_leaders rs ≤ 1
    → any_healthy rs ≡ true
    → (count_leaders (elect rs) ≡ 1) × (leader_healthy false (elect rs) ≡ true)
unfolding elect
elect-healthy rs d c a = elim (Bool-cases (leader_healthy false rs)) [
  | inl h ↦ let c' = count_leaders-leader_healthy rs h in rw h (omega arith, h)
  | inr h ↦
      let (i, l) = old_leader-idle rs d c h in
      let n = takeover_node-named (old_leader [] rs) rs d a i in
      let (t, k) = takeover_node-healthy (old_leader [] rs) rs n in
      rw (h, n)
        (count_leaders-switch (old_leader [] rs) (takeover_node (old_leader [] rs) rs) false rs d k
          l)
]

-- Whichever replicas there are, RouteMessage calls its choice healthy: its third priority, for
-- replicas that are all unhealthy, is never reached.
pub select_replica-healthy :
    (node : Name) (rs : List ReplicaInfo) → (select_replica node rs).healthy ≡ true
unfolding select_replica
select_replica-healthy node [] = ground arith
select_replica-healthy node (r ∷ rs) = ground arith
