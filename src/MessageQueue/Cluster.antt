-- ===== src/MessageQueue/Cluster.antt =====
-- Shared/MessageQueue/MessageQueue.cpp: shards, their replicas, and who leads. The cluster lock is
-- held for each operation. What the heartbeat thread draws at random is an argument.
pub mod Leaders
pub mod Failover
pub mod Replication
mod Tests
use helianthus.Prelude.{
  ℕ, zero, suc, ◌+◌, ◌-◌, ◌<◌, Bool, true, false, not, ◌&&◌, Option, none, some, List, [], ◌∷◌, ltb,
  leb, if◌then◌else◌, get_elem?, set, length, min, Name, same_name,
}
use helianthus.MessageQueue.Types.{QueueResult}

pub data ReplicaRole : Type 0 where
  leader follower candidate unknown : ReplicaRole

pub record ReplicaInfo : Type 0 where
  pub node_id : Name
  pub role : ReplicaRole
  pub healthy : Bool

pub record ShardInfo : Type 0 where
  pub id : ℕ
  pub replicas : List ReplicaInfo

abbrev pub is_leader : ReplicaRole → Bool
is_leader ReplicaRole.leader = true
is_leader _ = false

abbrev pub is_follower : ReplicaRole → Bool
is_follower ReplicaRole.follower = true
is_follower _ = false

-- The leader's node, the last one if there are several; the empty name without one.
pub old_leader : Name → List ReplicaInfo → Name
old_leader found [] = found
old_leader found (r ∷ rs) = old_leader (if is_leader r.role then r.node_id else found) rs

abbrev pub demoted : ReplicaInfo → ReplicaInfo
demoted r = if is_leader r.role then record r { role = ReplicaRole.follower } else r

pub demote_leaders : List ReplicaInfo → List ReplicaInfo
demote_leaders [] = []
demote_leaders (r ∷ rs) = demoted r ∷ demote_leaders rs

-- Gives the first replica on this node a role; `none` if no replica is on it.
pub set_first_role : ReplicaRole → Name → List ReplicaInfo → Option (List ReplicaInfo)
set_first_role role node [] = none
set_first_role role node (r ∷ rs) =
    if same_name r.node_id node
    then some (record r { role = role } ∷ rs)
    else elim (set_first_role role node rs) [ none ↦ none | some rs' ↦ some (r ∷ rs') ]

abbrev pub set_replicas : ℕ → ShardInfo → List ReplicaInfo → List ShardInfo → List ShardInfo
set_replicas shard info rs shards = set shards shard (record info { replicas = rs })

-- The third part is the call of the leader-changed callback: old and new leader.
pub promote_in :
    ℕ → Name → ShardInfo → List ShardInfo → List ShardInfo × QueueResult × Option (Name × Name)
promote_in shard node info shards =
    elim (set_first_role ReplicaRole.leader node (demote_leaders info.replicas)) [
      | none ↦ (
        set_replicas shard info (demote_leaders info.replicas) shards,
        QueueResult.queue_not_found,
        none,
      )
      | some rs ↦ (
        set_replicas shard info rs shards,
        QueueResult.success,
        some (old_leader [] info.replicas, node),
      )
    ]

pub promote_to_leader :
    ℕ → Name → List ShardInfo → List ShardInfo × QueueResult × Option (Name × Name)
promote_to_leader shard node shards = elim (get_elem? shards shard) [
  | none ↦ (shards, QueueResult.queue_not_found, none)
  | some info ↦ promote_in shard node info shards
]

pub demote_to_follower : ℕ → Name → List ShardInfo → List ShardInfo × QueueResult
demote_to_follower shard node shards = elim (get_elem? shards shard) [
  | none ↦ (shards, QueueResult.queue_not_found)
  | some info ↦ elim (set_first_role ReplicaRole.follower node info.replicas) [
    | none ↦ (shards, QueueResult.queue_not_found)
    | some rs ↦ (set_replicas shard info rs shards, QueueResult.success)
  ]
]

pub first_leader : List ReplicaInfo → Option Name
first_leader [] = none
first_leader (r ∷ rs) = if is_leader r.role then some r.node_id else first_leader rs

-- The out-parameter is left as it was if the shard does not exist.
pub get_current_leader : ℕ → Name → List ShardInfo → QueueResult × Name
get_current_leader shard out shards = elim (get_elem? shards shard) [
  | none ↦ (QueueResult.queue_not_found, out)
  | some info ↦ elim (first_leader info.replicas) [
    | none ↦ (QueueResult.queue_not_found, [])
    | some node ↦ (QueueResult.success, node)
  ]
]

pub set_health : Name → Bool → List ReplicaInfo → List ReplicaInfo
set_health node h [] = []
set_health node h (r ∷ rs) =
    (if same_name r.node_id node then record r { healthy = h } else r) ∷ set_health node h rs

pub set_node_health : Name → Bool → List ShardInfo → List ShardInfo
set_node_health node h [] = []
set_node_health node h (s ∷ shards) =
    record s { replicas = set_health node h s.replicas } ∷ set_node_health node h shards

-- The loop of SimulateReplication stops as soon as enough followers have acknowledged.
pub count_acks : ℕ → ℕ → List ReplicaInfo → ℕ
count_acks wanted acked [] = acked
count_acks wanted acked (r ∷ rs) =
    let skipped = count_acks wanted acked rs in
    let counted = count_acks wanted (acked + 1) rs in
    if is_follower r.role && r.healthy
    then (if leb wanted (acked + 1) then acked + 1 else counted)
    else skipped

pub simulate_replication : ℕ → ℕ → List ShardInfo → ℕ
simulate_replication wanted shard shards = elim (get_elem? shards shard) [
  | none ↦ 0
  | some info ↦ count_acks wanted 0 info.replicas
]

-- What RouteMessage selects among the replicas of the shard that the hash ring names.
pub record Selected : Type 0 where
  pub node : Name
  pub role : ReplicaRole
  pub healthy : Bool

pub healthy_leader : List ReplicaInfo → Option ReplicaInfo
healthy_leader [] = none
healthy_leader (r ∷ rs) = if is_leader r.role && r.healthy then some r else healthy_leader rs

pub first_healthy : List ReplicaInfo → Option ReplicaInfo
first_healthy [] = none
first_healthy (r ∷ rs) = if r.healthy then some r else first_healthy rs

abbrev first_priority : List ReplicaInfo → Selected → Selected
first_priority rs s = elim (healthy_leader rs) [
  | none ↦ s
  | some r ↦ record { node = r.node_id; role = ReplicaRole.leader; healthy = true }
]

abbrev second_priority : List ReplicaInfo → Selected → Selected
second_priority rs s = elim (first_healthy rs) [
  | none ↦ s
  | some r ↦ record {
    node = r.node_id;
    role = if is_follower r.role then ReplicaRole.follower else ReplicaRole.unknown;
    healthy = true;
  }
]

abbrev shown_role : ReplicaRole → ReplicaRole
shown_role ReplicaRole.leader = ReplicaRole.leader
shown_role ReplicaRole.follower = ReplicaRole.follower
shown_role _ = ReplicaRole.unknown

-- "If none is healthy, select the first": guarded by the selected replica's health.
abbrev third_priority : List ReplicaInfo → Selected → Selected
third_priority [] s = s
third_priority (r ∷ rs) s =
    if not s.healthy
    then record { node = r.node_id; role = shown_role r.role; healthy = false }
    else s

pub select_replica : Name → List ReplicaInfo → Selected
select_replica node rs =
    let start : Selected = record { node = node; role = ReplicaRole.unknown; healthy = true } in
    let first : Selected = first_priority rs start in
    third_priority rs (if is_leader first.role then first else second_priority rs first)

-- One round of the heartbeat for a shard: which replicas flip their health is drawn at random.
pub flip_health : List Bool → List ReplicaInfo → List ReplicaInfo
flip_health flips [] = []
flip_health [] (r ∷ rs) = r ∷ rs
flip_health (f ∷ flips) (r ∷ rs) =
    (if f then record r { healthy = not r.healthy } else r) ∷ flip_health flips rs

-- The last leader's health; false without one.
pub leader_healthy : Bool → List ReplicaInfo → Bool
leader_healthy found [] = found
leader_healthy found (r ∷ rs) = leader_healthy (if is_leader r.role then r.healthy else found) rs

pub takeover_node : Name → List ReplicaInfo → Name
takeover_node current [] = []
takeover_node current (r ∷ rs) =
    if not (same_name r.node_id current) && r.healthy then r.node_id else takeover_node current rs

abbrev pub switched : Name → Name → ReplicaInfo → ReplicaInfo
switched current takeover r =
    if same_name r.node_id takeover
    then record r { role = ReplicaRole.leader }
    else if same_name r.node_id current
    then record r { role = ReplicaRole.follower }
    else r

pub switch_roles : Name → Name → List ReplicaInfo → List ReplicaInfo
switch_roles current takeover [] = []
switch_roles current takeover (r ∷ rs) =
    switched current takeover r ∷ switch_roles current takeover rs

pub elect : List ReplicaInfo → List ReplicaInfo
elect rs =
    if leader_healthy false rs
    then rs
    else if same_name (takeover_node (old_leader [] rs) rs) []
    then rs
    else switch_roles (old_leader [] rs) (takeover_node (old_leader [] rs) rs) rs

pub heartbeat_shard : List Bool → List ReplicaInfo → List ReplicaInfo
heartbeat_shard flips rs = elect (flip_health flips rs)

-- A follower's applied index moves towards the length of the leader's log.
pub advance_applied : ℕ → ℕ → ℕ
advance_applied leader_len applied =
    if ltb applied leader_len
    then min leader_len (
        applied
        + (if leb 3 (leader_len - applied)
            then 3
            else if leb 2 (leader_len - applied)
            then 2
            else 1))
    else applied
