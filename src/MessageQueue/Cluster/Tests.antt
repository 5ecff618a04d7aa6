-- ===== src/MessageQueue/Cluster/Tests.antt =====
-- Shared/MessageQueue/MessageQueue.cpp, cluster: runs and applications at concrete values.
use helianthus.Prelude.{◌≡◌, refl, Bool, true, false, List, [], ◌∷◌, arith, Name, same_name}
use helianthus.MessageQueue.Types.{QueueResult}
use helianthus.MessageQueue.Cluster.{
  ReplicaRole, ReplicaInfo, ShardInfo, promote_to_leader, get_current_leader, leader_healthy, elect,
}
use helianthus.MessageQueue.Cluster.Leaders.{count_leaders, promote-get_current_leader}
use helianthus.MessageQueue.Cluster.Failover.{elect-healthy}

abbrev node_a : Name
node_a = 97 ∷ []

abbrev node_b : Name
node_b = 98 ∷ []

abbrev node_c : Name
node_c = 99 ∷ []

abbrev replica : Name → ReplicaRole → Bool → ReplicaInfo
replica node role healthy = record { node_id = node; role = role; healthy = healthy }

abbrev three : List ReplicaInfo
three =
    replica node_a ReplicaRole.leader false
    ∷ replica node_b ReplicaRole.follower false
    ∷ replica node_c ReplicaRole.follower true
    ∷ []

abbrev shard_of : List ReplicaInfo → ShardInfo
shard_of rs = record { id = 0; replicas = rs }

promote-get_current_leader_example :
    get_current_leader 0 [] (promote_to_leader 0 node_b (shard_of three ∷ [])).0
    ≡ (QueueResult.success, node_b)
unfolding same_name
promote-get_current_leader_example =
    (promote-get_current_leader 0 node_b [] (shard_of three) (shard_of three ∷ []) refl refl).1

elect-healthy_example :
    (count_leaders (elect three) ≡ 1) × (leader_healthy false (elect three) ≡ true)
unfolding same_name leader_healthy
elect-healthy_example = elect-healthy three refl (omega arith) refl
