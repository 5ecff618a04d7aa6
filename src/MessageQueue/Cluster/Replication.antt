-- ===== src/MessageQueue/Cluster/Replication.antt =====
-- Shared/MessageQueue/MessageQueue.cpp, SimulateReplication and the followers' progress in
-- ProcessHeartbeat.
use helianthus.Prelude.{
  ℕ, zero, suc, ◌+◌, ◌*◌, ◌≤◌, ◌<◌, min, max, ◌≡◌, ◌&&◌, some, List, [], ◌∷◌, arith, get_elem?,
  if◌then◌else◌,
}
use helianthus.MessageQueue.Cluster.{
  ReplicaInfo, ShardInfo, is_follower, count_acks, simulate_replication, advance_applied,
}

abbrev pub healthy_followers : List ReplicaInfo → ℕ
healthy_followers [] = 0
healthy_followers (r ∷ rs) =
    if is_follower r.role && r.healthy then suc (healthy_followers rs) else healthy_followers rs

count_acks-min :
    (wanted acked : ℕ) (rs : List ReplicaInfo)
    → acked < max 1 wanted
    → count_acks wanted acked rs ≡ min (max 1 wanted) (acked + healthy_followers rs)
unfolding count_acks
count_acks-min wanted acked [] h = omega arith
count_acks-min wanted acked (r ∷ rs) h =
    ground (arith, count_acks-min wanted (acked + 1) rs, count_acks-min wanted acked rs)

-- SimulateReplication counts the healthy followers of the shard, up to the wanted acknowledgements,
-- where 0 wanted counts like 1.
pub simulate_replication-min :
    (wanted shard : ℕ) (info : ShardInfo) (shards : List ShardInfo)
    → get_elem? shards shard ≡ some info
    → simulate_replication wanted shard shards
      ≡ min (max 1 wanted) (healthy_followers info.replicas)
unfolding simulate_replication
simulate_replication-min wanted shard info shards e =
    let k = count_acks-min wanted 0 info.replicas (omega arith) in
    let k' : count_acks wanted 0 info.replicas
        ≡ min (max 1 wanted) (healthy_followers info.replicas) =
      omega arith in
    rw (e, simulate_replication) k'

advance_applied-min :
    (leader_len applied : ℕ)
    → applied ≤ leader_len
    → advance_applied leader_len applied ≡ min leader_len (applied + 3)
unfolding advance_applied
advance_applied-min leader_len applied h = ground arith

abbrev pub rounds : ℕ → ℕ → ℕ → ℕ
rounds zero leader_len applied = applied
rounds (suc n) leader_len applied = rounds n leader_len (advance_applied leader_len applied)

-- A follower whose index is within the leader's log moves three entries a round, never past the end
-- of the log, and so reaches the end after a third as many rounds as it is entries behind.
pub rounds-min :
    (n leader_len applied : ℕ)
    → applied ≤ leader_len
    → rounds n leader_len applied ≡ min leader_len (applied + 3 * n)
rounds-min zero leader_len applied h = omega arith
rounds-min (suc n) leader_len applied h =
    let step = advance_applied-min leader_len applied h in
    let rest = rounds-min n leader_len (advance_applied leader_len applied) (omega arith) in
    omega arith
