-- ===== src/MessageQueue.antt =====
-- Shared/MessageQueue: the queues with their dead letters, and the cluster of replicas.
pub mod Types
pub mod Message
pub mod Queue
pub mod Broker
pub mod Transactions
pub mod Cluster
