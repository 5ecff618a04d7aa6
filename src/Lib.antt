-- ===== src/Lib.antt =====
-- Helianthus, a game server framework in C++: its messages and their framing, RPC wire format,
-- buffer pools, connection manager, message queue with dead letters, transactions, replicas and
-- persistence, service registry, health checks, load balancer and command line.
--
-- Prelude: shared names, lists over native numbers, little-endian bytes, counting, and maps as
--   association lists. The order of an unordered map is that of the list.
-- Framing: Shared/Network/Asio/MessageProtocol.cpp. `process_loop` is ProcessBuffer on fuel;
--   `fuel_for` is twice the unread bytes and two, since a length takes four bytes and a message
--   returns to waiting for a length. The handler is an observer whose calls are returned.
-- RpcPayload: RpcMessagePayload::ToBinary and FromBinary of Shared/RPC/RpcMessage.cpp. The JSON form
--   goes through a third-party library and is not modelled.
-- BufferPool: Shared/Network/Asio/BufferPool.cpp and BufferPool.h, with an explicit heap of buffers;
--   BufferPool/Clients holds clients with buffers from the pool and from outside it;
--   BufferPool/Manager is the pool manager and the inline functions of the header.
-- ConnectionManager: Shared/Network/ConnectionManager.cpp and .h. `held` says that the thread holds
--   the mutex of the connections; to lock it again is the result `none`. ConnectionManager/Rounds
--   holds the calls over all connections and ProcessEvents. The mutex of the reconnection queue is
--   left out, since one thread never takes it twice.
-- MessageQueue: Shared/MessageQueue/MessageQueue.cpp, MessageQueue.h and MessageTypes.h.
--   Message and Queue are Message and QueueData; of a std::priority_queue only that `top` has the
--   highest priority is fixed, and `pick` chooses among equals.
--   Broker is the map of queues with the calls that manage it, Broker/DeadLetter the queues of dead
--   letters, Broker/Transfer sending, receiving and settling. Each call runs under the queue's
--   lock, so calls are one step. Messages are values: a consumer that changes a message which
--   it shares with the queue is not modelled. `Transforms` stands for compression, encryption and
--   the properties that routing adds. The clock is an argument. The log, the handlers, persistence,
--   the metric samples and the notification of waiting threads are left out.
--   Broker/Calls makes the calls values, so that statements can be about runs.
--   Broker/Whereabouts follows a message that is taken out of a queue.
--   Transactions is the transaction part, on top of the broker: Tally, Sweep, Ledgers, Keeping and
--   Runs relate its statistics to the transactions themselves. Cluster is the part about shards:
--   promotion, health, the simulated replication, the choice of a replica, and the heartbeat with
--   what it draws at random as an argument.
-- Persistence: Shared/MessageQueue/MessagePersistence.cpp. Records is the record of a message and its
--   parser; DataFile is the std::fstream, which appends what it writes and has one position; Store is
--   the index and the calls on messages. When the stream or the policy flushes, and what an unread
--   size holds, are arguments. StoredMessage is the header, the status and the payload; the times of
--   the object that no record holds are left out. Loaded, Saved and Behind follow a message from its
--   save to a load.
-- Crc32, Message: Shared/Message/Message.cpp. Crc32 is the table-driven CRC; its children show that a
--   round is linear and one-to-one on 32 bits. Message is the header as memory, the checksum,
--   Serialize and Deserialize, which returns the object also where it refuses the bytes.
-- Discovery: the types of Shared/Discovery/DiscoveryTypes.h that ServiceRegistry,
--   HealthChecker and LoadBalancer share.
-- ServiceRegistry: Shared/Discovery/ServiceRegistry.cpp. Removal holds the calls that take services
--   out and the cleanup, where `none` is a thread that blocks itself on ServicesMutex; Lookup those
--   that only read. Directory is the abstract specification, one map from ids to instances; Indexed
--   is the invariant of the index by name, Refines, Agreement and Refinement compare the two.
-- LoadBalancer: Shared/Discovery/LoadBalancer.cpp, how each strategy selects an instance of a service.
--   An instance is named by its id, and what is drawn at random is an argument. LoadBalancer/Registry
--   is the maps of services and instances: adding, removing, updating, and what is recorded;
--   LoadBalancer/Known makes these calls values, for statements about runs.
--   Sticky sessions, the hash ring and failover are empty in the source.
-- HealthChecker: Shared/Discovery/HealthChecker.cpp. What a probe finds is an argument. Runs makes the
--   calls values, Rounds is the loop of the thread that checks, Settles follows rows of outcomes.
-- CommandLine: Shared/Common/CommandLineParser.cpp. `word_of` says what a word asks for, `parse_args` is
--   the loop of Parse, `give` what one value changes; an error is named instead of worded.
--
-- Not modelled: topics, consumers and producers, batches, delayed messages and compression of the
-- queue; of its persistence the queues' configurations, the index file and the manager; sockets and
-- reactors, which call the operating system; the RPC server and client around the payload, and the
-- client of the service discovery; the databases, logging, configuration and scripting.
pub mod Prelude
pub mod Discovery
pub mod Framing
pub mod RpcPayload
pub mod BufferPool
pub mod MessageQueue
pub mod ConnectionManager
pub mod Persistence
pub mod HealthChecker
pub mod CommandLine
pub mod Crc32
pub mod Message
pub mod ServiceRegistry
pub mod LoadBalancer
