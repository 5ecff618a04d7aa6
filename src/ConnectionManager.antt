-- ===== src/ConnectionManager.antt =====
-- Shared/Network/ConnectionManager.cpp: connections, their states, and when to connect again. The
-- mutex of the connections is not recursive: a thread that locks it while it holds it never gets on,
-- which is the result `none`. The clock and `rand` are arguments.
pub mod Rounds
pub mod Blocking
pub mod Progress
pub mod Retries
pub mod Traffic
mod Tests
use helianthus.Prelude.{
  ℕ, zero, suc, ◌+◌, ◌-◌, ◌*◌, ◌/◌, ◌%◌, ◌^◌, ◌≤◌, ◌<◌, min, max, ◌≡◌, refl, sym, ap, ◌∙◌, ◌≢◌, ◌↔◌,
  ◌⊎◌, inl, inr, Bool, true, false, not, ◌&&◌, ◌||◌, Option, none, some, List, [], ◌∷◌, ◌++◌, map,
  arith, dec_lt, ℕ_discrete, u32_mod, u64_mod, le_bytes, le_value, length-le_bytes,
  le_value-le_bytes, take-le_bytes, drop-le_bytes, one_if, count, erase, length-erase, count-erase,
  count-append, find_id, put_id, remove_id, find_id-put_id, find_id-remove_id, length, get_elem?,
  set, length-append, length-set, get_elem?-set_self, get_elem?-set_ne, get_or, take, drop,
  replicate, take-append-drop, length-take, length-drop, length-replicate, length-map,
  take-length_append, drop-length_append, take-append_le, drop-append_le, All, Name, same_name,
  same_name→eq, same_name_self, eq→same_name, ne→same_name, find, put, remove, find-put,
  find-remove, map_laws, ltb, leb, ◌==◌, if◌then◌else◌, ltb→lt, lt→ltb, leb→le, ==_iff, tests,
  Bool-cases, Option-cases,
}

pub data ConnectionState : Type 0 where
  disconnected connecting connected disconnecting error_state : ConnectionState

pub data NetworkError : Type 0 where
  success already_initialized not_initialized connection_not_found : NetworkError

pub record ConnectionInfo : Type 0 where
  pub state : ConnectionState
  pub has_socket : Bool
  pub max_retries : ℕ
  pub retry_count : ℕ
  pub retry_interval_ms : ℕ
  pub max_retry_interval_ms : ℕ
  pub connect_time : ℕ
  pub last_activity_time : ℕ
  pub total_bytes_sent : ℕ
  pub total_bytes_received : ℕ
  pub failed_attempts : ℕ
  pub enable_heartbeat : Bool
  pub heartbeat_interval_ms : ℕ
  pub last_heartbeat_time : ℕ
  pub missed_heartbeats : ℕ
  pub max_missed_heartbeats : ℕ

pub record NetworkConfig : Type 0 where
  pub max_connections : ℕ
  pub enable_keepalive : Bool
  pub keep_alive_interval_ms : ℕ

-- `held`: this thread holds the mutex of the connections. `changes` are the calls of the handler of
-- state changes: id, old and new state.
pub record ConnectionManager : Type 0 where
  pub initialized : Bool
  pub held : Bool
  pub config : NetworkConfig
  pub connections : List (ℕ × ConnectionInfo)
  pub next_connection_id : ℕ
  pub reconnection_queue : List ℕ
  pub changes : List (ℕ × ConnectionState × ConnectionState)

abbrev pub release_lock {ℓ} :
    {R : Type ℓ} → Option (R × ConnectionManager) → Option (R × ConnectionManager)
release_lock none = none
release_lock (some (r, m)) = some (r, record m { held = false })

-- The scope of a lock guard.
abbrev pub locked {ℓ} :
    {R : Type ℓ}
    → (ConnectionManager → Option (R × ConnectionManager))
    → ConnectionManager
    → Option (R × ConnectionManager)
locked f m = if m.held then none else release_lock (f (record m { held = true }))

abbrev pub is_connected : ConnectionState → Bool
is_connected ConnectionState.connected = true
is_connected _ = false

abbrev pub is_connecting : ConnectionState → Bool
is_connecting ConnectionState.connecting = true
is_connecting _ = false

abbrev pub is_error : ConnectionState → Bool
is_error ConnectionState.error_state = true
is_error _ = false

abbrev pub put_connection : ℕ → ConnectionInfo → ConnectionManager → ConnectionManager
put_connection id c m = record m { connections = put_id id c m.connections }

-- UpdateConnectionStateInternal, for a caller that holds the lock.
unfoldable pub update_state_internal : ℕ → ConnectionState → ConnectionManager → ConnectionManager
update_state_internal id s m = elim (find_id id m.connections) [
  | none ↦ m
  | some c ↦ record m {
    connections = put_id id (record c { state = s }) m.connections;
    changes = m.changes ++ ((id, c.state, s) ∷ []);
  }
]

-- UpdateConnectionState takes the lock.
unfoldable pub update_state :
    ℕ → ConnectionState → ConnectionManager → Option (Bool × ConnectionManager)
update_state id s m = locked (λ m'. some (true, update_state_internal id s m')) m

abbrev pub initialize_locked :
    NetworkConfig → ConnectionManager → Option (NetworkError × ConnectionManager)
initialize_locked config m =
    if m.initialized
    then some (NetworkError.already_initialized, m)
    else some (NetworkError.success, record m { config = config; initialized = true })

unfoldable pub initialize :
    NetworkConfig → ConnectionManager → Option (NetworkError × ConnectionManager)
initialize config m = locked (initialize_locked config) m

abbrev pub new_connection : NetworkConfig → ConnectionInfo
new_connection config = record {
  state = ConnectionState.disconnected;
  has_socket = false;
  max_retries = 3;
  retry_count = 0;
  retry_interval_ms = 1000;
  max_retry_interval_ms = 30000;
  connect_time = 0;
  last_activity_time = 0;
  total_bytes_sent = 0;
  total_bytes_received = 0;
  failed_attempts = 0;
  enable_heartbeat = config.enable_keepalive;
  heartbeat_interval_ms = config.keep_alive_interval_ms;
  last_heartbeat_time = 0;
  missed_heartbeats = 0;
  max_missed_heartbeats = 3;
}

-- The id 0 is the invalid one.
unfoldable pub create_connection : ConnectionManager → Option (ℕ × ConnectionManager)
create_connection m =
    if not m.initialized
    then some (0, m)
    else locked
        (λ m'.
          some (
            m.next_connection_id,
            put_connection m.next_connection_id (new_connection m'.config) m',
          ))
        (record m { next_connection_id = (m.next_connection_id + 1) % u64_mod })

abbrev pub opened : ℕ → ConnectionInfo → ConnectionInfo
opened now c = record c {
  state = ConnectionState.connected;
  connect_time = now;
  last_activity_time = now;
  retry_count = 0;
}

abbrev pub connect_locked : ℕ → ℕ → ConnectionManager → Option (NetworkError × ConnectionManager)
connect_locked now id m = elim (find_id id m.connections) [
  | none ↦ some (NetworkError.connection_not_found, m)
  | some c ↦
      if is_connected c.state || is_connecting c.state
      then some (NetworkError.success, m)
      else some (
        NetworkError.success,
        put_connection id (opened now c) (
            update_state_internal id ConnectionState.connected
              (update_state_internal id ConnectionState.connecting m)),
      )
]

unfoldable pub connect : ℕ → ℕ → ConnectionManager → Option (NetworkError × ConnectionManager)
connect now id m =
    if m.initialized
    then locked (connect_locked now id) m
    else some (NetworkError.not_initialized, m)

abbrev pub disconnect_locked : ℕ → ConnectionManager → Option (Bool × ConnectionManager)
disconnect_locked id m = elim (find_id id m.connections) [
  | none ↦ some (false, m)
  | some c ↦ some (
    true,
    update_state_internal id ConnectionState.disconnected
        (put_connection id (record c { has_socket = false }) m),
  )
]

unfoldable pub disconnect : ℕ → ConnectionManager → Option (Bool × ConnectionManager)
disconnect id m = locked (disconnect_locked id) m

abbrev pub sent : ℕ → ℕ → ConnectionInfo → ConnectionInfo
sent now size c = record c {
  total_bytes_sent = (c.total_bytes_sent + size) % u64_mod;
  last_activity_time = now;
}

abbrev pub send_locked : ℕ → ℕ → ℕ → ConnectionManager → Option (NetworkError × ConnectionManager)
send_locked now id size m = elim (find_id id m.connections) [
  | none ↦ some (NetworkError.connection_not_found, m)
  | some c ↦
      if is_connected c.state
      then some (NetworkError.success, put_connection id (sent now size c) m)
      else some (NetworkError.connection_not_found, m)
]

unfoldable pub send_data : ℕ → ℕ → ℕ → ConnectionManager → Option (NetworkError × ConnectionManager)
send_data now id size m =
    if m.initialized
    then locked (send_locked now id size) m
    else some (NetworkError.not_initialized, m)

abbrev pub should_reconnect : ConnectionInfo → Bool
should_reconnect c = ltb c.retry_count c.max_retries && ltb 0 c.max_retries

abbrev pub queue_reconnection : ℕ → ConnectionInfo → ConnectionManager → ConnectionManager
queue_reconnection id c m =
    if should_reconnect c
    then record m { reconnection_queue = m.reconnection_queue ++ (id ∷ []) }
    else m

-- The pointer into the map sees what Disconnect changed.
abbrev pub after_disconnect :
    ℕ → Option (Bool × ConnectionManager) → Option (Bool × ConnectionManager)
after_disconnect id none = none
after_disconnect id (some (b, m)) = elim (find_id id m.connections) [
  | none ↦ some (false, m)
  | some c ↦ some (true, queue_reconnection id c m)
]

abbrev pub trigger_locked : ℕ → ConnectionManager → Option (Bool × ConnectionManager)
trigger_locked id m = elim (find_id id m.connections) [
  | none ↦ some (false, m)
  | some c ↦
      if is_connected c.state
      then after_disconnect id (disconnect id m)
      else some (true, queue_reconnection id c m)
]

unfoldable pub trigger_reconnection : ℕ → ConnectionManager → Option (Bool × ConnectionManager)
trigger_reconnection id m = locked (trigger_locked id) m

abbrev pub error_locked : ℕ → ConnectionManager → Option (Bool × ConnectionManager)
error_locked id m = elim (find_id id m.connections) [
  | none ↦ some (false, m)
  | some c ↦ after_disconnect id (
      update_state id ConnectionState.disconnected
        (put_connection id (record c { has_socket = false }) m))
]

unfoldable pub handle_connection_error : ℕ → ConnectionManager → Option (Bool × ConnectionManager)
handle_connection_error id m = locked (error_locked id) m
