-- ===== src/ConnectionManager/Rounds.antt =====
-- Shared/Network/ConnectionManager.cpp: the calls over all connections, the settings, and the work
-- of ProcessEvents.
use helianthus.Prelude.{
  ℕ, zero, suc, ◌+◌, ◌-◌, ◌*◌, ◌/◌, ◌%◌, ◌^◌, min, Bool, true, false, ◌&&◌, Option, none, some,
  List, [], ◌∷◌, u32_mod, u64_mod, find_id, ltb, leb, ◌==◌, if◌then◌else◌,
}
use helianthus.ConnectionManager.{
  NetworkConfig, ConnectionState, NetworkError, ConnectionInfo, ConnectionManager, locked,
  is_connected, is_error, put_connection, update_state_internal, update_state, connect, send_data,
}

abbrev pub same_state : ConnectionState → ConnectionState → Bool
same_state ConnectionState.disconnected ConnectionState.disconnected = true
same_state ConnectionState.connecting ConnectionState.connecting = true
same_state ConnectionState.connected ConnectionState.connected = true
same_state ConnectionState.disconnecting ConnectionState.disconnecting = true
same_state ConnectionState.error_state ConnectionState.error_state = true
same_state _ _ = false

abbrev pub ids_in_state : ConnectionState → List (ℕ × ConnectionInfo) → List ℕ
ids_in_state s [] = []
ids_in_state s ((id, c) ∷ cs) =
    if same_state c.state s then id ∷ ids_in_state s cs else ids_in_state s cs

unfoldable pub get_connections_by_state :
    ConnectionState → ConnectionManager → Option (List ℕ × ConnectionManager)
get_connections_by_state s m = locked (λ m'. some (ids_in_state s m'.connections, m')) m

-- The last error, success without one.
unfoldable pub send_to_connections :
    ℕ → ℕ → List ℕ → NetworkError → ConnectionManager → Option (NetworkError × ConnectionManager)
send_to_connections now size [] last m = some (last, m)
send_to_connections now size (id ∷ ids) last m = elim (send_data now id size m) [
  | none ↦ none
  | some (NetworkError.success, m') ↦ send_to_connections now size ids last m'
  | some (e, m') ↦ send_to_connections now size ids e m'
]

unfoldable pub broadcast_data :
    ℕ → ℕ → ConnectionManager → Option (NetworkError × ConnectionManager)
broadcast_data now size m =
    if m.initialized
    then elim (get_connections_by_state ConnectionState.connected m) [
      | none ↦ none
      | some (ids, m') ↦ send_to_connections now size ids NetworkError.success m'
    ]
    else some (NetworkError.not_initialized, m)

abbrev pub change_locked :
    (ConnectionInfo → ConnectionInfo) → ℕ → ConnectionManager → Option (Bool × ConnectionManager)
change_locked f id m = elim (find_id id m.connections) [
  | none ↦ some (false, m)
  | some c ↦ some (true, put_connection id (f c) m)
]

unfoldable pub enable_auto_reconnect :
    ℕ → Bool → ConnectionManager → Option (Bool × ConnectionManager)
enable_auto_reconnect id enable m =
    locked (change_locked (λ c. record c { max_retries = if enable then 3 else 0 }) id) m

unfoldable pub set_reconnection_settings :
    ℕ → ℕ → ℕ → ConnectionManager → Option (Bool × ConnectionManager)
set_reconnection_settings id retries interval m =
    locked
      (change_locked (λ c. record c { max_retries = retries; retry_interval_ms = interval }) id) m

unfoldable pub enable_heartbeat : ℕ → Bool → ConnectionManager → Option (Bool × ConnectionManager)
enable_heartbeat id enable m =
    locked (change_locked (λ c. record c { enable_heartbeat = enable }) id) m

unfoldable pub set_heartbeat_settings :
    ℕ → ℕ → ℕ → ConnectionManager → Option (Bool × ConnectionManager)
set_heartbeat_settings id interval missed m =
    locked
      (change_locked
        (λ c. record c { heartbeat_interval_ms = interval; max_missed_heartbeats = missed }) id)
      m

abbrev pub disconnect_each : List (ℕ × ConnectionInfo) → ConnectionManager → ConnectionManager
disconnect_each [] m = m
disconnect_each ((id, c) ∷ cs) m = disconnect_each cs (
    update_state_internal id ConnectionState.disconnected
      (put_connection id (record c { has_socket = false }) m))

unfoldable pub disconnect_all : ConnectionManager → Option (Bool × ConnectionManager)
disconnect_all m =
    locked
      (λ m'. some (true, record (disconnect_each m'.connections m') { reconnection_queue = [] })) m

abbrev clear_connections : Option (Bool × ConnectionManager) → Option (Bool × ConnectionManager)
clear_connections none = none
clear_connections (some (b, m)) =
    elim (locked (λ m'. some (true, record m' { connections = [] })) m) [
      | none ↦ none
      | some (b', m') ↦ some (true, record m' { initialized = false })
    ]

unfoldable pub shutdown : ConnectionManager → Option (Bool × ConnectionManager)
shutdown m = if m.initialized then clear_connections (disconnect_all m) else some (false, m)

abbrev pub is_success : NetworkError → Bool
is_success NetworkError.success = true
is_success _ = false

-- What follows the state update to CONNECTING.
abbrev pub attempt_reconnection :
    ℕ → ℕ → ConnectionInfo → Option (Bool × ConnectionManager) → Option (Bool × ConnectionManager)
attempt_reconnection now id c none = none
attempt_reconnection now id c (some (b, m)) = elim (connect now id m) [
  | none ↦ none
  | some (r, m') ↦
      if is_success r
      then some (true, m')
      else if ltb (c.retry_count + 1) c.max_retries
      then some (false, put_connection id (record c { retry_count = c.retry_count + 1 }) m')
      else update_state id ConnectionState.error_state
          (put_connection id (record c { retry_count = c.retry_count + 1 }) m')
]

abbrev pub reconnect_locked : ℕ → ℕ → ConnectionManager → Option (Bool × ConnectionManager)
reconnect_locked now id m = elim (find_id id m.connections) [
  | none ↦ some (false, m)
  | some c ↦
      if is_connected c.state
      then some (false, m)
      else if leb c.max_retries c.retry_count
      then update_state id ConnectionState.error_state m
      else attempt_reconnection now id c (update_state id ConnectionState.connecting m)
]

-- At most this many of the queue are processed.
unfoldable pub reconnection_loop :
    ℕ → ℕ → List ℕ → ConnectionManager → Option (Bool × ConnectionManager)
reconnection_loop zero now ids m = some (true, record m { reconnection_queue = ids })
reconnection_loop (suc n) now [] m = some (true, record m { reconnection_queue = [] })
reconnection_loop (suc n) now (id ∷ ids) m = elim (locked (reconnect_locked now id) m) [
  | none ↦ none
  | some (b, m') ↦ reconnection_loop n now ids m'
]

unfoldable pub process_reconnections : ℕ → ConnectionManager → Option (Bool × ConnectionManager)
process_reconnections now m = reconnection_loop 10 now m.reconnection_queue m

abbrev pub beat : ℕ → ConnectionInfo → ConnectionInfo
beat now c =
    if is_connected c.state && c.enable_heartbeat
    then (if leb c.heartbeat_interval_ms ((now + (u64_mod - c.last_heartbeat_time)) % u64_mod)
        then record c { last_heartbeat_time = now; missed_heartbeats = 0 }
        else c)
    else c

abbrev pub beat_each : ℕ → List (ℕ × ConnectionInfo) → List (ℕ × ConnectionInfo)
beat_each now [] = []
beat_each now ((id, c) ∷ cs) = (id, beat now c) ∷ beat_each now cs

unfoldable pub process_heartbeats : ℕ → ConnectionManager → Option (Bool × ConnectionManager)
process_heartbeats now m =
    locked (λ m'. some (true, record m' { connections = beat_each now m'.connections })) m

abbrev pub without_failed : List (ℕ × ConnectionInfo) → List (ℕ × ConnectionInfo)
without_failed [] = []
without_failed ((id, c) ∷ cs) =
    if is_error c.state then without_failed cs else (id, c) ∷ without_failed cs

unfoldable pub cleanup_failed_connections : ConnectionManager → Option (Bool × ConnectionManager)
cleanup_failed_connections m =
    locked (λ m'. some (true, record m' { connections = without_failed m'.connections })) m

abbrev pub then_do :
    (ConnectionManager → Option (Bool × ConnectionManager))
    → Option (Bool × ConnectionManager)
    → Option (Bool × ConnectionManager)
then_do f none = none
then_do f (some (b, m)) = f m

unfoldable pub process_events : ℕ → ConnectionManager → Option (Bool × ConnectionManager)
process_events now m =
    if m.initialized
    then then_do cleanup_failed_connections
        (then_do (process_heartbeats now) (process_reconnections now m))
    else some (false, m)

abbrev pub sum_sent : List (ℕ × ConnectionInfo) → ℕ
sum_sent [] = 0
sum_sent ((id, c) ∷ cs) = c.total_bytes_sent + sum_sent cs

abbrev pub reset_each : List (ℕ × ConnectionInfo) → List (ℕ × ConnectionInfo)
reset_each [] = []
reset_each ((id, c) ∷ cs) =
    (id, record c { total_bytes_sent = 0; total_bytes_received = 0; failed_attempts = 0 })
    ∷ reset_each cs

unfoldable pub reset_stats : ConnectionManager → Option (Bool × ConnectionManager)
reset_stats m = locked (λ m'. some (true, record m' { connections = reset_each m'.connections })) m

-- SetConfig takes no lock.
unfoldable pub set_config : NetworkConfig → ConnectionManager → ConnectionManager
set_config config m = record m { config = config }

-- BytesSent of GetTotalStats.
unfoldable pub total_sent : ConnectionManager → Option (ℕ × ConnectionManager)
total_sent m = locked (λ m'. some (sum_sent m'.connections % u64_mod, m')) m

-- The interval before the jitter: the product is 32 bits wide.
abbrev pub capped_interval : ConnectionInfo → ℕ
capped_interval c =
    min (c.retry_interval_ms * 2 ^ min c.retry_count 10 % u32_mod) c.max_retry_interval_ms

-- `random` is the value of `rand`; a remainder by 0 has no result.
unfoldable pub calculate_retry_interval : ℕ → ConnectionInfo → Option ℕ
calculate_retry_interval random c =
    if 2 * (capped_interval c / 4) == 0
    then none
    else some (
        (capped_interval c
          + random % (2 * (capped_interval c / 4))
          + (u32_mod - capped_interval c / 4))
        % u32_mod)
