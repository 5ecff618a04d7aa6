-- ===== src/ConnectionManager/Progress.antt =====
-- Shared/Network/ConnectionManager.cpp: the calls that always return.
use helianthus.Prelude.{
  ℕ, ◌≡◌, inl, inr, Bool, true, false, not, Option, none, some, List, [], ◌∷◌, arith, Option-cases,
}
use helianthus.ConnectionManager.{
  ConnectionState, NetworkError, update_state, update_state_internal, NetworkConfig,
  ConnectionManager, initialize, create_connection, connect, disconnect, send_data,
}
use helianthus.ConnectionManager.Rounds.{
  enable_auto_reconnect, set_reconnection_settings, enable_heartbeat, set_heartbeat_settings,
  disconnect_all, shutdown, process_heartbeats, cleanup_failed_connections, total_sent,
  broadcast_data, send_to_connections, get_connections_by_state, reset_stats, set_config,
  ids_in_state,
}

pub data Call : Type 0 where
  init : NetworkConfig → Call
  create drop_all stop cleanup total : Call
  open_one : ℕ → ℕ → Call
  close_one : ℕ → Call
  send : ℕ → ℕ → ℕ → Call
  auto_reconnect heartbeat : ℕ → Bool → Call
  reconnection_settings heartbeat_settings : ℕ → ℕ → ℕ → Call
  heartbeats : ℕ → Call
  broadcast : ℕ → ℕ → Call
  send_each : ℕ → ℕ → List ℕ → Call
  state : ℕ → ConnectionState → Call
  reset : Call
  configuration : NetworkConfig → Call

abbrev pub forget {ℓ} : {R : Type ℓ} → Option (R × ConnectionManager) → Option ConnectionManager
forget none = none
forget (some (r, m)) = some m

abbrev pub perform : Call → ConnectionManager → Option ConnectionManager
perform (Call.init config) m = forget (initialize config m)
perform Call.create m = forget (create_connection m)
perform Call.drop_all m = forget (disconnect_all m)
perform Call.stop m = forget (shutdown m)
perform Call.cleanup m = forget (cleanup_failed_connections m)
perform Call.total m = forget (total_sent m)
perform (Call.open_one now id) m = forget (connect now id m)
perform (Call.close_one id) m = forget (disconnect id m)
perform (Call.send now id size) m = forget (send_data now id size m)
perform (Call.auto_reconnect id enable) m = forget (enable_auto_reconnect id enable m)
perform (Call.heartbeat id enable) m = forget (enable_heartbeat id enable m)
perform (Call.reconnection_settings id retries interval) m =
    forget (set_reconnection_settings id retries interval m)
perform (Call.heartbeat_settings id interval missed) m =
    forget (set_heartbeat_settings id interval missed m)
perform (Call.heartbeats now) m = forget (process_heartbeats now m)
perform (Call.broadcast now size) m = forget (broadcast_data now size m)
perform (Call.send_each now size ids) m =
    forget (send_to_connections now size ids NetworkError.success m)
perform (Call.state id s) m = forget (update_state id s m)
perform Call.reset m = forget (reset_stats m)
perform (Call.configuration config) m = some (set_config config m)

abbrev pub perform_all : List Call → ConnectionManager → Option ConnectionManager
perform_all [] m = some m
perform_all (c ∷ cs) m = elim (perform c m) [ none ↦ none | some m' ↦ perform_all cs m' ]

-- The calls returned, and this thread holds no lock.
abbrev pub is_free : Option ConnectionManager → Bool
is_free none = false
is_free (some m) = not m.held

-- A call that returned and holds no lock.
abbrev IsDone {ℓ} : {R : Type ℓ} → Option (R × ConnectionManager) → Type 0
IsDone o = is_free (forget o) ≡ true

send_data-free :
    (now id size : ℕ) (m : ConnectionManager) → m.held ≡ false → IsDone (send_data now id size m)
unfolding send_data
send_data-free now id size m h = ground arith

send_to_connections-free :
    (now size : ℕ) (ids : List ℕ) (last : NetworkError) (m : ConnectionManager)
    → m.held ≡ false
    → IsDone (send_to_connections now size ids last m)
unfolding send_to_connections
send_to_connections-free now size [] last m h = ground arith
send_to_connections-free now size (id ∷ ids) last m h =
    by_answer (send_data now id size m) (send_data-free now id size m h)
      (λ e m' k. send_to_connections-free now size ids e m' k)
  where
    by_answer :
        (o : Option (NetworkError × ConnectionManager))
        → IsDone o
        → ((e : NetworkError) (m' : ConnectionManager)
            → m'.held ≡ false
            → IsDone (send_to_connections now size ids e m'))
        → (let r : Option (NetworkError × ConnectionManager) = elim o [
          | none ↦ none
          | some (NetworkError.success, m') ↦ send_to_connections now size ids last m'
          | some (e, m') ↦ send_to_connections now size ids e m'
        ] in
            IsDone r)
    by_answer none k rest = k
    by_answer (some (NetworkError.success, m')) k rest = rest last m' (ground arith)
    by_answer (some (NetworkError.already_initialized, m')) k rest =
        rest NetworkError.already_initialized m' (ground arith)
    by_answer (some (NetworkError.not_initialized, m')) k rest =
        rest NetworkError.not_initialized m' (ground arith)
    by_answer (some (NetworkError.connection_not_found, m')) k rest =
        rest NetworkError.connection_not_found m' (ground arith)

broadcast_data-free :
    (now size : ℕ) (m : ConnectionManager) → m.held ≡ false → IsDone (broadcast_data now size m)
unfolding broadcast_data get_connections_by_state
broadcast_data-free now size m h =
    let all = ids_in_state ConnectionState.connected m.connections in
    let f =
      send_to_connections-free now size all NetworkError.success (record m { held = false })
        (ground arith) in
    ground arith

perform-free : (c : Call) (m : ConnectionManager) → m.held ≡ false → is_free (perform c m) ≡ true
unfolding initialize create_connection disconnect_all shutdown cleanup_failed_connections total_sent
    connect disconnect send_data enable_auto_reconnect enable_heartbeat set_reconnection_settings
    set_heartbeat_settings process_heartbeats update_state update_state_internal reset_stats
    set_config
perform-free (Call.init config) m h = ground arith
perform-free Call.create m h = ground arith
perform-free Call.drop_all m h = ground arith
perform-free Call.stop m h = ground arith
perform-free Call.cleanup m h = ground arith
perform-free Call.total m h = ground arith
perform-free (Call.open_one now id) m h = ground arith
perform-free (Call.close_one id) m h = ground arith
perform-free (Call.send now id size) m h = ground arith
perform-free (Call.auto_reconnect id enable) m h = ground arith
perform-free (Call.heartbeat id enable) m h = ground arith
perform-free (Call.reconnection_settings id retries interval) m h = ground arith
perform-free (Call.heartbeat_settings id interval missed) m h = ground arith
perform-free (Call.heartbeats now) m h = ground arith
perform-free (Call.broadcast now size) m h = broadcast_data-free now size m h
perform-free (Call.send_each now size ids) m h =
    send_to_connections-free now size ids NetworkError.success m h
perform-free (Call.state id s) m h = ground arith
perform-free Call.reset m h = ground arith
perform-free (Call.configuration config) m h = ground arith

-- Any run of the following calls, begun without the lock, returns and leaves the lock free:
-- Initialize, Shutdown, CreateConnection, Connect, Disconnect, DisconnectAll, SendData,
-- SendToConnections, BroadcastData, EnableAutoReconnect, SetReconnectionSettings, EnableHeartbeat,
-- SetHeartbeatSettings, ProcessHeartbeats, CleanupFailedConnections, UpdateConnectionState,
-- ResetStats, SetConfig and the bytes of GetTotalStats.
pub perform_all-free :
    (cs : List Call) (m : ConnectionManager) → m.held ≡ false → is_free (perform_all cs m) ≡ true
perform_all-free [] m h = ground arith
perform_all-free (c ∷ cs) m h =
    let k = perform-free c m h in
    elim (Option-cases (perform c m)) [
      | inl e ↦ ground arith
      | inr found ↦
          let (m', e) = found in
          let rest = perform_all-free cs m' (ground arith) in rw (e, perform_all) rest
    ]
