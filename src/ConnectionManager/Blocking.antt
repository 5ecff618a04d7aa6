-- ===== src/ConnectionManager/Blocking.antt =====
-- Shared/Network/ConnectionManager.cpp: calls that lock the mutex which their thread holds.
use helianthus.Prelude.{
  ℕ, ◌≡◌, ◌↔◌, inl, inr, true, false, none, some, List, ◌∷◌, arith, find_id, Bool-cases,
  Option-cases,
}
use helianthus.ConnectionManager.{
  ConnectionInfo, ConnectionManager, is_connected, update_state, disconnect, trigger_reconnection,
  handle_connection_error,
}
use helianthus.ConnectionManager.Rounds.{reconnection_loop, process_reconnections}

-- TriggerReconnection blocks on the lock that it holds exactly when the connection is connected.
pub trigger_reconnection-blocks_iff :
    (id : ℕ) (m : ConnectionManager)
    → m.held ≡ false
    → (trigger_reconnection id m ≡ none)
      ↔ ((c : ConnectionInfo) × (find_id id m.connections ≡ some c) × (is_connected c.state ≡ true))
unfolding trigger_reconnection disconnect
trigger_reconnection-blocks_iff id m h = (
  λ e. elim (Option-cases (find_id id m.connections)) [
    | inl n ↦ ground arith
    | inr found ↦
        let (c, f) = found in
        elim (Bool-cases (is_connected c.state)) [ inl k ↦ (c, f, k) | inr k ↦ ground arith ]
  ],
  λ w. let (c, f, k) = w in ground arith,
)

-- HandleConnectionError blocks on the lock that it holds exactly when the connection exists.
pub handle_connection_error-blocks_iff :
    (id : ℕ) (m : ConnectionManager)
    → m.held ≡ false
    → (handle_connection_error id m ≡ none)
      ↔ ((c : ConnectionInfo) × (find_id id m.connections ≡ some c))
unfolding handle_connection_error update_state
handle_connection_error-blocks_iff id m h = (
  λ e. elim (Option-cases (find_id id m.connections)) [ inl n ↦ ground arith | inr found ↦ found ],
  λ w. let (c, f) = w in ground arith,
)

-- ProcessReconnections blocks on the lock that it holds when the first connection in its queue exists
-- and is not connected: no queued connection is ever connected again.
pub process_reconnections-blocks :
    (now id : ℕ) (ids : List ℕ) (c : ConnectionInfo) (m : ConnectionManager)
    → m.held ≡ false
    → m.reconnection_queue ≡ id ∷ ids
    → find_id id m.connections ≡ some c
    → is_connected c.state ≡ false
    → process_reconnections now m ≡ none
unfolding process_reconnections reconnection_loop update_state
process_reconnections-blocks now id ids c m h q f n = ground arith
