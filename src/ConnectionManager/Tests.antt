-- ===== src/ConnectionManager/Tests.antt =====
-- Shared/Network/ConnectionManager.cpp: runs and applications at concrete values.
use helianthus.Prelude.{
  ℕ, ◌+◌, ◌/◌, ◌≤◌, ◌<◌, ◌≡◌, refl, ◌↔◌, ◌⊎◌, true, false, none, some, List, [], ◌∷◌, arith,
  find_id,
}
use helianthus.ConnectionManager.{
  ConnectionInfo, NetworkConfig, ConnectionManager, is_connected, new_connection, opened,
  trigger_reconnection,
}
use helianthus.ConnectionManager.Rounds.{calculate_retry_interval}
use helianthus.ConnectionManager.Blocking.{trigger_reconnection-blocks_iff}
use helianthus.ConnectionManager.Progress.{Call, perform_all, is_free, perform_all-free}
use helianthus.ConnectionManager.Retries.{calculate_retry_interval-bounds}

abbrev defaults : NetworkConfig
defaults = record {
  max_connections = 1000;
  enable_keepalive = true;
  keep_alive_interval_ms = 30000;
}

abbrev idle_connection : ConnectionInfo
idle_connection = new_connection defaults

abbrev manager_of : List (ℕ × ConnectionInfo) → List ℕ → ConnectionManager
manager_of cs queue = record {
  initialized = true;
  held = false;
  config = defaults;
  connections = cs;
  next_connection_id = 2;
  reconnection_queue = queue;
  changes = [];
}

trigger_reconnection-blocks_iff_example :
    (trigger_reconnection 1 (manager_of ((1, opened 5 idle_connection) ∷ []) []) ≡ none) ↔ (
      (c : ConnectionInfo) × (find_id 1 ((1, opened 5 idle_connection) ∷ []) ≡ some c)
      × (is_connected c.state ≡ true))
trigger_reconnection-blocks_iff_example =
    trigger_reconnection-blocks_iff 1 (manager_of ((1, opened 5 idle_connection) ∷ []) []) refl

perform_all-free_example :
    is_free (
      perform_all
        (Call.create ∷ Call.open_one 3 2 ∷ Call.send 4 2 10 ∷ Call.stop ∷ [])
        (manager_of [] []))
    ≡ true
perform_all-free_example =
    perform_all-free (Call.create ∷ Call.open_one 3 2 ∷ Call.send 4 2 10 ∷ Call.stop ∷ [])
      (manager_of [] []) refl

calculate_retry_interval-bounds_example :
    ((1000 < 4) × (calculate_retry_interval 7 idle_connection ≡ none))
    ⊎ ((r : ℕ) × (calculate_retry_interval 7 idle_connection ≡ some r)
        × (1000 ≤ r + 1000 / 4)
        × (r < 1000 + 1000 / 4))
calculate_retry_interval-bounds_example =
    calculate_retry_interval-bounds 7 idle_connection (omega arith)
