-- ===== src/ConnectionManager/Traffic.antt =====
-- Shared/Network/ConnectionManager.cpp: connecting and sending.
use mathlib.Core.List.{append_assoc}
use helianthus.Prelude.{
  ℕ, ◌+◌, ◌%◌, ◌≡◌, refl, ap, ◌∙◌, true, false, ◌||◌, some, List, [], ◌∷◌, ◌++◌, arith, u64_mod,
  find_id, put_id, find_id-put_id,
}
use helianthus.ConnectionManager.{
  ConnectionState, NetworkError, ConnectionInfo, ConnectionManager, is_connected, is_connecting,
  put_connection, update_state_internal, opened, connect, sent, send_data,
}
use helianthus.ConnectionManager.Rounds.{sum_sent, total_sent}

sum_sent-put_id :
    (id : ℕ) (c c' : ConnectionInfo) (cs : List (ℕ × ConnectionInfo))
    → find_id id cs ≡ some c
    → sum_sent (put_id id c' cs) + c.total_bytes_sent ≡ sum_sent cs + c'.total_bytes_sent
unfolding find_id put_id
sum_sent-put_id id c c' [] f = cc
sum_sent-put_id id c c' ((j, d) ∷ cs) f = ground (arith, sum_sent-put_id id c c' cs)

-- SendData on a connection that exists and is connected answers SUCCESS and adds the size to what
-- GetTotalStats reports, modulo 2^64.
pub send_data-total_sent :
    (now id size : ℕ) (c : ConnectionInfo) (m : ConnectionManager)
    → m.initialized ≡ true
    → m.held ≡ false
    → find_id id m.connections ≡ some c
    → is_connected c.state ≡ true
    → (m' : ConnectionManager) × (send_data now id size m ≡ some (NetworkError.success, m'))
      × (total_sent m' ≡ some ((sum_sent m.connections + size) % u64_mod, m'))
unfolding send_data total_sent
send_data-total_sent now id size c m i h f k =
    let m' : ConnectionManager = record (put_connection id (sent now size c) m) { held = false } in
    let a : send_data now id size m ≡ some (NetworkError.success, m') = ground arith in
    let s = sum_sent-put_id id c (sent now size c) m.connections f in
    let t : sum_sent m'.connections % u64_mod ≡ (sum_sent m.connections + size) % u64_mod =
      omega arith in
    (m', a, ap (λ n. some (n, m')) t)

found_after_put :
    (id : ℕ) (c : ConnectionInfo) (cs : List (ℕ × ConnectionInfo))
    → find_id id (put_id id c cs) ≡ some c
found_after_put id c cs = let k = find_id-put_id id id c cs in ground arith

update_state-found :
    (id : ℕ) (s : ConnectionState) (c : ConnectionInfo) (m : ConnectionManager)
    → find_id id m.connections ≡ some c
    → update_state_internal id s m ≡ record m {
      connections = put_id id (record c { state = s }) m.connections;
      changes = m.changes ++ ((id, c.state, s) ∷ []);
    }
unfolding update_state_internal
update_state-found id s c m f = rw (f, update_state_internal) refl

-- What Connect does to a connection that is neither connected nor connecting.
abbrev connected_manager : ℕ → ℕ → ConnectionInfo → ConnectionManager → ConnectionManager
connected_manager now id c m = put_connection id (opened now c) (
    update_state_internal id ConnectionState.connected
      (update_state_internal id ConnectionState.connecting m))

connected_manager-changes :
    (now id : ℕ) (c : ConnectionInfo) (m : ConnectionManager)
    → find_id id m.connections ≡ some c
    → ((connected_manager now id c m).changes
        ≡ m.changes
          ++ ((id, c.state, ConnectionState.connecting)
              ∷ (id, ConnectionState.connecting, ConnectionState.connected)
              ∷ []))
      × ((connected_manager now id c m).initialized ≡ m.initialized)
connected_manager-changes now id c m f =
    let c1 : ConnectionInfo = record c { state = ConnectionState.connecting } in
    let m1 : ConnectionManager = record m {
      connections = put_id id c1 m.connections;
      changes = m.changes ++ ((id, c.state, ConnectionState.connecting) ∷ []);
    } in
    let a = update_state-found id ConnectionState.connecting c m f in
    let b =
      update_state-found id ConnectionState.connected c1 m1 (found_after_put id c1 m.connections) in
    let e = ap (update_state_internal id ConnectionState.connected) a ∙ b in
    (
      ap (λ x. x.changes) e
          ∙ append_assoc m.changes ((id, c.state, ConnectionState.connecting) ∷ [])
              ((id, ConnectionState.connecting, ConnectionState.connected) ∷ []),
      ap (λ x. x.initialized) e,
    )

-- A connection that is disconnected and then connected can be sent to at once; the handler sees it
-- become CONNECTING and then CONNECTED.
pub send_data-connect :
    (now later id size : ℕ) (c : ConnectionInfo) (m : ConnectionManager)
    → m.initialized ≡ true
    → m.held ≡ false
    → find_id id m.connections ≡ some c
    → c.state ≡ ConnectionState.disconnected
    → (m1 : ConnectionManager) × (m2 : ConnectionManager) × (connect now id m
        ≡ some (NetworkError.success, m1))
      × (send_data later id size m1 ≡ some (NetworkError.success, m2))
      × (m1.changes
          ≡ m.changes
            ++ ((id, ConnectionState.disconnected, ConnectionState.connecting)
                ∷ (id, ConnectionState.connecting, ConnectionState.connected)
                ∷ []))
unfolding connect
send_data-connect now later id size c m i h f d =
    let opened_m = connected_manager now id c (record m { held = true }) in
    let m1 : ConnectionManager = record opened_m { held = false } in
    let (ch, n) = connected_manager-changes now id c (record m { held = true }) f in
    let k =
      found_after_put id (opened now c)
        (update_state_internal id ConnectionState.connected (
          update_state_internal id ConnectionState.connecting
            (record m { held = true }))).connections in
    let not_open : (is_connected c.state || is_connecting c.state) ≡ false = rw d refl in
    let (m2, s, t) = send_data-total_sent later id size (opened now c) m1 (n ∙ i) refl k refl in
    (
      m1,
      m2,
      ground arith,
      s,
      ch
          ∙ ap
              (λ st.
                m.changes
                ++ ((id, st, ConnectionState.connecting)
                    ∷ (id, ConnectionState.connecting, ConnectionState.connected)
                    ∷ []))
              d,
    )
