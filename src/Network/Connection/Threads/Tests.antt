-- ===== src/Network/Connection/Threads/Tests.antt =====
-- A Send whose check comes before the swap of a Close, and whose select comes behind its return.
use mine_net.Base.{String, ℕ, ◌*◌, ◌+◌, ◌≤◌, ◌≡◌, refl, true, [], ◌∷◌, ok, err, length, arith}
use mine_net.Network.Errors.{connection_closed}
use mine_net.Network.Heartbeat
use mine_net.Network.Packet.{Packet}
use mine_net.Network.RateLimiter.{new_rate_limiter, is_allowed}
use mine_net.Network.Connection.State.{
  new_connection, update_last_active, close, close-closed, finish_close,
}
use mine_net.Network.Connection.Send.{select_send}
use mine_net.Network.Connection.Threads.{
  swapping, closing_channel, stopping_heartbeat, setting_gauge, closing_socket, closed_with,
  checking, marking, limiting, numbering, selecting, sent_with, after_stop, swap_flag,
  close_channel, set_gauge, close_socket, check_closed, limited, number_packet, select_queue, act,
  World, ask, advance, acts, calls_close, calls_send, Reachable, here, next,
}
use mine_net.Network.Connection.Threads.Invariant.{IsSettled}
use mine_net.Network.Connection.Threads.Safety.{IsCoherent, calls-IsCoherent}
use mine_net.Network.Connection.Threads.Ends.{all_left, accesses, calls, closed_all, accesses-calls}
use mine_net.Network.Connection.Threads.Late.{takes, all_late, late_sends}
use mine_net.Network.Tests.{counting, hello, fresh_conn}

abbrev start : World counting String ℕ
start = record { limiter = new_rate_limiter counting 1 1; conn = fresh_conn "a"; tasks = [] }

start-IsSettled : IsSettled start.conn
unfolding new_connection Heartbeat.start Heartbeat.new_heartbeat_manager
start-IsSettled = record { channel = refl; heartbeat = refl; socket = refl }

abbrev numbered : Packet
numbered = record hello { seq_id = 1 }

-- The check, the swap, the rest of Close, the rest of Send.
history : (w : World counting String ℕ) × Reachable counting start w
unfolding act ask advance swap_flag close_channel after_stop set_gauge close_socket check_closed
    limited number_packet select_queue select_send update_last_active is_allowed Heartbeat.stop
    new_connection Heartbeat.start Heartbeat.new_heartbeat_manager
history =
    let r = next (next here (calls_close _)) (calls_send _ hello) in
    let r = next r (acts _ [] (swapping ∷ []) (checking hello) 105 true refl) in
    let r = next r (acts _ (marking hello ∷ []) [] swapping 105 true refl) in
    let r = next r (acts _ (marking hello ∷ []) [] closing_channel 105 true refl) in
    let r = next r (acts _ (marking hello ∷ []) [] stopping_heartbeat 105 true refl) in
    let r = next r (acts _ (marking hello ∷ []) [] setting_gauge 105 true refl) in
    let r = next r (acts _ (marking hello ∷ []) [] closing_socket 105 true refl) in
    let r = next r (acts _ [] (closed_with (ok tt) ∷ []) (marking hello) 106 true refl) in
    let r = next r (acts _ [] (closed_with (ok tt) ∷ []) (limiting hello) 106 true refl) in
    let r = next r (acts _ [] (closed_with (ok tt) ∷ []) (numbering hello) 107 true refl) in
    (_, next r (acts _ [] (closed_with (ok tt) ∷ []) (selecting numbered) 107 true refl))

-- The packet is queued on a connection that was closed before, and Send reports success.
history_ends :
    ((history.0).tasks ≡ sent_with (ok tt) ∷ closed_with (ok tt) ∷ [])
    × ((history.0).conn.send_chan ≡ numbered ∷ [])
    × ((history.0).conn.socket_closed ≡ true)
unfolding history
history_ends = (refl, refl, refl)

calls-IsCoherent_example : IsCoherent counting (history.0)
unfolding new_connection
calls-IsCoherent_example = calls-IsCoherent counting refl start-IsSettled (omega arith) (history.1)

closed_all_example :
    ((history.0).conn.closed ≡ true)
    × ((history.0).conn.close_chan_closed ≡ true)
    × ((history.0).conn.heartbeat.stopped ≡ true)
    × ((history.0).conn.socket_closed ≡ true)
unfolding new_connection history
closed_all_example =
    closed_all counting (sent_with (ok tt) ∷ []) [] (ok tt) refl start-IsSettled (omega arith)
      (history.1) refl refl

accesses-calls_example :
    accesses counting (history.1) + all_left (history.0).tasks ≤ 5 * calls counting (history.1)
accesses-calls_example = accesses-calls counting refl (history.1)

-- Close has returned; one Send has looked at the flag before, and one is called behind it.
abbrev closed_start : World counting String ℕ
closed_start = record {
  limiter = start.limiter;
  conn = (close start.conn).0;
  tasks = marking hello ∷ [];
}

late_history : (w : World counting String ℕ) × Reachable counting closed_start w
unfolding act ask advance check_closed limited number_packet select_queue select_send
    update_last_active is_allowed close new_connection finish_close Heartbeat.stop Heartbeat.start
    Heartbeat.new_heartbeat_manager
late_history =
    let r = next here (acts _ [] [] (marking hello) 106 true refl) in
    let r = next r (calls_send _ hello) in
    let r = next r (acts _ [] (limiting hello ∷ []) (checking hello) 106 true refl) in
    let r =
      next r (acts _ (sent_with (err connection_closed) ∷ []) [] (limiting hello) 106 true refl) in
    let r =
      next r (acts _ (sent_with (err connection_closed) ∷ []) [] (numbering hello) 107 true refl) in
    (
      _,
      next r
          (acts _ (sent_with (err connection_closed) ∷ []) [] (selecting numbered) 107 true refl),
    )

late_sends_example :
    takes counting (late_history.1)
      + length (late_history.0).conn.send_chan
      + all_late (late_history.0).tasks
    ≤ length closed_start.conn.send_chan + all_late closed_start.tasks
late_sends_example = late_sends counting (close-closed start.conn) (late_history.1)
