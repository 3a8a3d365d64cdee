-- ===== src/Network/Tests/Streams.antt =====
-- Runs of connections.
use mine_net.Base.{ℕ, ◌≡◌, refl, true, false, none, List, [], ◌∷◌, ok, arith, String}
use mine_net.Base.Int.{pos, to_uint64}
use mine_net.Base.Bits.{put_be}
use mine_net.Network.Packet.{Packet, encode, frame, frame_body}
use mine_net.Network.Packet.Transform.{
  Bytes, outgoing, compress_data, encrypt_data, new_cipher, new_stream, xor_encrypt, refill,
  advance,
}
use mine_net.Network.Packet.RoundTrip.{on_wire}
use mine_net.Network.RateLimiter.{
  RateLimiter, new_rate_limiter, is_allowed, granted, deadline_exceeded, end_wait,
}
use mine_net.Network.Heartbeat
use mine_net.Network.Heartbeat.{HeartPacket, new_heartbeat_manager}
use mine_net.Network.Connection.State.{
  Connection, new_connection, update_last_active, close, finish_close,
}
use mine_net.Network.Connection.Receive.{Node, receive}
use mine_net.Network.Connection.Pings.{IsUnanswered, ping_tick-IsUnanswered}
use mine_net.Network.RateLimiter.Counters.{
  Call, asks, begins, ends, answers, times, IsTallied, requests_lem,
}
use mine_net.Network.RateLimiter.Counters.{run as run_calls, step as step_call}
use mine_net.Network.Connection.Loops.{read_loop, write_loop, check_tick}
use mine_net.Network.Connection.Wire.{encode_all, number_all, AllSendable}
use mine_net.Network.Connection.Delivery.{Delivered, delivery}
use mine_net.Network.Connection.Invariant.{IsSound}
use mine_net.Network.Connection.Steps.{
  Op, sends, reads, writes, pings, checks, closes, run, step, run-IsSound,
}
use mine_net.Network.Connection.Closed.{IsQuiet}
use mine_net.Network.Connection.Overtaken.{IsOvertaken, step-IsQuiet}
use mine_net.Network.Connection.Beats.{IsOverdue, GaveUp, check_tick_lem}
use mine_net.Network.Tests.{
  stored, fields, counting, codec, peer, hello, bye, codec-IsPeer, hello-IsWire, bye-IsWire, heart,
  fresh_conn,
}

abbrev limiter : RateLimiter counting
limiter = new_rate_limiter counting 1 1

-- A connection with two packets in its queue.
abbrev queue : List Packet
queue = hello ∷ bye ∷ []

abbrev sender : Connection String ℕ
sender = record (fresh_conn "a") { send_chan = queue }

-- Its peer, which has a handler for the first.
abbrev receiver : Node counting String ℕ
receiver = record {
  limiter = limiter;
  conn = record (fresh_conn "b") { codec = peer; handlers = (3, "on_request") ∷ [] };
  input = on_wire (write_loop stored true 2 (sender, true)).0.written;
  dispatched = [];
  reading = true;
}

abbrev frames : Bytes
frames =
    0 ∷ 0 ∷ 0 ∷ 28 ∷ 0 ∷ 1 ∷ 0 ∷ 0 ∷ 0 ∷ 0 ∷ 0 ∷ 0 ∷ 0 ∷ 1 ∷ 0 ∷ 0 ∷ 0 ∷ 3 ∷ 0 ∷ 0 ∷ 0 ∷ 0 ∷ 101
    ∷ 83 ∷ 241 ∷ 0 ∷ 111 ∷ 104 ∷ 0 ∷ 0 ∷ 0 ∷ 26 ∷ 0 ∷ 1 ∷ 0 ∷ 0 ∷ 0 ∷ 0 ∷ 0 ∷ 0 ∷ 0 ∷ 2 ∷ 0 ∷ 0 ∷ 0
    ∷ 5 ∷ 255 ∷ 255 ∷ 255 ∷ 255 ∷ 255 ∷ 255 ∷ 255 ∷ 251 ∷ []

queue-encode_all : encode_all stored codec queue ≡ ok frames
unfolding encode_all encode frame frame_body outgoing compress_data encrypt_data new_cipher
    new_stream xor_encrypt refill advance put_be to_uint64
queue-encode_all = refl

-- Anything that these encode to is short.
queue-AllSendable : AllSendable stored codec queue
unfolding encode frame frame_body outgoing compress_data encrypt_data new_cipher new_stream
    xor_encrypt refill advance put_be to_uint64
queue-AllSendable = (
  hello-IsWire,
  λ h. omega arith,
  λ bs h. ground arith,
  (bye-IsWire, λ h. omega arith, λ bs h. ground arith, tt),
)

delivery_example :
    ((write_loop stored true 2 (sender, true)).0.send_chan ≡ [])
    × Delivered counting stored fields true receiver
        (read_loop counting stored fields (λ n. 1000) true 3 receiver)
        (number_all stored codec queue)
unfolding new_connection
delivery_example =
    delivery counting stored fields true (λ n. 1000) sender receiver refl refl queue-encode_all
      codec-IsPeer queue-AllSendable refl refl refl

fresh-IsSound : IsSound (fresh_conn "a")
unfolding new_connection new_heartbeat_manager Heartbeat.start
fresh-IsSound = record { channel = refl; heartbeat = refl; socket = refl; bounded = omega arith }

abbrev node : Node counting String ℕ
node = record {
  limiter = limiter;
  conn = fresh_conn "a";
  input = on_wire (3 ∷ []);
  dispatched = [];
  reading = true;
}

abbrev history : List (Op String ℕ)
history =
    sends 200 true hello
    ∷ writes true none
    ∷ reads 300 true
    ∷ pings 400 false true
    ∷ closes
    ∷ checks 500 true
    ∷ closes
    ∷ []

run-IsSound_example : IsSound (run counting stored fields history node).conn
run-IsSound_example = run-IsSound counting stored fields history node fresh-IsSound

abbrev closed_node : Node counting String ℕ
closed_node = run counting stored fields (closes ∷ []) node

closed_node-closed : closed_node.conn.closed ≡ true
unfolding run step close new_connection finish_close Heartbeat.stop new_heartbeat_manager
    Heartbeat.start
closed_node-closed = refl

step-IsQuiet_example :
    IsQuiet counting stored fields closed_node
      (step counting stored fields (sends 200 true hello) closed_node)
    × IsOvertaken counting stored fields closed_node
        (receive counting fields 300 true (ok hello) closed_node)
step-IsQuiet_example =
    step-IsQuiet counting stored fields (sends 200 true hello) closed_node 300 true (ok hello)
      (run-IsSound counting stored fields (closes ∷ []) node fresh-IsSound) closed_node-closed

-- A peer that answered at 5, with a timeout of 30.
abbrev silent : Connection String ℕ
silent = record (fresh_conn "a") { heartbeat = record heart { last_pong = 5 } }

check_tick_lem_example :
    (IsOverdue 40 silent.heartbeat → GaveUp silent (check_tick 40 true silent))
    × (¬ IsOverdue 40 silent.heartbeat → check_tick 40 true silent ≡ silent)
unfolding new_heartbeat_manager
check_tick_lem_example = check_tick_lem 40 true silent refl

-- Two Waits at once, and an Allow between their ends.
abbrev requests_made : List (Call counting)
requests_made =
    begins ∷ begins ∷ ends deadline_exceeded 50 (λ l. l) ∷ asks 200 ∷ ends granted 70 (λ l. l) ∷ []

-- The second Wait still waits when the first one resets the gauge.
waiting_unseen :
    (run_calls counting (begins ∷ begins ∷ ends granted 50 (λ l. l) ∷ []) limiter).state_waiting ≡ 0
unfolding run_calls step_call end_wait
waiting_unseen = refl

requests_lem_example :
    IsTallied counting limiter
      (run_calls counting requests_made limiter)
      (answers counting requests_made limiter.limiter)
    × ((run_calls counting requests_made limiter).wait_times
        ≡ times counting requests_made limiter.wait_times)
requests_lem_example = requests_lem counting requests_made limiter

fields-marshal : (h : HeartPacket) → (b : Bytes) × (fields.marshal h ≡ ok b)
fields-marshal h = (_, refl)

ping_tick-IsUnanswered_example : IsUnanswered counting fields 1000 false true node
unfolding new_connection new_heartbeat_manager Heartbeat.start new_rate_limiter is_allowed
ping_tick-IsUnanswered_example =
    ping_tick-IsUnanswered counting fields 1000 false true node fields-marshal refl refl refl refl
      (omega arith)

-- The idle times of a connection made at 100 that is used at 105 and at 109.
idle_times-used :
    (update_last_active 109 (update_last_active 105 sender)).metrics.idle_times ≡ pos 4 ∷ pos 5 ∷ []
unfolding update_last_active new_connection
idle_times-used = refl
