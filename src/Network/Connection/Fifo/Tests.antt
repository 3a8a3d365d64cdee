-- ===== src/Network/Connection/Fifo/Tests.antt =====
-- Two Sends with a round of writeLoop between them.
use mine_net.Base.{String, ℕ, ◌≡◌, refl, true, none, List, [], ◌∷◌}
use mine_net.Network.Packet.{encode}
use mine_net.Network.Packet.Transform.{
  outgoing, compress_data, encrypt_data, new_cipher, new_stream,
}
use mine_net.Network.RateLimiter.{new_rate_limiter, is_allowed}
use mine_net.Network.Connection.State.{new_connection, update_last_active}
use mine_net.Network.Connection.Send.{
  send, send_limited, select_send, write_step, write_select, write_packet, write_frame, defer_close,
}
use mine_net.Network.Connection.Receive.{Node}
use mine_net.Network.Connection.Steps.{Op, sends, writes, closes, run, step}
use mine_net.Network.Connection.Fifo.{Flows}
use mine_net.Network.Connection.Fifo.Order.{accepted, taken, run-Flows}
use mine_net.Network.Tests.{stored, fields, counting, hello, bye, fresh_conn}

abbrev sender : Node counting String ℕ
sender = record {
  limiter = new_rate_limiter counting 1 1;
  conn = fresh_conn "a";
  input = [];
  dispatched = [];
  reading = true;
}

abbrev history : List (Op String ℕ)
history = sends 105 true hello ∷ writes true none ∷ sends 106 true bye ∷ closes ∷ []

hello_and_bye :
    (accepted counting stored fields history sender
      ≡ record hello { seq_id = 1 } ∷ record bye { seq_id = 2 } ∷ [])
    × (taken counting stored fields history sender ≡ record hello { seq_id = 1 } ∷ [])
unfolding send send_limited select_send update_last_active new_connection is_allowed step write_step
    write_select write_packet write_frame defer_close encode outgoing compress_data encrypt_data
    new_cipher new_stream
hello_and_bye = (refl, refl)

run-Flows_example :
    Flows stored sender.conn
      (run counting stored fields history sender).conn
      (accepted counting stored fields history sender)
      (taken counting stored fields history sender)
run-Flows_example = run-Flows counting stored fields history sender (tt, (refl, (tt, (tt, tt))))
