-- ===== src/Network/Tests/Early.antt =====
-- A packet that reaches a new connection before and behind its handlers.
use mine_net.Base.{String, ℕ, ◌≡◌, refl, true, some, [], ◌∷◌, arith}
use mine_net.Base.Bits.{put_be}
use mine_net.Base.Int.{to_uint64}
use mine_net.Base.Map.{Map, nat_key, lookup}
use mine_net.Network.Packet.{encode, frame, frame_body}
use mine_net.Network.Packet.Transform.{
  outgoing, compress_data, encrypt_data, new_cipher, new_stream, xor_encrypt, refill, advance,
}
use mine_net.Network.Packet.RoundTrip.{on_wire, numbered}
use mine_net.Network.RateLimiter.{new_rate_limiter}
use mine_net.Network.Connection.State.{new_connection}
use mine_net.Network.Connection.Receive.{Node, read_step}
use mine_net.Network.TcpServer.Early.{installed, early_lem}
use mine_net.Network.Tests.{
  hello_frame, stored, fields, counting, codec, hello, hello-IsWire, fresh_conn,
}

abbrev handlers : Map ℕ String
handlers = (3, "on_request") ∷ (5, "on_push") ∷ []

abbrev fresh : Node counting String ℕ
fresh = record {
  limiter = new_rate_limiter counting 1 1;
  conn = fresh_conn "a";
  input = on_wire hello_frame;
  dispatched = [];
  reading = true;
}

early_lem_example :
    let early =
      installed counting true handlers (read_step counting stored fields 105 true fresh) in
    let late = read_step counting stored fields 105 true (installed counting true handlers fresh) in
    (early.input ≡ [])
    × (early.dispatched ≡ [])
    × (lookup 3 early.conn.handlers ≡ some "on_request")
    × (late.dispatched ≡ ("on_request", numbered codec hello) ∷ [])
unfolding encode frame frame_body outgoing compress_data encrypt_data new_cipher new_stream
    xor_encrypt refill advance put_be to_uint64 new_connection lookup
early_lem_example =
    early_lem counting true stored fields 105 handlers fresh codec hello "on_request" [] refl
      (refl, (refl, tt)) refl (record { compress = refl; encrypt = refl; key = refl; iv = refl })
      hello-IsWire (omega arith) refl (omega arith) refl refl
