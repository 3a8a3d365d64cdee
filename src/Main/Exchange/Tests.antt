-- ===== src/Main/Exchange/Tests.antt =====
-- A login request over compressed and encrypted frames, and its reply.
use mine_net.Base.{String, ℕ, ◌≡◌, refl, true, none, [], ◌∷◌, ok, arith}
use mine_net.Base.Int.{pos, to_uint64}
use mine_net.Base.Bits.{put_be}
use mine_net.Base.Map.{lookup}
use mine_net.Network.Packet.{Packet, new_packet, encode, frame, frame_body, cmd_reply}
use mine_net.Network.Packet.Transform.{
  Bytes, outgoing, compress_data, encrypt_data, new_cipher, new_stream, xor_encrypt, refill,
  advance,
}
use mine_net.Network.Packet.RoundTrip.{IsWire, numbered}
use mine_net.Network.RateLimiter.{RateLimiter, new_rate_limiter, is_allowed}
use mine_net.Network.Connection.State.{new_connection}
use mine_net.Network.Connection.Receive.{Node}
use mine_net.Network.Tests.{stored, fields, counting, codec, peer, codec-IsPeer, heart}
use mine_net.Core.Registry.{MessageRegistry, get_message_info, get_message_type}
use mine_net.Core.Router.{BaseMessage, Router}
use mine_net.Core.Requests.{Routes}
use mine_net.Core.Tests.{types, numbers, login_info, login, router}
use mine_net.Main.Exchange.{exchange}
use mine_net.Main.Exchange.Reply.{sender, reply_lem}

abbrev registry : MessageRegistry
registry = record { message_types = []; message_infos = (100, login_info) ∷ [] }

-- Number 100, request 5, message 7.
abbrev request : Packet
request = record { version = 1; seq_id = 0; cmd_id = 3; body = 100 ∷ 5 ∷ 7 ∷ []; timestamp = pos 1 }

abbrev base : BaseMessage
base = record { msg_type = 100; payload = 7 ∷ []; request_id = 5 }

abbrev limiter : RateLimiter counting
limiter = new_rate_limiter counting 1 1

abbrev client : Node counting String ℕ
client = record {
  limiter = limiter;
  conn = record (new_connection 100 "a" codec heart none) {
    send_chan = request ∷ [];
    handlers = (4, "on_reply") ∷ [];
  };
  input = [];
  dispatched = [];
  reading = true;
}

abbrev server : Node counting (Router ℕ) ℕ
server = record {
  limiter = limiter;
  conn = record (new_connection 100 "b" peer heart none) { handlers = (3, router) ∷ [] };
  input = [];
  dispatched = [];
  reading = true;
}

request-IsWire : IsWire request
request-IsWire = record {
  version = omega arith;
  cmd = omega arith;
  time = omega arith;
  bytes = omega arith;
}

abbrev reply_bytes : Bytes
reply_bytes = 0 ∷ 5 ∷ 107 ∷ []

reply-IsWire : IsWire (new_packet 9 cmd_reply reply_bytes)
unfolding new_packet
reply-IsWire = record {
  version = omega arith;
  cmd = omega arith;
  time = omega arith;
  bytes = omega arith;
}

request-Routes :
    Routes types numbers
      (sender ℕ counting stored fields types numbers registry true 9 0)
      registry
      router
      0
      (numbered codec request)
      base
      7
      (21 ∷ 3 ∷ [])
      login
unfolding lookup get_message_info
request-Routes = record {
  info = login_info;
  typ = 10;
  first = 1;
  second = 11;
  parsed = refl;
  known = refl;
  request = refl;
  message = refl;
  handler = refl;
  interface = refl;
  context = refl;
  fits = refl;
}

reply_lem_example :
    (reply : Packet) × ((exchange counting stored fields types numbers registry true 9 0 client
        server).0.dispatched
      ≡ ("on_reply", reply) ∷ [])
    × (reply.cmd_id ≡ cmd_reply)
    × (numbers.unmarshal_base reply.body
        ≡ ok (record { msg_type = 0; payload = 107 ∷ []; request_id = 5 }))
unfolding encode frame frame_body outgoing compress_data encrypt_data new_cipher new_stream
    xor_encrypt refill advance put_be to_uint64 new_packet lookup get_message_type new_connection
    is_allowed
reply_lem_example =
    reply_lem ℕ counting stored fields types numbers registry true 9 0 client server request router
      "on_reply" base 7 (21 ∷ 3 ∷ []) login 107 (107 ∷ []) reply_bytes
      (record { flag = refl; channel = refl; written = refl; queue = refl })
      (record { flag = refl; channel = refl; written = refl; queue = refl }) refl codec-IsPeer
      request-IsWire refl refl (omega arith) refl refl request-Routes refl refl refl refl
      reply-IsWire refl (omega arith)
