-- ===== src/Network/Packet.antt =====
-- network/packet.go: packets, the frame format, and the codec.
-- A reader is the list of what the network will deliver: bytes, and errors between them. The end of
-- the list is the end of the stream.
pub mod Transform
pub mod RoundTrip
pub mod Rejects
pub mod Progress
pub mod BadKeys
pub mod Shared
use mine_net.Base.{
  ℕ, zero, suc, ◌+◌, ◌-◌, ◌*◌, ◌/◌, ◌%◌, ◌^◌, ◌||◌, List, [], ◌∷◌, ◌++◌, Outcome, ok, err, panic,
  ◌>>=◌, length, take, drop, ltb, if◌then◌else◌,
}
use mine_net.Base.Int.{ℤ, pos, to_uint64, to_int64}
use mine_net.Base.Bits.{put_be, get_be}
use mine_net.Network.Errors.{
  NetError, Error, eof, unexpected_eof, invalid_packet_size, unsupported_version, net,
}
use Transform.{Bytes, Transforms, PacketCodec, outgoing, incoming}

abbrev pub current_version : ℕ
current_version = 1

abbrev pub max_packet_size : ℕ
max_packet_size = 10 * 1024 * 1024

abbrev pub cmd_ping : ℕ
cmd_ping = 1

abbrev pub cmd_pong : ℕ
cmd_pong = 2

abbrev pub cmd_request : ℕ
cmd_request = 3

abbrev pub cmd_reply : ℕ
cmd_reply = 4

abbrev pub cmd_push : ℕ
cmd_push = 5

pub record Packet : Type 0 where
  pub version : ℕ
  pub seq_id : ℕ
  pub cmd_id : ℕ
  pub body : Bytes
  pub timestamp : ℤ

-- `time.Now().Unix()` of a clock in nanoseconds.
abbrev pub unix : ℕ → ℤ
unix now = pos (now / 1000000000)

unfoldable pub new_packet : ℕ → ℕ → Bytes → Packet
new_packet now cmd_id body = record {
  version = current_version;
  seq_id = 0;
  cmd_id = cmd_id;
  body = body;
  timestamp = unix now;
}

-- | version 2 | sequence 8 | command 4 | time 8 | data |
unfoldable pub frame_body : Packet → Bytes → Bytes
frame_body p d =
    put_be 2 p.version
    ++ (put_be 8 p.seq_id ++ (put_be 4 p.cmd_id ++ (put_be 8 (to_uint64 p.timestamp) ++ d)))

-- In front of it stands the total length, in 4 bytes.
unfoldable pub frame : Packet → Bytes → Bytes
frame p d = put_be 4 (26 + length d) ++ frame_body p d

-- The counter and the packet's number change, also where the encoding fails.
unfoldable pub encode :
    Transforms → PacketCodec → Packet → PacketCodec × Packet × Outcome Error Bytes
encode t c p =
    let seq = (c.seq_id + 1) % 2 ^ 64 in
    let numbered = record p { seq_id = seq } in
    (record c { seq_id = seq }, numbered, outgoing t c p.body >>= λ d. ok (frame numbered d))

pub data Event : Type 0 where
  byte : ℕ → Event
  fault : NetError → Event

-- A computation that reads from the network.
abbrev pub Read : Type 0 → Type 0
Read A = List Event → Outcome Error A × List Event

-- One byte more in front of what `io.ReadFull` read.
abbrev pub after_byte : ℕ → Outcome Error Bytes × List Event → Outcome Error Bytes × List Event
after_byte b (ok bs, r) = (ok (b ∷ bs), r)
after_byte b (err eof, r) = (err unexpected_eof, r)
after_byte b (err e, r) = (err e, r)
after_byte b (panic, r) = (panic, r)

-- `io.ReadFull` of n bytes: `eof` only if nothing was read; other errors pass.
unfoldable pub read_full : ℕ → Read Bytes
read_full zero r = (ok [], r)
read_full (suc n) [] = (err eof, [])
read_full (suc n) (fault e ∷ r) = (err (net e), r)
read_full (suc n) (byte b ∷ r) = after_byte b (read_full n r)

abbrev pub then_read :
    {A B : Type 0} → Outcome Error A × List Event → (A → Read B) → Outcome Error B × List Event
then_read (ok a, r) f = f a r
then_read (err e, r) f = (err e, r)
then_read (panic, r) f = (panic, r)

-- What is parsed from the bytes behind the length.
unfoldable pub decode_body : Transforms → PacketCodec → Bytes → Outcome Error Packet
decode_body t c buf =
    if ltb current_version (get_be (take 2 buf)) then err unsupported_version else do
      d ← incoming t c (drop 22 buf)
      ok (record {
        version = get_be (take 2 buf);
        seq_id = get_be (take 8 (drop 2 buf));
        cmd_id = get_be (take 4 (drop 10 buf));
        body = d;
        timestamp = to_int64 (get_be (take 8 (drop 14 buf)));
      })

unfoldable pub decode : Transforms → PacketCodec → Read Packet
decode t c r = then_read (read_full 4 r) λ len_buf r'.
    let total = get_be len_buf in
    if ltb total 26 || ltb max_packet_size total
    then (err invalid_packet_size, r')
    else then_read (read_full (total - 4) r') λ buf rest. (decode_body t c buf, rest)
