-- ===== src/Network/Packet/RoundTrip.antt =====
-- Decode reads back what Encode wrote.
use mathlib.Core.List.{map-append}
use mine_net.Base.{
  ℕ, zero, suc, ◌+◌, ◌-◌, ◌%◌, ◌^◌, ◌≤◌, ◌<◌, ◌≡◌, refl, ap, ◌∙◌, List, [], ◌∷◌, ◌++◌, map, ok,
  >>=-eq-ok, length, length-append, take, drop, All, arith, append_assoc,
}
use mine_net.Base.Int.{IsInt64, to_uint64, to_uint64-lt, to_int64-to_uint64}
use mine_net.Base.Bits.{IsByte, put_be, get_be-put_be, length-put_be}
use mine_net.Network.Packet.Transform.{
  Bytes, Transforms, PacketCodec, outgoing, incoming, decrypt_data,
}
use mine_net.Network.Packet.Transform.RoundTrip.{incoming-outgoing}
use mine_net.Network.Packet.{
  Packet, frame_body, Event, byte, read_full, after_byte, frame, encode, decode, decode_body,
  current_version, max_packet_size,
}

-- The values that a packet's fields can hold and that a peer of this version sends.
pub record IsWire (p : Packet) : Type 0 where
  pub version : p.version ≤ current_version
  pub cmd : p.cmd_id < 2 ^ 32
  pub time : IsInt64 p.timestamp
  pub bytes : All IsByte p.body

abbrev pub on_wire : Bytes → List Event
on_wire bs = map byte bs

pub read_full-on_wire :
    (bs : Bytes) (n : ℕ) (rest : List Event)
    → length bs ≡ n
    → read_full n (on_wire bs ++ rest) ≡ (ok bs, rest)
unfolding read_full
read_full-on_wire [] zero rest h = refl
read_full-on_wire (b ∷ bs) (suc n) rest h =
    ap (after_byte b) (read_full-on_wire bs n rest (omega arith))
read_full-on_wire bs n rest h = absurd (omega arith)

pub length-frame_body : (p : Packet) (d : Bytes) → length (frame_body p d) ≡ 22 + length d
unfolding frame_body put_be
length-frame_body p d = omega arith

-- The four header fields and the data, cut out of the part behind the length.
pub cut_frame_body :
    (p : Packet) (d : Bytes)
    → let b = frame_body p d in
      (take 2 b ≡ put_be 2 p.version)
      × (take 8 (drop 2 b) ≡ put_be 8 p.seq_id)
      × (take 4 (drop 10 b) ≡ put_be 4 p.cmd_id)
      × (take 8 (drop 14 b) ≡ put_be 8 (to_uint64 p.timestamp))
      × (drop 22 b ≡ d)
unfolding frame_body put_be
cut_frame_body p d = (refl, refl, refl, refl, refl)

decode_body-frame_body :
    (t : Transforms) (c : PacketCodec) (p : Packet) (d : Bytes)
    → IsWire p
    → p.seq_id < 2 ^ 64
    → incoming t c d ≡ ok p.body
    → decode_body t c (frame_body p d) ≡ ok p
unfolding decode_body
decode_body-frame_body t c p d w hs e =
    let (version, seq, cmd, time, rest) = cut_frame_body p d in
    let version' = get_be-put_be 2 p.version (omega (arith, w.version)) in
    let seq' = get_be-put_be 8 p.seq_id (omega arith) in
    let cmd' = get_be-put_be 4 p.cmd_id (omega (arith, w.cmd)) in
    let time' = get_be-put_be 8 (to_uint64 p.timestamp) (omega (arith, to_uint64-lt p.timestamp)) in
    rw (version, seq, cmd, time, rest, version', seq', cmd', time', e)
      (ground (arith, w.version, to_int64-to_uint64 p.timestamp w.time))

-- A well-sized stretch of bytes behind its length is handed to the parser, whatever it holds.
pub decode_sized :
    (t : Transforms) (c : PacketCodec) (n : ℕ) (b : Bytes) (rest : List Event)
    → 26 ≤ n
    → n ≤ max_packet_size
    → length b ≡ n - 4
    → decode t c (on_wire (put_be 4 n ++ b) ++ rest) ≡ (decode_body t c b, rest)
unfolding decode
decode_sized t c n b rest lo hi size =
    rw
      (
        map-append byte (put_be 4 n) b,
        append_assoc (on_wire (put_be 4 n)) (on_wire b) rest,
        read_full-on_wire (put_be 4 n) 4 (on_wire b ++ rest) (length-put_be 4 n),
        get_be-put_be 4 n (omega arith),
        read_full-on_wire b (n - 4) rest size,
      )
      (ground arith)

-- A frame of an acceptable size is read as the packet in it, and nothing more is read.
pub decode-frame :
    (t : Transforms) (c : PacketCodec) (p : Packet) (d : Bytes) (rest : List Event)
    → IsWire p
    → p.seq_id < 2 ^ 64
    → 26 + length d ≤ max_packet_size
    → incoming t c d ≡ ok p.body
    → decode t c (on_wire (frame p d) ++ rest) ≡ (ok p, rest)
unfolding frame
decode-frame t c p d rest w hs fits e =
    decode_sized t c (26 + length d) (frame_body p d) rest (omega arith) fits
      (omega (arith, length-frame_body p d))
    ∙ rw (decode_body-frame_body t c p d w hs e)

pub length-frame : (p : Packet) (d : Bytes) → length (frame p d) ≡ 26 + length d
unfolding frame
length-frame p d = omega (
  arith,
  length-append (put_be 4 (26 + length d)) (frame_body p d),
  length-put_be 4 (26 + length d),
  length-frame_body p d,
)

-- The packet as Encode numbers it.
abbrev pub numbered : PacketCodec → Packet → Packet
numbered c p = record p { seq_id = (c.seq_id + 1) % 2 ^ 64 }

-- What a successful Encode went through.
pub encode_inv :
    (t : Transforms) (c : PacketCodec) (p : Packet) {bs : Bytes}
    → (encode t c p).2 ≡ ok bs
    → (z : Bytes) × (outgoing t c p.body ≡ ok z) × (bs ≡ frame (numbered c p) z)
unfolding encode
encode_inv t c p {bs} e =
    let (z, sent, framed) = >>=-eq-ok (outgoing t c p.body) _ e in (z, sent, cc)

-- The codecs at the two ends: alike but for their counters.
pub record IsPeer (c d : PacketCodec) : Type 0 where
  pub compress : d.compress ≡ c.compress
  pub encrypt : d.encrypt ≡ c.encrypt
  pub key : d.key ≡ c.key
  pub iv : d.iv ≡ c.iv

pub incoming-IsPeer :
    (t : Transforms) (c d : PacketCodec) (z : Bytes) → IsPeer c d → incoming t d z ≡ incoming t c z
unfolding incoming decrypt_data
incoming-IsPeer t c d z s = rw (s.compress, s.encrypt, s.key, s.iv)

-- A packet that Encode accepts, and whose frame keeps to the size limit, is read back by every
-- codec with the same switches, key and vector: the same packet under the sequence number that
-- Encode gave it, with the bytes behind the frame left unread.
pub decode-encode :
    (t : Transforms) (c d : PacketCodec) (p : Packet) (rest : List Event) {bs : Bytes}
    → IsPeer c d
    → IsWire p
    → (encode t c p).2 ≡ ok bs
    → length bs ≤ max_packet_size
    → decode t d (on_wire bs ++ rest) ≡ (ok (numbered c p), rest)
decode-encode t c d p rest {bs} same w e fits =
    let (z, sent, out) = encode_inv t c p e in
    let back = (incoming-outgoing t c p.body w.bytes sent).0 in
    rw out (
      decode-frame t d (numbered c p) z rest
        (record { version = w.version; cmd = w.cmd; time = w.time; bytes = w.bytes }) (omega arith)
        (omega (arith, ap length out, length-frame (numbered c p) z))
        (incoming-IsPeer t c d z same ∙ back))
