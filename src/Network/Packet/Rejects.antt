-- ===== src/Network/Packet/Rejects.antt =====
-- What the codec refuses.
use mathlib.Core.List.{map-append}
use mine_net.Base.{
  ℕ, zero, suc, ◌+◌, ◌-◌, ◌^◌, ◌≤◌, ◌<◌, ◌≡◌, ◌⊎◌, inr, refl, ap, ◌∙◌, ◌||◌, List, [], ◌∷◌, ◌++◌,
  ok, err, length, take, drop, arith, ◌==◌, if◌then◌else◌, append_assoc,
}
use mine_net.Base.Bits.{put_be, get_be-put_be, length-put_be}
use mine_net.Network.Errors.{eof, unexpected_eof, invalid_packet_size, unsupported_version}
use mine_net.Network.Packet.Transform.{Bytes, Transforms, PacketCodec}
use mine_net.Network.Packet.{
  Packet, Event, byte, read_full, frame, frame_body, encode, decode, decode_body, current_version,
  max_packet_size,
}
use mine_net.Network.Packet.RoundTrip.{
  on_wire, numbered, encode_inv, cut_frame_body, read_full-on_wire, decode_sized, length-frame,
  length-frame_body,
}

-- A length outside the limits is refused after the four bytes that state it.
pub decode-bad_size :
    (t : Transforms) (c : PacketCodec) (n : ℕ) (rest : List Event)
    → n < 2 ^ 32
    → (n < 26) ⊎ (max_packet_size < n)
    → decode t c (on_wire (put_be 4 n) ++ rest) ≡ (err invalid_packet_size, rest)
unfolding decode
decode-bad_size t c n rest h bad =
    rw (read_full-on_wire (put_be 4 n) 4 rest (length-put_be 4 n), get_be-put_be 4 n (omega arith))
      (ground arith)

decode_body-later_version :
    (t : Transforms) (c : PacketCodec) (p : Packet) (d : Bytes)
    → current_version < p.version
    → p.version < 2 ^ 16
    → decode_body t c (frame_body p d) ≡ err unsupported_version
unfolding decode_body
decode_body-later_version t c p d later fits =
    rw ((cut_frame_body p d).0, get_be-put_be 2 p.version (omega arith)) (ground arith)

-- A frame within the size limit of a packet of a later version is refused, and consumed.
pub decode-later_version :
    (t : Transforms) (c : PacketCodec) (p : Packet) (d : Bytes) (rest : List Event)
    → current_version < p.version
    → p.version < 2 ^ 16
    → 26 + length d ≤ max_packet_size
    → decode t c (on_wire (frame p d) ++ rest) ≡ (err unsupported_version, rest)
unfolding frame
decode-later_version t c p d rest later fits_field fits =
    decode_sized t c (26 + length d) (frame_body p d) rest (omega arith) fits
      (omega (arith, length-frame_body p d))
    ∙ rw (decode_body-later_version t c p d later fits_field)

read_full_short :
    (bs : Bytes) (n : ℕ)
    → length bs < n
    → read_full n (on_wire bs) ≡ (err (if length bs == 0 then eof else unexpected_eof), [])
unfolding read_full
read_full_short [] (suc n) h = refl
read_full_short (b ∷ bs) (suc n) h = rw (read_full_short bs n (omega arith)) (ground arith)
read_full_short bs zero h = elim h [ ]

length-take {ℓ} : {A : Type ℓ} (k : ℕ) (xs : List A) → k ≤ length xs → length (take k xs) ≡ k
length-take zero xs h = refl
length-take (suc k) [] h = absurd (omega arith)
length-take (suc k) (x ∷ xs) h = ap suc (length-take k xs (omega arith))

cut_length :
    (t : Transforms) (d : PacketCodec) (b : Bytes)
    → length b < 4
    → decode t d (on_wire b) ≡ (err (if length b == 0 then eof else unexpected_eof), [])
unfolding decode
cut_length t d b h = rw (read_full_short b 4 h)

cut_body :
    (t : Transforms) (d : PacketCodec) (n : ℕ) (b : Bytes)
    → 26 ≤ n
    → n ≤ max_packet_size
    → length b < n - 4
    → decode t d (on_wire (put_be 4 n ++ b))
      ≡ (err (if length b == 0 then eof else unexpected_eof), [])
unfolding decode
cut_body t d n b lo hi h =
    rw
      (
        map-append byte (put_be 4 n) b,
        read_full-on_wire (put_be 4 n) 4 (on_wire b) (length-put_be 4 n),
        get_be-put_be 4 n (omega arith),
        read_full_short b (n - 4) h,
      )
      (ground arith)

-- A cut in front of byte k, by where it falls.
cut_at :
    (t : Transforms) (d : PacketCodec) (n k : ℕ) (b : Bytes)
    → 26 ≤ n
    → n ≤ max_packet_size
    → length b ≡ n - 4
    → k < n
    → decode t d (on_wire (take k (put_be 4 n ++ b)))
      ≡ (err (if k == 0 || k == 4 then eof else unexpected_eof), [])
unfolding put_be
cut_at t d n zero b lo hi size h = cut_length t d [] (omega arith)
cut_at t d n (suc zero) b lo hi size h = cut_length t d (take 1 (put_be 4 n)) (omega arith)
cut_at t d n (suc (suc zero)) b lo hi size h = cut_length t d (take 2 (put_be 4 n)) (omega arith)
cut_at t d n (suc (suc (suc zero))) b lo hi size h =
    cut_length t d (take 3 (put_be 4 n)) (omega arith)
cut_at t d n (suc (suc (suc (suc k)))) b lo hi size h =
    let short = length-take k b (omega arith) in
    cut_body t d n (take k b) lo hi (omega arith) ∙ rw short (ground arith)

-- A frame within the size limit, cut short by the end of the stream is never a packet: Decode reports `eof` before the
-- first byte and just behind the length, and `unexpected_eof` elsewhere.
pub decode_cut :
    (t : Transforms) (c d : PacketCodec) (p : Packet) (k : ℕ) {bs : Bytes}
    → (encode t c p).2 ≡ ok bs
    → length bs ≤ max_packet_size
    → k < length bs
    → decode t d (on_wire (take k bs))
      ≡ (err (if k == 0 || k == 4 then eof else unexpected_eof), [])
unfolding frame
decode_cut t c d p k {bs} e fits short =
    let (z, sent, out) = encode_inv t c p e in
    let size = length-frame (numbered c p) z in
    rw out (
      cut_at t d (26 + length z) k (frame_body (numbered c p) z) (omega arith)
        (omega (arith, ap length out, size)) (omega (arith, length-frame_body (numbered c p) z))
        (omega (arith, ap length out, size)))

bad_frame :
    (t : Transforms) (d : PacketCodec) (n : ℕ) (b : Bytes) (rest : List Event)
    → n < 2 ^ 32
    → max_packet_size < n
    → decode t d (on_wire (put_be 4 n ++ b) ++ rest) ≡ (err invalid_packet_size, on_wire b ++ rest)
bad_frame t d n b rest fits big =
    rw (map-append byte (put_be 4 n) b, append_assoc (on_wire (put_be 4 n)) (on_wire b) rest)
      (decode-bad_size t d n (on_wire b ++ rest) fits (inr big))

drop-length : (n : ℕ) (b : Bytes) → drop 4 (put_be 4 n ++ b) ≡ b
unfolding put_be
drop-length n b = refl

-- A frame above the size limit and of less than 4 GB, where Encode makes one: Decode refuses it with
-- the error of an invalid size, and leaves all of it but the first four bytes in the stream.
pub decode-oversize :
    (t : Transforms) (c d : PacketCodec) (p : Packet) (rest : List Event) {bs : Bytes}
    → (encode t c p).2 ≡ ok bs
    → max_packet_size < length bs
    → length bs < 2 ^ 32
    → decode t d (on_wire bs ++ rest) ≡ (err invalid_packet_size, on_wire (drop 4 bs) ++ rest)
unfolding frame
decode-oversize t c d p rest {bs} e big fits =
    let (z, sent, out) = encode_inv t c p e in
    let b = frame_body (numbered c p) z in
    let size = length-frame (numbered c p) z in
    rw (out, drop-length (26 + length z) b)
      (bad_frame t d (26 + length z) b rest (omega (arith, ap length out, size))
        (omega (arith, ap length out, size)))
