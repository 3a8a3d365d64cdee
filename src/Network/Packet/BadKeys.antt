-- ===== src/Network/Packet/BadKeys.antt =====
-- network/packet.go: what a key of a wrong length comes to.
use mine_net.Base.{
  ◌-◌, ◌≡◌, ◌≢◌, inl, inr, Bool, true, false, ◌||◌, List, Outcome, ok, err, panic, >>=-eq-ok,
  length, take, drop, arith, ltb, if◌then◌else◌, Bool-cases,
}
use mine_net.Base.Bits.{get_be}
use mine_net.Network.Errors.{Error, key_size}
use mine_net.Network.Packet.Transform.{
  Bytes, Transforms, PacketCodec, outgoing, incoming, encrypt_data, decrypt_data, new_cipher,
}
use mine_net.Network.Packet.{
  Packet, Event, read_full, then_read, encode, decode, decode_body, current_version,
  max_packet_size,
}
use mine_net.Network.Packet.RoundTrip.{encode_inv}

module _ (t : Transforms) (c : PacketCodec) (on : c.encrypt ≡ true) (a : length c.key ≢ 16)
    (b : length c.key ≢ 24) (d : length c.key ≢ 32) where
  refused : new_cipher c.key ≡ err (key_size (length c.key))
  unfolding new_cipher
  refused = ground arith

  outgoing-refused : (x z : Bytes) → outgoing t c x ≢ ok z
  unfolding outgoing encrypt_data
  outgoing-refused x z e = ground (arith, refused)

  incoming-refused : (x z : Bytes) → incoming t c x ≢ ok z
  unfolding incoming decrypt_data
  incoming-refused x z e = ground (arith, refused)

then_read-fails :
    {A B : Type 0} (x : Outcome Error A × List Event)
    (f : A → List Event → Outcome Error B × List Event) (b : B)
    → ((a : A) (r : List Event) → (f a r).0 ≢ ok b)
    → (then_read x f).0 ≢ ok b
then_read-fails (ok a, r) f b h = h a r
then_read-fails (err e, r) f b h = λ p. cc
then_read-fails (panic, r) f b h = λ p. cc

if_fails :
    {A : Type 0} (b : Bool) (x y : Outcome Error A × List Event) (a : A)
    → x.0 ≢ ok a
    → y.0 ≢ ok a
    → (if b then x else y).0 ≢ ok a
if_fails true x y a hx hy = hx
if_fails false x y a hx hy = hy

decode_body-fails :
    (t : Transforms) (c : PacketCodec) (buf : Bytes) (p : Packet)
    → ((x z : Bytes) → incoming t c x ≢ ok z)
    → decode_body t c buf ≢ ok p
unfolding decode_body
decode_body-fails t c buf p h e = elim (Bool-cases (ltb current_version (get_be (take 2 buf)))) [
  | inl later ↦ cc (rw later at e)
  | inr known ↦ h (drop 22 buf) _ (>>=-eq-ok (incoming t c (drop 22 buf)) _ (rw known at e)).1
]

decode-fails :
    (t : Transforms) (c : PacketCodec) (r : List Event) (p : Packet)
    → ((x z : Bytes) → incoming t c x ≢ ok z)
    → (decode t c r).0 ≢ ok p
unfolding decode
decode-fails t c r p h = then_read-fails (read_full 4 r) _ p λ len_buf r'.
    if_fails (ltb (get_be len_buf) 26 || ltb max_packet_size (get_be len_buf)) _ _ p (λ e. cc)
      (then_read-fails (read_full (get_be len_buf - 4) r') _ p
        λ buf rest. decode_body-fails t c buf p h)

-- With encryption on and a key of a length that AES does not take, nothing is ever encoded or
-- decoded.
bad_key_blocks :
    (t : Transforms) (c : PacketCodec)
    → c.encrypt ≡ true
    → length c.key ≢ 16
    → length c.key ≢ 24
    → length c.key ≢ 32
    → ((p : Packet) (bs : Bytes) → (encode t c p).2 ≢ ok bs)
      × ((r : List Event) (p : Packet) → (decode t c r).0 ≢ ok p)
bad_key_blocks t c on a b d = (
  λ p bs e. outgoing-refused t c on a b d p.body _ (encode_inv t c p e).1,
  λ r p. decode-fails t c r p (incoming-refused t c on a b d),
)
