-- ===== src/Network/Packet/Transform/RoundTrip.antt =====
-- Decryption undoes encryption, decompression undoes compression, and Decode's steps undo Encode's.
use Prim.Native.Nat.{bit_xor}
use mathlib.Core.Path.{ap₂}
use mine_net.Base.{
  ℕ, zero, suc, ◌≡◌, refl, ap, Bool, true, false, [], ◌∷◌, ok, >>=-eq-ok, length, get_or, All,
  arith, if◌then◌else◌,
}
use mine_net.Base.Bits.{IsByte, bit_xor-IsByte}
use mine_net.Network.Packet.Transform.{
  Bytes, Transforms, PacketCodec, Stream, new_cipher, new_stream, refill, advance, xor_encrypt,
  xor_decrypt, encrypt_data, decrypt_data, compress_data, decompress_data, close_deferred, outgoing,
  incoming,
}

get_or-IsByte : (bs : Bytes) (i : ℕ) → All IsByte bs → IsByte (get_or bs i 0)
get_or-IsByte [] i h = omega arith
get_or-IsByte (b ∷ bs) zero h = h.0
get_or-IsByte (b ∷ bs) (suc i) h = get_or-IsByte bs i h.1

new_stream-IsByte : (iv : Bytes) {s : Stream} → new_stream iv ≡ ok s → All IsByte s.out
unfolding new_stream
new_stream-IsByte iv h = ground arith

module _ (t : Transforms) where
  refill-IsByte : (key : Bytes) (s : Stream) → All IsByte s.out → All IsByte (refill t key s).out
  unfolding refill
  refill-IsByte key s h = ground (arith, t.encrypt_block-IsByte key s.next)

  -- The key stream's byte for the next byte of data.
  abbrev mask : Bytes → Stream → ℕ
  mask key s = get_or (refill t key s).out (refill t key s).used 0

  mask-IsByte : (key : Bytes) (s : Stream) → All IsByte s.out → IsByte (mask key s)
  mask-IsByte key s h = get_or-IsByte _ _ (refill-IsByte key s h)

  advance-IsByte :
      (key : Bytes) (s : Stream) (c : ℕ)
      → All IsByte s.out
      → All IsByte (advance t (refill t key s) c).out
  unfolding advance
  advance-IsByte key s c h = refill-IsByte key s h

  xor_decrypt-xor_encrypt :
      (key d : Bytes) (s : Stream)
      → All IsByte s.out
      → All IsByte d
      → xor_decrypt t key s (xor_encrypt t key s d) ≡ d
  unfolding xor_encrypt xor_decrypt
  xor_decrypt-xor_encrypt key [] s h hd = refl
  xor_decrypt-xor_encrypt key (b ∷ bs) s h hd =
      let c = bit_xor b (mask key s) in
      let s' = advance t (refill t key s) c in
      ap₂ ◌∷◌ (bit_xor-IsByte b (mask key s) hd.0 (mask-IsByte key s h)).1
        (xor_decrypt-xor_encrypt key bs s' (advance-IsByte key s c h) hd.1)

  xor_encrypt-IsByte :
      (key d : Bytes) (s : Stream)
      → All IsByte s.out
      → All IsByte d
      → All IsByte (xor_encrypt t key s d)
  unfolding xor_encrypt
  xor_encrypt-IsByte key [] s h hd = tt
  xor_encrypt-IsByte key (b ∷ bs) s h hd =
      let c = bit_xor b (mask key s) in
      (
        (bit_xor-IsByte b (mask key s) hd.0 (mask-IsByte key s h)).0,
        xor_encrypt-IsByte key bs (advance t (refill t key s) c) (advance-IsByte key s c h) hd.1,
      )

  length-xor_encrypt : (key d : Bytes) (s : Stream) → length (xor_encrypt t key s d) ≡ length d
  unfolding xor_encrypt
  length-xor_encrypt key [] s = refl
  length-xor_encrypt key (b ∷ bs) s = ap suc (length-xor_encrypt key bs _)

  -- What a successful encryption went through.
  abbrev Encrypted : PacketCodec → Bytes → Bytes → Type 0
  Encrypted c d z =
      (s : Stream) × (new_cipher c.key ≡ ok tt)
      × (new_stream c.iv ≡ ok s)
      × (z ≡ xor_encrypt t c.key s d)

  encrypt_data-Encrypted :
      (c : PacketCodec) (d : Bytes) {z : Bytes} → encrypt_data t c d ≡ ok z → Encrypted c d z
  unfolding encrypt_data
  encrypt_data-Encrypted c d {z} e =
      let (_, cipher, e') = >>=-eq-ok (new_cipher c.key) _ e in
      let (s, stream, e'') = >>=-eq-ok (new_stream c.iv) _ e' in (s, cipher, stream, cc)

  -- Whatever was encrypted is decrypted to the same data, under the same key and vector.
  pub decrypt_data-encrypt_data :
      (c : PacketCodec) (d : Bytes) {z : Bytes}
      → All IsByte d
      → encrypt_data t c d ≡ ok z
      → decrypt_data t c z ≡ ok d
  unfolding decrypt_data
  decrypt_data-encrypt_data c d {z} hd e =
      let (s, cipher, stream, out) = encrypt_data-Encrypted c d e in
      rw (cipher, stream, out)
        (ap ok (xor_decrypt-xor_encrypt c.key d s (new_stream-IsByte c.iv stream) hd))

  pub encrypt_data-IsByte :
      (c : PacketCodec) (d : Bytes) {z : Bytes}
      → All IsByte d
      → encrypt_data t c d ≡ ok z
      → All IsByte z
  encrypt_data-IsByte c d {z} hd e =
      let (s, cipher, stream, out) = encrypt_data-Encrypted c d e in
      rw out (xor_encrypt-IsByte c.key d s (new_stream-IsByte c.iv stream) hd)

  pub length-encrypt_data :
      (c : PacketCodec) (d : Bytes) {z : Bytes} → encrypt_data t c d ≡ ok z → length z ≡ length d
  length-encrypt_data c d {z} e =
      let (s, cipher, stream, out) = encrypt_data-Encrypted c d e in
      rw out (length-xor_encrypt c.key d s)

  compress_data-closes :
      (d : Bytes) {z : Bytes} → compress_data t d ≡ ok z → t.close_writer d ≡ ok z
  unfolding compress_data
  compress_data-closes d e =
      let (_, opened, e') = >>=-eq-ok t.new_writer _ e in
      let (_, written, e'') = >>=-eq-ok (t.write d) _ e' in e''

  pub decompress_data-compress_data :
      (d : Bytes) {z : Bytes} → compress_data t d ≡ ok z → decompress_data t z ≡ ok d
  unfolding decompress_data close_deferred
  decompress_data-compress_data d {z} e =
      let (opened, copied, closed) = t.copy-close_writer d z (compress_data-closes d e) in
      rw (opened, closed, copied)

  pub compress_data-IsByte : (d : Bytes) {z : Bytes} → compress_data t d ≡ ok z → All IsByte z
  compress_data-IsByte d {z} e = t.close_writer-IsByte d z (compress_data-closes d e)

  compress_if :
      (b : Bool) (d : Bytes) {y : Bytes}
      → All IsByte d
      → (if b then compress_data t d else ok d) ≡ ok y
      → ((if b then decompress_data t y else ok y) ≡ ok d) × All IsByte y
  compress_if true d hd e = (decompress_data-compress_data d e, compress_data-IsByte d e)
  compress_if false d hd e = ground arith

  encrypt_if :
      (b : Bool) (c : PacketCodec) (d : Bytes) {y : Bytes}
      → All IsByte d
      → (if b then encrypt_data t c d else ok d) ≡ ok y
      → ((if b then decrypt_data t c y else ok y) ≡ ok d) × All IsByte y
  encrypt_if true c d hd e = (decrypt_data-encrypt_data c d hd e, encrypt_data-IsByte c d hd e)
  encrypt_if false c d hd e = ground arith

  -- The steps of Encode and their inverses, for each setting of the two switches.
  pub incoming-outgoing :
      (c : PacketCodec) (d : Bytes) {z : Bytes}
      → All IsByte d
      → outgoing t c d ≡ ok z
      → (incoming t c z ≡ ok d) × All IsByte z
  unfolding outgoing incoming
  incoming-outgoing c d {z} hd e =
      let (y, packed, e') = >>=-eq-ok (if c.compress then compress_data t d else ok d) _ e in
      let (unpacked, hy) = compress_if c.compress d hd packed in
      let (opened, hz) = encrypt_if c.encrypt c y hy e' in (rw opened unpacked, hz)
