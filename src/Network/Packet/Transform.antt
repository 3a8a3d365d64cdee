-- ===== src/Network/Packet/Transform.antt =====
-- network/packet.go: the compression and the encryption of a packet's data.
-- AES and gzip are parameters, with what the codec relies on. The CFB stream over the block cipher,
-- and the argument checks of crypto/aes and crypto/cipher, are written out.
pub mod RoundTrip
use Prim.Native.Nat.{bit_xor}
use mine_net.Base.{
  ◌>>=◌, ◌>>◌, ℕ, ◌+◌, ◌≡◌, ◌||◌, Bool, Option, none, some, List, [], ◌∷◌, Outcome, ok, err, panic,
  length, get_or, set, All, ◌==◌, if◌then◌else◌,
}
use mine_net.Base.Bits.{IsByte}
use mine_net.Network.Errors.{Error, key_size}

abbrev pub Bytes : Type 0
Bytes = List ℕ

-- crypto/aes encrypts one block under a key. compress/gzip: a writer that may fail to open or to
-- take its input and yields the compressed bytes when it is closed, and a reader that may refuse
-- its input, fail to copy, or fail to close.
pub record Transforms : Type 0 where
  pub encrypt_block : Bytes → Bytes → Bytes
  pub length-encrypt_block : (key block : Bytes) → length (encrypt_block key block) ≡ 16
  pub encrypt_block-IsByte : (key block : Bytes) → All IsByte (encrypt_block key block)
  pub new_writer : Outcome Error (Unit {0})
  pub write : Bytes → Outcome Error (Unit {0})
  pub close_writer : Bytes → Outcome Error Bytes
  pub new_reader : Bytes → Outcome Error (Unit {0})
  pub copy : Bytes → Outcome Error Bytes
  pub close_reader : Bytes → Option Error
  pub copy-close_writer :
      (d z : Bytes)
      → close_writer d ≡ ok z
      → (new_reader z ≡ ok tt) × (copy z ≡ ok d) × (close_reader z ≡ none)
  pub close_writer-IsByte : (d z : Bytes) → close_writer d ≡ ok z → All IsByte z

pub record PacketCodec : Type 0 where
  pub compress : Bool
  pub encrypt : Bool
  pub key : Bytes
  pub iv : Bytes
  pub seq_id : ℕ

pub new_packet_codec : Bool → Bool → Bytes → Bytes → PacketCodec
new_packet_codec compress encrypt key iv = record {
  compress = compress;
  encrypt = encrypt;
  key = key;
  iv = iv;
  seq_id = 0;
}

-- The registers of a CFB stream: the block being fed back, the key stream, and how much is used.
pub record Stream : Type 0 where
  pub next : Bytes
  pub out : Bytes
  pub used : ℕ

abbrev zero_block : Bytes
zero_block = 0 ∷ 0 ∷ 0 ∷ 0 ∷ 0 ∷ 0 ∷ 0 ∷ 0 ∷ 0 ∷ 0 ∷ 0 ∷ 0 ∷ 0 ∷ 0 ∷ 0 ∷ 0 ∷ []

-- `aes.NewCipher` accepts keys of 16, 24 and 32 bytes.
unfoldable pub new_cipher : Bytes → Outcome Error (Unit {0})
new_cipher key =
    if length key == 16 || length key == 24 || length key == 32
    then ok tt
    else err (key_size (length key))

-- `cipher.NewCFBEncrypter` and `NewCFBDecrypter` panic unless the vector fills a block.
unfoldable pub new_stream : Bytes → Outcome Error Stream
new_stream iv =
    if length iv == 16 then ok (record { next = iv; out = zero_block; used = 16 }) else panic

module _ (t : Transforms) where
  unfoldable pub refill : Bytes → Stream → Stream
  refill key s =
      if s.used == length s.out
      then record { next = s.next; out = t.encrypt_block key s.next; used = 0 }
      else s

  -- The ciphertext byte is fed back.
  unfoldable pub advance : Stream → ℕ → Stream
  advance s c = record s { next = set s.next s.used c; used = s.used + 1 }

  -- `XORKeyStream`, byte by byte, of the encrypter.
  unfoldable pub xor_encrypt : Bytes → Stream → Bytes → Bytes
  xor_encrypt key s [] = []
  xor_encrypt key s (b ∷ bs) =
      let r = refill key s in
      let c = bit_xor b (get_or r.out r.used 0) in c ∷ xor_encrypt key (advance r c) bs

  -- The same of the decrypter: what is fed back is the input.
  unfoldable pub xor_decrypt : Bytes → Stream → Bytes → Bytes
  xor_decrypt key s [] = []
  xor_decrypt key s (c ∷ cs) =
      let r = refill key s in bit_xor c (get_or r.out r.used 0) ∷ xor_decrypt key (advance r c) cs

  unfoldable pub encrypt_data : PacketCodec → Bytes → Outcome Error Bytes
  encrypt_data c d = do new_cipher c.key; s ← new_stream c.iv; ok (xor_encrypt c.key s d)

  unfoldable pub decrypt_data : PacketCodec → Bytes → Outcome Error Bytes
  decrypt_data c d = do new_cipher c.key; s ← new_stream c.iv; ok (xor_decrypt c.key s d)

  unfoldable pub compress_data : Bytes → Outcome Error Bytes
  compress_data d = do t.new_writer; t.write d; t.close_writer d

  -- The deferred close runs after the copy, and panics if it fails.
  unfoldable pub close_deferred : Option Error → Outcome Error Bytes → Outcome Error Bytes
  close_deferred none r = r
  close_deferred (some e) r = panic

  unfoldable pub decompress_data : Bytes → Outcome Error Bytes
  decompress_data d = do t.new_reader d; close_deferred (t.close_reader d) (t.copy d)

  -- The two optional steps of Encode, and those of Decode in the opposite order.
  unfoldable pub outgoing : PacketCodec → Bytes → Outcome Error Bytes
  outgoing c d = do
    z ← if c.compress then compress_data d else ok d
    if c.encrypt then encrypt_data c z else ok z

  unfoldable pub incoming : PacketCodec → Bytes → Outcome Error Bytes
  incoming c d = do
    z ← if c.encrypt then decrypt_data c d else ok d
    if c.compress then decompress_data z else ok z
