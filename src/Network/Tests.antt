-- ===== src/Network/Tests.antt =====
-- Runs at concrete values: a block cipher and a compressor that stand for AES and gzip, a limiter
-- that always answers yes, and what the theorems say of them.
pub mod Frames
pub mod Streams
pub mod Servers
pub mod Early
use mine_net.Base.{
  ℕ, zero, suc, ◌∙◌, ◌+◌, ◌≡◌, refl, sym, ap, Bool, Outcome, true, ◌&&◌, none, [], ◌∷◌, ok, err,
  ltb, arith, All, String, if◌then◌else◌,
}
use mine_net.Base.Int.{ℤ, pos, negsuc}
use mine_net.Base.Bits.{IsByte}
use mine_net.Network.Errors.{Error, gzip, json}
use mine_net.Network.Packet.{Packet}
use mine_net.Network.Packet.Transform.{Bytes, Transforms, PacketCodec}
use mine_net.Network.Packet.RoundTrip.{IsPeer, IsWire}
use mine_net.Network.RateLimiter.{LimiterLib}
use mine_net.Network.Heartbeat.{Json, HeartPacket, HeartbeatManager, new_heartbeat_manager}
use mine_net.Network.Connection.State.{Connection, new_connection}

abbrev all_bytes : Bytes → Bool
all_bytes [] = true
all_bytes (b ∷ bs) = ltb b 256 && all_bytes bs

pub all_bytes-All : (d : Bytes) → all_bytes d ≡ true → All IsByte d
all_bytes-All [] h = tt
all_bytes-All (b ∷ bs) h = ground (arith, all_bytes-All bs)

abbrev pub key_block : Bytes
key_block = 7 ∷ 1 ∷ 2 ∷ 3 ∷ 4 ∷ 5 ∷ 6 ∷ 7 ∷ 8 ∷ 9 ∷ 10 ∷ 11 ∷ 12 ∷ 13 ∷ 14 ∷ 15 ∷ []

-- A writer that takes bytes and nothing else, and stores them.
abbrev store : Bytes → Outcome Error Bytes
store d = if all_bytes d then ok d else err (gzip 0)

pub store_inv : (d z : Bytes) → store d ≡ ok z → (d ≡ z) × (all_bytes d ≡ true)
store_inv d z h = ground arith

pub store-IsByte : (d z : Bytes) → store d ≡ ok z → All IsByte z
store-IsByte d z h = ground (arith, store_inv d z h, all_bytes-All d)

abbrev pub stored : Transforms
stored = record {
  encrypt_block = λ key block. key_block;
  length-encrypt_block = λ key block. refl;
  encrypt_block-IsByte = λ key block. all_bytes-All key_block refl;
  new_writer = ok tt;
  write = λ d. ok tt;
  close_writer = store;
  new_reader = λ d. ok tt;
  copy = λ d. ok d;
  close_reader = λ d. none;
  copy-close_writer = λ d z h. (refl, ap ok (sym (store_inv d z h).0), refl);
  close_writer-IsByte = store-IsByte;
}

abbrev stamp : ℤ → Bytes
stamp (pos n) = 0 ∷ n ∷ []
stamp (negsuc n) = 1 ∷ n ∷ []

abbrev parse : Bytes → Outcome Error HeartPacket
parse (s ∷ k ∷ zero ∷ n ∷ []) = ok (record { seq = s; kind = k; timestamp = pos n })
parse (s ∷ k ∷ suc j ∷ n ∷ []) = ok (record { seq = s; kind = k; timestamp = negsuc n })
parse bs = err (json 0)

pub parse-stamp :
    (s k : ℕ) (x : ℤ) → parse (s ∷ k ∷ stamp x) ≡ ok (record { seq = s; kind = k; timestamp = x })
parse-stamp s k (pos n) = refl
parse-stamp s k (negsuc n) = refl

abbrev print : HeartPacket → Outcome Error Bytes
print h = ok (h.seq ∷ h.kind ∷ stamp h.timestamp)

pub parse-print : (h : HeartPacket) (b : Bytes) → print h ≡ ok b → parse b ≡ ok h
parse-print h b e =
    let same : h.seq ∷ h.kind ∷ stamp h.timestamp ≡ b = cc in
    ap parse (sym same) ∙ parse-stamp h.seq h.kind h.timestamp

abbrev pub fields : Json
fields = record { marshal = print; unmarshal = parse; unmarshal-marshal = parse-print }

-- A limiter that counts, and always answers yes.
abbrev pub counting : LimiterLib
counting = record {
  Limiter = ℕ;
  Rate = ℕ;
  new_limiter = λ r b. 0;
  allow = λ now l. (true, l + 1);
  set_limit = λ r l. l;
  set_burst = λ b l. l;
  limit = λ l. 0;
  burst = λ l. 0;
  tokens = λ l. l;
}

-- A codec with both switches on, and its peer, that has sent three packets itself.
abbrev pub codec : PacketCodec
codec = record { compress = true; encrypt = true; key = key_block; iv = key_block; seq_id = 0 }

abbrev pub peer : PacketCodec
peer = record codec { seq_id = 3 }

pub codec-IsPeer : IsPeer codec peer
codec-IsPeer = record { compress = refl; encrypt = refl; key = refl; iv = refl }

abbrev pub hello : Packet
hello = record {
  version = 1;
  seq_id = 9;
  cmd_id = 3;
  body = 104 ∷ 105 ∷ [];
  timestamp = pos 1700000000;
}

-- The frame that codec makes of it.
abbrev pub hello_frame : Bytes
hello_frame =
    0 ∷ 0 ∷ 0 ∷ 28 ∷ 0 ∷ 1 ∷ 0 ∷ 0 ∷ 0 ∷ 0 ∷ 0 ∷ 0 ∷ 0 ∷ 1 ∷ 0 ∷ 0 ∷ 0 ∷ 3 ∷ 0 ∷ 0 ∷ 0 ∷ 0 ∷ 101
    ∷ 83 ∷ 241 ∷ 0 ∷ 111 ∷ 104 ∷ []

abbrev pub bye : Packet
bye = record hello { cmd_id = 5; body = []; timestamp = negsuc 4 }

pub hello-IsWire : IsWire hello
hello-IsWire = record {
  version = omega arith;
  cmd = omega arith;
  time = omega arith;
  bytes = all_bytes-All (hello.body) refl;
}

pub bye-IsWire : IsWire bye
bye-IsWire = record { version = omega arith; cmd = omega arith; time = omega arith; bytes = tt }

-- Connections whose handlers are named by strings.
abbrev pub heart : HeartbeatManager
heart = new_heartbeat_manager 10 30 2

abbrev pub fresh_conn : String → Connection String ℕ
fresh_conn id = new_connection 100 id codec heart none
