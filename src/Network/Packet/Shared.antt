-- ===== src/Network/Packet/Shared.antt =====
-- network/packet.go's Encode on a packet that several connections hold: network/tcp_net.go's
-- Broadcast queues one packet, by its pointer, on all of them. Encode stores its number in the packet
-- and reads it again when it writes the header; between the two others may store theirs.
pub mod Content
pub mod Tests
use mine_net.Base.{ℕ, ◌+◌, ◌%◌, ◌^◌, ◌<◌, ◌≡◌, List, ◌∷◌, ◌++◌, Outcome, ok, ◌>>=◌}
use mine_net.Network.Errors.{Error}
use mine_net.Network.Packet.{Packet, frame}
use mine_net.Network.Packet.Transform.{Bytes, Transforms, PacketCodec, outgoing}

-- A writeLoop that holds the packet: in front of Encode, behind the store of the number, and with the
-- frame.
pub data Writer : Type 0 where
  taken : PacketCodec → Writer
  numbering : PacketCodec → Writer
  framed : PacketCodec → Outcome Error Bytes → Writer

-- The packet behind the pointer, and who encodes it.
pub record Shared : Type 0 where
  pub packet : Packet
  pub writers : List Writer

unfoldable pub next_number : PacketCodec → PacketCodec
next_number c = record c { seq_id = (c.seq_id + 1) % 2 ^ 64 }

abbrev pub set_seq_id : ℕ → Packet → Packet
set_seq_id n p = record p { seq_id = n }

-- The rest of Encode, with the packet as it is when the header is written.
unfoldable pub frame_now : Transforms → PacketCodec → Packet → Outcome Error Bytes
frame_now t c p = outgoing t c p.body >>= λ d. ok (frame p d)

module _ (t : Transforms) where
  -- A Send stores its connection's number, a writeLoop starts Encode, or ends it.
  pub data Step : Shared → Shared → Type 0 where
    sends : (s : Shared) (n : ℕ) → n < 2 ^ 64 → Step s (record s { packet = set_seq_id n s.packet })
    starts :
        (s : Shared) (c : PacketCodec) (before after : List Writer)
        → s.writers ≡ before ++ (taken c ∷ after)
        → Step s (record {
          packet = set_seq_id (next_number c).seq_id s.packet;
          writers = before ++ (numbering (next_number c) ∷ after);
        })
    ends :
        (s : Shared) (c : PacketCodec) (before after : List Writer)
        → s.writers ≡ before ++ (numbering c ∷ after)
        → Step s (record s { writers = before ++ (framed c (frame_now t c s.packet) ∷ after) })

  pub data Reachable (start : Shared) : Shared → Type 0 where
    here : Reachable start start
    next : {s s' : Shared} → Reachable start s → Step s s' → Reachable start s'
