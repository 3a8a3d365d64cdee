-- ===== src/Network/Connection/Wire.antt =====
-- What two connected ends agree on: the frames of a queue, and what is handed to handlers.
use mine_net.Base.{
  ℕ, ◌≤◌, ◌≡◌, ◌≢◌, ap, ◌∙◌, Option, none, some, List, [], ◌∷◌, ◌++◌, Outcome, ok, ◌>>=◌, length,
}
use mine_net.Base.Map.{Map, nat_key, lookup}
use mine_net.Network.Errors.{Error}
use mine_net.Network.Packet.{Packet, encode, cmd_ping, max_packet_size}
use mine_net.Network.Packet.Transform.{Bytes, Transforms, PacketCodec}
use mine_net.Network.Packet.RoundTrip.{IsWire, IsPeer, numbered}

-- The frames of packets that one codec encodes one after the other.
unfoldable pub encode_all : Transforms → PacketCodec → List Packet → Outcome Error Bytes
encode_all t c [] = ok []
encode_all t c (p ∷ ps) = do
  bs ← (encode t c p).2
  rest ← encode_all t (encode t c p).0 ps
  ok (bs ++ rest)

-- The same packets as the codec numbers them.
unfoldable pub number_all : Transforms → PacketCodec → List Packet → List Packet
number_all t c [] = []
number_all t c (p ∷ ps) = numbered c p ∷ number_all t (encode t c p).0 ps

-- A codec that has encoded a packet has the same settings.
pub encode-IsPeer :
    (t : Transforms) (c : PacketCodec) (p : Packet) {d e : PacketCodec}
    → IsPeer c d
    → e ≡ d
    → IsPeer (encode t c p).0 e
unfolding encode
encode-IsPeer t c p s h = record {
  compress = ap (λ (x : PacketCodec). x.compress) h ∙ s.compress;
  encrypt = ap (λ (x : PacketCodec). x.encrypt) h ∙ s.encrypt;
  key = ap (λ (x : PacketCodec). x.key) h ∙ s.key;
  iv = ap (λ (x : PacketCodec). x.iv) h ∙ s.iv;
}

-- The handler call for a packet, if its command has a handler.
abbrev pub route : {H : Type 0} → Option H → Packet → List (H × Packet)
route (some h) p = (h, p) ∷ []
route none p = []

-- The handler calls for packets that are no heartbeats, in their order.
unfoldable pub routed : {H : Type 0} → Map ℕ H → List Packet → List (H × Packet)
routed handlers [] = []
routed handlers (p ∷ ps) = route (lookup p.cmd_id handlers) p ++ routed handlers ps

-- Packets that a peer may send, one after the other: none of them a heartbeat or above the limit.
abbrev pub AllSendable : Transforms → PacketCodec → List Packet → Type 0
AllSendable t c [] = Unit
AllSendable t c (p ∷ ps) =
    IsWire p
    × (p.cmd_id ≢ cmd_ping)
    × ((bs : Bytes) → (encode t c p).2 ≡ ok bs → length bs ≤ max_packet_size)
    × AllSendable t (encode t c p).0 ps
