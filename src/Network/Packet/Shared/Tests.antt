-- ===== src/Network/Packet/Shared/Tests.antt =====
-- A packet that two connections send, where the first writes the second's number.
use mine_net.Base.{ℕ, ◌≡◌, refl, [], ◌∷◌, ok, arith}
use mine_net.Base.Bits.{put_be}
use mine_net.Base.Int.{to_uint64}
use mine_net.Network.Packet.{decode, frame, frame_body}
use mine_net.Network.Packet.Transform.{
  Bytes, outgoing, compress_data, encrypt_data, new_cipher, new_stream, xor_encrypt, refill,
  advance,
}
use mine_net.Network.Packet.RoundTrip.{on_wire, numbered}
use mine_net.Network.Packet.Shared.{
  taken, numbering, framed, Shared, next_number, set_seq_id, Reachable,
}
use mine_net.Network.Packet.Shared.Content.{shared-decode, stolen_number}
use mine_net.Network.Tests.{stored, codec, peer, hello, hello-IsWire}

abbrev start : Shared
start = record { packet = hello; writers = taken codec ∷ taken peer ∷ [] }

hello-outgoing : outgoing stored codec hello.body ≡ ok (111 ∷ 104 ∷ [])
unfolding outgoing compress_data encrypt_data new_cipher new_stream xor_encrypt refill advance
hello-outgoing = refl

-- hello as the second connection numbers it: 4.
abbrev stolen : Bytes
stolen = frame (numbered peer hello) (111 ∷ 104 ∷ [])

stolen_number_example :
    (s : Shared) × Reachable stored start s
    × (s.writers ≡ framed (next_number codec) (ok stolen) ∷ numbering (next_number peer) ∷ [])
stolen_number_example = stolen_number stored codec peer hello hello-outgoing

shared-decode_example :
    (n : ℕ) × (decode stored peer (on_wire stolen) ≡ (ok (set_seq_id n hello), []))
unfolding frame frame_body put_be to_uint64 next_number
shared-decode_example =
    let (s, r, e) = stolen_number stored codec peer hello hello-outgoing in
    shared-decode stored [] (numbering (next_number peer) ∷ []) (next_number codec) peer [] stolen
      (omega arith) (tt, (tt, tt)) hello-IsWire r e
      (record { compress = refl; encrypt = refl; key = refl; iv = refl }) (omega arith)
