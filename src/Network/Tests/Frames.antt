-- ===== src/Network/Tests/Frames.antt =====
-- Runs of the codec.
use mine_net.Base.{
  ℕ, zero, suc, ◌≤◌, ap, ◌∙◌, ◌+◌, ◌≡◌, refl, false, [], ◌∷◌, ◌++◌, ok, err, length, take, drop,
  arith,
}
use mine_net.Base.Bits.{put_be}
use mine_net.Base.Int.{to_uint64}
use mine_net.Network.Errors.{key_size, invalid_packet_size, unexpected_eof}
use mine_net.Network.Packet.{
  Packet, Event, byte, encode, decode, frame, frame_body, max_packet_size,
}
use mine_net.Network.Packet.Transform.{
  Bytes, PacketCodec, outgoing, compress_data, encrypt_data, new_cipher, new_stream, xor_encrypt,
  refill, advance,
}
use mine_net.Network.Packet.RoundTrip.{on_wire, numbered, decode-encode, length-frame}
use mine_net.Network.Packet.Rejects.{decode_cut, decode-oversize}
use mine_net.Network.Packet.Progress.{decode_progress}
use mine_net.Network.Tests.{hello_frame, stored, codec, peer, hello, codec-IsPeer, hello-IsWire}

hello-encode : (encode stored codec hello).2 ≡ ok hello_frame
unfolding encode frame frame_body outgoing compress_data encrypt_data new_cipher new_stream
    xor_encrypt refill advance put_be to_uint64
hello-encode = refl

decode-encode_example :
    decode stored peer (on_wire hello_frame ++ (byte 9 ∷ []))
    ≡ (ok (numbered codec hello), byte 9 ∷ [])
decode-encode_example =
    decode-encode stored codec peer hello (byte 9 ∷ []) codec-IsPeer hello-IsWire hello-encode
      (omega arith)

decode_cut_example : decode stored peer (on_wire (take 9 hello_frame)) ≡ (err unexpected_eof, [])
decode_cut_example = decode_cut stored codec peer hello 9 hello-encode (omega arith) (omega arith)

decode_progress_example :
    length (decode stored codec (byte 0 ∷ byte 1 ∷ [])).1 ≤ length {A = Event} (byte 1 ∷ [])
decode_progress_example = decode_progress stored codec (byte 0) (byte 1 ∷ [])

zeros : ℕ → Bytes
zeros zero = []
zeros (suc n) = 0 ∷ zeros n

length-zeros : (n : ℕ) → length (zeros n) ≡ n
unfolding zeros
length-zeros zero = refl
length-zeros (suc n) = omega (arith, length-zeros n)

-- A packet with as many bytes of data as a whole frame may have.
abbrev plain : PacketCodec
plain = record codec { compress = false; encrypt = false }

abbrev big : Packet
big = record hello { body = zeros max_packet_size }

big-encode : (encode stored plain big).2 ≡ ok (frame (numbered plain big) (big.body))
unfolding encode outgoing
big-encode = refl

big-length : length (frame (numbered plain big) (big.body)) ≡ 26 + max_packet_size
big-length =
    length-frame (numbered plain big) (big.body) ∙ ap (λ n. 26 + n) (length-zeros max_packet_size)

decode-oversize_example :
    decode stored plain (on_wire (frame (numbered plain big) (big.body)) ++ [])
    ≡ (err invalid_packet_size, on_wire (drop 4 (frame (numbered plain big) (big.body))) ++ [])
decode-oversize_example =
    decode-oversize stored plain plain big [] big-encode (omega (arith, big-length))
      (omega (arith, big-length))

-- The key of config.yaml has ten bytes.
abbrev short_key : PacketCodec
short_key = record codec { key = 99 ∷ 97 ∷ 111 ∷ 109 ∷ 97 ∷ 111 ∷ 64 ∷ 49 ∷ 50 ∷ 51 ∷ [] }

short_key_refused : (encode stored short_key hello).2 ≡ err (key_size 10)
unfolding encode outgoing compress_data encrypt_data new_cipher
short_key_refused = refl
