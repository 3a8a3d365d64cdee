-- ===== src/Network/Packet/Shared/Content.antt =====
-- What the peers read of a packet that several connections encode.
use mathlib.Core.Path.{subst}
use mine_net.Base.{
  ℕ, ◌^◌, ◌≤◌, ◌<◌, ◌≡◌, refl, sym, ap, ◌∙◌, List, [], ◌∷◌, ◌++◌, All, All-middle, All-join,
  Outcome, ok, >>=-eq-ok, length, arith,
}
use mine_net.Network.Errors.{Error}
use mine_net.Network.Packet.{encode, Packet, Event, frame, decode, max_packet_size}
use mine_net.Network.Packet.Transform.{Bytes, Transforms, PacketCodec, outgoing, encrypt_data}
use mine_net.Network.Packet.Transform.RoundTrip.{incoming-outgoing}
use mine_net.Network.Packet.RoundTrip.{
  IsWire, IsPeer, on_wire, numbered, decode-frame, incoming-IsPeer, length-frame,
}
use mine_net.Network.Packet.Shared.{
  Writer, taken, numbering, framed, Shared, next_number, set_seq_id, frame_now, Step, sends, starts,
  ends, Reachable, here, next,
}

-- The two parts, one behind the other, are Encode.
frame_now-set_seq_id :
    (t : Transforms) (c : PacketCodec) (p : Packet)
    → let c' = next_number c in
      let p' = set_seq_id c'.seq_id p in encode t c p ≡ (c', p', frame_now t c' p')
unfolding encode next_number frame_now outgoing encrypt_data
frame_now-set_seq_id t c p = refl

-- No writer has a frame yet.
abbrev pub IsWaiting : Writer → Type 0
IsWaiting (taken c) = Unit
IsWaiting (numbering c) = Unit
IsWaiting (framed c o) = ⊥

module _ (t : Transforms) where
  -- A frame is the packet's own, but for the number.
  abbrev Frames : Packet → Writer → Type 0
  Frames p (taken c) = Unit
  Frames p (numbering c) = Unit
  Frames p (framed c o) = (n : ℕ) × (n < 2 ^ 64) × (o ≡ frame_now t c (set_seq_id n p))

  record IsShared (p : Packet) (s : Shared) : Type 0 where
    number : s.packet.seq_id < 2 ^ 64
    content : s.packet ≡ set_seq_id s.packet.seq_id p
    frames : All (Frames p) s.writers

  writer-IsShared :
      (p q : Packet) (before after : List Writer) (x y : Writer) (ws : List Writer)
      → ws ≡ before ++ (x ∷ after)
      → All (Frames p) ws
      → Frames p y
      → All (Frames p) (before ++ (y ∷ after))
  writer-IsShared p q before after x y ws e h f =
      let (l, _, r) = All-middle (Frames p) before after x (subst (All (Frames p)) e h) in
      All-join (Frames p) before after y l f r

  step-IsShared : (p : Packet) (s s' : Shared) → Step t s s' → IsShared p s → IsShared p s'
  unfolding next_number
  step-IsShared p s _ (sends _ n lt) v = record {
    number = lt;
    content = ap (set_seq_id n) v.content;
    frames = v.frames;
  }
  step-IsShared p s _ (starts _ c before after e) v = record {
    number = omega arith;
    content = ap (set_seq_id (next_number c).seq_id) v.content;
    frames = writer-IsShared p p before after (taken c) _ s.writers e v.frames tt;
  }
  step-IsShared p s _ (ends _ c before after e) v = record {
    number = v.number;
    content = v.content;
    frames =
        writer-IsShared p p before after (numbering c) _ s.writers e v.frames
          (s.packet.seq_id, v.number, ap (frame_now t c) v.content);
  }

  none-Frames : (p : Packet) (ws : List Writer) → All IsWaiting ws → All (Frames p) ws
  none-Frames p [] h = tt
  none-Frames p (taken c ∷ ws) h = (tt, none-Frames p ws h.1)
  none-Frames p (numbering c ∷ ws) h = (tt, none-Frames p ws h.1)
  none-Frames p (framed c o ∷ ws) h = absurd h.0

  reach-IsShared :
      {start s : Shared}
      → start.packet.seq_id < 2 ^ 64
      → All IsWaiting start.writers
      → Reachable t start s
      → IsShared start.packet s
  reach-IsShared {start} lt w here = record {
    number = lt;
    content = refl;
    frames = none-Frames start.packet start.writers w;
  }
  reach-IsShared lt w (next {s} {s'} r step) = step-IsShared _ s s' step (reach-IsShared lt w r)

  -- A frame around the packet's data, whatever its number, is read as the packet with that number.
  decode-frame_now :
      (c d : PacketCodec) (p : Packet) (n : ℕ) (rest : List Event) {bs : Bytes}
      → IsPeer c d
      → IsWire p
      → n < 2 ^ 64
      → frame_now t c (set_seq_id n p) ≡ ok bs
      → length bs ≤ max_packet_size
      → decode t d (on_wire bs ++ rest) ≡ (ok (set_seq_id n p), rest)
  unfolding frame_now
  decode-frame_now c d p n rest {bs} same w lt e fits =
      let (z, sent, made) = >>=-eq-ok (outgoing t c p.body) _ e in
      let out : frame (set_seq_id n p) z ≡ bs = cc made in
      let back = (incoming-outgoing t c p.body w.bytes sent).0 in
      rw (sym out) (
        decode-frame t d (set_seq_id n p) z rest
          (record { version = w.version; cmd = w.cmd; time = w.time; bytes = w.bytes }) lt
          (omega (arith, ap length out, length-frame (set_seq_id n p) z))
          (incoming-IsPeer t c d z same ∙ back))

  -- A packet that any number of connections hold, while they send and encode it in any order: from a
  -- frame within the size limit the peer reads that packet, with all but its number as it was, and
  -- nothing behind the frame.
  pub shared-decode :
      {start s : Shared} (before after : List Writer) (c d : PacketCodec) (rest : List Event)
      (bs : Bytes)
      → start.packet.seq_id < 2 ^ 64
      → All IsWaiting start.writers
      → IsWire start.packet
      → Reachable t start s
      → s.writers ≡ before ++ (framed c (ok bs) ∷ after)
      → IsPeer c d
      → length bs ≤ max_packet_size
      → (n : ℕ) × (decode t d (on_wire bs ++ rest) ≡ (ok (set_seq_id n start.packet), rest))
  shared-decode {start} {s} before after c d rest bs lt w wire r e same fits =
      let own = (reach-IsShared lt w r).frames in
      let (_, (n, small, made), _) =
        All-middle (Frames start.packet) before after _ (subst (All (Frames start.packet)) e own) in
      (n, decode-frame_now c d start.packet n rest same wire small (sym made) fits)

  outgoing-next_number :
      (c : PacketCodec) (d : Bytes) → outgoing t (next_number c) d ≡ outgoing t c d
  unfolding next_number outgoing encrypt_data
  outgoing-next_number c d = refl

  frame_now-numbered :
      (c d : PacketCodec) (p : Packet) {z : Bytes}
      → outgoing t c p.body ≡ ok z
      → frame_now t (next_number c) (set_seq_id (next_number d).seq_id p)
        ≡ ok (frame (numbered d p) z)
  unfolding frame_now next_number
  frame_now-numbered c d p e = rw (outgoing-next_number c p.body ∙ e) refl

  -- Two connections that hold one packet: in some order, the first's frame has the number that the
  -- second's Encode gave.
  pub stolen_number :
      (c d : PacketCodec) (p : Packet) {z : Bytes}
      → outgoing t c p.body ≡ ok z
      → (s : Shared) × Reachable t (record { packet = p; writers = taken c ∷ taken d ∷ [] }) s
        × (s.writers
            ≡ framed (next_number c) (ok (frame (numbered d p) z)) ∷ numbering (next_number d) ∷ [])
  stolen_number c d p {z} e =
      let r = next here (starts _ c [] (taken d ∷ []) refl) in
      let r = next r (starts _ d (numbering (next_number c) ∷ []) [] refl) in
      let r = next r (ends _ (next_number c) [] (numbering (next_number d) ∷ []) refl) in
      (
        _,
        r,
        ap (λ (o : Outcome Error Bytes). framed (next_number c) o ∷ numbering (next_number d) ∷ [])
            (frame_now-numbered c d p e),
      )
