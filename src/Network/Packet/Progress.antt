-- ===== src/Network/Packet/Progress.antt =====
-- network/packet.go: every Decode makes progress.
use mine_net.Base.{
  ℕ, zero, suc, ◌-◌, ◌≤◌, ◌≡◌, refl, Bool, true, false, ◌||◌, List, [], ◌∷◌, Outcome, ok, err,
  panic, length, arith, ltb, if◌then◌else◌,
}
use mine_net.Base.Bits.{get_be}
use mine_net.Network.Errors.{Error, eof}
use mine_net.Network.Packet.Transform.{Bytes, Transforms, PacketCodec}
use mine_net.Network.Packet.{
  Event, byte, fault, read_full, after_byte, then_read, decode, max_packet_size,
}

after_byte_rest : (b : ℕ) (x : Outcome Error Bytes × List Event) → (after_byte b x).1 ≡ x.1
after_byte_rest b (ok bs, r) = refl
after_byte_rest b (err eof, r) = refl
after_byte_rest b (err e, r) = refl
after_byte_rest b (panic, r) = refl

read_full_shrinks : (n : ℕ) (r : List Event) → length (read_full n r).1 ≤ length r
unfolding read_full
read_full_shrinks zero r = omega arith
read_full_shrinks (suc n) [] = omega arith
read_full_shrinks (suc n) (fault e ∷ r) = omega arith
read_full_shrinks (suc n) (byte b ∷ r) =
    rw (after_byte_rest b (read_full n r)) (omega (arith, read_full_shrinks n r))

read_full_progress :
    (n : ℕ) (x : Event) (r : List Event) → length (read_full (suc n) (x ∷ r)).1 ≤ length r
unfolding read_full
read_full_progress n (fault e) r = omega arith
read_full_progress n (byte b) r = rw (after_byte_rest b (read_full n r)) (read_full_shrinks n r)

then_read_shrinks :
    {A B : Type 0} (n : ℕ) (x : Outcome Error A × List Event)
    (f : A → List Event → Outcome Error B × List Event)
    → length x.1 ≤ n
    → ((a : A) (r : List Event) → length (f a r).1 ≤ length r)
    → length (then_read x f).1 ≤ n
then_read_shrinks n (ok a, r) f h k = omega (arith, k a r)
then_read_shrinks n (err e, r) f h k = h
then_read_shrinks n (panic, r) f h k = h

if_shrinks :
    {A : Type 0} (b : Bool) (r : List Event) (x : Outcome Error A)
    (y : Outcome Error A × List Event)
    → length y.1 ≤ length r
    → length (if b then (x, r) else y).1 ≤ length r
if_shrinks true r x y h = omega arith
if_shrinks false r x y h = h

-- Each Decode on a stream that has not ended consumes some of it.
pub decode_progress :
    (t : Transforms) (c : PacketCodec) (x : Event) (r : List Event)
    → length (decode t c (x ∷ r)).1 ≤ length r
unfolding decode
decode_progress t c x r =
    then_read_shrinks (length r) (read_full 4 (x ∷ r)) _ (read_full_progress 3 x r) λ len_buf r'.
      if_shrinks (ltb (get_be len_buf) 26 || ltb max_packet_size (get_be len_buf)) r' _ _ (
        then_read_shrinks (length r') (read_full (get_be len_buf - 4) r') _
          (read_full_shrinks (get_be len_buf - 4) r') λ buf rest. omega arith)
