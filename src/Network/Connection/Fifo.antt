-- ===== src/Network/Connection/Fifo.antt =====
-- network/conn.go: what the queue between Send and writeLoop takes and gives.
pub mod Rounds
pub mod Order
pub mod Tests
use mine_net.Base.{
  ◌≡◌, refl, sym, ap, ◌∙◌, Bool, true, false, some, List, [], ◌∷◌, ◌++◌, append_assoc, append-nil,
  Outcome, ok, err, panic,
}
use mine_net.Network.Errors.{Error}
use mine_net.Network.Packet.{Packet, encode}
use mine_net.Network.Packet.Transform.{Bytes, Transforms, PacketCodec}
use mine_net.Network.Heartbeat
use mine_net.Network.Connection.State.{Connection}

-- The bytes of a frame, if there is one.
abbrev pub frame_of : Outcome Error Bytes → Bytes
frame_of (ok bs) = bs
frame_of (err e) = []
frame_of panic = []

-- What a codec makes of packets, one after the other; those that it refuses are left out.
unfoldable pub frames : Transforms → PacketCodec → List Packet → Bytes
frames t c [] = []
frames t c (p ∷ ps) = frame_of (encode t c p).2 ++ frames t (encode t c p).0 ps

unfoldable pub after_all : Transforms → PacketCodec → List Packet → PacketCodec
after_all t c [] = c
after_all t c (p ∷ ps) = after_all t (encode t c p).0 ps

-- What a Send has put into the queue.
abbrev pub if_sent : Outcome Error (Unit {0}) → List Packet → List Packet
if_sent (ok u) ps = ps
if_sent (err e) ps = []
if_sent panic ps = []

-- What a round of writeLoop takes out of the queue.
abbrev pub given_of : Bool → List Packet → List Packet
given_of closing [] = []
given_of true (p ∷ ps) = []
given_of false (p ∷ ps) = p ∷ []

module _ (t : Transforms) where
  frames-append :
      (c : PacketCodec) (xs ys : List Packet)
      → frames t c (xs ++ ys) ≡ frames t c xs ++ frames t (after_all t c xs) ys
  unfolding frames after_all
  frames-append c [] ys = refl
  frames-append c (x ∷ xs) ys =
      ap (◌++◌ (frame_of (encode t c x).2)) (frames-append (encode t c x).0 xs ys)
      ∙ sym (append_assoc (frame_of (encode t c x).2) _ _)

  after_all-append :
      (c : PacketCodec) (xs ys : List Packet)
      → after_all t c (xs ++ ys) ≡ after_all t (after_all t c xs) ys
  unfolding after_all
  after_all-append c [] ys = refl
  after_all-append c (x ∷ xs) ys = after_all-append (encode t c x).0 xs ys

  -- From c to d the queue took some packets at its end and gave some from its front, which were
  -- written.
  pub record Flows {H V : Type 0} (c d : Connection H V) (taken given : List Packet) : Type 0 where
    pub queue : c.send_chan ++ taken ≡ given ++ d.send_chan
    pub written : d.written ≡ c.written ++ frames t c.codec given
    pub codec : d.codec ≡ after_all t c.codec given

  module _ {H V : Type 0} where
    pub Flows-trans :
        (c d e : Connection H V) (taken given taken' given' : List Packet)
        → Flows c d taken given
        → Flows d e taken' given'
        → Flows c e (taken ++ taken') (given ++ given')
    Flows-trans c d e taken given taken' given' f g = record {
      queue =
          sym (append_assoc c.send_chan taken taken')
          ∙ ap (λ (ps : List Packet). ps ++ taken') f.queue
          ∙ append_assoc given d.send_chan taken'
          ∙ ap (◌++◌ given) g.queue
          ∙ sym (append_assoc given given' e.send_chan);
      written =
          g.written
          ∙ rw (f.written, f.codec)
              (append_assoc c.written (frames t c.codec given) _
                ∙ ap (◌++◌ c.written) (sym (frames-append c.codec given given')));
      codec = g.codec ∙ rw f.codec (sym (after_all-append c.codec given given'));
    }

    -- Nothing is taken or given where queue, codec and socket stay as they were.
    pub Flows-still :
        (c d : Connection H V)
        → d.send_chan ≡ c.send_chan
        → d.written ≡ c.written
        → d.codec ≡ c.codec
        → Flows c d [] []
    unfolding frames after_all
    Flows-still c d q w k = record {
      queue = append-nil c.send_chan ∙ sym q;
      written = w ∙ sym (append-nil c.written);
      codec = k;
    }
