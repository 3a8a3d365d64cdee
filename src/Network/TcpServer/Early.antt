-- ===== src/Network/TcpServer/Early.antt =====
-- network/tcp_net.go: NewConnection starts readLoop, and acceptLoop installs the handlers behind it.
use mathlib.Core.Path.{subst}
use mine_net.Base.{
  ℕ, ◌≤◌, ◌≡◌, ◌≢◌, refl, sym, ap, ◌∙◌, Bool, false, Option, some, List, [], ◌∷◌, ◌++◌, append-nil,
  ok, length,
}
use mine_net.Base.Map.{Map, nat_key, lookup, Distinct}
use mine_net.Network.Packet.{Packet, Event, encode, cmd_ping, max_packet_size}
use mine_net.Network.Packet.Transform.{Bytes, Transforms, PacketCodec}
use mine_net.Network.Packet.RoundTrip.{IsWire, IsPeer, on_wire, numbered}
use mine_net.Network.RateLimiter.{LimiterLib}
use mine_net.Network.Heartbeat.{Json}
use mine_net.Network.Connection.State.{Connection, set_handler}
use mine_net.Network.Connection.Receive.{Node, read_step}
use mine_net.Network.Connection.Wire.{route}
use mine_net.Network.Connection.Took.{read_step-Took}
use mine_net.Network.TcpServer.Server.{install}
use mine_net.Network.TcpServer.Accept.{or_handler, install-handler}
use mine_net.Network.TcpServer.Instance.{served}

module _ {H V : Type 0} (lib : LimiterLib) (pick : Bool) where
  -- acceptLoop's copy of the server's handlers to the connection.
  abbrev pub installed : Map ℕ H → Node lib H V → Node lib H V
  installed m n = record n { conn = install (served lib pick) m n.conn }

  install-codec :
      (m : Map ℕ H) (c : Connection H V)
      → let d = install (served lib pick) m c in
        (d.codec ≡ c.codec) × (d.close_chan_closed ≡ c.close_chan_closed)
  unfolding install set_handler
  install-codec [] c = (refl, refl)
  install-codec ((cmd, h) ∷ m) c = install-codec m (set_handler cmd h c)

  module _ (t : Transforms) (json : Json) (now : ℕ) (m : Map ℕ H) (n : Node lib H V)
      (c : PacketCodec) (p : Packet) (h : H) {bs : Bytes} (rest : List Event) where
    -- A connection that has no handler yet, and a packet from a peer with the same codec settings, in
    -- the wire's ranges, no heartbeat and framed within the limit, whose command the server has a
    -- handler for. If readLoop reads it before acceptLoop has installed the handlers, it is gone from
    -- the stream, no handler has been called, and the connection has its handler from then on. If it
    -- reads it behind that, the handler is called.
    pub early_lem :
        n.conn.handlers ≡ []
        → Distinct m
        → lookup p.cmd_id m ≡ some h
        → IsPeer c n.conn.codec
        → IsWire p
        → p.cmd_id ≢ cmd_ping
        → (encode t c p).2 ≡ ok bs
        → length bs ≤ max_packet_size
        → n.conn.close_chan_closed ≡ false
        → n.input ≡ on_wire bs ++ rest
        → let early = installed m (read_step lib t json now pick n) in
          let late = read_step lib t json now pick (installed m n) in
          (early.input ≡ rest)
          × (early.dispatched ≡ n.dispatched)
          × (lookup p.cmd_id early.conn.handlers ≡ some h)
          × (late.dispatched ≡ n.dispatched ++ ((h, numbered c p) ∷ []))
    unfolding lookup
    early_lem fresh distinct found peer wire other e fits opened arrived =
        let took =
          read_step-Took lib t json pick now n c p rest peer wire other e fits opened arrived in
        let i = served lib pick in
        let has : (d : Connection H V) → lookup p.cmd_id (install i m d).handlers ≡ some h = λ d.
          install-handler i m d p.cmd_id distinct
          ∙ ap (λ (o : Option H). or_handler i o (lookup p.cmd_id d.handlers)) found in
        let (codec, channel) = install-codec m n.conn in
        let late =
          read_step-Took lib t json pick now (installed m n) c p rest
            (subst (IsPeer c) (sym codec) peer) wire other e fits (channel ∙ opened) arrived in
        (
          took.input,
          took.dispatched
              ∙ ap (λ (hs : Map ℕ H). n.dispatched ++ route (lookup p.cmd_id hs) (numbered c p))
                  fresh
              ∙ append-nil n.dispatched,
          has (read_step lib t json now pick n).conn,
          late.dispatched
              ∙ ap (λ (o : Option H). n.dispatched ++ route o (numbered c p)) (has n.conn),
        )
