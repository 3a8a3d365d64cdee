-- ===== src/Main/Exchange.antt =====
-- A request and its reply: network/conn.go's loops at both ends, and core/router.go's Handle, which
-- readLoop starts in a goroutine of its own.
pub mod Rounds
pub mod Reply
pub mod Tests
use mine_net.Base.{ℕ, ◌≡◌, Bool, false, Option, none, some, List, [], ◌∷◌, Outcome}
use mine_net.Network.Errors.{Error}
use mine_net.Network.Packet.{Packet}
use mine_net.Network.Packet.Transform.{Transforms}
use mine_net.Network.Packet.RoundTrip.{on_wire}
use mine_net.Network.RateLimiter.{LimiterLib, RateLimiter}
use mine_net.Network.Heartbeat.{Json}
use mine_net.Network.Connection.State.{Connection}
use mine_net.Network.Connection.Send.{send, write_step}
use mine_net.Network.Connection.Receive.{Node, read_step}
use mine_net.Core.Registry.{MessageRegistry}
use mine_net.Core.Router.{Reflection, Protobuf, Router}
use mine_net.Core.Dispatch.{handle}

-- An open connection with such packets in its queue, on which nothing has been written.
pub record IsOpen {H V : Type 0} (c : Connection H V) (packets : List Packet) : Type 0 where
  pub flag : c.closed ≡ false
  pub channel : c.close_chan_closed ≡ false
  pub written : c.written ≡ []
  pub queue : c.send_chan ≡ packets

-- A connection as Handle uses it: its Send, which asks the limiter.
abbrev pub Line : (lib : LimiterLib) (H V : Type 0) → Type 0
Line lib H V = RateLimiter lib × Connection H V

abbrev pub send_on :
    {H V : Type 0} (lib : LimiterLib)
    → ℕ
    → Bool
    → Line lib H V
    → Packet
    → Line lib H V × Outcome Error (Unit {0})
send_on lib now pick (r, c) p = let (r', c', result) = send lib now pick r c p in ((r', c'), result)

module _ {M V : Type 0} (lib : LimiterLib) (reflect : Reflection) (proto : Protobuf M)
    (registry : MessageRegistry) where
  -- The goroutine of readLoop for one packet: Handle's error is logged and a panic is recovered.
  unfoldable pub run_handler :
      ℕ → Bool → ℕ → Router M × Packet → Node lib (Router M) V → Node lib (Router M) V
  run_handler now pick ctx (router, p) n =
      left
        (handle reflect proto (send_on lib now pick) registry router now ctx
          (some (n.limiter, n.conn)) p).0
    where
      left : Option (Line lib (Router M) V) → Node lib (Router M) V
      left (some (r, c)) = record n { limiter = r; conn = c }
      left none = n

  -- The goroutines of several packets, one behind the other.
  unfoldable pub run_handlers :
      ℕ → Bool → ℕ → List (Router M × Packet) → Node lib (Router M) V → Node lib (Router M) V
  run_handlers now pick ctx [] n = n
  run_handlers now pick ctx (call ∷ calls) n =
      run_handlers now pick ctx calls (run_handler now pick ctx call n)

module _ {H V M : Type 0} (lib : LimiterLib) (t : Transforms) (json : Json) (reflect : Reflection)
    (proto : Protobuf M) (registry : MessageRegistry) (pick : Bool) (now ctx : ℕ) where
  -- A round each of the client's writeLoop, the server's readLoop, the goroutines that this started,
  -- the server's writeLoop and the client's readLoop, over sockets that have carried nothing yet.
  unfoldable pub exchange :
      Node lib H V → Node lib (Router M) V → Node lib H V × Node lib (Router M) V
  exchange client server =
      let sent = (write_step t pick none client.conn).0 in
      let asked = read_step lib t json now pick (record server { input = on_wire sent.written }) in
      let answered = run_handlers lib reflect proto registry now pick ctx asked.dispatched asked in
      let written = (write_step t pick none answered.conn).0 in
      (
        read_step lib t json now pick
            (record client { conn = sent; input = on_wire written.written }),
        record answered { conn = written },
      )
