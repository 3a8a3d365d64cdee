-- ===== src/Network/Connection/Fifo/Order.antt =====
-- network/conn.go: Send and writeLoop in any interleaving.
use mine_net.Base.{
  ℕ, ◌≡◌, refl, Bool, true, false, ◌&&◌, none, List, All, [], ◌∷◌, ◌++◌, Outcome, if◌then◌else◌,
}
use mine_net.Network.Errors.{Error}
use mine_net.Network.Packet.{Packet}
use mine_net.Network.Packet.Transform.{Transforms}
use mine_net.Network.RateLimiter.{LimiterLib, RateLimiter, is_allowed}
use mine_net.Network.Heartbeat.{Json}
use mine_net.Network.Connection.State.{Connection, update_last_active, set_handler, set_property}
use mine_net.Network.Connection.Send.{next_seq, send, write_step}
use mine_net.Network.Connection.Receive.{Node}
use mine_net.Network.Connection.Steps.{
  Op, sends, closes, handles, sets, reads, writes, pings, checks, step, run,
}
use mine_net.Network.Connection.Fifo.{if_sent, given_of, Flows, Flows-trans, Flows-still}
use mine_net.Network.Connection.Fifo.Rounds.{
  send_limited-Flows, close-Flows, check_tick-Flows, write_select-Flows,
}

-- Sends, rounds of writeLoop on a socket that takes what is written, Close, and what does not touch
-- the queue.
abbrev pub IsTraffic : {H V : Type 0} → Op H V → Type 0
IsTraffic (sends now pick p) = Unit
IsTraffic closes = Unit
IsTraffic (handles cmd h) = Unit
IsTraffic (sets k x) = Unit
IsTraffic (reads now pick) = ⊥
IsTraffic (writes pick failure) = failure ≡ none
IsTraffic (pings now late pick) = ⊥
IsTraffic (checks now late) = Unit

module _ {H V : Type 0} (lib : LimiterLib) (t : Transforms) (json : Json) where
  -- The packets that the Sends of a history report as sent, numbered as Send numbers them.
  abbrev pub accepted_by : Op H V → Node lib H V → List Packet
  accepted_by (sends now pick p) n =
      if_sent (send lib now pick n.limiter n.conn p).2 (record p { seq_id = next_seq n.conn } ∷ [])
  accepted_by o n = []

  abbrev pub accepted : List (Op H V) → Node lib H V → List Packet
  accepted [] n = []
  accepted (o ∷ os) n = accepted_by o n ++ accepted os (step lib t json o n)

  -- The packets that the rounds of writeLoop take.
  abbrev pub taken_by : Op H V → Node lib H V → List Packet
  taken_by (writes pick failure) n = given_of (n.conn.close_chan_closed && pick) n.conn.send_chan
  taken_by o n = []

  abbrev pub taken : List (Op H V) → Node lib H V → List Packet
  taken [] n = []
  taken (o ∷ os) n = taken_by o n ++ taken os (step lib t json o n)

  sent-Flows :
      (c : Connection H V) (b : Bool)
      (x y : RateLimiter lib × Connection H V × Outcome Error (Unit {0})) (ps : List Packet)
      → Flows t c (x.1) (if_sent (x.2) ps) []
      → Flows t c (y.1) (if_sent (y.2) ps) []
      → let z = if b then x else y in Flows t c (z.1) (if_sent (z.2) ps) []
  sent-Flows c true x y ps f g = f
  sent-Flows c false x y ps f g = g

  send-Flows :
      (now : ℕ) (pick : Bool) (r : RateLimiter lib) (c : Connection H V) (p : Packet)
      → let (r', d, result) = send lib now pick r c p in
        Flows t c d (if_sent result (record p { seq_id = next_seq c } ∷ [])) []
  unfolding send update_last_active
  send-Flows now pick r c p =
      let f = send_limited-Flows t (is_allowed lib now r).0 pick p (update_last_active now c) in
      sent-Flows c c.closed _ _ _ (Flows-still t c c refl refl refl)
        (record { queue = f.queue; written = f.written; codec = f.codec })

  step-Flows :
      (o : Op H V) (n : Node lib H V)
      → IsTraffic o
      → Flows t n.conn (step lib t json o n).conn (accepted_by o n) (taken_by o n)
  unfolding step write_step set_handler set_property
  step-Flows (sends now pick p) n h = send-Flows now pick n.limiter n.conn p
  step-Flows closes n h = close-Flows t n.conn
  step-Flows (handles cmd k) n h = Flows-still t n.conn _ refl refl refl
  step-Flows (sets k x) n h = Flows-still t n.conn _ refl refl refl
  step-Flows (reads now pick) n h = absurd h
  step-Flows (writes pick failure) n h =
      rw h (write_select-Flows t pick n.conn.send_chan n.conn refl)
  step-Flows (pings now late pick) n h = absurd h
  step-Flows (checks now late) n h = check_tick-Flows t now late n.conn

  -- The queue keeps its order and loses nothing: in any interleaving of Sends, rounds of writeLoop on
  -- a socket that takes what is written, Closes, ticks of checkLoop and settings, the packets that
  -- were queued at first, and behind them those that the Sends reported as sent, are those that
  -- writeLoop took, and behind them those that are queued now; and what has been written is the
  -- frames of those that it took, in their order.
  pub run-Flows :
      (os : List (Op H V)) (n : Node lib H V)
      → All IsTraffic os
      → Flows t n.conn (run lib t json os n).conn (accepted os n) (taken os n)
  unfolding run
  run-Flows [] n h = Flows-still t n.conn n.conn refl refl refl
  run-Flows (o ∷ os) n h =
      Flows-trans t n.conn (step lib t json o n).conn _ (accepted_by o n) (taken_by o n) _ _
        (step-Flows o n h.0) (run-Flows os (step lib t json o n) h.1)
