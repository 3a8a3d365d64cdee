-- ===== src/Network/Connection/Threads/Alone.antt =====
-- A call that no other goroutine interrupts does what State's close and Send's send do at once.
use mine_net.Base.{ℕ, zero, suc, ◌≡◌, refl, inl, inr, Bool-cases, Bool}
use mine_net.Network.Heartbeat
use mine_net.Network.Heartbeat.{HeartbeatManager}
use mine_net.Network.Packet.{Packet}
use mine_net.Network.RateLimiter.{LimiterLib, RateLimiter, is_allowed}
use mine_net.Network.Connection.State.{Connection, close, finish_close}
use mine_net.Network.Connection.Send.{send, send_limited}
use mine_net.Network.Connection.Threads.{
  Task, swapping, closed_with, checking, sent_with, swap_flag, close_channel, after_stop, set_gauge,
  close_socket, check_closed, limited, number_packet, select_queue, act, ask, advance,
}

module _ {H V : Type 0} (lib : LimiterLib) where
  -- So many accesses of one call, one behind the other.
  alone :
      ℕ
      → Bool
      → ℕ
      → RateLimiter lib × Connection H V × Task
      → RateLimiter lib × Connection H V × Task
  alone now pick zero s = s
  alone now pick (suc n) (r, c, t) = alone now pick n (advance lib now pick t r c)

  alone_close :
      (now : ℕ) (pick : Bool) (r : RateLimiter lib) (c : Connection H V)
      → alone now pick 5 (r, c, swapping) ≡ (r, (close c).0, closed_with (close c).1)
  unfolding alone advance act ask swap_flag close_channel after_stop set_gauge close_socket close
      finish_close Heartbeat.stop
  alone_close now pick r c = elim (Bool-cases c.closed) [
    | inl e ↦ rw e refl
    | inr e ↦ elim (Bool-cases c.close_chan_closed) [
      | inl f ↦ rw (e, f) refl
      | inr f ↦ elim (Bool-cases c.heartbeat.stopped) [
        | inl g ↦ rw (e, f, g) refl
        | inr g ↦ rw (e, f, g) refl
      ]
    ]
  ]

  alone_send :
      (now : ℕ) (pick : Bool) (r : RateLimiter lib) (c : Connection H V) (p : Packet)
      → let (r', c', result) = send lib now pick r c p in
        alone now pick 5 (r, c, checking p) ≡ (r', c', sent_with result)
  unfolding alone advance act ask check_closed limited number_packet select_queue send send_limited
  alone_send now pick r c p = elim (Bool-cases c.closed) [
    | inl e ↦ rw e refl
    | inr e ↦ elim (Bool-cases (is_allowed lib now r).0) [
      | inl f ↦ rw (e, f) refl
      | inr f ↦ rw (e, f) refl
    ]
  ]

  -- Five accesses of Close, or of Send, that nothing interrupts end the call with the connection and
  -- the result of close, or of send.
  alone_lem :
      (now : ℕ) (pick : Bool) (r : RateLimiter lib) (c : Connection H V) (p : Packet)
      → (alone now pick 5 (r, c, swapping) ≡ (r, (close c).0, closed_with (close c).1))
        × (let (r', c', result) = send lib now pick r c p in
            alone now pick 5 (r, c, checking p) ≡ (r', c', sent_with result))
  alone_lem now pick r c p = (alone_close now pick r c, alone_send now pick r c p)
