-- ===== src/Network/Connection/Beats.antt =====
-- network/heartbeat.go: when checkLoop gives a connection up.
use mine_net.Base.{
  ℕ, zero, suc, ◌+◌, ◌≤◌, ◌≡◌, ◌≢◌, ◌↔◌, refl, ◌∙◌, Bool, true, false, arith, Bool-cases, inl, inr,
  if◌then◌else◌,
}
use mine_net.Base.Int.{pos, sub_ℕ, ltb_ℤ}
use mine_net.Network.Heartbeat
use mine_net.Network.Heartbeat.{
  HeartbeatManager, retry, reconnect, handle_timeout, inc_timeouts, check,
}
use mine_net.Network.Connection.State.{Connection, close, close-closed, finish_close}
use mine_net.Network.Connection.Loops.{check_tick}

-- Every retry is counted, and none of them reconnects.
retry_lem :
    (n : ℕ) (h : HeartbeatManager)
    → ((retry n h).1 ≡ true)
      × ((retry n h).0.metrics.reconnects ≡ h.metrics.reconnects + n)
      × ((retry n h).0.metrics.timeouts ≡ h.metrics.timeouts)
unfolding retry reconnect
retry_lem zero h = (refl, omega arith, refl)
retry_lem (suc n) h = let ih = retry_lem n _ in (ih.0, omega (arith, ih.1), ih.2)

-- The peer has answered once, and its last answer is at least the timeout ago.
abbrev pub IsOverdue : ℕ → HeartbeatManager → Type 0
IsOverdue now h = (h.last_pong ≢ 0) × (h.last_pong + h.timeout ≤ now)

ltb_ℤ-sub_ℕ : (now p t : ℕ) → (ltb_ℤ (sub_ℕ now p) (pos t) ≡ false) ↔ (p + t ≤ now)
ltb_ℤ-sub_ℕ now p t = ground arith

is_alive-IsOverdue :
    (now : ℕ) (h : HeartbeatManager) → (Heartbeat.is_alive now h ≡ false) ↔ IsOverdue now h
unfolding Heartbeat.is_alive
is_alive-IsOverdue now h = ground (arith, ltb_ℤ-sub_ℕ now h.last_pong h.timeout)

-- A manager that has had its timeout and its retries, and its connection is to be closed.
abbrev OutOfRetries : HeartbeatManager → HeartbeatManager × Bool → Type 0
OutOfRetries h o =
    (o.1 ≡ true)
    × (o.0.metrics.reconnects ≡ h.metrics.reconnects + h.retry_count)
    × (o.0.metrics.timeouts ≡ h.metrics.timeouts + 1)

check-OutOfRetries :
    (now : ℕ) (late : Bool) (h : HeartbeatManager)
    → h.stopped ≡ false
    → Heartbeat.is_alive now h ≡ false
    → OutOfRetries h (check now late h)
check-OutOfRetries now late h on dead =
    let given_up : check now late h ≡ handle_timeout (inc_timeouts h) =
      unfold check in simp (on, dead) in
    rw given_up (unfold handle_timeout in retry_lem h.retry_count _)

check-alive :
    (now : ℕ) (late : Bool) (h : HeartbeatManager)
    → h.stopped ≡ false
    → Heartbeat.is_alive now h ≡ true
    → check now late h ≡ (h, false)
unfolding check
check-alive now late h on e = simp (on, e)

module _ {H V : Type 0} where
  close-reconnects :
      (c : Connection H V)
      → ((close c).0.heartbeat.metrics.reconnects ≡ c.heartbeat.metrics.reconnects)
        × ((close c).0.heartbeat.metrics.timeouts ≡ c.heartbeat.metrics.timeouts)
  unfolding close finish_close Heartbeat.stop
  close-reconnects c = ground arith

  -- What a tick of checkLoop that gives the connection up leaves.
  pub record GaveUp (c d : Connection H V) : Type 0 where
    pub closed : d.closed ≡ true
    pub reconnects :
        d.heartbeat.metrics.reconnects ≡ c.heartbeat.metrics.reconnects + c.heartbeat.retry_count
    pub timeouts : d.heartbeat.metrics.timeouts ≡ c.heartbeat.metrics.timeouts + 1

  close-GaveUp :
      (c : Connection H V) (o : HeartbeatManager × Bool)
      → OutOfRetries c.heartbeat o
      → GaveUp c (let d = record c { heartbeat = o.0 } in if o.1 then (close d).0 else d)
  close-GaveUp c (h, false) (e, a, b) = cc
  close-GaveUp c (h, true) (e, tried, timed_out) =
      let kept = close-reconnects (record c { heartbeat = h }) in
      record {
        closed = close-closed (record c { heartbeat = h });
        reconnects = kept.0 ∙ tried;
        timeouts = kept.1 ∙ timed_out;
      }

  -- A tick of checkLoop on a running heartbeat: if the peer has answered once and its last answer is
  -- at least the timeout ago, the timeout and every retry are counted and the connection is closed;
  -- otherwise nothing changes.
  pub check_tick_lem :
      (now : ℕ) (late : Bool) (c : Connection H V)
      → c.heartbeat.stopped ≡ false
      → (IsOverdue now c.heartbeat → GaveUp c (check_tick now late c))
        × (¬ IsOverdue now c.heartbeat → check_tick now late c ≡ c)
  unfolding check_tick
  check_tick_lem now late c on =
      let alive = is_alive-IsOverdue now c.heartbeat in
      (
        λ h. close-GaveUp c _ (check-OutOfRetries now late c.heartbeat on (alive.1 h)),
        λ h. elim (Bool-cases (Heartbeat.is_alive now c.heartbeat)) [
          | inl e ↦ simp (check-alive now late c.heartbeat on e)
          | inr e ↦ absurd (h (alive.0 e))
        ],
      )
