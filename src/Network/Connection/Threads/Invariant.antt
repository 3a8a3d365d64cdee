-- ===== src/Network/Connection/Threads/Invariant.antt =====
-- What every interleaving of the calls keeps.
use mine_net.Base.{
  ℕ, ◌+◌, ◌≤◌, ◌≡◌, ◌≢◌, ◌⊎◌, inl, inr, refl, Bool, true, false, List, [], ◌∷◌, ◌++◌, All, panic,
  length, length-append, arith,
}
use mine_net.Network.Heartbeat
use mine_net.Network.Heartbeat.{HeartbeatManager}
use mine_net.Network.Packet.{Packet}
use mine_net.Network.Connection.State.{Connection, update_last_active, socket_result, queue_size}
use mine_net.Network.Connection.Send.{select_send}
use mine_net.Network.Connection.Threads.{
  Task, swapping, closing_channel, stopping_heartbeat, setting_gauge, closing_socket, closed_with,
  checking, marking, limiting, numbering, selecting, sent_with, after_stop, swap_flag,
  close_channel, set_gauge, close_socket, check_closed, limited, number_packet, select_queue, act,
}

-- 1 for a call of Close that has swapped the flag and not returned.
abbrev pub inside : Task → ℕ
inside closing_channel = 1
inside stopping_heartbeat = 1
inside setting_gauge = 1
inside closing_socket = 1
inside _ = 0

abbrev pub closers : List Task → ℕ
closers [] = 0
closers (t ∷ ts) = inside t + closers ts

-- The call has not panicked.
abbrev pub IsFine : Task → Type 0
IsFine (closed_with o) = o ≢ panic
IsFine (sent_with o) = o ≢ panic
IsFine _ = Unit

abbrev pub count_flag : Bool → ℕ
count_flag true = 1
count_flag false = 0

pub closers-append : (xs ys : List Task) → closers (xs ++ ys) ≡ closers xs + closers ys
closers-append [] ys = omega arith
closers-append (t ∷ xs) ys = omega (arith, closers-append xs ys)

module _ {H V : Type 0} where
  -- What a call of Close knows of the connection.
  abbrev pub Fits : Connection H V → Task → Type 0
  Fits c closing_channel =
      (c.close_chan_closed ≡ false) × (c.heartbeat.stopped ≡ false) × (c.socket_closed ≡ false)
  Fits c stopping_heartbeat =
      (c.close_chan_closed ≡ true) × (c.heartbeat.stopped ≡ false) × (c.socket_closed ≡ false)
  Fits c setting_gauge =
      (c.close_chan_closed ≡ true) × (c.heartbeat.stopped ≡ true) × (c.socket_closed ≡ false)
  Fits c closing_socket =
      (c.close_chan_closed ≡ true) × (c.heartbeat.stopped ≡ true) × (c.socket_closed ≡ false)
  Fits c _ = Unit

  -- The channel, the heartbeat and the socket agree with the flag.
  pub record IsSettled (c : Connection H V) : Type 0 where
    pub channel : c.close_chan_closed ≡ c.closed
    pub heartbeat : c.heartbeat.stopped ≡ c.closed
    pub socket : c.socket_closed ≡ c.closed

  pub record SameFlags (c d : Connection H V) : Type 0 where
    pub channel : d.close_chan_closed ≡ c.close_chan_closed
    pub heartbeat : d.heartbeat.stopped ≡ c.heartbeat.stopped
    pub socket : d.socket_closed ≡ c.socket_closed

  Fits-same :
      (c d : Connection H V) (ts : List Task) → SameFlags c d → All (Fits c) ts → All (Fits d) ts
  Fits-same c d [] e h = tt
  Fits-same c d (t ∷ ts) e (p, h) = (fits t p, Fits-same c d ts e h)
    where
      fits : (t : Task) → Fits c t → Fits d t
      fits closing_channel p = ground (arith, e)
      fits stopping_heartbeat p = ground (arith, e)
      fits setting_gauge p = ground (arith, e)
      fits closing_socket p = ground (arith, e)
      fits _ p = tt

  -- Nothing is known of a connection by calls of which none is inside Close.
  Fits-none : (d : Connection H V) (ts : List Task) → closers ts ≡ 0 → All (Fits d) ts
  Fits-none d [] z = tt
  Fits-none d (t ∷ ts) z = (fits t (omega arith), Fits-none d ts (omega arith))
    where
      fits : (t : Task) → inside t ≡ 0 → Fits d t
      fits closing_channel p = absurd (omega arith)
      fits stopping_heartbeat p = absurd (omega arith)
      fits setting_gauge p = absurd (omega arith)
      fits closing_socket p = absurd (omega arith)
      fits _ p = tt

  -- A call beside others of which k are inside Close.
  pub record IsPlaced (c : Connection H V) (t : Task) (k : ℕ) : Type 0 where
    pub fine : IsFine t
    pub fits : Fits c t
    pub single : inside t + k ≤ count_flag c.closed
    pub settled : inside t + k ≡ 0 → IsSettled c
    pub bounded : length c.send_chan ≤ queue_size

  -- The call stays so, and the others see no change, or know nothing of the connection.
  abbrev pub Keeps : Connection H V → ℕ → Connection H V × Task → Type 0
  Keeps c k (d, t) = IsPlaced d t k × (SameFlags c d ⊎ (k ≡ 0))

  swap_flag-Keeps : (c : Connection H V) (k : ℕ) → IsPlaced c swapping k → Keeps c k (swap_flag c)
  unfolding swap_flag
  swap_flag-Keeps c k v = ground (arith, v.settled)

  close_channel-Keeps :
      (c : Connection H V) (k : ℕ) → IsPlaced c closing_channel k → Keeps c k (close_channel c)
  unfolding close_channel
  close_channel-Keeps c k v = ground (arith, v.settled)

  after_stop-Keeps :
      (c : Connection H V) (k : ℕ)
      → IsPlaced c stopping_heartbeat k
      → Keeps c k (after_stop c (Heartbeat.stop c.heartbeat))
  unfolding after_stop Heartbeat.stop
  after_stop-Keeps c k v = ground (arith, v.settled)

  set_gauge-Keeps :
      (c : Connection H V) (k : ℕ) → IsPlaced c setting_gauge k → Keeps c k (set_gauge c)
  unfolding set_gauge
  set_gauge-Keeps c k v = ground (arith, v.settled)

  socket_result-fine : (c : Connection H V) → socket_result c.socket_error ≢ panic
  socket_result-fine c e = ground arith

  close_socket-Keeps :
      (c : Connection H V) (k : ℕ) → IsPlaced c closing_socket k → Keeps c k (close_socket c)
  unfolding close_socket
  close_socket-Keeps c k v = ground (arith, v.settled, socket_result-fine c)

  check_closed-Keeps :
      (p : Packet) (c : Connection H V) (k : ℕ)
      → IsPlaced c (checking p) k
      → Keeps c k (c, check_closed p c)
  unfolding check_closed
  check_closed-Keeps p c k v = ground (arith, v.settled)

  marking-Keeps :
      (now : ℕ) (p : Packet) (c : Connection H V) (k : ℕ)
      → IsPlaced c (marking p) k
      → Keeps c k (update_last_active now c, limiting p)
  unfolding update_last_active
  marking-Keeps now p c k v = ground (arith, v.settled)

  limited-Keeps :
      (allowed : Bool) (p : Packet) (c : Connection H V) (k : ℕ)
      → IsPlaced c (limiting p) k
      → Keeps c k (limited allowed p c)
  unfolding limited
  limited-Keeps allowed p c k v = ground (arith, v.settled)

  number_packet-Keeps :
      (p : Packet) (c : Connection H V) (k : ℕ)
      → IsPlaced c (numbering p) k
      → Keeps c k (number_packet p c)
  unfolding number_packet
  number_packet-Keeps p c k v = ground (arith, v.settled)

  select_queue-Keeps :
      (pick : Bool) (p : Packet) (c : Connection H V) (k : ℕ)
      → IsPlaced c (selecting p) k
      → Keeps c k (select_queue pick p c)
  unfolding select_queue select_send
  select_queue-Keeps pick p c k v = ground (arith, v.settled, length-append c.send_chan (p ∷ []))

  pub act-Keeps :
      (now : ℕ) (allowed pick : Bool) (t : Task) (c : Connection H V) (k : ℕ)
      → IsPlaced c t k
      → Keeps c k (act now allowed pick t c)
  unfolding act
  act-Keeps now allowed pick swapping c k v = swap_flag-Keeps c k v
  act-Keeps now allowed pick closing_channel c k v = close_channel-Keeps c k v
  act-Keeps now allowed pick stopping_heartbeat c k v = after_stop-Keeps c k v
  act-Keeps now allowed pick setting_gauge c k v = set_gauge-Keeps c k v
  act-Keeps now allowed pick closing_socket c k v = close_socket-Keeps c k v
  act-Keeps now allowed pick (closed_with o) c k v =
      (v, inl (record { channel = refl; heartbeat = refl; socket = refl }))
  act-Keeps now allowed pick (checking p) c k v = check_closed-Keeps p c k v
  act-Keeps now allowed pick (marking p) c k v = marking-Keeps now p c k v
  act-Keeps now allowed pick (limiting p) c k v = limited-Keeps allowed p c k v
  act-Keeps now allowed pick (numbering p) c k v = number_packet-Keeps p c k v
  act-Keeps now allowed pick (selecting p) c k v = select_queue-Keeps pick p c k v
  act-Keeps now allowed pick (sent_with o) c k v =
      (v, inl (record { channel = refl; heartbeat = refl; socket = refl }))

  -- The other calls, behind such an access.
  pub Fits-others :
      (c d : Connection H V) (ts : List Task) (k : ℕ)
      → SameFlags c d ⊎ (k ≡ 0)
      → closers ts ≤ k
      → All (Fits c) ts
      → All (Fits d) ts
  Fits-others c d ts k (inl e) z h = Fits-same c d ts e h
  Fits-others c d ts k (inr e) z h = Fits-none d ts (omega arith)
