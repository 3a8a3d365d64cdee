-- ===== src/Network/Connection/Threads/Safety.antt =====
-- What any number of calls of Send and Close, interleaved in any order, come to.
use mine_net.Base.{
  ℕ, ◌+◌, ◌≤◌, ◌≡◌, inl, refl, sym, ap, ◌∙◌, Bool, List, [], ◌∷◌, ◌++◌, All, All-middle, All-join,
  length, arith,
}
use mathlib.Core.Path.{subst}
use mine_net.Network.RateLimiter.{LimiterLib, RateLimiter}
use mine_net.Network.Connection.State.{queue_size}
use mine_net.Network.Connection.Threads.{
  Task, act, World, ask, advance, Step, acts, calls_close, calls_send, receives, Reachable, here,
  next,
}
use mine_net.Network.Connection.Threads.Invariant.{
  inside, closers, IsFine, count_flag, closers-append, Fits, IsSettled, act-Keeps, Fits-others,
}

module _ {H V : Type 0} (lib : LimiterLib) where
  -- No call has panicked, at most one is inside Close, and then only behind the swap; while none is,
  -- the channel, the heartbeat and the socket agree with the flag; the queue keeps to its capacity.
  pub record IsCoherent (w : World lib H V) : Type 0 where
    pub fine : All IsFine w.tasks
    pub fits : All (Fits w.conn) w.tasks
    pub single : closers w.tasks ≤ count_flag w.conn.closed
    pub settled : closers w.tasks ≡ 0 → IsSettled w.conn
    pub bounded : length w.conn.send_chan ≤ queue_size

  middle :
      (w : World lib H V) (before after : List Task) (t : Task)
      → w.tasks ≡ before ++ (t ∷ after)
      → closers w.tasks ≡ inside t + (closers before + closers after)
  middle w before after t e = ap closers e ∙ omega (arith, closers-append before (t ∷ after))

  act-IsCoherent :
      (w : World lib H V) (before after : List Task) (t : Task) (now : ℕ) (allowed pick : Bool)
      (r : RateLimiter lib)
      → w.tasks ≡ before ++ (t ∷ after)
      → IsCoherent w
      → let (c, t') = act now allowed pick t w.conn in
        IsCoherent (record { limiter = r; conn = c; tasks = before ++ (t' ∷ after) })
  act-IsCoherent w before after t now allowed pick r e v =
      let k = closers before + closers after in
      let count = middle w before after t e in
      let (fine_before, fine_t, fine_after) =
        All-middle IsFine before after t (subst (All IsFine) e v.fine) in
      let (fits_before, fits_t, fits_after) =
        All-middle (Fits w.conn) before after t (subst (All (Fits w.conn)) e v.fits) in
      let (placed, others) = act-Keeps now allowed pick t w.conn k (record {
        fine = fine_t;
        fits = fits_t;
        single = omega (arith, v.single);
        settled = λ z. v.settled (omega arith);
        bounded = v.bounded;
      }) in
      let (c, t') = act now allowed pick t w.conn in
      let count' = closers-append before (t' ∷ after) in
      record {
        fine = All-join IsFine before after t' fine_before placed.fine fine_after;
        fits =
            All-join (Fits c) before after t'
              (Fits-others w.conn c before k others (omega arith) fits_before) placed.fits
              (Fits-others w.conn c after k others (omega arith) fits_after);
        single = omega (arith, placed.single);
        settled = λ z. placed.settled (omega arith);
        bounded = placed.bounded;
      }

  step-IsCoherent : (w w' : World lib H V) → Step lib w w' → IsCoherent w → IsCoherent w'
  unfolding advance
  step-IsCoherent w _ (acts _ before after t now pick e) v =
      let (allowed, r) = ask lib now t w.limiter in
      act-IsCoherent w before after t now allowed pick r e v
  step-IsCoherent w _ (calls_close _) v = ground (arith, v.settled)
  step-IsCoherent w _ (calls_send _ p) v = ground (arith, v.settled)
  step-IsCoherent w _ (receives _ p ps e) v = record {
    fine = v.fine;
    fits =
        Fits-others w.conn (record (w.conn) { send_chan = ps }) w.tasks (closers w.tasks)
          (inl (record { channel = refl; heartbeat = refl; socket = refl })) (omega arith) v.fits;
    single = v.single;
    settled = λ z. ground (arith, v.settled z);
    bounded = omega (arith, v.bounded, ap length e);
  }

  -- Whatever calls of Send and Close are made on a connection whose parts agree, and however their
  -- accesses are interleaved: no call has panicked; at most one is inside Close behind the swap of
  -- the flag; while none is, the channel, the heartbeat and the socket agree with the flag; and the
  -- queue keeps to its capacity.
  pub calls-IsCoherent :
      {start w : World lib H V}
      → start.tasks ≡ []
      → IsSettled start.conn
      → length start.conn.send_chan ≤ queue_size
      → Reachable lib start w
      → IsCoherent w
  calls-IsCoherent {start} none s b here = record {
    fine = subst (All IsFine) (sym none) tt;
    fits = subst (All (Fits start.conn)) (sym none) tt;
    single = omega (arith, ap closers none);
    settled = λ z. s;
    bounded = b;
  }
  calls-IsCoherent none s b (next {w} {w'} r step) =
      step-IsCoherent w w' step (calls-IsCoherent none s b r)
