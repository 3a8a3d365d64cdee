-- ===== src/Network/ConnPool/Cleanup.antt =====
-- network/conn_pool.go, cleanup: which connections a tick leaves.
use mine_net.Base.{
  ℕ, ltb, false, suc, ◌+◌, ◌-◌, ◌≤◌, ◌≡◌, true, false, none, some, [], ◌∷◌, String, length, arith,
  Bool-cases, inl, inr,
}
use mine_net.Base.Int.{pos, sub_ℕ, ltb_ℤ}
use mine_net.Base.Map.{Map, string_key}
use mine_net.Network.ConnPool.Pool.{
  Result, ConnectionInterface, PoolConfig, PoolMetrics, ConnPool, sweep, cleanup, swept,
  sweep_metrics, left_of, should_cleanup,
}

module _ {C : Type 0} (i : ConnectionInterface C) where
  -- An open connection that is alive and within its lifetime and its errors, however idle it is.
  pub record IsHealthy (config : PoolConfig) (now : ℕ) (c : C) : Type 0 where
    pub open_yet : i.is_closed c ≡ false
    pub young : ltb_ℤ (pos config.max_lifetime) (sub_ℕ now (i.created_at c)) ≡ false
    pub errors : ltb_ℤ (pos config.max_error_count) (i.error_count c) ≡ false
    pub alive : i.is_alive now c ≡ true

  abbrev pub AllHealthy : PoolConfig → ℕ → Map String C → Type 0
  AllHealthy config now [] = Unit
  AllHealthy config now ((k, c) ∷ m) = IsHealthy config now c × AllHealthy config now m

  -- At or below the floor such a connection is left alone.
  should_cleanup-IsHealthy :
      (config : PoolConfig) (now total : ℕ) (c : C)
      → IsHealthy config now c
      → total ≤ config.min_idle_conns
      → should_cleanup i config now total c ≡ false
  unfolding should_cleanup
  should_cleanup-IsHealthy config now total c h low =
      let floor : ltb config.min_idle_conns total ≡ false = ground arith in
      simp (h.open_yet, h.young, h.errors, h.alive, floor) (ground arith)

  swept_floor :
      (config : PoolConfig) (now rest : ℕ) (k : String) (o : C × Result) (m : Map String C)
      (s : PoolMetrics)
      → ((rest' : ℕ) (s' : PoolMetrics)
          → config.min_idle_conns ≤ rest' + length m
          → config.min_idle_conns ≤ rest' + length (sweep i config now (rest' + length m) m s').0)
      → config.min_idle_conns ≤ rest + length m
      → config.min_idle_conns
        ≤ rest
          + length
              (swept k o (
                sweep i config now (left_of o.1 (rest + suc (length m))) m (sweep_metrics o.1 s))).0
  swept_floor config now rest k (d, some e) m s ih fits =
      let same : suc rest + length m ≡ rest + suc (length m) = omega arith in
      let low = ih (suc rest) (sweep_metrics (some e) s) (omega arith) in
      omega (arith, rw same at low)
  swept_floor config now rest k (d, none) m s ih fits =
      let same : rest + length m ≡ rest + suc (length m) - 1 = omega arith in
      let low = ih rest (sweep_metrics none s) fits in omega (arith, rw same at low)

  sweep_floor :
      (m : Map String C) (config : PoolConfig) (now rest : ℕ) (s : PoolMetrics)
      → AllHealthy config now m
      → config.min_idle_conns ≤ rest + length m
      → config.min_idle_conns ≤ rest + length (sweep i config now (rest + length m) m s).0
  unfolding sweep
  sweep_floor [] config now rest s h fits = fits
  sweep_floor ((k, c) ∷ m) config now rest s h fits =
      elim (Bool-cases (should_cleanup i config now (rest + suc (length m)) c)) [
        | inl cleaned ↦ rw cleaned (
            swept_floor config now rest k (i.close c) m s
              (λ rest' s' f. sweep_floor m config now rest' s' h.1 f)
              (ground (arith, should_cleanup-IsHealthy config now (rest + suc (length m)) c h.0)))
        | inr stays ↦
            let same : suc rest + length m ≡ rest + suc (length m) = omega arith in
            let low = sweep_floor m config now (suc rest) s h.1 (omega arith) in
            rw stays (omega (arith, rw same at low))
      ]

  -- Where every connection of the pool is open, alive and within its lifetime and its errors, a tick
  -- of cleanup, however idle they are, never takes a pool of at least min_idle_conns below that.
  pub cleanup_floor :
      (now : ℕ) (p : ConnPool C)
      → AllHealthy p.config now p.connections
      → p.min_idle_conns ≤ length p.connections
      → p.min_idle_conns ≤ length (cleanup i now p).connections
  unfolding cleanup
  cleanup_floor now p h fits =
      let whole : 0 + length p.connections ≡ length p.connections = omega arith in
      let low = sweep_floor p.connections p.config now 0 p.metrics h (omega arith) in
      omega (arith, rw whole at low)
