-- ===== src/Network/ConnPool/Bounds.antt =====
-- What every operation of the pool keeps: its capacity, one entry for each id, and metrics that count
-- its entries.
use mine_net.Base.{
  ℕ, suc, ◌+◌, ◌≤◌, ◌≡◌, ap, ◌∙◌, Bool, true, false, none, some, [], ◌∷◌, String, length, arith,
  if◌then◌else◌, Option-cases, inl, inr,
}
use mine_net.Base.Int.{ℤ, pos, pred_ℤ}
use mine_net.Base.Map.{
  Map, string_key, lookup, Distinct, length-insert_new, length-insert_old, length-erase,
  insert-Distinct, erase-Distinct,
}
use mine_net.Network.ConnPool.Pool.{
  Result, ConnectionInterface, PoolConfig, PoolMetrics, ConnPool, new_conn_pool, add, remove,
  remove_found, remove_closed, sweep, cleanup, swept, sweep_metrics, left_of, close_each,
  close_pool, should_cleanup,
}

-- The gauge is the number of connections, which is that of those created and not closed.
pub record Counts (n : ℕ) (s : PoolMetrics) : Type 0 where
  pub gauge : s.total_conns ≡ pos n
  pub balance : s.conn_created ≡ s.conn_closed + n

pred_pos : {x : ℤ} {n : ℕ} → x ≡ pos (suc n) → pred_ℤ x ≡ pos n
pred_pos e = rw e

module _ {C : Type 0} (i : ConnectionInterface C) where
  pub record IsValid (p : ConnPool C) : Type 0 where
    pub bounded : length p.connections ≤ p.max_conns
    pub distinct : Distinct p.connections
    pub counts : Counts (length p.connections) p.metrics

  pub new_conn_pool-IsValid : (c : PoolConfig) → IsValid (new_conn_pool i c)
  unfolding new_conn_pool
  new_conn_pool-IsValid c = ground arith

  -- A connection with a new id.
  pub add-IsValid :
      (p : ConnPool C) (c : C)
      → lookup (i.id c) p.connections ≡ none
      → IsValid p
      → IsValid (add i p c).0
  unfolding add
  add-IsValid p c fresh v = ground (
    arith,
    length-insert_new (i.id c) c p.connections fresh,
    insert-Distinct (i.id c) c p.connections v.distinct,
  )

  remove_closed-IsValid :
      (id : String) (o : C × Result) (p : ConnPool C) (c : C)
      → lookup id p.connections ≡ some c
      → IsValid p
      → IsValid (remove_closed i id o p).0
  unfolding remove_closed
  remove_closed-IsValid id (d, some e) p c found v = ground (
    arith,
    length-insert_old id d c p.connections found,
    insert-Distinct id d p.connections v.distinct,
  )
  remove_closed-IsValid id (d, none) p c found v = ground (
    arith,
    length-erase id c p.connections v.distinct found,
    erase-Distinct id p.connections v.distinct,
  )

  pub remove-IsValid : (p : ConnPool C) (id : String) → IsValid p → IsValid (remove i p id).0
  unfolding remove remove_found
  remove-IsValid p id v = elim (Option-cases (lookup id p.connections)) [
    | inl e ↦ rw (e, remove_found) v
    | inr (c, e) ↦ rw (e, remove_found) (remove_closed-IsValid id (i.close c) p c e v)
  ]

  -- The state of a range loop over a valid pool: what is kept is part of what was there, and the
  -- metrics count it with the `rest` that the loop does not visit.
  record Swept (rest : ℕ) (m : Map String C) (r : Map String C × PoolMetrics) : Type 0 where
    pub shorter : length r.0 ≤ length m
    pub absent : (k : String) → lookup k m ≡ none → lookup k r.0 ≡ none
    pub distinct : Distinct r.0
    pub counts : Counts (rest + length r.0) r.1

  keep-Swept :
      (rest : ℕ) (k : String) (c d : C) (m : Map String C) (r : Map String C × PoolMetrics)
      → lookup k m ≡ none
      → Swept (suc rest) m r
      → Swept rest ((k, c) ∷ m) ((k, d) ∷ r.0, r.1)
  unfolding lookup
  keep-Swept rest k c d m r new v = record {
    shorter = omega (arith, v.shorter);
    absent = λ j h. ground (arith, v.absent j);
    distinct = (v.absent k new, v.distinct);
    counts = record {
      gauge = v.counts.gauge ∙ ap pos (omega arith);
      balance = omega (arith, v.counts.balance);
    };
  }

  drop-Swept :
      (rest : ℕ) (k : String) (c : C) (m : Map String C) (r : Map String C × PoolMetrics)
      → Swept rest m r
      → Swept rest ((k, c) ∷ m) r
  unfolding lookup
  drop-Swept rest k c m r v = record {
    shorter = omega (arith, v.shorter);
    absent = λ j h. ground (arith, v.absent j);
    distinct = v.distinct;
    counts = v.counts;
  }

  swept-Swept :
      (rest : ℕ) (k : String) (c : C) (o : C × Result) (m : Map String C) (s : PoolMetrics)
      (f : Result → Map String C × PoolMetrics)
      → lookup k m ≡ none
      → ((rest' : ℕ) (e : Result)
          → Counts (rest' + length m) (sweep_metrics e s)
          → Swept rest' m (f e))
      → Counts (rest + suc (length m)) s
      → Swept rest ((k, c) ∷ m) (swept k o (f o.1))
  swept-Swept rest k c (d, some e) m s f new ih v = keep-Swept rest k c d m (f (some e)) new (
      ih (suc rest) (some e)
        (record { gauge = v.gauge ∙ ap pos (omega arith); balance = omega (arith, v.balance) }))
  swept-Swept rest k c (d, none) m s f new ih v = drop-Swept rest k c m (f none) (
      ih rest none (record {
        gauge = pred_pos (v.gauge ∙ ap pos (omega arith));
        balance = omega (arith, v.balance);
      }))

  Swept-if :
      {rest : ℕ} {m : Map String C} (b : Bool) {x y : Map String C × PoolMetrics}
      → Swept rest m x
      → Swept rest m y
      → Swept rest m (if b then x else y)
  Swept-if true hx hy = hx
  Swept-if false hx hy = hy

  empty-Swept : (rest : ℕ) (s : PoolMetrics) → Counts (rest + 0) s → Swept rest [] ([], s)
  empty-Swept rest s v = record {
    shorter = omega arith;
    absent = λ k h. h;
    distinct = tt;
    counts = v;
  }

  sweep-Swept :
      (m : Map String C) (config : PoolConfig) (now total rest : ℕ) (s : PoolMetrics)
      → Distinct m
      → Counts (rest + length m) s
      → Swept rest m (sweep i config now total m s)
  unfolding sweep
  sweep-Swept [] config now total rest s d v = empty-Swept rest s v
  sweep-Swept ((k, c) ∷ m) config now total rest s d v =
      Swept-if (should_cleanup i config now total c)
        (swept-Swept rest k c (i.close c) m s _ d.0
          (λ rest' e h. sweep-Swept m config now (left_of e total) rest' (sweep_metrics e s) d.1 h)
          v)
        (keep-Swept rest k c c m (sweep i config now total m s) d.0 (
          sweep-Swept m config now total (suc rest) s d.1 (record {
            gauge = v.gauge ∙ ap pos (omega arith);
            balance = omega (arith, v.balance);
          })))

  close_each-Swept :
      (m : Map String C) (rest : ℕ) (s : PoolMetrics)
      → Distinct m
      → Counts (rest + length m) s
      → Swept rest m (close_each i m s)
  unfolding close_each
  close_each-Swept [] rest s d v = empty-Swept rest s v
  close_each-Swept ((k, c) ∷ m) rest s d v =
      swept-Swept rest k c (i.close c) m s _ d.0
        (λ rest' e h. close_each-Swept m rest' (sweep_metrics e s) d.1 h) v

  -- A tick of cleanup keeps a valid pool valid, also where closing a connection fails: at most max_conns
  -- connections, one for each id, and metrics that count them.
  pub cleanup-IsValid : (now : ℕ) (p : ConnPool C) → IsValid p → IsValid (cleanup i now p)
  unfolding cleanup
  cleanup-IsValid now p v =
      let start : Counts (0 + length p.connections) p.metrics = record {
        gauge = v.counts.gauge ∙ ap pos (omega arith);
        balance = omega (arith, v.counts.balance);
      } in
      let w =
        sweep-Swept p.connections p.config now (length p.connections) 0 p.metrics v.distinct
          start in
      record {
        bounded = omega (arith, w.shorter, v.bounded);
        distinct = w.distinct;
        counts = record {
          gauge = w.counts.gauge ∙ ap pos (omega arith);
          balance = omega (arith, w.counts.balance);
        };
      }

  pub close_pool-IsValid : (p : ConnPool C) → IsValid p → IsValid (close_pool i p)
  unfolding close_pool
  close_pool-IsValid p v =
      let start : Counts (0 + length p.connections) p.metrics = record {
        gauge = v.counts.gauge ∙ ap pos (omega arith);
        balance = omega (arith, v.counts.balance);
      } in
      let w = close_each-Swept p.connections 0 p.metrics v.distinct start in
      record {
        bounded = omega (arith, w.shorter, v.bounded);
        distinct = w.distinct;
        counts = record {
          gauge = w.counts.gauge ∙ ap pos (omega arith);
          balance = omega (arith, w.counts.balance);
        };
      }
