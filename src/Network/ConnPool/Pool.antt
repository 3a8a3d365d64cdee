-- ===== src/Network/ConnPool/Pool.antt =====
-- network/conn_pool.go: the pool and its operations, and the part of network/interface.go's
-- IConnection that the pool calls. The pool is the only holder of its connections here; whoever else
-- closes one closes the entry. Each method runs under the pool's lock, as one step.
use mine_net.Base.{
  ℕ, ◌+◌, ◌-◌, ◌≡◌, Bool, true, ◌&&◌, ◌||◌, not, Option, none, some, List, [], ◌∷◌, Outcome, ok,
  err, String, length, ltb, leb, if◌then◌else◌,
}
use mine_net.Base.Int.{ℤ, pos, sub_ℕ, ltb_ℤ, suc_ℤ, pred_ℤ}
use mine_net.Base.Map.{Map, string_key, lookup, insert, erase}
use mine_net.Network.Errors.{Error, pool_full, conn_closed, not_found}

-- The result of a method that returns an error: nil, or the error.
abbrev pub Result : Type 0
Result = Option Error

-- What the pool uses of a connection. Closing is final, and a second Close does nothing.
pub record ConnectionInterface (C : Type 0) : Type 0 where
  pub id : C → String
  pub is_closed : C → Bool
  pub close : C → C × Result
  pub last_active : C → ℕ
  pub created_at : C → ℕ
  pub error_count : C → ℤ
  pub is_alive : ℕ → C → Bool
  pub close-is_closed : (c : C) → is_closed (close c).0 ≡ true
  pub close_again : (c : C) → is_closed c ≡ true → close c ≡ (c, none)

pub record PoolConfig : Type 0 where
  pub max_conns : ℕ
  pub min_idle_conns : ℕ
  pub max_error_count : ℕ
  pub idle_timeout : ℕ
  pub max_lifetime : ℕ
  pub max_idle_time : ℕ

-- Of the histogram of the times to acquire is kept how many values were observed.
pub record PoolMetrics : Type 0 where
  pub total_conns : ℤ
  pub close_errors : ℕ
  pub conn_created : ℕ
  pub conn_closed : ℕ
  pub conn_acquired : ℕ
  pub conn_acquire_failed : ℕ
  pub acquire_times : ℕ
  pub cleanup_total : ℕ
  pub cleanup_conns : ℕ

pub record ConnPool (C : Type 0) : Type 0 where
  pub connections : Map String C
  pub config : PoolConfig
  pub open config use *
  pub metrics : PoolMetrics

abbrev no_metrics : PoolMetrics
no_metrics = record {
  total_conns = pos 0;
  close_errors = 0;
  conn_created = 0;
  conn_closed = 0;
  conn_acquired = 0;
  conn_acquire_failed = 0;
  acquire_times = 0;
  cleanup_total = 0;
  cleanup_conns = 0;
}

abbrev count_closed : PoolMetrics → PoolMetrics
count_closed m = record m { total_conns = pred_ℤ m.total_conns; conn_closed = m.conn_closed + 1 }

abbrev count_close_error : PoolMetrics → PoolMetrics
count_close_error m = record m { close_errors = m.close_errors + 1 }

abbrev pub values : {C : Type 0} → Map String C → List C
values [] = []
values ((k, c) ∷ m) = c ∷ values m

-- A visited entry behind the call of Close.
abbrev pub swept :
    {C : Type 0} → String → C × Result → Map String C × PoolMetrics → Map String C × PoolMetrics
swept k (c, some e) (m, s) = ((k, c) ∷ m, s)
swept k (c, none) (m, s) = (m, s)

abbrev pub sweep_metrics : Result → PoolMetrics → PoolMetrics
sweep_metrics (some e) s = count_close_error s
sweep_metrics none s = count_closed s

-- What a visit leaves of the number of connections.
abbrev pub left_of : Result → ℕ → ℕ
left_of (some e) n = n
left_of none n = n - 1

module _ {C : Type 0} (i : ConnectionInterface C) where
  unfoldable pub new_conn_pool : PoolConfig → ConnPool C
  new_conn_pool config = record { connections = []; config = config; metrics = no_metrics }

  unfoldable pub add : ConnPool C → C → ConnPool C × Result
  add p c =
      if leb p.max_conns (length p.connections)
      then (
        record p {
          metrics = record (p.metrics) { conn_acquire_failed = p.metrics.conn_acquire_failed + 1 };
        },
        some pool_full,
      )
      else (
        record p {
          connections = insert (i.id c) c p.connections;
          metrics = record (p.metrics) {
            total_conns = suc_ℤ p.metrics.total_conns;
            conn_created = p.metrics.conn_created + 1;
            acquire_times = p.metrics.acquire_times + 1;
            conn_acquired = p.metrics.conn_acquired + 1;
          };
        },
        none,
      )

  -- Behind the call of Close: a connection that reports an error stays.
  unfoldable pub remove_closed : String → C × Result → ConnPool C → ConnPool C × Result
  remove_closed id (c, some e) p = (
    record p { connections = insert id c p.connections; metrics = count_close_error p.metrics },
    some e,
  )
  remove_closed id (c, none) p =
      (record p { connections = erase id p.connections; metrics = count_closed p.metrics }, none)

  unfoldable pub remove_found : String → Option C → ConnPool C → ConnPool C × Result
  remove_found id none p = (p, none)
  remove_found id (some c) p = remove_closed id (i.close c) p

  unfoldable pub remove : ConnPool C → String → ConnPool C × Result
  remove p id = remove_found id (lookup id p.connections) p

  unfoldable pub get_found : Option C → ConnPool C → ConnPool C × Outcome Error C
  get_found none p = (p, err not_found)
  get_found (some c) p = if i.is_closed c then (p, err conn_closed) else (
    record p { metrics = record (p.metrics) { conn_acquired = p.metrics.conn_acquired + 1 } },
    ok c,
  )

  unfoldable pub get : ConnPool C → String → ConnPool C × Outcome Error C
  get p id = get_found (lookup id p.connections) p

  unfoldable pub get_all : ConnPool C → List C
  get_all p = values p.connections

  unfoldable pub len : ConnPool C → ℕ
  len p = length p.connections

  -- `total` is the number of connections at the time of the call.
  unfoldable pub should_cleanup : PoolConfig → ℕ → ℕ → C → Bool
  should_cleanup config now total c =
      i.is_closed c
      || (ltb_ℤ (pos config.max_idle_time) (sub_ℕ now (i.last_active c))
          && ltb config.min_idle_conns total)
      || ltb_ℤ (pos config.max_lifetime) (sub_ℕ now (i.created_at c))
      || ltb_ℤ (pos config.max_error_count) (i.error_count c)
      || not (i.is_alive now c)

  -- The range loop of cleanup: `total` connections are in the pool, of which the list is still to be
  -- visited.
  unfoldable pub sweep :
      PoolConfig → ℕ → ℕ → Map String C → PoolMetrics → Map String C × PoolMetrics
  sweep config now total [] s = ([], s)
  sweep config now total ((k, c) ∷ m) s =
      let result = (i.close c).1 in
      let closed = sweep config now (left_of result total) m (sweep_metrics result s) in
      let (kept, s') = sweep config now total m s in
      if should_cleanup config now total c then swept k (i.close c) closed else ((k, c) ∷ kept, s')

  -- One tick of cleanup.
  unfoldable pub cleanup : ℕ → ConnPool C → ConnPool C
  cleanup now p =
      let initial = length p.connections in
      let (m, s) = sweep p.config now initial p.connections p.metrics in
      record p {
        connections = m;
        metrics = record s {
          cleanup_total = s.cleanup_total + 1;
          cleanup_conns = s.cleanup_conns + (initial - length m);
        };
      }

  -- The range loop of Close.
  unfoldable pub close_each : Map String C → PoolMetrics → Map String C × PoolMetrics
  close_each [] s = ([], s)
  close_each ((k, c) ∷ m) s = swept k (i.close c) (close_each m (sweep_metrics (i.close c).1 s))

  unfoldable pub close_pool : ConnPool C → ConnPool C
  close_pool p =
      let (m, s) = close_each p.connections p.metrics in record p { connections = m; metrics = s }
