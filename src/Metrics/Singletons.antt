-- ===== src/Metrics/Singletons.antt =====
-- However often and in whatever order the program asks for its metrics, none is registered twice.
use mine_net.Base.{
  ◌<◌, ℕ, ◌≡◌, refl, sym, ap, ◌∙◌, Bool, true, false, ◌||◌, Option, none, some, List, [], ◌∷◌, map,
  String, ok, ◌>>=◌, ◌==◌, ==_iff, arith, Bool-cases, inl, inr,
}
use mine_net.Metrics.Collectors.{Collector, Registry, full_name, has, register_all}
use mine_net.Metrics.Conn.{conn_collectors, new_conn_metrics}
use mine_net.Metrics.Heartbeat.{heartbeat_collectors, new_heartbeat_metrics}
use mine_net.Metrics.ConnPool.{conn_pool_collectors, new_conn_pool_metrics}
use mine_net.Metrics.TcpServer.{server_collectors, new_server_metrics}
use mine_net.Metrics.RateLimiter.{rate_limiter_collectors, new_rate_limiter_metrics}
use mine_net.Metrics.Once.{
  Instances, once_do, Get, conn_get, heartbeat_get, conn_pool_get, server_get, rate_limiter_get,
  get, get_all, get_conn_metrics, get_heartbeat_metrics, get_conn_pool_metrics,
  get_tcp_server_metrics, get_rate_limiter_metrics,
}
use mine_net.Metrics.Registration.{all-has, register_all-ok}
use mine_net.Metrics.Owners.{
  conn_list, heartbeat_list, conn_pool_list, server_list, rate_limiter_list, owner, IsOwn,
  conn-IsOwn, heartbeat-IsOwn, conn_pool-IsOwn, server-IsOwn, rate_limiter-IsOwn, is_some, done,
}

or_left : {a : Bool} (b : Bool) → a ≡ true → (a || b) ≡ true
or_left b e = ground (arith, e)

or_right : {b : Bool} (a : Bool) → b ≡ true → (a || b) ≡ true
or_right a e = ground (arith, e)

or_rest : {a b : Bool} → a ≡ false → (a || b) ≡ true → b ≡ true
or_rest e f = ground (arith, e, f)

clash : true ≡ false → ⊥
clash e = cc

module _ {R : Type 0} (g : Registry R) where
  -- Every name of the registry belongs to a singleton that there is.
  unfoldable pub IsOwned : (ℕ → Bool) → R → Type 0
  IsOwned d r = (n : String) → has n (g.names r) ≡ true → d (owner n) ≡ true

  IsFresh :
      (k : ℕ) (ns : List String) (d : ℕ → Bool) (r : R)
      → IsOwn k ns
      → d k ≡ false
      → IsOwned d r
      → (n : String) → has n ns ≡ true
      → has n (g.names r) ≡ false
  unfolding IsOwn IsOwned
  IsFresh k ns d r o e w n h =
      let mine : owner n ≡ k = (==_iff (owner n) k).0 (all-has (λ m. owner m == k) n ns (o.1) h) in
      elim (Bool-cases (has n (g.names r))) [
        | inr x ↦ x
        | inl x ↦ absurd (clash (sym (w n x) ∙ ap d mine ∙ e))
      ]

-- The registry takes each name of the program's collectors.
module _ {R : Type 0} (g : Registry R)
    (valid : (n : String) → owner n < 5 → g.valid_name n ≡ true) where
  once-ok :
      {M : Type 0} (k : ℕ) (cs : List Collector) (o : Option M) (m : M) (d : ℕ → Bool) (r : R)
      → k < 5
      → IsOwn k (map full_name cs)
      → d k ≡ is_some o
      → IsOwned g d r
      → (p : M × R) × (once_do o (λ r. register_all g cs r >>= λ r2. ok (m, r2)) r ≡ ok p)
        × IsOwned g (λ j. (j == k) || d j) (p.1)
  unfolding IsOwned IsOwn
  once-ok k cs (some old) m d r q o e w = ((old, r), refl, λ n h. ground (arith, w n h))
  once-ok k cs none m d r q o e w =
      let ns = map full_name cs in
      let mine : (n : String) → has n ns ≡ true → owner n ≡ k =
        λ n h. (==_iff (owner n) k).0 (all-has (λ j. owner j == k) n ns (o.1) h) in
      let new =
        register_all-ok g cs r (o.0) (λ n h. valid n (omega (arith, mine n h)))
          (IsFresh g k ns d r o e w) in
      (
        (m, new.0),
        rw (new.1) refl,
        λ n h. elim (Bool-cases (has n ns)) [
          | inl x ↦ or_left _ (all-has (λ j. owner j == k) n ns (o.1) x)
          | inr x ↦ or_right _ (w n (or_rest x (sym (new.2 n) ∙ h)))
        ],
      )

  -- A call of one getter.
  IsGot : Get → Instances R → Type 0
  IsGot w s = (s2 : Instances R) × (get g w s ≡ ok s2) × IsOwned g (done s2) s2.registered

  conn-IsGot : (s : Instances R) → IsOwned g (done s) s.registered → IsGot conn_get s
  unfolding IsGot IsOwned done get get_conn_metrics new_conn_metrics
  conn-IsGot s w =
      let p =
        once-ok 0 conn_list s.conn (conn_collectors "connection") (done s) s.registered
          (omega arith) conn-IsOwn refl w in
      (
        record s { registered = (p.0).1; conn = some ((p.0).0) },
        rw (p.1) refl,
        λ n h. ground (arith, p.2 n h),
      )

  heartbeat-IsGot : (s : Instances R) → IsOwned g (done s) s.registered → IsGot heartbeat_get s
  unfolding IsGot IsOwned done get get_heartbeat_metrics new_heartbeat_metrics
  heartbeat-IsGot s w =
      let p =
        once-ok 1 heartbeat_list s.heartbeat (heartbeat_collectors "heartbeat") (done s)
          s.registered (omega arith) heartbeat-IsOwn refl w in
      (
        record s { registered = (p.0).1; heartbeat = some ((p.0).0) },
        rw (p.1) refl,
        λ n h. ground (arith, p.2 n h),
      )

  conn_pool-IsGot : (s : Instances R) → IsOwned g (done s) s.registered → IsGot conn_pool_get s
  unfolding IsGot IsOwned done get get_conn_pool_metrics new_conn_pool_metrics
  conn_pool-IsGot s w =
      let p =
        once-ok 2 conn_pool_list s.conn_pool (conn_pool_collectors "conn_pool") (done s)
          s.registered (omega arith) conn_pool-IsOwn refl w in
      (
        record s { registered = (p.0).1; conn_pool = some ((p.0).0) },
        rw (p.1) refl,
        λ n h. ground (arith, p.2 n h),
      )

  server-IsGot : (s : Instances R) → IsOwned g (done s) s.registered → IsGot server_get s
  unfolding IsGot IsOwned done get get_tcp_server_metrics new_server_metrics
  server-IsGot s w =
      let p =
        once-ok 3 server_list s.server (server_collectors "tcp_server") (done s) s.registered
          (omega arith) server-IsOwn refl w in
      (
        record s { registered = (p.0).1; server = some ((p.0).0) },
        rw (p.1) refl,
        λ n h. ground (arith, p.2 n h),
      )

  rate_limiter-IsGot :
      (s : Instances R) → IsOwned g (done s) s.registered → IsGot rate_limiter_get s
  unfolding IsGot IsOwned done get get_rate_limiter_metrics new_rate_limiter_metrics
  rate_limiter-IsGot s w =
      let p =
        once-ok 4 rate_limiter_list s.rate_limiter
          (rate_limiter_collectors "rate_limiter" "traffic" (("instance", "global") ∷ [])) (done s)
          s.registered (omega arith) rate_limiter-IsOwn refl w in
      (
        record s { registered = (p.0).1; rate_limiter = some ((p.0).0) },
        rw (p.1) refl,
        λ n h. ground (arith, p.2 n h),
      )

  get-IsGot : (w : Get) (s : Instances R) → IsOwned g (done s) s.registered → IsGot w s
  get-IsGot conn_get s h = conn-IsGot s h
  get-IsGot heartbeat_get s h = heartbeat-IsGot s h
  get-IsGot conn_pool_get s h = conn_pool-IsGot s h
  get-IsGot server_get s h = server-IsGot s h
  get-IsGot rate_limiter_get s h = rate_limiter-IsGot s h

  -- Where the registry takes the names of the program's collectors and those that it has belong to
  -- singletons that there are, any calls of the getters give the metrics, none panics, and the same
  -- holds again.
  pub get_all-ok :
      (ws : List Get) (s : Instances R)
      → IsOwned g (done s) s.registered
      → (s2 : Instances R) × (get_all g ws s ≡ ok s2) × IsOwned g (done s2) s2.registered
  unfolding IsGot get_all
  get_all-ok [] s h = (s, refl, h)
  get_all-ok (w ∷ ws) s h =
      let first = get-IsGot w s h in
      let rest = get_all-ok ws (first.0) (first.2) in (rest.0, rw (first.1) (rest.1), rest.2)
