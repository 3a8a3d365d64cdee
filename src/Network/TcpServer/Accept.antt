-- ===== src/Network/TcpServer/Accept.antt =====
-- network/tcp_net.go, acceptLoop, monitorConnection and Stop: what becomes of the pool.
use mathlib.Core.Path.{subst}
use mine_net.Base.{
  ℕ, ◌+◌, ◌≡◌, ◌≤◌, Bool, true, false, Option, none, some, List, [], ◌∷◌, String, arith, length,
  leb, if◌then◌else◌, refl, sym, ap, ◌∙◌,
}
use mine_net.Base.Map.{Map, nat_key, string_key, lookup, Distinct}
use mine_net.Network.ConnPool.Pool.{Result, ConnPool, add, close_pool}
use mine_net.Network.ConnPool.Bounds.{IsValid, add-IsValid, remove-IsValid, close_pool-IsValid}
use mine_net.Network.ConnPool.Removal.{left_open, close_failures, lookup-close_pool}
use mine_net.Network.TcpServer.Server.{
  ServerInterface, TcpServer, Accepted, temporary, listener_closed, other_error, arrived, admit,
  accept, accept_step, monitor, install, stop, stop_listener,
}

module _ {C H S : Type 0} (i : ServerInterface C H S) where
  -- The first of two handlers that there is.
  abbrev pub or_handler : Option H → Option H → Option H
  or_handler (some h) o = some h
  or_handler none o = o

  -- A new connection answers a command that the server has a handler for with that handler, and any
  -- other as it did before, when no command stands twice among the server's.
  pub install-handler :
      (m : Map ℕ H) (c : C) (k : ℕ)
      → Distinct m
      → i.handler k (install i m c) ≡ or_handler (lookup k m) (i.handler k c)
  unfolding install lookup
  install-handler [] c k d = refl
  install-handler ((cmd, h) ∷ m) c k d =
      install-handler m (i.set_handler cmd h c) k d.1
      ∙ ap (or_handler (lookup k m)) (i.handler-set_handler cmd k h c)
      ∙ by_test (nat_key.beq cmd k)
          (λ e. subst (λ j. lookup j m ≡ none) ((nat_key.beq_iff cmd k).0 e) d.0)
    where
      by_test :
          (b : Bool)
          → (b ≡ true → lookup k m ≡ none)
          → or_handler (lookup k m) (if b then some h else i.handler k c)
            ≡ or_handler (if b then some h else lookup k m) (i.handler k c)
      by_test true e = simp (e refl)
      by_test false e = refl

  admit-IsValid :
      (c : C) (o : ConnPool C × Result) (s : TcpServer C H)
      → IsValid i.base o.0
      → IsValid i.base (admit i c o s).0.conns
  unfolding admit
  admit-IsValid c (p, some e) s v = v
  admit-IsValid c (p, none) s v = v

  -- A connection that arrives has an id that no connection of the pool has.
  abbrev pub IsFresh : Accepted C → TcpServer C H → Type 0
  IsFresh temporary s = Unit
  IsFresh listener_closed s = Unit
  IsFresh other_error s = Unit
  IsFresh (arrived c) s = lookup (i.id (install i s.handlers c)) s.conns.connections ≡ none

  accept-IsValid :
      (a : Accepted C) (s : TcpServer C H)
      → IsFresh a s
      → IsValid i.base s.conns
      → IsValid i.base (accept i a s).0.conns
  unfolding accept
  accept-IsValid temporary s f v = v
  accept-IsValid listener_closed s f v = v
  accept-IsValid other_error s f v = v
  accept-IsValid (arrived c) s f v =
      admit-IsValid _ _ _ (add-IsValid i.base s.conns (install i s.handlers c) f v)

  accept_step-IsValid :
      (a : Accepted C) (s : TcpServer C H)
      → IsFresh a s
      → IsValid i.base s.conns
      → IsValid i.base (accept_step i a s).0.conns
  unfolding accept_step
  accept_step-IsValid a s f v = by_test s.cancelled
    where
      by_test : (b : Bool) → IsValid i.base (if b then (s, none, false) else accept i a s).0.conns
      by_test true = v
      by_test false = accept-IsValid a s f v

  stop_listener-conns :
      (e : Result) (s : TcpServer C H)
      → ((stop_listener i e s).0.conns ≡ s.conns)
        × ((stop_listener i e s).0.cancelled ≡ s.cancelled)
  unfolding stop_listener
  stop_listener-conns (some e) s = (refl, refl)
  stop_listener-conns none s = (refl, refl)

  -- Rounds of acceptLoop, the ends of connections, and Stop, in any order.
  pub data Op : Type 0 where
    arrival : Accepted C → Op
    departure : String → Op
    shutdown : Result → Op

  abbrev pub step : Op → TcpServer C H → TcpServer C H
  step (arrival a) s = (accept_step i a s).0
  step (departure id) s = monitor i id s
  step (shutdown e) s = (stop i e s).0

  abbrev pub run : List Op → TcpServer C H → TcpServer C H
  run [] s = s
  run (o ∷ os) s = run os (step o s)

  -- Every connection of the run arrives with a new id.
  abbrev pub AllFresh : List Op → TcpServer C H → Type 0
  AllFresh [] s = Unit
  AllFresh (arrival a ∷ os) s = IsFresh a s × AllFresh os (step (arrival a) s)
  AllFresh (departure id ∷ os) s = AllFresh os (step (departure id) s)
  AllFresh (shutdown e ∷ os) s = AllFresh os (step (shutdown e) s)

  monitor-IsValid :
      (id : String) (s : TcpServer C H)
      → IsValid i.base s.conns
      → IsValid i.base (monitor i id s).conns
  unfolding monitor
  monitor-IsValid id s v = remove-IsValid i.base s.conns id v

  stop-IsValid :
      (e : Result) (s : TcpServer C H)
      → IsValid i.base s.conns
      → IsValid i.base (stop i e s).0.conns
  unfolding stop
  stop-IsValid e s v =
      subst (IsValid i.base) (sym (stop_listener-conns _ _).0) (close_pool-IsValid i.base s.conns v)

  -- From a valid pool, through any sequence of accepted, refused and failed arrivals, ended connections and stops, in
  -- which each connection arrives with an id that the pool does not have, the pool stays valid: at
  -- most max_conns connections, one for each id, and metrics that count them.
  pub run-IsValid :
      (os : List Op) (s : TcpServer C H)
      → AllFresh os s
      → IsValid i.base s.conns
      → IsValid i.base (run os s).conns
  run-IsValid [] s f v = v
  run-IsValid (arrival a ∷ os) s f v = run-IsValid os _ f.1 (accept_step-IsValid a s f.0 v)
  run-IsValid (departure id ∷ os) s f v = run-IsValid os _ f (monitor-IsValid id s v)
  run-IsValid (shutdown e ∷ os) s f v = run-IsValid os _ f (stop-IsValid e s v)

  stop_listener-result : (e : Result) (s : TcpServer C H) → (stop_listener i e s).1 ≡ e
  unfolding stop_listener
  stop_listener-result (some e) s = refl
  stop_listener-result none s = refl

  -- Stop on a pool with one entry for each id closes each connection once: under its id stands
  -- afterwards the connection behind its Close, if that reported an error, and otherwise nothing, and
  -- the pool's metric counts the errors. Stop returns the error of closing the listener, if there is
  -- one; and behind it a round of acceptLoop changes nothing and ends the loop.
  pub stop_lem :
      (e : Result) (s : TcpServer C H) (a : Accepted C)
      → Distinct s.conns.connections
      → let (s', result) = stop i e s in
        ((k : String)
          → lookup k s'.conns.connections ≡ left_open i.base (lookup k s.conns.connections))
        × (s'.conns.metrics.close_errors
            ≡ s.conns.metrics.close_errors + close_failures i.base s.conns.connections)
        × (result ≡ (if s.listening then e else none))
        × (accept_step i a s' ≡ (s', none, false))
  unfolding stop accept_step
  stop_lem e s a d =
      let failure = if s.listening then e else none in
      let closed = record s { cancelled = true; conns = close_pool i.base s.conns } in
      let same = stop_listener-conns failure closed in
      let (entries, errors) = lookup-close_pool i.base s.conns d in
      (
        λ k. ap (λ (q : ConnPool C). lookup k q.connections) same.0 ∙ entries k,
        ap (λ (q : ConnPool C). q.metrics.close_errors) same.0 ∙ errors,
        stop_listener-result failure closed,
        simp same.1,
      )

  -- A connection that arrives when the pool is full is closed, the pool's entries stay as they were,
  -- the error is counted, and the loop goes on.
  accept_full :
      (c : C) (s : TcpServer C H)
      → s.cancelled ≡ false
      → s.conns.max_conns ≤ length s.conns.connections
      → let c' = install i s.handlers c in
        let (s', refused, goes_on) = accept_step i (arrived c) s in
        (refused ≡ some (i.close c').0)
        × (i.is_closed (i.close c').0 ≡ true)
        × (s'.conns.connections ≡ s.conns.connections)
        × (s'.metrics.accept_errors ≡ s.metrics.accept_errors + 1)
        × (goes_on ≡ true)
  unfolding accept_step accept admit add
  accept_full c s on full =
      let closed = i.close-is_closed (install i s.handlers c) in
      let test : leb s.conns.max_conns (length s.conns.connections) ≡ true = ground arith in
      simp (on, test) (refl, closed, refl, refl, refl)
