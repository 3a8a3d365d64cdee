-- ===== src/Main/Shutdown.antt =====
-- How the program that main set up stops: metrics/server.go's Start calls ListenAndServe, which goes
-- on, since its Stop does nothing.
use mathlib.Core.Path.{subst}
use mine_net.Base.{
  String, Outcome, ok, ◌≡◌, ◌≢◌, ◌⊎◌, inl, inr, refl, ap, sym, ◌∙◌, Bool, true, false, >>=-eq-ok,
  Option, none, some, List, [], ◌∷◌, ◌++◌, ok,
}
use mine_net.Config.{Viper, load_config, get_config, new_state}
use mine_net.Common.Logger.{LogWorld, init_logger, new_log_state}
use mine_net.Common.Redis.{RedisApi}
use mine_net.Common.Manager.{Manager, returned, Stopping, register, start, begin_stop}
use mine_net.Common.Manager.Shutdown.{
  Step, answers, receives, times_out, loop_ends, start_returns, wait_ends, Reached, begun, next,
  Verdict,
}
use mine_net.Common.Manager.Verdict.{returned-Verdict}
use mine_net.Core.Router.{Reflection, Protobuf, Router}
use mine_net.Network.TcpServer.Server.{ServerInterface, init_tcp_server}
use mine_net.Main.{
  Component, metrics_server, Program, registered, main, no_error, dereferenced, init_app,
}

absurd_of : true ≡ false → ⊥
absurd_of e = cc

module _ {C : Type 0} (c : C) where
  abbrev pub Holds : List C → Type 0
  Holds [] = ⊥
  Holds (d ∷ ds) = (d ≡ c) ⊎ Holds ds

  Holds-removed :
      (before : List C) (d : C) (after : List C)
      → d ≢ c
      → Holds (before ++ (d ∷ after))
      → Holds (before ++ after)
  Holds-removed [] d after n (inl e) = absurd (n e)
  Holds-removed [] d after n (inr h) = h
  Holds-removed (b ∷ before) d after n (inl e) = inl e
  Holds-removed (b ∷ before) d after n (inr h) = inr (Holds-removed before d after n h)

module _ {C E : Type 0} (stop_of : C → Option E) (returns : C → Bool) (timeout : E) (c : C) where
  -- A component whose Start never returns is waited for, whatever step is made.
  step-Holds :
      (s s' : Stopping C E)
      → returns c ≡ false
      → Step stop_of returns timeout s s'
      → Holds c s.manager.pending
      → Holds c s'.manager.pending
  step-Holds _ _ n (start_returns s d before after e back) h =
      let other = λ (same : d ≡ c). absurd_of (sym back ∙ ap returns same ∙ n) in
      Holds-removed c before d after other (subst (Holds c) e h)
  step-Holds _ _ n (answers s d before after e) h = h
  step-Holds _ _ n (receives s answer rest left p e l) h = h
  step-Holds _ _ n (times_out s p l) h = h
  step-Holds _ _ n (loop_ends s p l) h = h
  step-Holds _ _ n (wait_ends s p l) h = h

  never-Holds :
      (m : Manager C) (s : Stopping C E)
      → returns c ≡ false
      → Reached stop_of returns timeout m s
      → Holds c m.pending
      → Holds c s.manager.pending
  unfolding begin_stop
  never-Holds m _ n begun h = h
  never-Holds m _ n (next {s} {s'} r step) h = step-Holds s s' n step (never-Holds m s n r h)

  only_timeout :
      (m : Manager C) (pending : List C) (result : Option (List E))
      → Holds c pending
      → Verdict stop_of returns timeout m pending result
      → (before : List E) × (result ≡ some (before ++ (timeout ∷ [])))
  unfolding Verdict
  only_timeout m pending none h v = absurd (subst (Holds c) (v.1) h)
  only_timeout m pending (some errs) h (inl v) = absurd (subst (Holds c) (v.1) h)
  only_timeout m pending (some errs) h (inr v) = (v.0, ap some (v.1))

made : {P : Type 0} {p q : P} → Path (Outcome String P) (ok p) (ok q) → p ≡ q
made e = cc

module _ {F V E L D K X M C S : Type 0} (viper : Viper F V E) (world : LogWorld L D)
    (api : RedisApi K X) (reflect : Reflection) (proto : Protobuf M) (request response : M)
    (i : ServerInterface C (Router M) S) where
  -- However main comes to its Wait, its manager has started the four components.
  main-manager :
      (p : Program F L K C M)
      → main viper world api reflect proto request response i ≡ ok p
      → start registered ≡ p.manager
  unfolding main
  main-manager p e =
      let config = >>=-eq-ok (no_error (load_config viper "config.yaml" new_state)) _ e in
      let cfg = >>=-eq-ok (dereferenced (get_config (config.0))) _ (config.2) in
      let logs =
        >>=-eq-ok (no_error (init_logger world (some (cfg.0).log) new_log_state)) _ (cfg.2) in
      let server =
        >>=-eq-ok
          (init_app reflect proto request response i
            (init_tcp_server i (cfg.0).conn_pool (cfg.0).server.max_connections))
          _ (logs.2) in
      ap (λ (q : Program F L K C M). q.manager) (made (server.2))

  starts_metrics : Holds metrics_server (start registered).pending
  unfolding start register
  starts_metrics = inr (inl refl)

  -- In the program that main made, whose metrics server's Start never returns, Stop can only return
  -- an error that ends with the timeout's.
  pub main-stop :
      {A : Type 0} (stop_of : Component → Option A) (returns : Component → Bool) (timeout : A)
      (p : Program F L K C M) (s : Stopping Component A) (result : Option (List A))
      → Reached stop_of returns timeout p.manager s
      → main viper world api reflect proto request response i ≡ ok p
      → returns metrics_server ≡ false
      → s.phase ≡ returned result
      → (before : List A) × (result ≡ some (before ++ (timeout ∷ [])))
  main-stop stop_of returns timeout p s result r e n q =
      let starting : Holds metrics_server p.manager.pending =
        subst (λ (m : Manager Component). Holds metrics_server m.pending) (main-manager p e)
          starts_metrics in
      only_timeout stop_of returns timeout metrics_server p.manager s.manager.pending result
        (never-Holds stop_of returns timeout metrics_server p.manager s n r starting)
        (returned-Verdict stop_of returns timeout p.manager s result r q)
