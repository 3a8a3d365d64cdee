-- ===== src/Metrics/Tests.antt =====
-- A registry that is a list of names, and runs of the getters.
use mathlib.Core.Path.{subst}
use text.Mathlib.TextEquality.{eq_iff}
use text.Mathlib.Text.{◌==◌ as str_eq}
use mine_net.Base.{
  not, ap, ◌<◌, Bool-cases, inl, inr, arith, ◌≡◌, refl, true, none, List, [], ◌∷◌, String, Outcome,
  ok, panic, ◌>>=◌, if◌then◌else◌,
}
use mine_net.Metrics.Collectors.{Collector, Registry, full_name, has, register_all}
use mine_net.Metrics.Conn.{conn_collectors, new_conn_metrics}
use mine_net.Metrics.Once.{
  Instances, Get, conn_get, heartbeat_get, conn_pool_get, server_get, rate_limiter_get, get_all,
}
use mine_net.Metrics.Owners.{done, owner}
use mine_net.Metrics.Singletons.{IsOwned, get_all-ok}

abbrev register_once : Collector → List String → Outcome String (List String)
register_once c ns = if has (full_name c) ns then panic else ok (full_name c ∷ ns)

abbrev names_registry : Registry (List String)
names_registry = record {
  names = λ ns. ns;
  valid_name = λ n. not (str_eq n "");
  must_register = register_once;
  must_register-new = λ c ns v h. (full_name c ∷ ns, rw h refl, refl);
}

abbrev no_instances : Instances (List String)
no_instances = record {
  registered = "go_goroutines" ∷ [];
  conn = none;
  heartbeat = none;
  conn_pool = none;
  server = none;
  rate_limiter = none;
}

latency_name :
    full_name (conn_collectors "connection").latency_hist ≡ "connection_message_latency_seconds"
unfolding full_name
latency_name = refl

-- Without the sync.Once, a second connection would panic.
second_panics :
    (new_conn_metrics names_registry "connection" [] >>= λ p.
    new_conn_metrics names_registry "connection" (p.1))
    ≡ panic
unfolding new_conn_metrics register_all full_name
second_panics = refl

abbrev two_connections : List Get
two_connections =
    server_get ∷ conn_pool_get ∷ conn_get ∷ rate_limiter_get ∷ heartbeat_get ∷ conn_get
    ∷ rate_limiter_get ∷ heartbeat_get ∷ []

other_name : owner "go_goroutines" ≡ 5
unfolding owner full_name
other_name = refl

no_instances-IsOwned : IsOwned names_registry (done no_instances) no_instances.registered
unfolding IsOwned done
no_instances-IsOwned n h =
    subst (λ x. done no_instances (owner x) ≡ true)
      ((eq_iff "go_goroutines" n).0 (ground (arith, h))) (rw other_name refl)

no_name : owner "" ≡ 5
unfolding owner full_name
no_name = refl

valid_names : (n : String) → owner n < 5 → not (str_eq n "") ≡ true
valid_names n h = elim (Bool-cases (str_eq n "")) [
  | inr e ↦ rw e refl
  | inl e ↦ absurd (omega (arith, no_name, ap owner ((eq_iff n "").0 e)))
]

get_all-ok_example :
    (s : Instances (List String)) × (get_all names_registry two_connections no_instances ≡ ok s)
    × IsOwned names_registry (done s) s.registered
get_all-ok_example =
    get_all-ok names_registry valid_names two_connections no_instances no_instances-IsOwned
