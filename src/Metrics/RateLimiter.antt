-- ===== src/Metrics/RateLimiter.antt =====
-- metrics/rate_limiter.go: the collectors and what registers them. A map of constant labels is an
-- association list.
use mine_net.Base.{List, [], ◌∷◌, String, Outcome, ok, ◌>>=◌}
use mine_net.Base.Map.{Map}
use mine_net.Metrics.Collectors.{Collector, Registry, counter, gauge, histogram, register_all}

pub record RateLimiterCollectors : Type 0 where
  pub label_names : List String
  pub label_values : List String
  pub requests : Collector
  pub wait_time : Collector
  pub state : Collector
  pub tokens : Collector

abbrev keys : Map String String → List String
keys [] = []
keys ((k, v) ∷ m) = k ∷ keys m

abbrev values : Map String String → List String
values [] = []
values ((k, v) ∷ m) = v ∷ values m

abbrev pub rate_limiter_collectors : String → String → Map String String → RateLimiterCollectors
rate_limiter_collectors namespace subsystem const_labels = record {
  label_names = keys const_labels;
  label_values = values const_labels;
  requests = record (counter namespace subsystem "requests_total" ("result" ∷ [])) {
    const_labels = const_labels;
  };
  wait_time =
      record (histogram namespace subsystem "wait_seconds" ("result" ∷ [])
        (1 ∷ 5 ∷ 10 ∷ 50 ∷ 100 ∷ 250 ∷ 500 ∷ 1000 ∷ 2500 ∷ 5000 ∷ 10000 ∷ [])) {
          const_labels = const_labels;
        };
  state = record (gauge namespace subsystem "state" ("type" ∷ [])) { const_labels = const_labels };
  tokens = record (gauge namespace subsystem "tokens" ("type" ∷ [])) {
    const_labels = const_labels;
  };
}

-- promauto's constructors register what they make.
abbrev pub rate_limiter_registered : RateLimiterCollectors → List Collector
rate_limiter_registered m = m.requests ∷ m.wait_time ∷ m.state ∷ m.tokens ∷ []

module _ {R : Type 0} (registry : Registry R) where
  unfoldable pub new_rate_limiter_metrics :
      String → String → Map String String → R → Outcome String (RateLimiterCollectors × R)
  new_rate_limiter_metrics namespace subsystem const_labels r =
      let m = rate_limiter_collectors namespace subsystem const_labels in
      register_all registry (rate_limiter_registered m) r >>= λ r2. ok (m, r2)
