-- ===== src/Network/RateLimiter.antt =====
-- network/rate_limiter.go: the process-wide limiter. The token bucket of golang.org/x/time/rate is a
-- parameter; of it the connections use only that `Allow` answers and moves on.
pub mod Counters
use mine_net.Base.{ℕ, ◌+◌, Bool, Option, none, some, List, [], ◌∷◌, if◌then◌else◌}

-- A bucket's states, the rates (floats in Go), and the bucket's operations at a time.
pub record LimiterLib : Type 1 where
  pub Limiter : Type 0
  pub Rate : Type 0
  pub new_limiter : Rate → ℕ → Limiter
  pub allow : ℕ → Limiter → Bool × Limiter
  pub set_limit : Rate → Limiter → Limiter
  pub set_burst : ℕ → Limiter → Limiter
  pub limit : Limiter → Rate
  pub burst : Limiter → ℕ
  pub tokens : Limiter → ℕ

-- How `Wait` can end.
pub data WaitResult : Type 0 where
  granted deadline_exceeded refused : WaitResult

-- The results that requests are counted by.
pub data RequestResult : Type 0 where
  result_allowed result_rejected result_timeout : RequestResult

abbrev pub result_of : WaitResult → RequestResult
result_of granted = result_allowed
result_of deadline_exceeded = result_timeout
result_of refused = result_rejected

module _ (lib : LimiterLib) where
  open lib use {Limiter, Rate, new_limiter, allow, set_limit, set_burst, limit, burst, tokens}

  pub record RateLimiter : Type 0 where
    pub limiter : Limiter
    pub burst_size : ℕ
    pub requests_allowed : ℕ
    pub requests_rejected : ℕ
    pub requests_timeout : ℕ
    pub wait_times : List (RequestResult × ℕ)
    pub state_rate : Rate
    pub state_burst : ℕ
    pub state_waiting : ℕ
    pub tokens_total : ℕ
    pub tokens_available : ℕ

  -- The metrics' setters, each on its gauge or counter.
  abbrev pub inc_requests : RequestResult → RateLimiter → RateLimiter
  inc_requests result_allowed r = record r { requests_allowed = r.requests_allowed + 1 }
  inc_requests result_rejected r = record r { requests_rejected = r.requests_rejected + 1 }
  inc_requests result_timeout r = record r { requests_timeout = r.requests_timeout + 1 }

  -- A sample of the histogram, the latest first; nanoseconds stand for the source's seconds.
  abbrev pub observe_wait_time : ℕ → RequestResult → RateLimiter → RateLimiter
  observe_wait_time elapsed result r = record r { wait_times = (result, elapsed) ∷ r.wait_times }

  abbrev pub set_rate_metric : Rate → RateLimiter → RateLimiter
  set_rate_metric value r = record r { state_rate = value }

  abbrev pub set_burst_metric : ℕ → RateLimiter → RateLimiter
  set_burst_metric value r = record r { state_burst = value }

  abbrev pub set_waiting_count : ℕ → RateLimiter → RateLimiter
  set_waiting_count value r = record r { state_waiting = value }

  abbrev pub set_tokens_available : ℕ → RateLimiter → RateLimiter
  set_tokens_available value r = record r { tokens_available = value }

  abbrev pub set_tokens_total : ℕ → RateLimiter → RateLimiter
  set_tokens_total value r = record r { tokens_total = value }

  unfoldable pub new_rate_limiter : Rate → ℕ → RateLimiter
  new_rate_limiter rps burst_size = record {
    limiter = new_limiter rps burst_size;
    burst_size = burst_size;
    requests_allowed = 0;
    requests_rejected = 0;
    requests_timeout = 0;
    wait_times = [];
    state_rate = rps;
    state_burst = burst_size;
    state_waiting = 0;
    tokens_total = burst_size;
    tokens_available = 0;
  }

  -- `once.Do`: the first call makes the limiter; later calls get it, whatever they ask for.
  unfoldable pub get_rate_limiter : Option RateLimiter → Rate → ℕ → RateLimiter
  get_rate_limiter none rps burst_size = new_rate_limiter rps burst_size
  get_rate_limiter (some r) rps burst_size = r

  unfoldable pub is_allowed : ℕ → RateLimiter → Bool × RateLimiter
  is_allowed now r =
      let (answer, next) = allow now r.limiter in
      (
        answer,
        (if answer
            then inc_requests result_allowed (record r { limiter = next })
            else inc_requests result_rejected (record r { limiter = next })),
      )

  -- Wait up to its call of the bucket's own, under a lock that many hold at once.
  unfoldable pub begin_wait : RateLimiter → RateLimiter
  begin_wait r = set_waiting_count 1 r

  -- What the bucket's own `Wait` answered after so long, and what it makes of the bucket. The
  -- deferred reset of the waiting gauge comes last, also while others wait.
  unfoldable pub end_wait : WaitResult → ℕ → (Limiter → Limiter) → RateLimiter → RateLimiter
  end_wait o elapsed take r = set_waiting_count 0 (
      observe_wait_time elapsed (result_of o)
        (inc_requests (result_of o) (record r { limiter = take r.limiter })))

  -- One tick of collectMetrics.
  unfoldable pub collect_metrics : RateLimiter → RateLimiter
  collect_metrics r = set_tokens_available (tokens r.limiter) r

  unfoldable pub set_rate : Rate → RateLimiter → RateLimiter
  set_rate rps r = set_rate_metric rps (record r { limiter = set_limit rps r.limiter })

  unfoldable pub set_burst_size : ℕ → RateLimiter → RateLimiter
  set_burst_size n r =
      set_tokens_total n (set_burst_metric n (record r { limiter = set_burst n r.limiter }))

  unfoldable pub get_stats : RateLimiter → Rate × ℕ × ℕ
  get_stats r = (limit r.limiter, burst r.limiter, tokens r.limiter)
