-- ===== src/Network/RateLimiter/Counters.antt =====
-- network/rate_limiter.go: what the counters of requests count, over any history of calls.
use mine_net.Base.{ℕ, ◌+◌, ◌≡◌, arith, refl, List, [], ◌∷◌, if◌then◌else◌, Bool-cases, inl, inr}
use mine_net.Network.RateLimiter.{
  LimiterLib, WaitResult, granted, deadline_exceeded, refused, RequestResult, result_allowed,
  result_rejected, result_timeout, RateLimiter, is_allowed, begin_wait, end_wait,
}

module _ (lib : LimiterLib) where
  open lib use {Limiter, allow}

  -- What goroutines do with the limiter: calls of Allow, and the two ends of calls of Wait, which
  -- others may come between.
  pub data Call : Type 0 where
    asks : ℕ → Call
    begins : Call
    ends : WaitResult → ℕ → (Limiter → Limiter) → Call

  unfoldable pub step : Call → RateLimiter lib → RateLimiter lib
  step (asks now) r = (is_allowed lib now r).1
  step begins r = begin_wait lib r
  step (ends o elapsed take) r = end_wait lib o elapsed take r

  unfoldable pub run : List Call → RateLimiter lib → RateLimiter lib
  run [] r = r
  run (c ∷ cs) r = run cs (step c r)

  -- What the bucket alone answers to the calls of a history, in turn.
  unfoldable pub answers : List Call → Limiter → List RequestResult
  answers [] l = []
  answers (asks now ∷ cs) l =
      (if (allow now l).0 then result_allowed else result_rejected) ∷ answers cs (allow now l).1
  answers (begins ∷ cs) l = answers cs l
  answers (ends granted elapsed take ∷ cs) l = result_allowed ∷ answers cs (take l)
  answers (ends deadline_exceeded elapsed take ∷ cs) l = result_timeout ∷ answers cs (take l)
  answers (ends refused elapsed take ∷ cs) l = result_rejected ∷ answers cs (take l)

  abbrev pub allowed_in : List RequestResult → ℕ
  allowed_in [] = 0
  allowed_in (result_allowed ∷ os) = allowed_in os + 1
  allowed_in (result_rejected ∷ os) = allowed_in os
  allowed_in (result_timeout ∷ os) = allowed_in os

  abbrev pub rejected_in : List RequestResult → ℕ
  rejected_in [] = 0
  rejected_in (result_allowed ∷ os) = rejected_in os
  rejected_in (result_rejected ∷ os) = rejected_in os + 1
  rejected_in (result_timeout ∷ os) = rejected_in os

  abbrev pub timeouts_in : List RequestResult → ℕ
  timeouts_in [] = 0
  timeouts_in (result_allowed ∷ os) = timeouts_in os
  timeouts_in (result_rejected ∷ os) = timeouts_in os
  timeouts_in (result_timeout ∷ os) = timeouts_in os + 1

  -- The waiting times of a history under their results, the latest first.
  unfoldable pub times : List Call → List (RequestResult × ℕ) → List (RequestResult × ℕ)
  times [] ts = ts
  times (asks now ∷ cs) ts = times cs ts
  times (begins ∷ cs) ts = times cs ts
  times (ends granted elapsed take ∷ cs) ts = times cs ((result_allowed, elapsed) ∷ ts)
  times (ends deadline_exceeded elapsed take ∷ cs) ts = times cs ((result_timeout, elapsed) ∷ ts)
  times (ends refused elapsed take ∷ cs) ts = times cs ((result_rejected, elapsed) ∷ ts)

  -- The counters of `r'` are those of `r`, and what the answers add.
  pub record IsTallied (r r' : RateLimiter lib) (os : List RequestResult) : Type 0 where
    pub allowed : r'.requests_allowed ≡ r.requests_allowed + allowed_in os
    pub rejected : r'.requests_rejected ≡ r.requests_rejected + rejected_in os
    pub timed_out : r'.requests_timeout ≡ r.requests_timeout + timeouts_in os

  -- In any history of calls of Allow and of the beginnings and ends of calls of Wait, in any order,
  -- each answer of the bucket is counted once: as allowed if Allow or Wait let the request through,
  -- as a timeout if Wait ran out of its deadline, and otherwise as rejected; and the time of each
  -- ended Wait is recorded once, under the same result.
  pub requests_lem :
      (cs : List Call) (r : RateLimiter lib)
      → IsTallied r (run cs r) (answers cs r.limiter)
        × ((run cs r).wait_times ≡ times cs r.wait_times)
  unfolding run step answers times is_allowed begin_wait end_wait
  requests_lem [] r =
      (record { allowed = omega arith; rejected = omega arith; timed_out = omega arith }, refl)
  requests_lem (asks now ∷ cs) r = elim (Bool-cases (allow now r.limiter).0) [
    | inl e ↦
        let ih = requests_lem cs (step (asks now) r) in
        ground (arith, ih.0.allowed, ih.0.rejected, ih.0.timed_out, ih.1)
    | inr e ↦
        let ih = requests_lem cs (step (asks now) r) in
        ground (arith, ih.0.allowed, ih.0.rejected, ih.0.timed_out, ih.1)
  ]
  requests_lem (begins ∷ cs) r =
      let ih = requests_lem cs (step begins r) in
      (
        record { allowed = ih.0.allowed; rejected = ih.0.rejected; timed_out = ih.0.timed_out },
        ih.1,
      )
  requests_lem (ends granted elapsed take ∷ cs) r =
      let ih = requests_lem cs (step (ends granted elapsed take) r) in
      (
        record {
          allowed = omega (arith, ih.0.allowed);
          rejected = ih.0.rejected;
          timed_out = ih.0.timed_out;
        },
        ih.1,
      )
  requests_lem (ends deadline_exceeded elapsed take ∷ cs) r =
      let ih = requests_lem cs (step (ends deadline_exceeded elapsed take) r) in
      (
        record {
          allowed = ih.0.allowed;
          rejected = ih.0.rejected;
          timed_out = omega (arith, ih.0.timed_out);
        },
        ih.1,
      )
  requests_lem (ends refused elapsed take ∷ cs) r =
      let ih = requests_lem cs (step (ends refused elapsed take) r) in
      (
        record {
          allowed = ih.0.allowed;
          rejected = omega (arith, ih.0.rejected);
          timed_out = ih.0.timed_out;
        },
        ih.1,
      )
