-- ===== src/Gateway/Retry/Tests.antt =====
-- Calls with retries at concrete inputs.
use polygate.Prelude.{ℕ, zero, suc, ◌≡◌, refl, false, some, [], ◌∷◌, All, map, lookup}
use polygate.Gateway.Breaker.{open_, allow, success}
use polygate.Gateway.Breaker.Registry.{Registry, get_breaker, default_registry}
use polygate.Gateway.Breaker.Runs.{grants}
use polygate.Gateway.Retry.{
  after_failure, timeout, status, answered, failed, Attempt, Config, budget_exceeded, raised,
  returned, attempts, attempt_timeout, call_provider_with_resilience, requested, slept, delay_fits,
  retry_delay, timed_out, server_error, retry_reason,
}
use polygate.Gateway.Retry.Attempts.{Ends, loop-Ends}
use polygate.Gateway.Retry.Deadline.{FitsIn, loop-InTime}
use polygate.Gateway.Retry.Streams.{openings}
use polygate.Gateway.Retry.Probes.{late_probe_blocks, loop}

-- Times in hundredths of a second; a deadline of 30 seconds.
abbrev settings : Config
settings = record {
  timeout_s = 1000;
  max_retries = 4;
  base_delay_s = 50;
  max_backoff_s = 500;
  deadline = some 3000;
}

-- A timeout, then a 503 that asks for two seconds, then an answer.
abbrev flaky : ℕ → Attempt
flaky zero = record { started = 0; ended = 1000; wall = 1000; jitter = 10; answer = failed timeout }
flaky (suc zero) = record {
  started = 1060;
  ended = 1100;
  wall = 1100;
  jitter = 0;
  answer = failed (status 503 (some 200));
}
flaky (suc (suc n)) = record {
  started = 1300;
  ended = 1400;
  wall = 1400;
  jitter = 0;
  answer = answered;
}

run_flaky : attempts settings flaky 5 0 ≡ record {
  outcome = returned 2;
  events =
      requested 0 1000
      ∷ slept 1000 60 timed_out
      ∷ requested 1060 1000
      ∷ slept 1100 200 server_error
      ∷ requested 1300 1000
      ∷ [];
  reports = success ∷ [];
}
unfolding attempts attempt_timeout delay_fits retry_delay retry_reason
run_flaky = refl

loop-Ends_example : Ends settings flaky 0 (attempts settings flaky 5 0)
loop-Ends_example = loop-Ends settings flaky

loop-InTime_example : All (FitsIn 1000 3000) (attempts settings flaky 5 0).events
loop-InTime_example = loop-InTime settings flaky 3000 refl

-- The cooldown of the breaker is over, and the deadline of the request too.
abbrev tripped : Registry
tripped = record default_registry {
  breakers =
      (
        "deepseek-pro",
        record {
          failure_threshold = 5;
          window_seconds = 6000;
          cooldown_seconds = 3000;
          state = open_;
          failure_timestamps = 1 ∷ 2 ∷ 3 ∷ 4 ∷ 5 ∷ [];
          opened_at = some 5;
          half_open_probe_in_flight = false;
        },
      )
      ∷ [];
}

abbrev late : ℕ → Attempt
late n = record { started = 3000; ended = 3000; wall = 4000; jitter = 0; answer = answered }

late_probe_blocks_example :
    ((loop settings late).outcome ≡ raised budget_exceeded 0)
    × (grants
          (get_breaker
            (call_provider_with_resilience settings late "deepseek-pro" 4000 tripped).1
            "deepseek-pro")
          (map allow (5000 ∷ 900000 ∷ []))
        ≡ 0)
unfolding get_breaker lookup attempt_timeout
late_probe_blocks_example =
    late_probe_blocks settings late "deepseek-pro" 4000 tripped refl refl refl (5000 ∷ 900000 ∷ [])

-- Opening after the same two failures succeeds, and the breaker hears nothing.
opens_flaky : (openings settings flaky 5 0).outcome ≡ returned 2
unfolding openings attempts attempt_timeout delay_fits retry_delay retry_reason after_failure
opens_flaky = refl
