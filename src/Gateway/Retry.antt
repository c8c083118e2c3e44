-- ===== src/Gateway/Retry.antt =====
-- Calls of a provider with retries under a deadline (gateway/app/retry.py).
-- Times are clock ticks. What the outside decides is the argument `env`: for each attempt the clock
-- readings, the random jitter and how the provider answers. `env` gives a failure's Retry-After
-- as the delay that `_retry_after_seconds` parses from it.
pub mod Attempts
pub mod Deadline
pub mod Probes
pub mod Streams
mod Tests
use polygate.Prelude.{
  ℕ, zero, suc, ◌+◌, ◌-◌, ◌*◌, ◌^◌, min, max, Bool, true, false, not, ◌&&◌, ◌||◌, Option, none,
  some, List, [], ◌∷◌, ◌++◌, String, leb, ltb, ◌==◌, if◌then◌else◌, or_else,
}
use polygate.Gateway.Breaker.{Call, allow, success, failure, cancelled}
use polygate.Gateway.Breaker.Registry.{Registry, call}

-- The exceptions that an attempt ends in. `timeout` is `httpx.TimeoutException`, a
-- `httpx.TransportError` as `transport` is; `status` is `httpx.HTTPStatusError` with its status code
-- and its parsed Retry-After; `wait_timeout` is the built-in `TimeoutError`.
pub data Failure : Type 0 where
  timeout transport wait_timeout payload protocol other : Failure
  status : ℕ → Option ℕ → Failure

-- `_is_transient_error`
unfoldable pub is_transient_error : Failure → Bool
is_transient_error timeout = true
is_transient_error transport = true
is_transient_error (status code after) = leb 500 code || code == 408 || code == 409 || code == 429
is_transient_error wait_timeout = false
is_transient_error payload = false
is_transient_error protocol = false
is_transient_error other = false

pub data RetryReason : Type 0 where
  timed_out no_transport too_many server_error other_reason : RetryReason

-- `_retry_reason`
unfoldable pub retry_reason : Failure → RetryReason
retry_reason timeout = timed_out
retry_reason transport = no_transport
retry_reason (status code after) =
    if code == 408
    then timed_out
    else if code == 429
    then too_many
    else if leb 500 code
    then server_error
    else other_reason
retry_reason wait_timeout = other_reason
retry_reason payload = other_reason
retry_reason protocol = other_reason
retry_reason other = other_reason

-- `_is_provider_failure`
unfoldable pub is_provider_failure : Failure → Bool
is_provider_failure payload = false
is_provider_failure (status code after) =
    leb 500 code
    || code == 401
    || code == 403
    || code == 404
    || code == 408
    || code == 409
    || code == 429
is_provider_failure timeout = true
is_provider_failure transport = true
is_provider_failure wait_timeout = true
is_provider_failure protocol = true
is_provider_failure other = true

-- `_record_terminal_failure`: the call that it makes on the breaker.
unfoldable pub terminal_report : Failure → ℕ → Call
unfolding is_provider_failure
terminal_report e now = if is_provider_failure e then failure now else cancelled now

-- `_retry_after_seconds`
unfoldable pub retry_after_seconds : Failure → Option ℕ
retry_after_seconds (status code after) = after
retry_after_seconds timeout = none
retry_after_seconds transport = none
retry_after_seconds wait_timeout = none
retry_after_seconds payload = none
retry_after_seconds protocol = none
retry_after_seconds other = none

-- `_retry_delay`
unfoldable pub retry_delay : Failure → ℕ → ℕ → ℕ → ℕ → ℕ
unfolding retry_after_seconds
retry_delay e attempt base_delay max_backoff jitter =
    max (min max_backoff (base_delay * 2 ^ attempt + jitter)) (or_else (retry_after_seconds e) 0)

-- `_attempt_timeout`; `none` is `RetryBudgetExceededError`.
unfoldable pub attempt_timeout : ℕ → Option ℕ → ℕ → Option ℕ
attempt_timeout timeout_s none now = some timeout_s
attempt_timeout timeout_s (some deadline) now =
    if leb deadline now then none else some (min timeout_s (deadline - now))

-- `_ensure_delay_fits_budget`: `delay >= deadline - now` raises.
unfoldable pub delay_fits : ℕ → Option ℕ → ℕ → Bool
delay_fits delay none now = true
delay_fits delay (some deadline) now = ltb (now + delay) deadline

-- How the provider answers one attempt.
pub data Answer : Type 0 where
  answered : Answer
  failed : Failure → Answer

-- What an attempt meets: the two readings of the deadline's clock, that of the breaker's clock, the
-- jitter and the answer.
pub record Attempt : Type 0 where
  pub started : ℕ
  pub ended : ℕ
  pub wall : ℕ
  pub jitter : ℕ
  pub answer : Answer

-- The arguments of `call_provider_with_resilience`.
pub record Config : Type 0 where
  pub timeout_s : ℕ
  pub max_retries : ℕ
  pub base_delay_s : ℕ
  pub max_backoff_s : ℕ
  pub deadline : Option ℕ

-- `ProviderUnavailableError`, `RetryBudgetExceededError`, or the provider's own exception;
-- `no_attempt` is the `raise last_exc` behind the loop.
pub data Error : Type 0 where
  unavailable budget_exceeded no_attempt : Error
  provider_error : Failure → Error

-- How the call ends, with the retries that the result or the exception carries.
pub data Outcome : Type 0 where
  returned : ℕ → Outcome
  raised : Error → ℕ → Outcome

-- What happens on the way: a request that starts at a time under a timeout, or a sleep.
pub data Event : Type 0 where
  requested : ℕ → ℕ → Event
  slept : ℕ → ℕ → RetryReason → Event

pub record Run : Type 0 where
  pub outcome : Outcome
  pub events : List Event
  pub reports : List Call

module _ (cfg : Config) (env : ℕ → Attempt) where
  abbrev pub stop : Error → ℕ → List Event → List Call → Run
  stop e attempt events reports = record {
    outcome = raised e attempt;
    events = events;
    reports = reports;
  }

  abbrev pub prepend : Event → Event → Run → Run
  prepend a b r = record r { events = a ∷ b ∷ r.events }

  -- One attempt that failed: `rest` is the loop from the next attempt on.
  unfoldable pub after_failure : ℕ → Event → Failure → Run → Run
  unfolding is_transient_error
  after_failure attempt asked e rest =
      let a = env attempt in
      let delay = retry_delay e attempt cfg.base_delay_s cfg.max_backoff_s a.jitter in
      if not (is_transient_error e) || attempt == cfg.max_retries
      then stop (provider_error e) attempt (asked ∷ []) (terminal_report e a.wall ∷ [])
      else if delay_fits delay cfg.deadline a.ended
      then prepend asked (slept a.ended delay (retry_reason e)) rest
      else stop budget_exceeded attempt (asked ∷ []) (terminal_report e a.wall ∷ [])

  -- `for attempt in range(max_retries + 1)`, with the rounds that are left.
  unfoldable pub attempts : ℕ → ℕ → Run
  unfolding after_failure
  attempts zero attempt = stop no_attempt attempt [] (failure (env attempt).wall ∷ [])
  attempts (suc rounds) attempt =
      let rest = attempts rounds (attempt + 1) in
      let a = env attempt in
      elim (attempt_timeout cfg.timeout_s cfg.deadline a.started) [
        | none ↦ stop budget_exceeded attempt [] []
        | some t ↦ elim a.answer [
          | answered ↦ record {
            outcome = returned attempt;
            events = requested a.started t ∷ [];
            reports = success ∷ [];
          }
          | failed e ↦ after_failure attempt (requested a.started t) e rest
        ]
      ]

  -- The calls on the breaker of `name`, in order.
  unfoldable pub report_all : String → List Call → Registry → Registry
  report_all name [] reg = reg
  report_all name (c ∷ cs) reg = report_all name cs (call reg name c).0

  -- `call_provider_with_resilience`, admitted or not by the breaker at the time `now`.
  unfoldable pub call_provider_with_resilience : String → ℕ → Registry → Run × Registry
  unfolding report_all
  call_provider_with_resilience name now reg =
      let (reg', admitted) = call reg name (allow now) in
      let run = attempts (cfg.max_retries + 1) 0 in
      if or_else admitted false
      then (run, report_all name run.reports reg')
      else (record { outcome = raised unavailable 0; events = []; reports = [] }, reg')
