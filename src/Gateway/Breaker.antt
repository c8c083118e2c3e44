-- ===== src/Gateway/Breaker.antt =====
-- The circuit breaker of one provider and the registry of all (gateway/app/circuit_breaker.py).
-- A time is a whole number of clock ticks. Each method takes the reading of `time.time()` that it
-- makes, and its body runs under the breaker's lock, so it is one step.
pub mod Invariant
pub mod Runs
pub mod Tripping
pub mod Registry
mod Tests
use polygate.Prelude.{
  ℕ, ◌+◌, Bool, true, false, Option, none, some, List, [], ◌∷◌, ◌++◌, String, leb, ltb, length,
  keep, if◌then◌else◌, is_some,
}

-- `State`
pub data State : Type 0 where
  closed open_ half_open : State

-- `_ProviderBreaker`
pub record ProviderBreaker : Type 0 where
  pub failure_threshold : ℕ
  pub window_seconds : ℕ
  pub cooldown_seconds : ℕ
  pub state : State
  pub failure_timestamps : List ℕ
  pub opened_at : Option ℕ
  pub half_open_probe_in_flight : Bool

-- `_ProviderBreaker.__init__`
unfoldable pub new_breaker : ℕ → ℕ → ℕ → ProviderBreaker
new_breaker threshold window cooldown = record {
  failure_threshold = threshold;
  window_seconds = window;
  cooldown_seconds = cooldown;
  state = closed;
  failure_timestamps = [];
  opened_at = none;
  half_open_probe_in_flight = false;
}

-- `_prune_old_failures`: `t > now - window` with the subtraction moved over.
unfoldable pub prune_old_failures : ℕ → ProviderBreaker → ProviderBreaker
prune_old_failures now b = record b {
  failure_timestamps = keep (λ t. ltb now (t + b.window_seconds)) b.failure_timestamps;
}

-- `self._opened_at is not None and (now - self._opened_at) >= self.cooldown_seconds`
abbrev pub cooled_down : ℕ → ProviderBreaker → Bool
cooled_down now b = elim b.opened_at [ none ↦ false | some t ↦ leb (t + b.cooldown_seconds) now ]

-- The last test of `allow_request`: one probe at a time.
unfoldable pub admit_probe : ProviderBreaker → ProviderBreaker × Bool
admit_probe b =
    if b.half_open_probe_in_flight
    then (b, false)
    else (record b { half_open_probe_in_flight = true }, true)

abbrev allow_in : State → ℕ → ProviderBreaker → ProviderBreaker × Bool
allow_in closed now b = (b, true)
allow_in open_ now b =
    if cooled_down now b
    then admit_probe (record b { state = half_open; half_open_probe_in_flight = false })
    else (b, false)
allow_in half_open now b = admit_probe b

-- `allow_request`
unfoldable pub allow_request : ℕ → ProviderBreaker → ProviderBreaker × Bool
unfolding admit_probe
allow_request now b = allow_in b.state now b

-- `record_success`
unfoldable pub record_success : ProviderBreaker → ProviderBreaker
record_success b = record b {
  state = closed;
  failure_timestamps = [];
  opened_at = none;
  half_open_probe_in_flight = false;
}

-- A failed probe opens the breaker again and starts a new cooldown.
abbrev reopen : ℕ → ProviderBreaker → ProviderBreaker
reopen now b = record b { state = open_; opened_at = some now; half_open_probe_in_flight = false }

abbrev count_failure : ℕ → ProviderBreaker → ProviderBreaker
count_failure now b =
    let c =
      prune_old_failures now (record b { failure_timestamps = b.failure_timestamps ++ now ∷ [] }) in
    if leb c.failure_threshold (length c.failure_timestamps)
    then record c { state = open_; opened_at = some now }
    else c

abbrev fail_in : State → ℕ → ProviderBreaker → ProviderBreaker
fail_in half_open now b = reopen now b
fail_in closed now b = count_failure now b
fail_in open_ now b = count_failure now b

-- `record_failure`
unfoldable pub record_failure : ℕ → ProviderBreaker → ProviderBreaker
unfolding prune_old_failures
record_failure now b = fail_in b.state now b

abbrev cancel_in : State → ℕ → ProviderBreaker → ProviderBreaker
cancel_in half_open now b = reopen now b
cancel_in closed now b = b
cancel_in open_ now b = b

-- `record_cancelled`
unfoldable pub record_cancelled : ℕ → ProviderBreaker → ProviderBreaker
record_cancelled now b = cancel_in b.state now b

-- `reason`
pub data Reason : Type 0 where
  healthy circuit_open half_open_probe : Reason

abbrev pub reason_of : State → Reason
reason_of closed = healthy
reason_of open_ = circuit_open
reason_of half_open = half_open_probe

-- The calls of the four methods, each with its clock reading.
pub data Call : Type 0 where
  allow : ℕ → Call
  success : Call
  failure : ℕ → Call
  cancelled : ℕ → Call

-- The breaker after a call, and the answer of `allow_request`.
unfoldable pub step : ProviderBreaker → Call → ProviderBreaker × Option Bool
unfolding allow_request record_success record_failure record_cancelled
step b (allow now) = let (b', ok) = allow_request now b in (b', some ok)
step b success = (record_success b, none)
step b (failure now) = (record_failure now b, none)
step b (cancelled now) = (record_cancelled now b, none)

unfoldable pub run : ProviderBreaker → List Call → ProviderBreaker
run b [] = b
run b (c ∷ cs) = run (step b c).0 cs
