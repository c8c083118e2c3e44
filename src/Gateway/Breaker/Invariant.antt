-- ===== src/Gateway/Breaker/Invariant.antt =====
-- What holds of a breaker after any calls, and what each state lets through.
use polygate.Prelude.{ℕ, ◌<◌, ◌≡◌, ◌≢◌, true, none, arith, length}
use polygate.Gateway.Breaker.{
  closed, open_, half_open, ProviderBreaker, new_breaker, allow_request, record_failure,
  record_cancelled, Call, allow, success, failure, cancelled, step,
}

pub record IsValid (b : ProviderBreaker) : Type 0 where
  pub positive : 0 < b.failure_threshold
  pub open_has_time : b.state ≡ open_ → b.opened_at ≢ none
  pub half_open_has_time : b.state ≡ half_open → b.opened_at ≢ none
  pub closed_has_none : b.state ≡ closed → b.opened_at ≡ none
  pub probe_is_half_open : b.half_open_probe_in_flight ≡ true → b.state ≡ half_open
  pub closed_below : b.state ≡ closed → length b.failure_timestamps < b.failure_threshold

pub new_breaker-IsValid : (k w c : ℕ) → 0 < k → IsValid (new_breaker k w c)
unfolding new_breaker
new_breaker-IsValid k w c h = ground arith

allow-IsValid : (now : ℕ) (b : ProviderBreaker) → IsValid b → IsValid (allow_request now b).0
unfolding allow_request
allow-IsValid now b h = ground arith

failure-IsValid : (now : ℕ) (b : ProviderBreaker) → IsValid b → IsValid (record_failure now b)
unfolding record_failure
failure-IsValid now b h = ground arith

cancelled-IsValid : (now : ℕ) (b : ProviderBreaker) → IsValid b → IsValid (record_cancelled now b)
unfolding record_cancelled
cancelled-IsValid now b h = ground arith

-- Every call keeps the invariant, whatever the clock says.
pub step-IsValid : (b : ProviderBreaker) (c : Call) → IsValid b → IsValid (step b c).0
unfolding step
step-IsValid b (allow now) h = allow-IsValid now b h
step-IsValid b success h = ground arith
step-IsValid b (failure now) h = failure-IsValid now b h
step-IsValid b (cancelled now) h = cancelled-IsValid now b h
