-- ===== src/Gateway/Breaker/Registry.antt =====
-- `CircuitBreakerRegistry`: one breaker for each provider, created at its first use.
use polygate.Prelude.{
  ℕ, ◌≡◌, refl, ◌↔◌, Bool, true, false, Option, none, some, [], ◌∷◌, String, Dict, lookup, insert,
  lookup-insert, if◌then◌else◌, str_eq, arith, or_else,
}
use polygate.Gateway.Breaker.{
  State, closed, open_, half_open, ProviderBreaker, new_breaker, Call, step, Reason, reason_of,
}
use polygate.Gateway.Breaker.Invariant.{IsValid, step-IsValid}

pub record Registry : Type 0 where
  pub breakers : Dict ProviderBreaker
  pub failure_threshold : ℕ
  pub window_seconds : ℕ
  pub cooldown_seconds : ℕ

-- `CircuitBreakerRegistry.__init__`
unfoldable pub new_registry : ℕ → ℕ → ℕ → Registry
new_registry threshold window cooldown = record {
  breakers = [];
  failure_threshold = threshold;
  window_seconds = window;
  cooldown_seconds = cooldown;
}

-- `CircuitBreakerRegistry()`
abbrev pub default_registry : Registry
default_registry = record {
  breakers = [];
  failure_threshold = 5;
  window_seconds = 60;
  cooldown_seconds = 30;
}

-- The breaker that `_get` returns.
unfoldable pub get_breaker : Registry → String → ProviderBreaker
get_breaker r name =
    or_else (lookup name r.breakers)
      (new_breaker r.failure_threshold r.window_seconds r.cooldown_seconds)

-- `allow_request`, `record_success`, `record_failure` and `record_cancelled` for one provider.
unfoldable pub call : Registry → String → Call → Registry × Option Bool
call r name c =
    let (b, answer) = step (get_breaker r name) c in
    (record r { breakers = insert name b r.breakers }, answer)

pub data Health : Type 0 where
  down up : Health

abbrev pub health_of : State → Health
health_of open_ = down
health_of closed = up
health_of half_open = up

-- `health_snapshot`
unfoldable pub health_snapshot : Dict ProviderBreaker → Dict Health
health_snapshot [] = []
health_snapshot ((name, b) ∷ bs) = (name, health_of b.state) ∷ health_snapshot bs

-- `debug_snapshot`
unfoldable pub debug_snapshot : Dict ProviderBreaker → Dict Reason
debug_snapshot [] = []
debug_snapshot ((name, b) ∷ bs) = (name, reason_of b.state) ∷ debug_snapshot bs

-- `state_snapshot`
unfoldable pub state_snapshot : Dict ProviderBreaker → Dict State
state_snapshot [] = []
state_snapshot ((name, b) ∷ bs) = (name, b.state) ∷ state_snapshot bs

-- A call for one provider steps that provider's breaker and no other's.
pub get_breaker-call :
    (r : Registry) (name other : String) (c : Call)
    → get_breaker (call r name c).0 other
      ≡ (if str_eq name other then (step (get_breaker r name) c).0 else get_breaker r other)
unfolding get_breaker call
get_breaker-call r name other c =
    ground (arith, lookup-insert name other (step (get_breaker r name) c).0 r.breakers)

pub lookup-health_snapshot :
    (name : String) (bs : Dict ProviderBreaker)
    → lookup name (health_snapshot bs)
      ≡ elim (lookup name bs) [ none ↦ none | some b ↦ some (health_of b.state) ]
unfolding lookup health_snapshot
lookup-health_snapshot name [] = refl
lookup-health_snapshot name ((j, b) ∷ bs) = ground (arith, lookup-health_snapshot name bs)

-- The router sees a provider as down exactly when its breaker is open.
pub health_snapshot-down :
    (r : Registry) (name : String)
    → (lookup name (health_snapshot r.breakers) ≡ some down) ↔ ((get_breaker r name).state ≡ open_)
unfolding get_breaker new_breaker
health_snapshot-down r name = (
  λ h. ground (arith, lookup-health_snapshot name r.breakers),
  λ h. ground (arith, lookup-health_snapshot name r.breakers),
)

pub get_breaker-IsValid-call :
    (r : Registry) (name other : String) (c : Call)
    → ((p : String) → IsValid (get_breaker r p))
    → IsValid (get_breaker (call r name c).0 other)
get_breaker-IsValid-call r name other c h =
    rw (get_breaker-call r name other c)
      (if_IsValid (str_eq name other) (step-IsValid (get_breaker r name) c (h name)) (h other))
  where
    if_IsValid :
        (t : Bool) {a b : ProviderBreaker} → IsValid a → IsValid b → IsValid (if t then a else b)
    if_IsValid true ha hb = ha
    if_IsValid false ha hb = hb
