-- ===== src/Gateway/Failover/Tests.antt =====
-- Failover among three providers at concrete inputs.
use polygate.Prelude.{
  ℕ, zero, suc, ◌≡◌, refl, ◌⊎◌, inl, inr, ◌↔◌, true, none, some, [], ◌∷◌, String, lookup, insert,
}
use polygate.Gateway.Breaker.{step, new_breaker}
use polygate.Gateway.Breaker.Registry.{call, get_breaker, default_registry, health_snapshot}
use polygate.Gateway.Router.{Privacy, Quality, Provider}
use polygate.Gateway.Retry.{
  transport, answered, failed, Config, attempts, attempt_timeout, call_provider_with_resilience,
  report_all, after_failure,
}
use polygate.Gateway.Samples.{fixed, flash, mock, all_three, default_policy, wish, hello, routing}
use polygate.Gateway.Failover.{
  Model, auto, named, reply, Request, Round, Ending, served, call_non_stream, failover,
  next_provider, forced_provider, select, request_budget_exhausted,
}
use polygate.Gateway.Failover.Naming.{IsAccepted, forced_provider_iff}
use polygate.Gateway.Failover.Guards.{
  Tries, AllDistinct, AllAllowed, IsAllowed, tried_once, tried_allowed,
}

abbrev ask : Model → Privacy → Request fixed
ask m p = record {
  model = m;
  messages = hello;
  constraints = wish Quality.balanced p;
  required_capabilities = "streaming" ∷ [];
}

abbrev settings : Config
settings = record {
  timeout_s = 1000;
  max_retries = 0;
  base_delay_s = 50;
  max_backoff_s = 500;
  deadline = some 3000;
}

-- The first provider cannot be reached; the second answers.
abbrev rounds : ℕ → Round fixed all_three
rounds zero = record {
  wall = 10;
  env = λ n. record { started = 0; ended = 5; wall = 10; jitter = 0; answer = failed transport };
  clock = 5;
}
rounds (suc n) = record {
  wall = 20;
  env = λ n. record { started = 6; ended = 9; wall = 20; jitter = 0; answer = answered };
  clock = 9;
}

abbrev run : Model → Privacy → Provider fixed → Ending fixed all_three
run m p first =
    call_non_stream fixed all_three (ask m p) settings 3000 default_policy rounds first
      default_registry

fails_over :
    run auto Privacy.standard flash
    ≡ served (record { chosen = mock; tried_names = "deepseek-flash" ∷ "mock-a" ∷ []; retries = 0 })
unfolding call_non_stream failover next_provider select routing call_provider_with_resilience
    get_breaker attempts attempt_timeout report_all after_failure request_budget_exhausted call step
    new_breaker health_snapshot insert
fails_over = refl

tried_once_example :
    Tries fixed all_three
      (ask auto Privacy.standard)
      settings
      3000
      default_policy
      rounds
      AllDistinct
      (run auto Privacy.standard flash)
tried_once_example =
    tried_once fixed all_three (ask auto Privacy.standard) settings 3000 default_policy rounds flash
      default_registry

mock_streams : (n : String) → (n ≡ "streaming") ⊎ ⊥ → lookup n mock.capabilities ≡ some true
unfolding lookup
mock_streams n (inl e) = rw e refl
mock_streams n (inr e) = absurd e

mock-IsAllowed :
    IsAllowed fixed all_three (ask auto Privacy.high) settings 3000 default_policy rounds mock
mock-IsAllowed = (inr (inr (inl refl)), (λ e. refl), mock_streams)

tried_allowed_example :
    Tries fixed all_three
      (ask auto Privacy.high)
      settings
      3000
      default_policy
      rounds
      (AllAllowed fixed all_three (ask auto Privacy.high) settings 3000 default_policy rounds)
      (run auto Privacy.high mock)
tried_allowed_example =
    tried_allowed fixed all_three (ask auto Privacy.high) settings 3000 default_policy rounds
      default_registry mock mock-IsAllowed

-- A provider without a privacy label.
abbrev unlabelled : Provider fixed
unlabelled = record mock { name = "new"; privacy = none }

forced_provider_iff_example :
    (forced_provider fixed (unlabelled ∷ all_three) (ask (named "new") Privacy.high)
      ≡ reply (some unlabelled))
    ↔ IsAccepted fixed (unlabelled ∷ all_three) (ask (named "new") Privacy.high) "new" unlabelled
forced_provider_iff_example =
    forced_provider_iff fixed (unlabelled ∷ all_three) (ask (named "new") Privacy.high) "new"
      unlabelled refl
