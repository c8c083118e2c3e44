-- ===== src/Gateway/Breaker/Tests.antt =====
-- Runs of breakers at concrete inputs.
use polygate.Prelude.{◌≤◌, ◌≡◌, ◌↔◌, refl, false, none, some, [], ◌∷◌, map}
use polygate.Gateway.Breaker.{
  closed, open_, half_open, ProviderBreaker, allow, success, failure, step, run,
}
use polygate.Gateway.Breaker.Runs.{Moves, step-Moves, grants, grants-le-one}

-- Three failures within a minute trip it; the cooldown is 30.
abbrev fresh : ProviderBreaker
fresh = record {
  failure_threshold = 3;
  window_seconds = 60;
  cooldown_seconds = 30;
  state = closed;
  failure_timestamps = [];
  opened_at = none;
  half_open_probe_in_flight = false;
}

abbrev tripped : ProviderBreaker
tripped = record fresh {
  state = open_;
  failure_timestamps = 100 ∷ 110 ∷ 120 ∷ [];
  opened_at = some 120;
}

run-fresh : run fresh (failure 100 ∷ failure 110 ∷ failure 120 ∷ []) ≡ tripped
unfolding run step
run-fresh = refl

grants-tripped : grants tripped (allow 149 ∷ allow 150 ∷ allow 151 ∷ success ∷ allow 152 ∷ []) ≡ 2
unfolding grants step
grants-tripped = refl

step-Moves_example :
    Moves tripped (allow 150) half_open ↔ ((step tripped (allow 150)).0.state ≡ half_open)
step-Moves_example = step-Moves tripped (allow 150) half_open

grants-le-one_example : grants tripped (map allow (140 ∷ 150 ∷ 151 ∷ 152 ∷ [])) ≤ 1
grants-le-one_example = grants-le-one tripped (140 ∷ 150 ∷ 151 ∷ 152 ∷ []) (λ e. cc)
