-- ===== src/Gateway/Router/Tests.antt =====
-- Routing at concrete inputs.
use polygate.Prelude.{ℕ, ◌≤◌, ◌≡◌, refl, inl, true, [], ◌∷◌, leb, lookup, In, arith}
use polygate.Gateway.Breaker.Registry.{down}
use polygate.Gateway.Router.{
  Privacy, Quality, ok, err, Provider, RoutingPolicy, hard, no_budget, no_eligible, high_best_real,
  balanced_real, cheap_lowest_cost, privacy_high, required,
}
use polygate.Gateway.Samples.{
  routing, fixed, flash, pro, mock, all_three, default_policy, wish, hello,
}
use polygate.Gateway.Router.Select.{Selection, select_provider, est_for, is_real}
use polygate.Gateway.Router.Gates.{PassesGates}
use polygate.Gateway.Router.Optimal.{chosen_passes_gates, relaxed_only_if_needed, Fits}
use polygate.Gateway.Router.Best.{high_is_best_real}
use polygate.Gateway.Router.Balanced.{IsBalanced, balanced_is_tolerable}
use polygate.Gateway.Router.Errors.{select_error, Why}

abbrev picked : Provider fixed → Selection fixed → Selection fixed
picked p s = record s { chosen = p }

abbrev base : Selection fixed
base = record {
  chosen = pro;
  pick = high_best_real 2;
  notes = [];
  candidates = ("deepseek-flash", 7308) ∷ ("deepseek-pro", 22707) ∷ ("mock-a", 6786) ∷ [];
}

run_high :
    select_provider fixed all_three hello (wish Quality.high Privacy.standard) [] [] default_policy
    ≡ ok base
unfolding routing
run_high = refl

abbrev balanced_choice : Selection fixed
balanced_choice = record base { chosen = flash; pick = balanced_real }

run_balanced :
    select_provider fixed all_three hello
      (wish Quality.balanced Privacy.standard)
      []
      []
      default_policy
    ≡ ok balanced_choice
unfolding routing
run_balanced = refl

abbrev cheap_choice : Selection fixed
cheap_choice = record base {
  chosen = mock;
  pick = cheap_lowest_cost;
  notes = privacy_high ∷ required ("streaming" ∷ []) ∷ [];
}

run_cheap :
    select_provider fixed all_three hello
      (wish Quality.cheap Privacy.high)
      []
      ("streaming" ∷ [])
      default_policy
    ≡ ok cheap_choice
unfolding routing
run_cheap = refl

-- Nobody is healthy.
run_down :
    select_provider fixed
      (mock ∷ [])
      hello
      (wish Quality.cheap Privacy.high)
      (("mock-a", down) ∷ [])
      []
      default_policy
    ≡ err no_eligible
unfolding routing
run_down = refl

-- With a hard budget the complaint is about the budget, also where no provider passed the gates.
run_down_hard :
    select_provider fixed
      (mock ∷ [])
      hello
      (wish Quality.cheap Privacy.high)
      (("mock-a", down) ∷ [])
      []
      (record default_policy { budget_mode = hard })
    ≡ err no_budget
unfolding routing
run_down_hard = refl

flash_passes : PassesGates fixed flash (wish Quality.high Privacy.standard) [] []
unfolding lookup
flash_passes = record { private = λ e. cc; capable = λ n i. absurd i; alive = λ e. cc }

flash-Fits_high :
    Fits fixed all_three hello
      (wish Quality.high Privacy.standard)
      []
      []
      default_policy
      base
      run_high
      flash
unfolding routing
flash-Fits_high = record {
  eligible = (inl refl, flash_passes);
  affordable = refl;
  fast = omega arith;
}

chosen_passes_gates_example :
    In mock all_three
    × PassesGates fixed mock (wish Quality.cheap Privacy.high) [] ("streaming" ∷ [])
chosen_passes_gates_example =
    chosen_passes_gates fixed all_three hello (wish Quality.cheap Privacy.high) []
      ("streaming" ∷ []) default_policy cheap_choice run_cheap

relaxed_only_if_needed_example :
    (leb (est_for fixed hello default_policy pro) 1000000 ≡ true) × (1500 ≤ 3000 → 2500 ≤ 3000)
unfolding routing
relaxed_only_if_needed_example =
    relaxed_only_if_needed fixed all_three hello (wish Quality.high Privacy.standard) [] []
      default_policy base run_high flash (inl refl, flash_passes) refl

high_is_best_real_example :
    (is_real fixed pro ≡ true)
    × (1 ≤ 2)
    × (◌≡◌ {A = ℕ} 1 2
        → leb (est_for fixed hello default_policy pro) (est_for fixed hello default_policy flash)
          ≡ true)
high_is_best_real_example =
    high_is_best_real fixed all_three hello (wish Quality.high Privacy.standard) [] []
      default_policy base run_high flash refl refl flash-Fits_high refl

abbrev hard_policy : RoutingPolicy fixed
hard_policy = record default_policy { budget_mode = hard; latency_mode = hard }

run_hard :
    select_provider fixed all_three hello (wish Quality.high Privacy.standard) [] [] hard_policy
    ≡ ok base
unfolding routing
run_hard = refl

mock-Fits :
    Fits fixed all_three hello
      (wish Quality.cheap Privacy.high)
      []
      ("streaming" ∷ [])
      default_policy
      cheap_choice
      run_cheap
      mock
unfolding routing
mock-Fits = record {
  eligible =
      chosen_passes_gates fixed all_three hello (wish Quality.cheap Privacy.high) []
        ("streaming" ∷ []) default_policy cheap_choice run_cheap;
  affordable = refl;
  fast = omega arith;
}

flash-Fits_balanced :
    Fits fixed all_three hello
      (wish Quality.balanced Privacy.standard)
      []
      []
      default_policy
      balanced_choice
      run_balanced
      flash
unfolding routing
flash-Fits_balanced = record {
  eligible =
      chosen_passes_gates fixed all_three hello (wish Quality.balanced Privacy.standard) [] []
        default_policy balanced_choice run_balanced;
  affordable = refl;
  fast = omega arith;
}

balanced_is_tolerable_example :
    (low : Provider fixed) × IsBalanced fixed all_three hello
      (wish Quality.balanced Privacy.standard)
      []
      []
      default_policy
      balanced_choice
      run_balanced
      low
balanced_is_tolerable_example =
    balanced_is_tolerable fixed all_three hello (wish Quality.balanced Privacy.standard) [] []
      default_policy balanced_choice run_balanced flash refl flash-Fits_balanced

select_error_example :
    Why fixed
      (mock ∷ [])
      hello
      (wish Quality.cheap Privacy.high)
      (("mock-a", down) ∷ [])
      []
      default_policy
      no_eligible
select_error_example =
    select_error fixed (mock ∷ []) hello (wish Quality.cheap Privacy.high) (("mock-a", down) ∷ [])
      [] default_policy no_eligible run_down
