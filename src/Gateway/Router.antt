-- ===== src/Gateway/Router.antt =====
-- Cost estimation and the choice of a provider (gateway/app/cost.py, gateway/app/router.py).
-- The texts of a reason are left to its constructors: which branch was taken and which
-- constraint was relaxed.
pub mod Select
pub mod Stages
pub mod Gates
pub mod Optimal
pub mod Best
pub mod Balanced
pub mod Errors
mod Tests
use polygate.Prelude.{
  ℕ, zero, suc, ◌+◌, ◌/◌, max, Bool, true, false, not, ◌&&◌, ◌||◌, Option, none, some, List, [],
  ◌∷◌, ◌++◌, String, Dict, lookup, leb, ltb, ◌==◌, str_eq, keep, length, if◌then◌else◌, or_else,
  map,
}
use polygate.Prelude.Floats.{Floats}
use polygate.Gateway.Breaker.Registry.{Health, down, up}

-- `quality_rank` as the registry file gives it; `invalid` is a Boolean, a negative number or
-- anything that is not an integer.
pub data Rank : Type 0 where
  absent : Rank
  rank : ℕ → Rank
  invalid : Rank

pub data Privacy : Type 0 where
  standard high : Privacy

pub data Quality : Type 0 where
  balanced high cheap : Quality

-- `Literal["soft", "hard"]`
pub data Mode : Type 0 where
  soft hard : Mode

-- `Literal["prefer_real", "lowest_cost"]`
pub data Strategy : Type 0 where
  prefer_real lowest_cost : Strategy

-- What a reason says of relaxed or applied constraints, and of the final pick.
pub data Note : Type 0 where
  privacy_high : Note
  required : List String → Note
  over_budget : Note
  over_latency : Note

pub data Pick : Type 0 where
  high_lowest_cost high_no_real cheap_lowest_cost : Pick
  high_best_real : ℕ → Pick
  balanced_cheapest balanced_real balanced_too_dear : Pick

-- The `RuntimeError`s of `select_provider`; `empty_min` is the `ValueError` of `min([])`.
pub data RoutingError : Type 0 where
  no_budget no_eligible no_latency bad_rank empty_min : RoutingError

-- A routing stage that may raise.
pub data Result {ℓ} (A : Type ℓ) : Type ℓ where
  err : RoutingError → Result A
  ok : A → Result A

module _ {ℓ κ} {A : Type ℓ} {B : Type κ} where
  infixl 5 ◌and_then◌
  abbrev pub ◌and_then◌ : Result A → (A → Result B) → Result B
  err why and_then next = err why
  ok value and_then next = next value

-- `d.get(key) == text`
abbrev pub is_text : String → Option String → Bool
is_text t none = false
is_text t (some s) = str_eq s t

-- `rough_input_tokens` over the lengths of the messages' contents.
unfoldable pub total_chars : List (Option ℕ) → ℕ
total_chars [] = 0
total_chars (m ∷ ms) = or_else m 0 + total_chars ms

unfoldable pub rough_input_tokens : List (Option ℕ) → ℕ
rough_input_tokens messages = max 1 (total_chars messages / 4)

module _ (fl : Floats) where
  open fl use {Float, of_ℕ, plus, times, per_1000, round8, le}

  -- One entry of `providers.yaml`; `none` is a missing key.
  pub record Provider : Type 0 where
    pub name : String
    pub kind : Option String
    pub privacy : Option String
    pub price_per_1k_input : Option Float
    pub price_per_1k_output : Option Float
    pub typical_latency_ms : Option ℕ
    pub capabilities : Dict Bool
    pub quality_rank : Rank

  -- `PolygateConstraints`, as far as routing reads it.
  pub record Constraints : Type 0 where
    pub latency_target_ms : ℕ
    pub max_cost_usd : Float
    pub privacy : Privacy
    pub quality : Quality

  -- `GatewayRoutingPolicy`
  pub record RoutingPolicy : Type 0 where
    pub assumed_output_tokens : ℕ
    pub balanced_price_tolerance : Float
    pub budget_mode : Mode
    pub latency_mode : Mode
    pub high_quality_strategy : Strategy

module _ (fl : Floats) where
  open fl use {Float, of_ℕ, plus, times, per_1000, round8, le}

  -- `estimate_cost`
  unfoldable pub estimate_cost : Provider fl → ℕ → ℕ → Float
  estimate_cost p input_tokens output_tokens =
      let pin = or_else p.price_per_1k_input (of_ℕ 0) in
      let pout = or_else p.price_per_1k_output (of_ℕ 0) in
      round8 (
        plus (per_1000 (times pin (of_ℕ input_tokens)))
          (per_1000 (times pout (of_ℕ output_tokens))))
