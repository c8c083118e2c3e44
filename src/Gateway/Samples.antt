-- ===== src/Gateway/Samples.antt =====
-- Data for the tests of the gateway: two external real providers and an internal mock one.
use polygate.Prelude.{
  ℕ, ◌+◌, ◌*◌, ◌/◌, ◌≡◌, ◌⊎◌, true, Option, some, List, [], ◌∷◌, leb, lookup, arith,
}
use polygate.Prelude.Floats.{Floats}
use polygate.Gateway.Router.{
  Rank, Privacy, Quality, Provider, Constraints, RoutingPolicy, soft, prefer_real, estimate_cost,
  rough_input_tokens, total_chars,
}
use polygate.Gateway.Router.Select.{
  select_provider, est_for, eligible, healthy, highest_rank, cheapest, privacy_pool,
  capability_pool, supports, relax, final_pick,
}

pub total : (a b : ℕ) → (leb a b ≡ true) ⊎ (leb b a ≡ true)
total a b = ground arith

pub transitive : (a b c : ℕ) → leb a b ≡ true → leb b c ≡ true → leb a c ≡ true
transitive a b c h k = ground arith

-- Fixed-point numbers in units of a hundred-millionth, for the amounts of these tests.
abbrev pub fixed : Floats
fixed = record {
  Float = ℕ;
  of_ℕ = λ n. n * 100000000;
  plus = λ a b. a + b;
  times = λ a b. a * b / 100000000;
  per_1000 = λ a. a / 1000;
  round8 = λ a. a;
  le = leb;
  le_total = total;
  le_trans = transitive;
}

abbrev pub flash : Provider fixed
flash = record {
  name = "deepseek-flash";
  kind = some "real";
  privacy = some "external";
  price_per_1k_input = some 14000;
  price_per_1k_output = some 28000;
  typical_latency_ms = some 1500;
  capabilities = ("streaming", true) ∷ ("tools", true) ∷ [];
  quality_rank = Rank.rank 1;
}

abbrev pub pro : Provider fixed
pro = record flash {
  name = "deepseek-pro";
  price_per_1k_input = some 43500;
  price_per_1k_output = some 87000;
  typical_latency_ms = some 2500;
  quality_rank = Rank.rank 2;
}

abbrev pub mock : Provider fixed
mock = record {
  name = "mock-a";
  kind = some "mock";
  privacy = some "internal";
  price_per_1k_input = some 13000;
  price_per_1k_output = some 26000;
  typical_latency_ms = some 200;
  capabilities = ("streaming", true) ∷ [];
  quality_rank = Rank.absent;
}

abbrev pub all_three : List (Provider fixed)
all_three = flash ∷ pro ∷ mock ∷ []

-- `DEFAULT_GATEWAY_POLICY`
abbrev pub default_policy : RoutingPolicy fixed
default_policy = record {
  assumed_output_tokens = 256;
  balanced_price_tolerance = 20000000;
  budget_mode = soft;
  latency_mode = soft;
  high_quality_strategy = prefer_real;
}

abbrev pub wish : Quality → Privacy → Constraints fixed
wish q p = record { latency_target_ms = 3000; max_cost_usd = 1000000; privacy = p; quality = q }

abbrev pub hello : List (Option ℕ)
hello = some 40 ∷ []

-- What a run of the router computes with.
unfoldable pub routing : Unit {0}
unfolding select_provider eligible est_for estimate_cost rough_input_tokens total_chars healthy
    lookup highest_rank cheapest privacy_pool capability_pool supports relax final_pick
routing = tt
