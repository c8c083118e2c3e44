-- ===== src/Gateway/Router/Select.antt =====
-- `select_provider` and its helpers (gateway/app/router.py), stage by stage.
use polygate.Prelude.{
  ℕ, Bool, true, false, not, Option, List, [], ◌∷◌, ◌++◌, String, Dict, lookup, leb, ◌==◌, keep,
  length, if◌then◌else◌, or_else, map, max,
}
use polygate.Prelude.Floats.{Floats}
use polygate.Gateway.Breaker.Registry.{Health, down, up}
use polygate.Gateway.Router.{
  Rank, Privacy, Quality, Mode, Strategy, Note, Pick, RoutingError, Result, ok, err, ◌and_then◌,
  is_text, rough_input_tokens, Provider, Constraints, RoutingPolicy, estimate_cost, privacy_high,
  required, over_budget, over_latency, high_lowest_cost, high_no_real, cheap_lowest_cost,
  high_best_real, balanced_cheapest, balanced_real, balanced_too_dear, no_budget, no_eligible,
  no_latency, bad_rank, empty_min, soft, hard, prefer_real, lowest_cost,
}

-- `capabilities.get(capability) is not True`
abbrev pub is_missing : Dict Bool → String → Bool
is_missing capabilities name = not (or_else (lookup name capabilities) false)

-- `health.get(provider["name"], "healthy") != "down"`
abbrev pub is_up : Health → Bool
is_up down = false
is_up up = true

module _ (fl : Floats) where
  open fl use {Float, of_ℕ, plus, times, le}

  -- `missing_capabilities`
  unfoldable pub missing_capabilities : Provider fl → List String → List String
  missing_capabilities p required_capabilities =
      keep (is_missing p.capabilities) required_capabilities

  -- `_supports`
  unfoldable pub supports : List String → Provider fl → Bool
  unfolding missing_capabilities
  supports required_capabilities p = length (missing_capabilities p required_capabilities) == 0

  -- `_healthy`
  unfoldable pub healthy : Dict Health → Provider fl → Bool
  healthy health p = is_up (or_else (lookup p.name health) up)

  abbrev pub is_internal : Provider fl → Bool
  is_internal p = is_text "internal" p.privacy

  abbrev pub is_real : Provider fl → Bool
  is_real p = is_text "real" p.kind

  -- The privacy filter and its note.
  unfoldable pub privacy_pool : Privacy → List (Provider fl) → List (Provider fl) × List Note
  privacy_pool Privacy.high ps = (keep is_internal ps, privacy_high ∷ [])
  privacy_pool Privacy.standard ps = (ps, [])

  -- The capability filter: `if required_capabilities:`.
  unfoldable pub capability_pool : List String → List (Provider fl) → List (Provider fl) × List Note
  capability_pool [] ps = (ps, [])
  capability_pool (r ∷ rs) ps = (keep (supports (r ∷ rs)) ps, required (r ∷ rs) ∷ [])

  -- The provider pool after the privacy, capability and health filters.
  unfoldable pub eligible :
      List (Provider fl) → Constraints fl → Dict Health → List String → List (Provider fl)
  unfolding privacy_pool capability_pool
  eligible providers c health caps =
      keep (healthy health) (capability_pool caps (privacy_pool c.privacy providers).0).0

  -- `if affordable: … elif policy.budget_mode == "hard": … else: …`, and the latency stage alike.
  unfoldable pub relax :
      Mode
      → RoutingError
      → Note
      → List (Provider fl)
      → List (Provider fl)
      → Result (List (Provider fl) × List Note)
  relax mode e note pool [] = elim mode [ hard ↦ err e | soft ↦ ok (pool, note ∷ []) ]
  relax mode e note pool (p ∷ ps) = ok (p ∷ ps, [])

  -- `if not pool: raise …`
  abbrev pub nonempty : List (Provider fl) → Result (Unit {0})
  nonempty [] = err no_eligible
  nonempty (p ∷ ps) = ok tt

  -- `provider.get("typical_latency_ms", 0) <= c.latency_target_ms`
  abbrev pub within_latency : Constraints fl → Provider fl → Bool
  within_latency c p = leb (or_else p.typical_latency_ms 0) c.latency_target_ms

  module _ (est : Provider fl → Float) where
    -- `est(p) <= c.max_cost_usd`
    abbrev pub affordable : Constraints fl → Provider fl → Bool
    affordable c p = le (est p) c.max_cost_usd

    -- `min(ps, key=est)`: the first of the least.
    unfoldable pub min_from : Provider fl → List (Provider fl) → Provider fl
    min_from best [] = best
    min_from best (p ∷ ps) = min_from (if le (est best) (est p) then best else p) ps

    unfoldable pub cheapest : List (Provider fl) → Result (Provider fl)
    unfolding min_from
    cheapest [] = err empty_min
    cheapest (p ∷ ps) = ok (min_from p ps)

  -- `_quality_rank`
  unfoldable pub quality_rank : Rank → Result ℕ
  quality_rank Rank.absent = ok 0
  quality_rank (Rank.rank n) = ok n
  quality_rank Rank.invalid = err bad_rank

  -- `max(_quality_rank(provider) for provider in reals)`
  unfoldable pub highest_rank : List (Provider fl) → Result ℕ
  unfolding quality_rank
  highest_rank [] = ok 0
  highest_rank (p ∷ ps) =
      quality_rank p.quality_rank and_then λ n. highest_rank ps and_then λ m. ok (max n m)

  abbrev pub has_rank : ℕ → Provider fl → Bool
  has_rank n p = elim p.quality_rank [
    | Rank.absent ↦ 0 == n
    | Rank.rank m ↦ m == n
    | Rank.invalid ↦ false
  ]

module _ (fl : Floats) where
  open fl use {Float, of_ℕ, plus, times, le}

  abbrev pub Choice : Type 0
  Choice = Provider fl × Pick

  module _ (est : Provider fl → Float) (pool : List (Provider fl)) where
    abbrev pub lowest : Pick → Result Choice
    lowest pick = cheapest fl est pool and_then λ p. ok (p, pick)

    -- `c.quality == "high"`
    unfoldable pub pick_high : Strategy → List (Provider fl) → Result Choice
    pick_high lowest_cost reals = lowest high_lowest_cost
    pick_high prefer_real [] = lowest high_no_real
    pick_high prefer_real (r ∷ rs) = highest_rank fl (r ∷ rs) and_then λ n.
        cheapest fl est (keep (has_rank fl n) (r ∷ rs)) and_then λ p. ok (p, high_best_real n)

    -- `est(cheapest_real) <= est(cheapest) * (1 + policy.balanced_price_tolerance)`
    unfoldable pub prefer_within : Float → Provider fl → Provider fl → Choice
    prefer_within tolerance real low =
        if le (est real) (times (est low) (plus (of_ℕ 1) tolerance))
        then (real, balanced_real)
        else (low, balanced_too_dear)

    -- the `balanced` branch, after `cheapest = min(latency_pool, key=est)`
    unfoldable pub pick_balanced : Float → List (Provider fl) → Provider fl → Result Choice
    pick_balanced tolerance [] low = ok (low, balanced_cheapest)
    pick_balanced tolerance (r ∷ rs) low =
        if is_real fl low
        then ok (low, balanced_cheapest)
        else (cheapest fl est (r ∷ rs) and_then λ real. ok (prefer_within tolerance real low))

    -- The quality policy.
    unfoldable pub final_pick : RoutingPolicy fl → Quality → Result Choice
    unfolding pick_high pick_balanced prefer_within
    final_pick policy Quality.high = pick_high policy.high_quality_strategy (keep (is_real fl) pool)
    final_pick policy Quality.cheap = lowest cheap_lowest_cost
    final_pick policy Quality.balanced =
        cheapest fl est pool
        and_then pick_balanced policy.balanced_price_tolerance (keep (is_real fl) pool)

  -- What `select_provider` returns.
  pub record Selection : Type 0 where
    pub chosen : Provider fl
    pub pick : Pick
    pub notes : List Note
    pub candidates : List (String × Float)

  unfoldable pub est_for : List (Option ℕ) → RoutingPolicy fl → Provider fl → Float
  est_for messages policy p =
      estimate_cost fl p (rough_input_tokens messages) policy.assumed_output_tokens

  -- `select_provider`
  unfoldable pub select_provider :
      List (Provider fl)
      → List (Option ℕ)
      → Constraints fl
      → Dict Health
      → List String
      → RoutingPolicy fl
      → Result Selection
  unfolding relax final_pick
  select_provider providers messages c health caps policy =
      let est = est_for messages policy in
      let pool = eligible fl providers c health caps in
      relax fl policy.budget_mode no_budget over_budget pool (keep (affordable fl est c) pool)
      and_then λ budget. nonempty fl budget.0 and_then λ _.
          relax fl policy.latency_mode no_latency over_latency budget.0
            (keep (within_latency fl c) budget.0)
          and_then λ latency. final_pick est latency.0 policy c.quality and_then λ choice.
              ok (record {
                chosen = choice.0;
                pick = choice.1;
                notes =
                    (privacy_pool fl c.privacy providers).1
                    ++ (capability_pool fl caps providers).1
                    ++ budget.1
                    ++ latency.1;
                candidates = map (λ p. (p.name, est p)) providers;
              })
