-- ===== src/Gateway/Router/Optimal.antt =====
-- What `select_provider` promises of the provider that it returns.
use polygate.Prelude.{
  ℕ, ◌≤◌, ◌≡◌, true, Option, List, String, Dict, keep, or_else, In, In-keep, keep-In, arith, subst,
  sym, leb→le, le→leb, ◌∙◌,
}
use polygate.Prelude.Floats.{Floats}
use polygate.Gateway.Breaker.Registry.{Health}
use polygate.Gateway.Router.{
  Quality, Pick, ok, Provider, Constraints, RoutingPolicy, hard, over_budget, over_latency,
  no_budget, no_latency,
}
use polygate.Gateway.Router.Select.{
  eligible, within_latency, affordable, cheapest, final_pick, Selection, est_for, select_provider,
  lowest,
}
use polygate.Gateway.Router.Stages.{and_then-ok, relax-In, relax-hard, relax-kept, cheapest-le}
use polygate.Gateway.Router.Gates.{PassesGates, eligible_iff, final_pick-In, Stages, stages}

module _ (fl : Floats) (providers : List (Provider fl)) (messages : List (Option ℕ))
    (c : Constraints fl) (health : Dict Health) (caps : List String) (policy : RoutingPolicy fl)
    (s : Selection fl) (h : select_provider fl providers messages c health caps policy ≡ ok s) where
  abbrev pub est : Provider fl → fl.Float
  est = est_for fl messages policy

  abbrev pub pool : List (Provider fl)
  pool = eligible fl providers c health caps

  abbrev pub st : Stages fl providers messages c health caps policy s
  st = stages fl providers messages c health caps policy s h

  -- An eligible provider that the code may choose.
  abbrev pub IsEligible : Provider fl → Type 0
  IsEligible p = In p providers × PassesGates fl p c health caps

  pub chosen-In-latency : In s.chosen st.latency.0
  chosen-In-latency =
      subst (λ x. In x st.latency.0) (sym st.chosen_eq)
        (final_pick-In fl est st.latency.0 policy c.quality st.choice st.choice_ok)

  pub chosen-In-budget : In s.chosen st.budget.0
  chosen-In-budget =
      relax-In fl policy.latency_mode no_latency over_latency st.budget.0 _ s.chosen
        (λ q i. (In-keep (within_latency fl c) q st.budget.0 i).0) st.latency_ok chosen-In-latency

  -- The provider that is returned is one of those given, and it passes every hard gate: privacy,
  -- capabilities and health, whatever the policy is.
  pub chosen_passes_gates : In s.chosen providers × PassesGates fl s.chosen c health caps
  chosen_passes_gates = (eligible_iff fl providers c health caps s.chosen).0 (
      relax-In fl policy.budget_mode no_budget over_budget pool _ s.chosen
        (λ q i. (In-keep (affordable fl est c) q pool i).0) st.budget_ok chosen-In-budget)

  -- With a hard budget the estimate is within the maximal cost, and with a hard latency mode the
  -- typical latency is within the target.
  pub chosen_within_hard_limits :
      (policy.budget_mode ≡ hard → fl.le (est s.chosen) c.max_cost_usd ≡ true)
      × (policy.latency_mode ≡ hard → or_else s.chosen.typical_latency_ms 0 ≤ c.latency_target_ms)
  chosen_within_hard_limits = (
    λ m.
        let e = relax-hard fl policy.budget_mode no_budget over_budget pool _ m st.budget_ok in
        (In-keep (affordable fl est c) s.chosen pool
          (subst (λ l. In s.chosen l) e chosen-In-budget)).1,
    λ m.
        let e =
          relax-hard fl policy.latency_mode no_latency over_latency st.budget.0 _ m st.latency_ok in
        leb→le _ _
          (In-keep (within_latency fl c) s.chosen st.budget.0
            (subst (λ l. In s.chosen l) e chosen-In-latency)).1,
  )

  in_budget_pool :
      (q : Provider fl)
      → IsEligible q
      → fl.le (est q) c.max_cost_usd ≡ true
      → (st.budget.0 ≡ keep (affordable fl est c) pool) × In q st.budget.0
  in_budget_pool q e a =
      let i =
        keep-In (affordable fl est c) q pool ((eligible_iff fl providers c health caps q).1 e) a in
      let same : st.budget.0 ≡ keep (affordable fl est c) pool =
        ground (
          arith,
          relax-kept fl policy.budget_mode no_budget over_budget pool _ q i,
          st.budget_ok,
        ) in
      (same, subst (λ l. In q l) (sym same) i)

  in_latency_pool :
      (q : Provider fl)
      → IsEligible q
      → fl.le (est q) c.max_cost_usd ≡ true
      → or_else q.typical_latency_ms 0 ≤ c.latency_target_ms
      → (st.latency.0 ≡ keep (within_latency fl c) st.budget.0) × In q st.latency.0
  in_latency_pool q e a l =
      let i = keep-In (within_latency fl c) q st.budget.0 (in_budget_pool q e a).1 (le→leb _ _ l) in
      let same : st.latency.0 ≡ keep (within_latency fl c) st.budget.0 = ground (
        arith,
        relax-kept fl policy.latency_mode no_latency over_latency st.budget.0 _ q i,
        st.latency_ok,
      ) in
      (same, subst (λ l. In q l) (sym same) i)

  -- Also in the soft modes a constraint is relaxed only where it must be: if some eligible provider
  -- is within the budget, the one returned is, and if one of these is also fast enough, the one
  -- returned is both.
  pub relaxed_only_if_needed :
      (q : Provider fl)
      → IsEligible q
      → fl.le (est q) c.max_cost_usd ≡ true
      → (fl.le (est s.chosen) c.max_cost_usd ≡ true)
        × (or_else q.typical_latency_ms 0 ≤ c.latency_target_ms
            → or_else s.chosen.typical_latency_ms 0 ≤ c.latency_target_ms)
  relaxed_only_if_needed q e a = (
    (In-keep (affordable fl est c) s.chosen pool
        (subst (λ l. In s.chosen l) (in_budget_pool q e a).0 chosen-In-budget)).1,
    λ l.
        leb→le _ _
          (In-keep (within_latency fl c) s.chosen st.budget.0
            (subst (λ l. In s.chosen l) (in_latency_pool q e a l).0 chosen-In-latency)).1,
  )

  -- A provider that meets the gates, the budget and the latency target.
  pub record Fits (q : Provider fl) : Type 0 where
    pub eligible : IsEligible q
    pub affordable : fl.le (est q) c.max_cost_usd ≡ true
    pub fast : or_else q.typical_latency_ms 0 ≤ c.latency_target_ms

  pub Fits-In : (q : Provider fl) → Fits q → In q st.latency.0
  Fits-In q f = (in_latency_pool q f.eligible f.affordable f.fast).1

  -- If some provider fits, the pools hold no others than those that fit.
  pub In-Fits : (q : Provider fl) → Fits q → (p : Provider fl) → In p st.latency.0 → Fits p
  In-Fits q f p i =
      let a = in_budget_pool q f.eligible f.affordable in
      let b = in_latency_pool q f.eligible f.affordable f.fast in
      let (j, fast) = In-keep (within_latency fl c) p st.budget.0 (subst (λ l. In p l) b.0 i) in
      let (k, cheap) = In-keep (affordable fl est c) p pool (subst (λ l. In p l) a.0 j) in
      record {
        eligible = (eligible_iff fl providers c health caps p).0 k;
        affordable = cheap;
        fast = leb→le _ _ fast;
      }

  lowest-le :
      (pick : Pick) (q : Provider fl)
      → lowest fl est st.latency.0 pick ≡ ok st.choice
      → In q st.latency.0
      → fl.le (est s.chosen) (est q) ≡ true
  lowest-le pick q k i =
      let (p, e, r) = and_then-ok (cheapest fl est st.latency.0) _ k in
      let same : p ≡ st.choice.0 = ground arith in
      let best = cheapest-le fl est st.latency.0 p q e i in
      subst (λ x. fl.le (est x) (est q) ≡ true) (same ∙ sym st.chosen_eq) best

  -- With `quality=cheap` no provider that fits is cheaper than the one returned.
  pub cheap_is_cheapest :
      (q : Provider fl) → c.quality ≡ Quality.cheap → Fits q → fl.le (est s.chosen) (est q) ≡ true
  unfolding final_pick
  cheap_is_cheapest q m f =
      lowest-le _ q
        (subst (λ x. final_pick fl est st.latency.0 policy x ≡ ok st.choice) m st.choice_ok)
        (Fits-In q f)
