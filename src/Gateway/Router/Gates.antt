-- ===== src/Gateway/Router/Gates.antt =====
-- The hard gates of routing: who is eligible, and that only an eligible provider is chosen.
use polygate.Prelude.{
  ℕ, ◌≡◌, ◌≢◌, refl, ◌⊎◌, inl, inr, ◌↔◌, Bool, true, Option, none, some, List, [], ◌∷◌, String,
  Dict, lookup, ◌==◌, keep, length, In, In-keep, keep-In, arith, Bool-cases, str_eq_iff, subst, sym,
  ap,
}
use polygate.Prelude.Floats.{Floats}
use polygate.Gateway.Breaker.Registry.{Health, down}
use polygate.Gateway.Router.{
  Privacy, Quality, Strategy, Note, Pick, ok, is_text, Provider, Constraints, RoutingPolicy,
  prefer_real, lowest_cost, over_budget, over_latency, no_budget, no_latency,
}
use polygate.Gateway.Router.Select.{
  privacy_pool, capability_pool, eligible, relax, nonempty, within_latency, affordable, cheapest,
  highest_rank, has_rank, is_real, is_internal, supports, healthy, final_pick, Selection, est_for,
  select_provider, pick_high, pick_balanced, prefer_within, Choice, lowest, is_missing,
}
use polygate.Gateway.Router.Stages.{and_then-ok, cheapest-In}

missing_none :
    (capabilities : Dict Bool) (caps : List String)
    → (length (keep (is_missing capabilities) caps) == 0) ≡ true
    → (n : String) → In n caps
    → lookup n capabilities ≡ some true
missing_none d [] h n i = absurd i
missing_none d (c ∷ cs) h n i = ground (
  arith,
  λ (k : (length (keep (is_missing d) cs) == 0) ≡ true) (j : In n cs). missing_none d cs k n j,
)

none_missing :
    (capabilities : Dict Bool) (caps : List String)
    → ((n : String) → In n caps → lookup n capabilities ≡ some true)
    → (length (keep (is_missing capabilities) caps) == 0) ≡ true
none_missing d [] h = refl
none_missing d (c ∷ cs) h = ground (arith, h c (inl refl), none_missing d cs (λ n i. h n (inr i)))

pub is_text_iff : (t : String) (o : Option String) → (is_text t o ≡ true) ↔ (o ≡ some t)
is_text_iff t none = (λ h. cc, λ h. cc)
is_text_iff t (some s) =
    (λ h. ap some ((str_eq_iff s t).0 h), λ h. let e : s ≡ t = cc in (str_eq_iff s t).1 e)

module _ (fl : Floats) where
  privacy_pool_iff :
      (pr : Privacy) (ps : List (Provider fl)) (p : Provider fl)
      → In p (privacy_pool fl pr ps).0
        ↔ (In p ps × (pr ≡ Privacy.high → p.privacy ≡ some "internal"))
  unfolding privacy_pool
  privacy_pool_iff Privacy.standard ps p = (λ i. (i, λ e. cc), λ h. h.0)
  privacy_pool_iff Privacy.high ps p = (
    λ i. let (j, e) = In-keep (is_internal fl) p ps i in (j, λ _. (is_text_iff _ _).0 e),
    λ (i, e). keep-In (is_internal fl) p ps i ((is_text_iff _ _).1 (e refl)),
  )

  supports_iff :
      (caps : List String) (p : Provider fl)
      → (supports fl caps p ≡ true)
        ↔ ((n : String) → In n caps → lookup n p.capabilities ≡ some true)
  unfolding supports
  supports_iff caps p = (missing_none p.capabilities caps, none_missing p.capabilities caps)

  capability_pool_iff :
      (caps : List String) (ps : List (Provider fl)) (p : Provider fl)
      → In p (capability_pool fl caps ps).0
        ↔ (In p ps × ((n : String) → In n caps → lookup n p.capabilities ≡ some true))
  unfolding capability_pool
  capability_pool_iff [] ps p = (λ i. (i, λ n j. absurd j), λ h. h.0)
  capability_pool_iff (r ∷ rs) ps p = (
    λ i. let (j, e) = In-keep (supports fl (r ∷ rs)) p ps i in (j, (supports_iff (r ∷ rs) p).0 e),
    λ (i, e). keep-In (supports fl (r ∷ rs)) p ps i ((supports_iff (r ∷ rs) p).1 e),
  )

  healthy_iff :
      (health : Dict Health) (p : Provider fl)
      → (healthy fl health p ≡ true) ↔ (lookup p.name health ≢ some down)
  unfolding healthy
  healthy_iff health p = (λ h e. ground arith, λ h. ground arith)

module _ (fl : Floats) where
  -- What privacy, capabilities and health ask of a provider, whatever the policy says.
  pub record PassesGates (p : Provider fl) (c : Constraints fl) (health : Dict Health)
      (caps : List String) : Type 0 where
    pub private : c.privacy ≡ Privacy.high → p.privacy ≡ some "internal"
    pub capable : (n : String) → In n caps → lookup n p.capabilities ≡ some true
    pub alive : lookup p.name health ≢ some down

  -- The pool after the three filters holds exactly the providers that pass the gates.
  pub eligible_iff :
      (providers : List (Provider fl)) (c : Constraints fl) (health : Dict Health)
      (caps : List String) (p : Provider fl)
      → In p (eligible fl providers c health caps) ↔ (In p providers × PassesGates p c health caps)
  unfolding eligible
  eligible_iff providers c health caps p = (
    λ i.
        let (j, e) = In-keep (healthy fl health) p _ i in
        let (k, s) = (capability_pool_iff fl caps _ p).0 j in
        let (l, pr) = (privacy_pool_iff fl c.privacy providers p).0 k in
        (l, record { private = pr; capable = s; alive = (healthy_iff fl health p).0 e }),
    λ (i, g).
        keep-In (healthy fl health) p _
          ((capability_pool_iff fl caps _ p).1
            ((privacy_pool_iff fl c.privacy providers p).1 (i, g.private), g.capable))
          ((healthy_iff fl health p).1 g.alive),
  )

  module _ (est : Provider fl → fl.Float) (pool : List (Provider fl)) (ch : Choice fl) where
    pub lowest-In : (pick : Pick) → lowest fl est pool pick ≡ ok ch → In ch.0 pool
    lowest-In pick h =
        let (p, e, r) = and_then-ok (cheapest fl est pool) _ h in
        let same : p ≡ ch.0 = ground arith in
        subst (λ x. In x pool) same (cheapest-In fl est pool p e)

    pick_high-In :
        (s : Strategy) (reals : List (Provider fl))
        → ((x : Provider fl) → In x reals → In x pool)
        → pick_high fl est pool s reals ≡ ok ch
        → In ch.0 pool
    unfolding pick_high
    pick_high-In lowest_cost reals sub h = lowest-In _ h
    pick_high-In prefer_real [] sub h = lowest-In _ h
    pick_high-In prefer_real (r ∷ rs) sub h =
        let (n, e, k) = and_then-ok (highest_rank fl (r ∷ rs)) _ h in
        let (p, f, l) = and_then-ok (cheapest fl est (keep (has_rank fl n) (r ∷ rs))) _ k in
        let same : p ≡ ch.0 = ground arith in
        subst (λ x. In x pool) same
          (sub p (In-keep (has_rank fl n) p (r ∷ rs) (cheapest-In fl est _ p f)).0)

    pub balanced_cases :
        (t : fl.Float) (r : Provider fl) (rs : List (Provider fl)) (low : Provider fl)
        → pick_balanced fl est pool t (r ∷ rs) low ≡ ok ch
        → (ch.0 ≡ low)
          ⊎ ((q : Provider fl) × (cheapest fl est (r ∷ rs) ≡ ok q)
              × (ch.0 ≡ q)
              × (fl.le (est q) (fl.times (est low) (fl.plus (fl.of_ℕ 1) t)) ≡ true))
    unfolding pick_balanced prefer_within
    balanced_cases t r rs low h = elim (Bool-cases (is_real fl low)) [
      | inl real ↦ inl (ground arith)
      | inr mock ↦
          let (q, e, k) =
            and_then-ok (cheapest fl est (r ∷ rs)) (λ x. ok (prefer_within fl est pool t x low))
              (rw mock at h) in
          elim (Bool-cases (fl.le (est q) (fl.times (est low) (fl.plus (fl.of_ℕ 1) t)))) [
            | inl close ↦ inr (q, e, ground arith, close)
            | inr dear ↦ inl (ground arith)
          ]
    ]

    pick_balanced-In :
        (t : fl.Float) (reals : List (Provider fl)) (low : Provider fl)
        → ((x : Provider fl) → In x reals → In x pool)
        → In low pool
        → pick_balanced fl est pool t reals low ≡ ok ch
        → In ch.0 pool
    unfolding pick_balanced
    pick_balanced-In t [] low sub i h =
        let same : low ≡ ch.0 = ground arith in subst (λ x. In x pool) same i
    pick_balanced-In t (r ∷ rs) low sub i h = elim (balanced_cases t r rs low h) [
      | inl same ↦ subst (λ x. In x pool) (sym same) i
      | inr (q, e, same, _) ↦
          subst (λ x. In x pool) (sym same) (sub q (cheapest-In fl est (r ∷ rs) q e))
    ]

  pub final_pick-In :
      (est : Provider fl → fl.Float) (pool : List (Provider fl)) (policy : RoutingPolicy fl)
      (q : Quality) (ch : Choice fl)
      → final_pick fl est pool policy q ≡ ok ch
      → In ch.0 pool
  unfolding final_pick
  final_pick-In est pool policy Quality.high ch h =
      pick_high-In est pool ch policy.high_quality_strategy (keep (is_real fl) pool)
        (λ x i. (In-keep (is_real fl) x pool i).0) h
  final_pick-In est pool policy Quality.cheap ch h = lowest-In est pool ch _ h
  final_pick-In est pool policy Quality.balanced ch h =
      let (low, e, k) = and_then-ok (cheapest fl est pool) _ h in
      pick_balanced-In est pool ch policy.balanced_price_tolerance (keep (is_real fl) pool) low
        (λ x i. (In-keep (is_real fl) x pool i).0) (cheapest-In fl est pool low e) k

module _ (fl : Floats) (providers : List (Provider fl)) (messages : List (Option ℕ))
    (c : Constraints fl) (health : Dict Health) (caps : List String)
    (policy : RoutingPolicy fl) where
  abbrev est : Provider fl → fl.Float
  est = est_for fl messages policy

  abbrev pool : List (Provider fl)
  pool = eligible fl providers c health caps

  -- The stages that a successful selection has passed.
  pub record Stages (s : Selection fl) : Type 0 where
    pub budget : List (Provider fl) × List Note
    pub budget_ok :
        relax fl policy.budget_mode no_budget over_budget pool (keep (affordable fl est c) pool)
        ≡ ok budget
    pub latency : List (Provider fl) × List Note
    pub latency_ok :
        relax fl policy.latency_mode no_latency over_latency budget.0
          (keep (within_latency fl c) budget.0)
        ≡ ok latency
    pub choice : Choice fl
    pub choice_ok : final_pick fl est latency.0 policy c.quality ≡ ok choice
    pub chosen_eq : s.chosen ≡ choice.0

  pub stages :
      (s : Selection fl)
      → select_provider fl providers messages c health caps policy ≡ ok s
      → Stages s
  unfolding select_provider
  stages s h =
      let (b, eb, h1) = and_then-ok _ _ h in
      let (u, eu, h2) = and_then-ok (nonempty fl b.0) _ h1 in
      let (l, el, h3) = and_then-ok _ _ h2 in
      let (ch, ec, h4) = and_then-ok _ _ h3 in
      record {
        budget = b;
        budget_ok = eb;
        latency = l;
        latency_ok = el;
        choice = ch;
        choice_ok = ec;
        chosen_eq = ground arith;
      }
