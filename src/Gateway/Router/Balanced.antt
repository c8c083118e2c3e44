-- ===== src/Gateway/Router/Balanced.antt =====
-- The quality policy `balanced` of `select_provider` (gateway/app/router.py).
use polygate.Prelude.{
  ℕ, ◌≡◌, ◌⊎◌, inl, inr, true, false, Bool-cases, refl, Option, List, [], ◌∷◌, String, Dict, keep,
  In, In-keep, keep-In, arith, subst, sym,
}
use polygate.Prelude.Floats.{Floats}
use polygate.Gateway.Breaker.Registry.{Health}
use polygate.Gateway.Router.{Quality, ok, ◌and_then◌, Provider, Constraints, RoutingPolicy}
use polygate.Gateway.Router.Select.{
  cheapest, is_real, final_pick, Selection, select_provider, pick_balanced, prefer_within, Choice,
}
use polygate.Gateway.Router.Stages.{and_then-ok, cheapest-In, cheapest-le}
use polygate.Gateway.Router.Gates.{balanced_cases}
use polygate.Gateway.Router.Optimal.{est, st, Fits, Fits-In, In-Fits}

module _ (fl : Floats) (est : Provider fl → fl.Float) (pool : List (Provider fl))
    (ch : Choice fl) where
  -- The branch in which `low` is a mock and there are real providers.
  mock_low :
      (t : fl.Float) (r : Provider fl) (rs : List (Provider fl)) (low : Provider fl)
      → is_real fl low ≡ false
      → pick_balanced fl est pool t (r ∷ rs) low ≡ ok ch
      → (p : Provider fl) → In p (r ∷ rs)
      → fl.le (est p) (fl.times (est low) (fl.plus (fl.of_ℕ 1) t)) ≡ true
      → In ch.0 (r ∷ rs) × (fl.le (est ch.0) (est p) ≡ true)
  unfolding pick_balanced prefer_within
  mock_low t r rs low mock h p i close =
      let (q, e, k) =
        and_then-ok (cheapest fl est (r ∷ rs)) (λ x. ok (prefer_within fl est pool t x low))
          (rw mock at h) in
      let least = cheapest-le fl est (r ∷ rs) q p e i in
      let near = fl.le_trans _ _ _ least close in
      let same : q ≡ ch.0 = ground arith in
      subst (λ x. In x (r ∷ rs) × (fl.le (est x) (est p) ≡ true)) same
        (cheapest-In fl est (r ∷ rs) q e, least)

  real_low :
      (t : fl.Float) (reals : List (Provider fl)) (low : Provider fl)
      → is_real fl low ≡ true
      → pick_balanced fl est pool t reals low ≡ ok ch
      → ch.0 ≡ low
  unfolding pick_balanced
  real_low t [] low real h = ground arith
  real_low t (r ∷ rs) low real h = ground arith

  pick_balanced_cases :
      (t : fl.Float) (all : List (Provider fl)) (low : Provider fl)
      → ((p : Provider fl) → In p all → fl.le (est low) (est p) ≡ true)
      → pick_balanced fl est pool t (keep (is_real fl) all) low ≡ ok ch
      → ((ch.0 ≡ low)
          ⊎ ((is_real fl ch.0 ≡ true)
              × (fl.le (est ch.0) (fl.times (est low) (fl.plus (fl.of_ℕ 1) t)) ≡ true)))
        × ((p : Provider fl)
            → In p all
            → is_real fl p ≡ true
            → fl.le (est p) (fl.times (est low) (fl.plus (fl.of_ℕ 1) t)) ≡ true
            → (is_real fl ch.0 ≡ true) × (fl.le (est ch.0) (est p) ≡ true))
  unfolding pick_balanced
  pick_balanced_cases t all low least h = (one (keep (is_real fl) all) refl h, some_real)
    where
      one :
          (reals : List (Provider fl))
          → keep (is_real fl) all ≡ reals
          → pick_balanced fl est pool t reals low ≡ ok ch
          → (ch.0 ≡ low)
            ⊎ ((is_real fl ch.0 ≡ true)
                × (fl.le (est ch.0) (fl.times (est low) (fl.plus (fl.of_ℕ 1) t)) ≡ true))
      one [] e k = inl (ground arith)
      one (r ∷ rs) e k = elim (balanced_cases fl est pool ch t r rs low k) [
        | inl same ↦ inl same
        | inr (q, cheap, same, close) ↦
            let i = subst (In q) (sym e) (cheapest-In fl est (r ∷ rs) q cheap) in
            inr (
              subst (λ x. is_real fl x ≡ true) (sym same) (In-keep (is_real fl) q all i).1,
              subst (λ x. fl.le (est x) (fl.times (est low) (fl.plus (fl.of_ℕ 1) t)) ≡ true)
                  (sym same) close,
            )
      ]

      preferred :
          (reals : List (Provider fl))
          → keep (is_real fl) all ≡ reals
          → is_real fl low ≡ false
          → pick_balanced fl est pool t reals low ≡ ok ch
          → (p : Provider fl) → In p reals
          → fl.le (est p) (fl.times (est low) (fl.plus (fl.of_ℕ 1) t)) ≡ true
          → (is_real fl ch.0 ≡ true) × (fl.le (est ch.0) (est p) ≡ true)
      preferred [] e mock k p i close = absurd i
      preferred (r ∷ rs) e mock k p i close =
          let (j, l) = mock_low t r rs low mock k p i close in
          ((In-keep (is_real fl) ch.0 all (subst (In ch.0) (sym e) j)).1, l)

      some_real :
          (p : Provider fl)
          → In p all
          → is_real fl p ≡ true
          → fl.le (est p) (fl.times (est low) (fl.plus (fl.of_ℕ 1) t)) ≡ true
          → (is_real fl ch.0 ≡ true) × (fl.le (est ch.0) (est p) ≡ true)
      some_real p i y close = elim (Bool-cases (is_real fl low)) [
        | inl real ↦
            subst (λ x. (is_real fl x ≡ true) × (fl.le (est x) (est p) ≡ true))
              (sym (real_low t (keep (is_real fl) all) low real h)) (real, least p i)
        | inr mock ↦
            preferred (keep (is_real fl) all) refl mock h p (keep-In (is_real fl) p all i y) close
      ]

module _ (fl : Floats) (providers : List (Provider fl)) (messages : List (Option ℕ))
    (c : Constraints fl) (health : Dict Health) (caps : List String) (policy : RoutingPolicy fl)
    (s : Selection fl) (h : select_provider fl providers messages c health caps policy ≡ ok s) where
  -- A provider within the tolerated excess over the estimate of another.
  abbrev pub IsTolerable : Provider fl → Provider fl → Type 0
  IsTolerable low p =
      fl.le (est fl providers messages c health caps policy s h p) (
        fl.times (est fl providers messages c health caps policy s h low)
          (fl.plus (fl.of_ℕ 1) policy.balanced_price_tolerance))
      ≡ true

  -- What `quality=balanced` returns, from a cheapest provider `low` of those that fit.
  pub record IsBalanced (low : Provider fl) : Type 0 where
    pub low_fits : Fits fl providers messages c health caps policy s h low
    pub low_is_cheapest :
        (p : Provider fl)
        → Fits fl providers messages c health caps policy s h p
        → fl.le
            (est fl providers messages c health caps policy s h low)
            (est fl providers messages c health caps policy s h p)
          ≡ true
    pub low_or_real : (s.chosen ≡ low) ⊎ ((is_real fl s.chosen ≡ true) × IsTolerable low s.chosen)
    pub prefers_real :
        (r : Provider fl)
        → Fits fl providers messages c health caps policy s h r
        → is_real fl r ≡ true
        → IsTolerable low r
        → (is_real fl s.chosen ≡ true)
          × (fl.le
                (est fl providers messages c health caps policy s h s.chosen)
                (est fl providers messages c health caps policy s h r)
              ≡ true)

  -- With `quality=balanced`, if some provider fits, there is a cheapest one of those that fit such that
  -- the one returned is it, or is real and costs at most the tolerated excess over it; and if some real
  -- provider that fits costs at most that, the one returned is real, and no such one is cheaper.
  pub balanced_is_tolerable :
      (q : Provider fl)
      → c.quality ≡ Quality.balanced
      → Fits fl providers messages c health caps policy s h q
      → (low : Provider fl) × IsBalanced low
  unfolding final_pick
  balanced_is_tolerable q m f =
      let t = st fl providers messages c health caps policy s h in
      let e = est fl providers messages c health caps policy s h in
      let reals = keep (is_real fl) t.latency.0 in
      let k : (cheapest fl e t.latency.0
            and_then pick_balanced fl e t.latency.0 policy.balanced_price_tolerance reals)
          ≡ ok t.choice =
        subst (λ x. final_pick fl e t.latency.0 policy x ≡ ok t.choice) m t.choice_ok in
      let (low, found, rest) = and_then-ok (cheapest fl e t.latency.0) _ k in
      let least : (p : Provider fl) → In p t.latency.0 → fl.le (e low) (e p) ≡ true =
        λ p i. cheapest-le fl e t.latency.0 low p found i in
      let (one, real) =
        pick_balanced_cases fl e t.latency.0 t.choice policy.balanced_price_tolerance t.latency.0
          low least rest in
      (
        low,
        record {
          low_fits =
              In-Fits fl providers messages c health caps policy s h q f low
                (cheapest-In fl e t.latency.0 low found);
          low_is_cheapest =
              λ p g. least p (Fits-In fl providers messages c health caps policy s h p g);
          low_or_real =
              subst (λ x. (x ≡ low) ⊎ ((is_real fl x ≡ true) × IsTolerable low x)) (sym t.chosen_eq)
                one;
          prefers_real = λ r g y close.
              subst (λ x. (is_real fl x ≡ true) × (fl.le (e x) (e r) ≡ true)) (sym t.chosen_eq)
                (real r (Fits-In fl providers messages c health caps policy s h r g) y close);
        },
      )
