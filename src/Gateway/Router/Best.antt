-- ===== src/Gateway/Router/Best.antt =====
-- The quality policy `high` of `select_provider` (gateway/app/router.py).
use polygate.Prelude.{
  ℕ, ◌≤◌, ◌≡◌, inl, inr, true, Option, List, [], ◌∷◌, String, Dict, keep, max, In, In-keep, keep-In,
  arith, subst, sym, ◌∙◌,
}
use polygate.Prelude.Floats.{Floats}
use polygate.Gateway.Breaker.Registry.{Health}
use polygate.Gateway.Router.{Rank, Quality, ok, Provider, Constraints, RoutingPolicy, prefer_real}
use polygate.Gateway.Router.Select.{
  cheapest, highest_rank, has_rank, is_real, final_pick, Selection, select_provider, quality_rank,
  pick_high, Choice,
}
use polygate.Gateway.Router.Stages.{and_then-ok, cheapest-In, cheapest-le}
use polygate.Gateway.Router.Optimal.{est, st, Fits, Fits-In}

-- The rank of a provider; a missing one counts as 0.
abbrev pub rank_value : Rank → ℕ
rank_value Rank.absent = 0
rank_value (Rank.rank n) = n
rank_value Rank.invalid = 0

-- The rank is a number, not a Boolean or anything else.
abbrev pub IsRank : Rank → Type 0
IsRank Rank.absent = Unit
IsRank (Rank.rank n) = Unit
IsRank Rank.invalid = ⊥

module _ (fl : Floats) where
  pub quality_rank_value :
      (r : Rank) (n : ℕ) → quality_rank fl r ≡ ok n → IsRank r × (rank_value r ≡ n)
  unfolding quality_rank
  quality_rank_value Rank.absent n h = (tt, ground arith)
  quality_rank_value (Rank.rank m) n h = (tt, ground arith)
  quality_rank_value Rank.invalid n h = cc

  pub highest_rank-le :
      (ps : List (Provider fl)) (n : ℕ) (q : Provider fl)
      → highest_rank fl ps ≡ ok n
      → In q ps
      → IsRank q.quality_rank × (rank_value q.quality_rank ≤ n)
  unfolding highest_rank
  highest_rank-le [] n q h i = absurd i
  highest_rank-le (p ∷ ps) n q h i =
      let (m, e, k) = and_then-ok (quality_rank fl p.quality_rank) _ h in
      let (l, f, g) = and_then-ok (highest_rank fl ps) _ k in
      let top : max m l ≡ n = ground arith in
      elim i [
        | inl same ↦
            let (v, w) = quality_rank_value p.quality_rank m e in
            subst (λ x. IsRank x.quality_rank × (rank_value x.quality_rank ≤ n)) (sym same)
              (v, omega arith)
        | inr j ↦ let (v, w) = highest_rank-le ps l q f j in (v, omega arith)
      ]

  has_rank_value :
      (n : ℕ) (p : Provider fl) → has_rank fl n p ≡ true → rank_value p.quality_rank ≡ n
  has_rank_value n p h = ground arith

  pub value_has_rank :
      (n : ℕ) (p : Provider fl)
      → IsRank p.quality_rank
      → rank_value p.quality_rank ≡ n
      → has_rank fl n p ≡ true
  value_has_rank n p v h = ground arith

  -- What the branch for real providers returns.
  pick_high_best :
      (est : Provider fl → fl.Float) (pool reals : List (Provider fl)) (q : Provider fl)
      (ch : Choice fl)
      → In q reals
      → pick_high fl est pool prefer_real reals ≡ ok ch
      → In ch.0 reals
        × (rank_value q.quality_rank ≤ rank_value ch.0.quality_rank)
        × (rank_value q.quality_rank ≡ rank_value ch.0.quality_rank
            → fl.le (est ch.0) (est q) ≡ true)
  unfolding pick_high
  pick_high_best est pool [] q ch i h = absurd i
  pick_high_best est pool (r ∷ rs) q ch i h =
      let (n, e, k) = and_then-ok (highest_rank fl (r ∷ rs)) _ h in
      let (p, f, l) = and_then-ok (cheapest fl est (keep (has_rank fl n) (r ∷ rs))) _ k in
      let same : p ≡ ch.0 = ground arith in
      let (j, t) = In-keep (has_rank fl n) p (r ∷ rs) (cheapest-In fl est _ p f) in
      let (v, low) = highest_rank-le (r ∷ rs) n q e i in
      let top = has_rank_value n p t in
      subst
        (λ (x : Provider fl).
          In x (r ∷ rs)
          × (rank_value q.quality_rank ≤ rank_value x.quality_rank)
          × (rank_value q.quality_rank ≡ rank_value x.quality_rank → fl.le (est x) (est q) ≡ true))
        same
        (
          j,
          omega arith,
          λ eq.
              cheapest-le fl est _ p q f
                (keep-In (has_rank fl n) q (r ∷ rs) i (value_has_rank n q v (eq ∙ top))),
        )

module _ (fl : Floats) (providers : List (Provider fl)) (messages : List (Option ℕ))
    (c : Constraints fl) (health : Dict Health) (caps : List String) (policy : RoutingPolicy fl)
    (s : Selection fl) (h : select_provider fl providers messages c health caps policy ≡ ok s) where
  -- With `quality=high` and the strategy `prefer_real`, if some provider that fits is real, the one
  -- returned is real, its rank is at least as high, and at the same rank it is no dearer.
  pub high_is_best_real :
      (q : Provider fl)
      → c.quality ≡ Quality.high
      → policy.high_quality_strategy ≡ prefer_real
      → Fits fl providers messages c health caps policy s h q
      → is_real fl q ≡ true
      → (is_real fl s.chosen ≡ true)
        × (rank_value q.quality_rank ≤ rank_value s.chosen.quality_rank)
        × (rank_value q.quality_rank ≡ rank_value s.chosen.quality_rank
            → fl.le
                (est fl providers messages c health caps policy s h s.chosen)
                (est fl providers messages c health caps policy s h q)
              ≡ true)
  unfolding final_pick
  high_is_best_real q m str f real =
      let t = st fl providers messages c health caps policy s h in
      let e = est fl providers messages c health caps policy s h in
      let i =
        keep-In (is_real fl) q t.latency.0
          (Fits-In fl providers messages c health caps policy s h q f) real in
      let k : pick_high fl e t.latency.0 policy.high_quality_strategy
            (keep (is_real fl) t.latency.0)
          ≡ ok t.choice =
        subst (λ x. final_pick fl e t.latency.0 policy x ≡ ok t.choice) m t.choice_ok in
      let k' =
        subst (λ x. pick_high fl e t.latency.0 x (keep (is_real fl) t.latency.0) ≡ ok t.choice) str
          k in
      let (j, up_to, least) = pick_high_best fl e t.latency.0 _ q t.choice i k' in
      subst
        (λ (x : Provider fl).
          (is_real fl x ≡ true)
          × (rank_value q.quality_rank ≤ rank_value x.quality_rank)
          × (rank_value q.quality_rank ≡ rank_value x.quality_rank → fl.le (e x) (e q) ≡ true))
        (sym t.chosen_eq) ((In-keep (is_real fl) t.choice.0 t.latency.0 j).1, up_to, least)
