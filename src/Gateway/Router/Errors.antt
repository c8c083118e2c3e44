-- ===== src/Gateway/Router/Errors.antt =====
-- When `select_provider` raises, and why.
use polygate.Prelude.{
  ℕ, ◌≤◌, ◌≡◌, ◌≢◌, refl, ◌⊎◌, inl, inr, true, false, Option, List, [], ◌∷◌, String, Dict, leb,
  keep, or_else, max, In, In-keep, keep-In, arith, Bool-cases, subst, sym, ap, le→leb, leb→le,
}
use polygate.Prelude.Floats.{Floats}
use polygate.Gateway.Breaker.Registry.{Health}
use polygate.Gateway.Router.{
  Rank, Quality, Mode, Strategy, Note, Pick, RoutingError, Result, ok, err, ◌and_then◌, Provider,
  Constraints, RoutingPolicy, soft, hard, prefer_real, lowest_cost, no_budget, no_eligible,
  no_latency, bad_rank, empty_min, over_budget, over_latency,
}
use polygate.Gateway.Router.Select.{
  eligible, cheapest, highest_rank, has_rank, is_real, final_pick, select_provider, quality_rank,
  pick_high, pick_balanced, prefer_within, lowest, relax, nonempty, affordable, within_latency,
  est_for,
}
use polygate.Gateway.Router.Stages.{and_then-ok, relax-In, relax-kept}
use polygate.Gateway.Router.Gates.{PassesGates, eligible_iff}
use polygate.Gateway.Router.Best.{IsRank, value_has_rank, quality_rank_value}

module _ {ℓ κ} {A : Type ℓ} {B : Type κ} where
  and_then-err :
      (stage : Result A) (next : A → Result B) {why : RoutingError}
      → stage and_then next ≡ err why
      → (stage ≡ err why) ⊎ ((value : A) × (stage ≡ ok value) × (next value ≡ err why))
  and_then-err (err e) next {why} h = inl (let same : e ≡ why = cc in ap err same)
  and_then-err (ok value) next h = inr (value, refl, h)

module _ (fl : Floats) where
  relax_err :
      (mode : Mode) (e : RoutingError) (n : Note) (pool kept : List (Provider fl))
      (e' : RoutingError)
      → relax fl mode e n pool kept ≡ err e'
      → (e' ≡ e) × (mode ≡ hard) × (kept ≡ [])
  unfolding relax
  relax_err hard e n pool [] e' h = (ground arith, refl, refl)
  relax_err soft e n pool [] e' h = cc
  relax_err mode e n pool (p ∷ ps) e' h = cc

  -- A stage never empties a pool.
  relax_nonempty :
      (mode : Mode) (e : RoutingError) (n : Note) (pool kept : List (Provider fl)) (p : Provider fl)
      {r : List (Provider fl) × List Note}
      → In p pool
      → relax fl mode e n pool kept ≡ ok r
      → (x : Provider fl) × In x r.0
  unfolding relax
  relax_nonempty hard e n pool [] p i h = cc
  relax_nonempty soft e n pool [] p {r} i h =
      let same : pool ≡ r.0 = ground arith in (p, subst (λ l. In p l) same i)
  relax_nonempty mode e n pool (k ∷ ks) p {r} i h =
      let same : k ∷ ks ≡ r.0 = ground arith in (k, subst (λ l. In k l) same (inl refl))

  cheapest_ok :
      (est : Provider fl → fl.Float) (ps : List (Provider fl)) (x : Provider fl) (e : RoutingError)
      → In x ps
      → cheapest fl est ps ≢ err e
  unfolding cheapest
  cheapest_ok est [] x e i h = absurd i
  cheapest_ok est (p ∷ ps) x e i h = cc

  quality_rank_err :
      (r : Rank) (e : RoutingError) → quality_rank fl r ≡ err e → (e ≡ bad_rank) × (¬ IsRank r)
  unfolding quality_rank
  quality_rank_err Rank.absent e h = cc
  quality_rank_err (Rank.rank n) e h = cc
  quality_rank_err Rank.invalid e h = (ground arith, λ v. v)

  highest_rank_err :
      (ps : List (Provider fl)) (e : RoutingError)
      → highest_rank fl ps ≡ err e
      → (e ≡ bad_rank) × ((q : Provider fl) × In q ps × (¬ IsRank q.quality_rank))
  unfolding highest_rank
  highest_rank_err [] e h = cc
  highest_rank_err (p ∷ ps) e h = elim (and_then-err (quality_rank fl p.quality_rank) _ h) [
    | inl bad ↦ let (same, v) = quality_rank_err p.quality_rank e bad in (same, (p, inl refl, v))
    | inr (n, _, k) ↦ elim (and_then-err (highest_rank fl ps) _ k) [
      | inl bad ↦
          let (same, found) = highest_rank_err ps e bad in
          let (q, i, v) = found in (same, (q, inr i, v))
      | inr (m, _, l) ↦ cc
    ]
  ]

  highest_rank_attained :
      (p : Provider fl) (ps : List (Provider fl)) (n : ℕ)
      → highest_rank fl (p ∷ ps) ≡ ok n
      → (x : Provider fl) × In x (p ∷ ps) × (has_rank fl n x ≡ true)
  unfolding highest_rank
  highest_rank_attained p [] n h =
      let (m, e, k) = and_then-ok (quality_rank fl p.quality_rank) _ h in
      let (v, w) = quality_rank_value fl p.quality_rank m e in
      let top : max m 0 ≡ n = ground arith in (p, inl refl, value_has_rank fl n p v (omega arith))
  highest_rank_attained p (q ∷ qs) n h =
      let (m, e, k) = and_then-ok (quality_rank fl p.quality_rank) _ h in
      let (v, w) = quality_rank_value fl p.quality_rank m e in
      let (l, f, g) = and_then-ok (highest_rank fl (q ∷ qs)) _ k in
      let top : max m l ≡ n = ground arith in
      elim (Bool-cases (leb l m)) [
        | inl less ↦ (p, inl refl, value_has_rank fl n p v (omega (arith, leb→le l m less)))
        | inr more ↦
            let (x, i, r) = highest_rank_attained q qs l f in
            let same : l ≡ n = ground arith in
            (x, inr i, subst (λ y. has_rank fl y x ≡ true) same r)
      ]

  module _ (est : Provider fl → fl.Float) (pool : List (Provider fl)) (e : RoutingError) where
    lowest_ok : (pick : Pick) (x : Provider fl) → In x pool → lowest fl est pool pick ≢ err e
    lowest_ok pick x i h = elim (and_then-err (cheapest fl est pool) _ h) [
      | inl bad ↦ cheapest_ok est pool x e i bad
      | inr (p, _, k) ↦ cc
    ]

    pick_high_err :
        (s : Strategy) (reals : List (Provider fl)) (x : Provider fl)
        → In x pool
        → pick_high fl est pool s reals ≡ err e
        → (e ≡ bad_rank)
          × (s ≡ prefer_real)
          × ((q : Provider fl) × In q reals × (¬ IsRank q.quality_rank))
    unfolding pick_high
    pick_high_err lowest_cost reals x i h = absurd (lowest_ok _ x i h)
    pick_high_err prefer_real [] x i h = absurd (lowest_ok _ x i h)
    pick_high_err prefer_real (r ∷ rs) x i h = elim (and_then-err (highest_rank fl (r ∷ rs)) _ h) [
      | inl bad ↦ let (same, found) = highest_rank_err (r ∷ rs) e bad in (same, refl, found)
      | inr (n, f, k) ↦
          let (y, j, t) = highest_rank_attained r rs n f in
          elim (and_then-err (cheapest fl est (keep (has_rank fl n) (r ∷ rs))) _ k) [
            | inl bad ↦ absurd (cheapest_ok est _ y e (keep-In (has_rank fl n) y (r ∷ rs) j t) bad)
            | inr (p, _, l) ↦ cc
          ]
    ]

    pick_balanced_ok :
        (t : fl.Float) (reals : List (Provider fl)) (low : Provider fl)
        → pick_balanced fl est pool t reals low ≢ err e
    unfolding pick_balanced
    pick_balanced_ok t [] low h = cc
    pick_balanced_ok t (r ∷ rs) low h = elim (Bool-cases (is_real fl low)) [
      | inl real ↦ ground arith
      | inr mock ↦
          elim (and_then-err (cheapest fl est (r ∷ rs))
            (λ real. ok (prefer_within fl est pool t real low)) (rw mock at h)) [
              | inl bad ↦ cheapest_ok est (r ∷ rs) r e (inl refl) bad
              | inr (p, _, k) ↦ cc
            ]
    ]

    final_pick_err :
        (policy : RoutingPolicy fl) (q : Quality) (x : Provider fl)
        → In x pool
        → final_pick fl est pool policy q ≡ err e
        → (e ≡ bad_rank)
          × (q ≡ Quality.high)
          × (policy.high_quality_strategy ≡ prefer_real)
          × ((y : Provider fl) × In y pool × (¬ IsRank y.quality_rank))
    unfolding final_pick
    final_pick_err policy Quality.high x i h =
        let (same, str, found) = pick_high_err policy.high_quality_strategy _ x i h in
        let (y, j, v) = found in (same, refl, str, (y, (In-keep (is_real fl) y pool j).0, v))
    final_pick_err policy Quality.cheap x i h = absurd (lowest_ok _ x i h)
    final_pick_err policy Quality.balanced x i h = elim (and_then-err (cheapest fl est pool) _ h) [
      | inl bad ↦ absurd (cheapest_ok est pool x e i bad)
      | inr (low, _, k) ↦ absurd (pick_balanced_ok _ _ low k)
    ]

module _ (fl : Floats) (providers : List (Provider fl)) (messages : List (Option ℕ))
    (c : Constraints fl) (health : Dict Health) (caps : List String)
    (policy : RoutingPolicy fl) where
  abbrev est : Provider fl → fl.Float
  est = est_for fl messages policy

  abbrev pool : List (Provider fl)
  pool = eligible fl providers c health caps

  abbrev pub MayServe : Provider fl → Type 0
  MayServe p = In p providers × PassesGates fl p c health caps

  -- What each error says of the providers, the constraints and the policy.
  abbrev pub Why : RoutingError → Type 0
  Why no_budget =
      (policy.budget_mode ≡ hard)
      × ((q : Provider fl) → MayServe q → fl.le (est q) c.max_cost_usd ≡ false)
  Why no_eligible = (q : Provider fl) → ¬ MayServe q
  Why no_latency =
      (policy.latency_mode ≡ hard)
      × ((q : Provider fl)
          → MayServe q
          → fl.le (est q) c.max_cost_usd ≡ true
          → ¬ (or_else q.typical_latency_ms 0 ≤ c.latency_target_ms))
  Why bad_rank =
      (c.quality ≡ Quality.high)
      × (policy.high_quality_strategy ≡ prefer_real)
      × ((q : Provider fl) × MayServe q × (¬ IsRank q.quality_rank))
  Why empty_min = ⊥

  budget_reason :
      (e : RoutingError)
      → relax fl policy.budget_mode no_budget over_budget pool (keep (affordable fl est c) pool)
        ≡ err e
      → Why e
  budget_reason e h =
      let (same, mode, none_left) =
        relax_err fl policy.budget_mode no_budget over_budget pool _ e h in
      subst Why (sym same) (
        mode,
        λ q f. elim (Bool-cases (fl.le (est q) c.max_cost_usd)) [
          | inl a ↦ absurd (
              subst (λ l. In q l) none_left
                (keep-In (affordable fl est c) q pool
                  ((eligible_iff fl providers c health caps q).1 f) a))
          | inr a ↦ a
        ],
      )

  nonempty_err :
      (ps : List (Provider fl)) (e : RoutingError)
      → nonempty fl ps ≡ err e
      → (e ≡ no_eligible) × (ps ≡ [])
  nonempty_err [] e h = (ground arith, refl)
  nonempty_err (p ∷ ps) e h = cc

  nonempty_ok :
      (ps : List (Provider fl)) {u : Unit {0}} → nonempty fl ps ≡ ok u → (x : Provider fl) × In x ps
  nonempty_ok [] h = cc
  nonempty_ok (p ∷ ps) h = (p, inl refl)

  module _ (b : List (Provider fl) × List Note)
      (ok_b : relax fl policy.budget_mode no_budget over_budget pool
          (keep (affordable fl est c) pool)
        ≡ ok b) where
    empty_reason : (e : RoutingError) → nonempty fl b.0 ≡ err e → Why e
    empty_reason e k =
        let (same, none_left) = nonempty_err b.0 e k in
        subst Why (sym same) (λ q f.
          let (x, i) =
            relax_nonempty fl policy.budget_mode no_budget over_budget pool _ q
              ((eligible_iff fl providers c health caps q).1 f) ok_b in
          subst (λ l. In x l) none_left i)

    slow_reason :
        (e : RoutingError)
        → relax fl policy.latency_mode no_latency over_latency b.0 (keep (within_latency fl c) b.0)
          ≡ err e
        → Why e
    slow_reason e h =
        let (same, mode, none_left) =
          relax_err fl policy.latency_mode no_latency over_latency b.0 _ e h in
        subst Why (sym same) (
          mode,
          λ q f a l.
              let i =
                keep-In (affordable fl est c) q pool
                  ((eligible_iff fl providers c health caps q).1 f) a in
              let kept : keep (affordable fl est c) pool ≡ b.0 =
                ground (
                  arith,
                  relax-kept fl policy.budget_mode no_budget over_budget pool _ q i,
                  ok_b,
                ) in
              subst (λ l. In q l) none_left
                (keep-In (within_latency fl c) q b.0 (subst (λ l. In q l) kept i) (le→leb _ _ l)),
        )

    rank_reason :
        (e : RoutingError) (x : Provider fl) (l : List (Provider fl) × List Note)
        → In x b.0
        → relax fl policy.latency_mode no_latency over_latency b.0 (keep (within_latency fl c) b.0)
          ≡ ok l
        → final_pick fl est l.0 policy c.quality ≡ err e
        → Why e
    rank_reason e x l i ok_l h =
        let (y, j) = relax_nonempty fl policy.latency_mode no_latency over_latency b.0 _ x i ok_l in
        let (same, quality, strategy, found) = final_pick_err fl est l.0 e policy c.quality y j h in
        let (z, k, v) = found in
        let in_b =
          relax-In fl policy.latency_mode no_latency over_latency b.0 _ z
            (λ q t. (In-keep (within_latency fl c) q b.0 t).0) ok_l k in
        let in_pool =
          relax-In fl policy.budget_mode no_budget over_budget pool _ z
            (λ q t. (In-keep (affordable fl est c) q pool t).0) ok_b in_b in
        subst Why (sym same)
          (quality, strategy, (z, (eligible_iff fl providers c health caps z).0 in_pool, v))

  -- Each error has its reason: a hard budget that no provider past the gates meets, no provider past
  -- the gates at all, a hard latency target that none of the affordable ones meets, or, for
  -- `quality=high` with `prefer_real`, a provider past the gates whose rank is malformed. The
  -- minimum of an empty list is never taken.
  pub select_error :
      (e : RoutingError)
      → select_provider fl providers messages c health caps policy ≡ err e
      → Why e
  unfolding select_provider
  select_error e h =
      elim (and_then-err
        (relax fl policy.budget_mode no_budget over_budget pool (keep (affordable fl est c) pool)) _
        h) [
          | inl bad ↦ budget_reason e bad
          | inr (b, ok_b, h1) ↦ elim (and_then-err (nonempty fl b.0) _ h1) [
            | inl bad ↦ empty_reason b ok_b e bad
            | inr (u, ok_u, h2) ↦
                elim (and_then-err
                  (relax fl policy.latency_mode no_latency over_latency b.0
                    (keep (within_latency fl c) b.0))
                  _ h2) [
                    | inl bad ↦ slow_reason b ok_b e bad
                    | inr (l, ok_l, h3) ↦
                        elim (and_then-err (final_pick fl est l.0 policy c.quality) _ h3) [
                          | inl bad ↦
                              let (x, i) = nonempty_ok b.0 ok_u in
                              rank_reason b ok_b e x l i ok_l bad
                          | inr (ch, _, h4) ↦ cc
                        ]
                  ]
          ]
        ]
