-- ===== src/Gateway/Router/Stages.antt =====
-- Lemmas on the stages of `select_provider`: what each keeps, and what the minimum is.
use polygate.Prelude.{◌≡◌, refl, subst, inl, inr, true, List, [], ◌∷◌, if◌then◌else◌, In, arith}
use polygate.Prelude.Floats.{Floats}
use polygate.Gateway.Router.{
  Mode, Note, RoutingError, Result, ok, err, ◌and_then◌, Provider, soft, hard,
}
use polygate.Gateway.Router.Select.{relax, min_from, cheapest}

-- What is returned behind a stage comes from what the stage returned.
module _ {ℓ κ} {A : Type ℓ} {B : Type κ} where
  pub and_then-ok :
      (stage : Result A) (next : A → Result B) {b : B}
      → stage and_then next ≡ ok b
      → (value : A) × (stage ≡ ok value) × (next value ≡ ok b)
  and_then-ok (err why) next h = cc
  and_then-ok (ok value) next h = (value, refl, h)

module _ (fl : Floats) where
  open fl use {Float, le, le_total, le_trans}

  -- The pool that a stage passes on lies in the pool before it.
  pub relax-In :
      (mode : Mode) (e : RoutingError) (n : Note) (pool kept : List (Provider fl))
      {r : List (Provider fl) × List Note} (p : Provider fl)
      → ((q : Provider fl) → In q kept → In q pool)
      → relax fl mode e n pool kept ≡ ok r
      → In p r.0
      → In p pool
  unfolding relax
  relax-In hard e n pool [] p sub h i = cc
  relax-In soft e n pool [] {r} p sub h i =
      let same : r.0 ≡ pool = ground arith in subst (λ l. In p l) same i
  relax-In mode e n pool (k ∷ ks) {r} p sub h i =
      let same : r.0 ≡ k ∷ ks = ground arith in sub p (subst (λ l. In p l) same i)

  -- A hard stage passes on the providers that meet the constraint, and no others.
  pub relax-hard :
      (mode : Mode) (e : RoutingError) (n : Note) (pool kept : List (Provider fl))
      {r : List (Provider fl) × List Note}
      → mode ≡ hard
      → relax fl mode e n pool kept ≡ ok r
      → r.0 ≡ kept
  unfolding relax
  relax-hard hard e n pool [] m h = cc
  relax-hard soft e n pool [] m h = cc
  relax-hard mode e n pool (p ∷ ps) m h = ground arith

  -- Where some provider meets the constraint, nothing is relaxed.
  pub relax-kept :
      (mode : Mode) (e : RoutingError) (n : Note) (pool kept : List (Provider fl)) (p : Provider fl)
      → In p kept
      → relax fl mode e n pool kept ≡ ok (kept, [])
  unfolding relax
  relax-kept mode e n pool [] p i = absurd i
  relax-kept mode e n pool (q ∷ qs) p i = refl

  module _ (est : Provider fl → Float) where
    pub min_from-In :
        (best : Provider fl) (ps : List (Provider fl)) → In (min_from fl est best ps) (best ∷ ps)
    unfolding min_from
    min_from-In best [] = inl refl
    min_from-In best (p ∷ ps) =
        ground (arith, min_from-In (if le (est best) (est p) then best else p) ps)

    le_refl : (p : Provider fl) → le (est p) (est p) ≡ true
    le_refl p = elim (le_total (est p) (est p)) [ inl h ↦ h | inr h ↦ h ]

    pub min_from-le :
        (best : Provider fl) (ps : List (Provider fl)) (q : Provider fl)
        → In q (best ∷ ps)
        → le (est (min_from fl est best ps)) (est q) ≡ true
    unfolding min_from
    min_from-le best [] q i = ground (arith, le_refl best)
    min_from-le best (p ∷ ps) q i =
        let next = if le (est best) (est p) then best else p in
        ground (
          arith,
          min_from-le next ps q,
          min_from-le next ps next (inl refl),
          le_total (est best) (est p),
          le_trans (est (min_from fl est next ps)) (est next) (est q),
        )

    pub cheapest-In :
        (ps : List (Provider fl)) (p : Provider fl) → cheapest fl est ps ≡ ok p → In p ps
    unfolding cheapest
    cheapest-In [] p h = cc
    cheapest-In (q ∷ qs) p h =
        let e : min_from fl est q qs ≡ p = ground arith in
        subst (λ x. In x (q ∷ qs)) e (min_from-In q qs)

    pub cheapest-le :
        (ps : List (Provider fl)) (p q : Provider fl)
        → cheapest fl est ps ≡ ok p
        → In q ps
        → le (est p) (est q) ≡ true
    unfolding cheapest
    cheapest-le [] p q h i = absurd i
    cheapest-le (x ∷ xs) p q h i =
        let e : min_from fl est x xs ≡ p = ground arith in
        subst (λ y. le (est y) (est q) ≡ true) e (min_from-le x xs q i)
