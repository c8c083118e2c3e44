-- ===== src/Automation/Versions/Dropped.antt =====
-- Which record a full document loses: the oldest.
use polygate.Prelude.{
  ℕ, suc, ◌≤◌, ◌<◌, ◌≡◌, refl, sym, ap, subst, ◌∙◌, ◌⊎◌, inl, inr, Bool, not, List, [], ◌∷◌, ◌++◌,
  arith, leb, length, keep, In, Bool-cases, All, In-All, length-snoc, length-keep_lt, keep-snoc,
}
use polygate.Automation.Versions.{
  active, max_versions, mem, PolicyVersion, is_active, drop_oldest, insert_by_version,
  sort_by_version,
}
use polygate.Automation.Versions.Next.{IsOld}

module _ (Draft : Type 0) where
  abbrev Version : Type 0
  Version = PolicyVersion Draft

  -- The first item is a record no younger than `n`.
  abbrev HeadLe : ℕ → List Version → Type 0
  HeadLe n [] = ⊥
  HeadLe n (v ∷ vs) = v.version ≤ n

  insert-HeadLe :
      (v : Version) (vs : List Version) → HeadLe v.version (insert_by_version Draft v vs)
  insert-HeadLe v [] = omega arith
  insert-HeadLe v (w ∷ ws) = elim (Bool-cases (leb v.version w.version)) [
    | inl h ↦ rw h (omega arith)
    | inr h ↦ rw h (ground arith)
  ]

  insert-HeadLe_old :
      (n : ℕ) (v : Version) (vs : List Version)
      → HeadLe n vs
      → HeadLe n (insert_by_version Draft v vs)
  insert-HeadLe_old n v [] h = absurd h
  insert-HeadLe_old n v (w ∷ ws) h = elim (Bool-cases (leb v.version w.version)) [
    | inl k ↦ rw k (ground arith)
    | inr k ↦ rw k h
  ]

  sort-HeadLe :
      (v : Version) (vs : List Version) → In v vs → HeadLe v.version (sort_by_version Draft vs)
  sort-HeadLe v [] i = absurd i
  sort-HeadLe v (w ∷ ws) (inl e) =
      subst
        (λ (x : Version). HeadLe x.version (insert_by_version Draft w (sort_by_version Draft ws)))
        (sym e) (insert-HeadLe w (sort_by_version Draft ws))
  sort-HeadLe v (w ∷ ws) (inr i) =
      insert-HeadLe_old v.version w (sort_by_version Draft ws) (sort-HeadLe v ws i)

  In-insert :
      (x v : Version) (vs : List Version) → In x (insert_by_version Draft v vs) → (x ≡ v) ⊎ In x vs
  In-insert x v [] i = i
  In-insert x v (w ∷ ws) i = elim (Bool-cases (leb v.version w.version)) [
    | inl h ↦ let j : In x (v ∷ w ∷ ws) = rw h at i in j
    | inr h ↦
        (let j : In x (w ∷ insert_by_version Draft v ws) = rw h at i in
          elim j [
            | inl e ↦ inr (inl e)
            | inr k ↦ elim (In-insert x v ws k) [ inl e ↦ inl e | inr l ↦ inr (inr l) ]
          ])
  ]

  In-sort : (x : Version) (vs : List Version) → In x (sort_by_version Draft vs) → In x vs
  In-sort x [] i = i
  In-sort x (v ∷ vs) i = elim (In-insert x v (sort_by_version Draft vs) i) [
    | inl e ↦ inl e
    | inr j ↦ inr (In-sort x vs j)
  ]

  -- The oldest of the records.
  pub record Oldest (vs : List Version) : Type 0 where
    pub oldest : Version
    pub rest : List Version
    pub sorted : sort_by_version Draft vs ≡ oldest ∷ rest
    pub there : In oldest vs
    pub least : (v : Version) → In v vs → oldest.version ≤ v.version

  head_of :
      (vs ws : List Version) → sort_by_version Draft vs ≡ ws → (v : Version) → In v vs → Oldest vs
  head_of vs [] e v i = absurd (subst (HeadLe v.version) e (sort-HeadLe v vs i))
  head_of vs (w ∷ ws) e v i = record {
    oldest = w;
    rest = ws;
    sorted = e;
    there = In-sort w vs (subst (In w) (sym e) (inl refl));
    least = λ x j. subst (HeadLe x.version) e (sort-HeadLe x vs j);
  }

  pub sort-Oldest : (v : Version) (vs : List Version) → Oldest (v ∷ vs)
  sort-Oldest v vs = head_of (v ∷ vs) _ refl v (inl refl)

  old_ones :
      (new : Version) (vs : List Version)
      → new.status ≡ active
      → All (IsOld Draft new.version) vs
      → keep (λ v. not (is_active Draft v)) (vs ++ new ∷ []) ≡ vs
  old_ones new [] a h = rw a refl
  old_ones new (v ∷ vs) a ((b, c, d), t) = ground (arith, old_ones new vs a t)

  -- All but the oldest.
  abbrev pub not_oldest : {vs : List Version} → Oldest vs → Version → Bool
  not_oldest o v = not (mem v.version (o.oldest.version ∷ []))

  pub dropped :
      (new : Version) (vs : List Version) (o : Oldest vs)
      → new.status ≡ active
      → All (IsOld Draft new.version) vs
      → length vs ≡ max_versions
      → drop_oldest Draft (vs ++ new ∷ []) ≡ keep (not_oldest o) vs ++ new ∷ []
  unfolding drop_oldest
  dropped new vs o a h l =
      let full : length (vs ++ new ∷ []) ≡ 21 = length-snoc new vs ∙ ap suc l in
      let old = old_ones new vs a h in
      let (_, _, younger) = In-All (IsOld Draft new.version) o.oldest vs h o.there in
      rw (full, old) (rw (o.sorted) (keep-snoc (not_oldest o) new vs (ground arith)))

  pub not_dropped :
      (new : Version) (vs : List Version)
      → length vs < max_versions
      → drop_oldest Draft (vs ++ new ∷ []) ≡ vs ++ new ∷ []
  unfolding drop_oldest
  not_dropped new vs l = ground (arith, length-snoc new vs)

  pub keep-shorter :
      (vs : List Version) (o : Version)
      → In o vs
      → length (keep (λ (v : Version). not (mem v.version (o.version ∷ []))) vs) < length vs
  keep-shorter vs o i =
      length-keep_lt (λ (v : Version). not (mem v.version (o.version ∷ []))) o vs i (ground arith)
