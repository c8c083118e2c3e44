-- ===== src/Automation/Versions/Next.antt =====
-- The document that a commit writes is valid again, and what it keeps.
use polygate.Prelude.{
  ℕ, ◌≤◌, ◌<◌, ◌≡◌, refl, ap, ◌∙◌, Bool, true, false, ◌||◌, List, [], ◌∷◌, ◌++◌, arith, ◌==◌,
  length, keep, All, keep-snoc, length-snoc,
}
use polygate.Automation.Versions.{
  active, archived, max_versions, mem, all_unique, all_positive, highest, PolicyVersion, is_active,
  nums,
}
use polygate.Automation.Versions.Valid.{IsValid}

module _ (Draft : Type 0) where
  abbrev Version : Type 0
  Version = PolicyVersion Draft

  -- An archived record, older than the new one.
  abbrev pub IsOld : ℕ → Version → Type 0
  IsOld n v = (v.status ≡ archived) × (1 ≤ v.version) × (v.version < n)

  old_not_active : (n : ℕ) (vs : List Version) → All (IsOld n) vs → keep (is_active Draft) vs ≡ []
  old_not_active n [] h = refl
  old_not_active n (v ∷ vs) ((a, b, c), t) = ground (arith, old_not_active n vs t)

  mem-keep :
      (n : ℕ) (p : Version → Bool) (vs : List Version)
      → mem n (nums Draft vs) ≡ false
      → mem n (nums Draft (keep p vs)) ≡ false
  mem-keep n p [] h = refl
  mem-keep n p (v ∷ vs) h = ground (arith, mem-keep n p vs)

  pub all_unique-keep :
      (p : Version → Bool) (vs : List Version)
      → all_unique (nums Draft vs) ≡ true
      → all_unique (nums Draft (keep p vs)) ≡ true
  all_unique-keep p [] h = refl
  all_unique-keep p (v ∷ vs) h = ground (arith, all_unique-keep p vs, mem-keep v.version p vs)

  mem-snoc : (n m : ℕ) (xs : List ℕ) → mem n (xs ++ m ∷ []) ≡ (mem n xs || n == m)
  mem-snoc n m [] = ground arith
  mem-snoc n m (x ∷ xs) = ground (arith, mem-snoc n m xs)

  nums-snoc :
      (v : Version) (vs : List Version)
      → nums Draft (vs ++ v ∷ []) ≡ nums Draft vs ++ v.version ∷ []
  nums-snoc v [] = refl
  nums-snoc v (w ∷ ws) = ap (λ xs. w.version ∷ xs) (nums-snoc v ws)

  -- Old records, then the new one, are in order.
  all_unique-snoc :
      (new : Version) (vs : List Version)
      → All (IsOld new.version) vs
      → all_unique (nums Draft vs) ≡ true
      → all_unique (nums Draft (vs ++ new ∷ [])) ≡ true
  all_unique-snoc new [] h k = refl
  all_unique-snoc new (v ∷ vs) ((a, b, c), t) k = ground (
    arith,
    all_unique-snoc new vs t,
    mem-snoc v.version new.version (nums Draft vs),
    nums-snoc new vs,
  )

  highest-snoc :
      (new : Version) (vs : List Version)
      → All (IsOld new.version) vs
      → highest (nums Draft (vs ++ new ∷ [])) ≡ new.version
  highest-snoc new [] h = ground arith
  highest-snoc new (v ∷ vs) ((a, b, c), t) = ground (arith, highest-snoc new vs t)

  positive-snoc :
      (new : Version) (vs : List Version)
      → All (IsOld new.version) vs
      → 1 ≤ new.version
      → all_positive (nums Draft (vs ++ new ∷ [])) ≡ true
  positive-snoc new [] h p = ground arith
  positive-snoc new (v ∷ vs) ((a, b, c), t) p = ground (arith, positive-snoc new vs t p)

  -- So they make a valid document, if they are at most twenty.
  pub snoc-IsValid :
      (new : Version) (vs : List Version)
      → new.status ≡ active
      → 1 ≤ new.version
      → All (IsOld new.version) vs
      → all_unique (nums Draft vs) ≡ true
      → length vs < max_versions
      → IsValid Draft (record { active_version = new.version; versions = vs ++ new ∷ [] })
  snoc-IsValid new vs act p h u l = record {
    positive = positive-snoc new vs h p;
    at_most = omega (arith, length-snoc new vs);
    unique = all_unique-snoc new vs h u;
    current = new;
    only =
        keep-snoc (is_active Draft) new vs (rw act refl)
        ∙ ap (λ xs. xs ++ new ∷ []) (old_not_active new.version vs h);
    pointed = refl;
    top = highest-snoc new vs h;
  }
