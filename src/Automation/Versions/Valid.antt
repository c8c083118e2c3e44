-- ===== src/Automation/Versions/Valid.antt =====
-- The validator of the stored document, against what it promises.
use polygate.Prelude.{
  ℕ, ◌≤◌, ◌≡◌, ◌≢◌, refl, sym, ap, subst, ◌↔◌, inl, inr, true, false, none, some, List, [], ◌∷◌,
  arith, ◌==◌, length, keep, In, In-keep,
}
use polygate.Automation.Versions.{
  max_versions, mem, all_unique, all_positive, highest, PolicyVersion, Document, is_active, nums,
  active_error, integrity, active_record, the_only,
}

pub highest-le : (n : ℕ) (xs : List ℕ) → In n xs → n ≤ highest xs
highest-le n [] i = absurd i
highest-le n (x ∷ xs) i = ground (arith, highest-le n xs)

pub mem-In : (n : ℕ) (xs : List ℕ) → In n xs → mem n xs ≡ true
mem-In n [] i = absurd i
mem-In n (x ∷ xs) i = ground (arith, mem-In n xs)

pub In-mem : (n : ℕ) (xs : List ℕ) → mem n xs ≡ true → In n xs
In-mem n [] h = cc
In-mem n (x ∷ xs) h = ground (arith, In-mem n xs)

module _ (Draft : Type 0) where
  pub In-nums :
      (v : PolicyVersion Draft) (vs : List (PolicyVersion Draft))
      → In v vs
      → In v.version (nums Draft vs)
  In-nums v [] i = absurd i
  In-nums v (w ∷ ws) (inl e) = inl (ap (λ (x : PolicyVersion Draft). x.version) e)
  In-nums v (w ∷ ws) (inr i) = inr (In-nums v ws i)

  -- What a stored document promises: between one and twenty versions of distinct positive numbers,
  -- of which one is active; it is the one pointed to, and the highest.
  pub record IsValid (doc : Document Draft) : Type 0 where
    pub positive : all_positive (nums Draft doc.versions) ≡ true
    pub at_most : length doc.versions ≤ max_versions
    pub unique : all_unique (nums Draft doc.versions) ≡ true
    pub current : PolicyVersion Draft
    pub only : keep (is_active Draft) doc.versions ≡ current ∷ []
    pub pointed : current.version ≡ doc.active_version
    pub top : highest (nums Draft doc.versions) ≡ doc.active_version

  active_error-none :
      (n : ℕ) (ns : List ℕ) (vs : List (PolicyVersion Draft))
      → active_error Draft n ns vs ≡ none
      → (a : PolicyVersion Draft) × (vs ≡ a ∷ []) × (a.version ≡ n) × (highest ns ≡ n)
  active_error-none n ns [] h = cc
  active_error-none n ns (a ∷ []) h = (a, refl, ground arith, ground arith)
  active_error-none n ns (a ∷ b ∷ rest) h = cc

  pub positive-1 :
      (v : PolicyVersion Draft) (vs : List (PolicyVersion Draft))
      → In v vs
      → all_positive (nums Draft vs) ≡ true
      → 1 ≤ v.version
  positive-1 v [] i h = absurd i
  positive-1 v (w ∷ ws) (inl e) h =
      let f : v.version ≡ w.version = ap (λ (x : PolicyVersion Draft). x.version) e in ground arith
  positive-1 v (w ∷ ws) (inr i) h = ground (arith, positive-1 v ws i)

  pub current-In : (doc : Document Draft) (v : IsValid doc) → In v.current doc.versions
  current-In doc v =
      (In-keep (is_active Draft) v.current doc.versions
        (subst (In v.current) (sym v.only) (inl refl))).0

  some-length :
      (v : PolicyVersion Draft) (vs : List (PolicyVersion Draft)) → In v vs → 1 ≤ length vs
  some-length v [] i = absurd i
  some-length v (w ∷ ws) i = omega arith

  accepts :
      (doc : Document Draft) (v : IsValid doc)
      → active_error Draft doc.active_version (nums Draft doc.versions) (v.current ∷ []) ≡ none
  accepts doc v = ground (arith, v.pointed, v.top)

  -- The tests of the validator, one by one, over the fields that it looks at.
  pub integrity_iff : (doc : Document Draft) → (integrity Draft doc ≡ none) ↔ IsValid doc
  unfolding integrity
  integrity_iff doc = (
    λ h.
        let (a, e, p, t) =
          active_error-none doc.active_version (nums Draft doc.versions)
            (keep (is_active Draft) doc.versions) (ground arith) in
        record {
          positive = ground arith;
          at_most = ground arith;
          unique = ground arith;
          current = a;
          only = e;
          pointed = p;
          top = t;
        },
    λ v.
        let some_v = some-length v.current doc.versions (current-In doc v) in
        let pos = positive-1 v.current doc.versions (current-In doc v) v.positive in
        let end : active_error Draft doc.active_version (nums Draft doc.versions)
              (keep (is_active Draft) doc.versions)
            ≡ none =
          rw (v.only) (accepts doc v) in
        ground (arith, v.positive, v.at_most, v.unique, v.pointed),
  )

  keep_none :
      (n : ℕ) (vs : List (PolicyVersion Draft))
      → mem n (nums Draft vs) ≡ false
      → keep (λ (v : PolicyVersion Draft). v.version == n) vs ≡ []
  keep_none n [] h = refl
  keep_none n (w ∷ ws) h = ground (arith, keep_none n ws)

  pub keep_unique :
      (v : PolicyVersion Draft) (vs : List (PolicyVersion Draft))
      → In v vs
      → all_unique (nums Draft vs) ≡ true
      → keep (λ (w : PolicyVersion Draft). w.version == v.version) vs ≡ v ∷ []
  keep_unique v [] i h = absurd i
  keep_unique v (w ∷ ws) (inl e) h =
      let f : v.version ≡ w.version = ap (λ (x : PolicyVersion Draft). x.version) e in
      let g : w.version ≡ v.version = sym f in
      let miss : mem w.version (nums Draft ws) ≡ false = ground arith in
      let miss2 : mem v.version (nums Draft ws) ≡ false = rw f miss in
      let rest = keep_none v.version ws miss2 in ground (arith, e)
  keep_unique v (w ∷ ws) (inr i) h =
      let there = mem-In v.version (nums Draft ws) (In-nums v ws i) in
      let rest = keep_unique v ws i (ground arith) in
      let other : w.version ≢ v.version =
        λ e. let here : mem w.version (nums Draft ws) ≡ true = rw e there in ground arith in
      ground arith

  -- A valid document has an active version, which the property returns.
  pub active_record-current :
      (doc : Document Draft) (v : IsValid doc) → active_record Draft doc ≡ some v.current
  unfolding active_record
  active_record-current doc v =
      rw (sym v.pointed)
        (ap (the_only Draft) (keep_unique v.current doc.versions (current-In doc v) v.unique))
