-- ===== src/Automation/Versions/Sound.antt =====
-- What a stored document promises, said of its records one by one, and the validator of
-- `PolicyStoreDocument` (automation/app/policy_models.py). The limits of a record's own fields, which
-- `PolicyVersion` checks when it is parsed, are not part of it.
use polygate.Prelude.{
  ℕ, ◌≤◌, ◌≡◌, ◌≢◌, refl, sym, ap, subst, ◌∙◌, ◌↔◌, inl, inr, true, false, none, List, [], ◌∷◌,
  arith, length, keep, In, In-keep, keep-In, Bool-cases,
}
use polygate.Automation.Versions.{
  active, mem, all_unique, all_positive, highest, PolicyVersion, Document, is_active, nums,
  integrity,
}
use polygate.Automation.Versions.Valid.{
  IsValid, integrity_iff, current-In, highest-le, In-nums, mem-In, positive-1,
}

module _ (Draft : Type 0) where
  abbrev Version : Type 0
  Version = PolicyVersion Draft

  -- No two records have the same number.
  abbrev pub AreDistinct : List Version → Type 0
  AreDistinct [] = Unit
  AreDistinct (v ∷ vs) = ((w : Version) → In w vs → w.version ≢ v.version) × AreDistinct vs

  -- At most twenty records of distinct positive numbers; one of them is active, and no other; it is the
  -- one pointed to, and no number is above it.
  pub record IsSound (doc : Document Draft) : Type 0 where
    pub positive : (v : Version) → In v doc.versions → 1 ≤ v.version
    pub at_most : length doc.versions ≤ 20
    pub distinct : AreDistinct doc.versions
    pub current : Version
    pub stored : In current doc.versions
    pub is_current : current.status ≡ active
    pub no_other : (v : Version) → In v doc.versions → v.status ≡ active → v ≡ current
    pub pointed : current.version ≡ doc.active_version
    pub top : (v : Version) → In v doc.versions → v.version ≤ doc.active_version

  active-status : (v : Version) → is_active Draft v ≡ true → v.status ≡ active
  active-status v h = ground arith

  status-active : (v : Version) → v.status ≡ active → is_active Draft v ≡ true
  status-active v h = rw h refl

  In-unmapped :
      (n : ℕ) (vs : List Version)
      → mem n (nums Draft vs) ≡ true
      → (w : Version) × In w vs × (w.version ≡ n)
  In-unmapped n [] h = cc
  In-unmapped n (w ∷ ws) h = elim (Bool-cases (mem n (nums Draft ws))) [
    | inl y ↦ let (x, i, e) = In-unmapped n ws y in (x, inr i, e)
    | inr z ↦ (w, inl refl, ground arith)
  ]

  unique-AreDistinct : (vs : List Version) → all_unique (nums Draft vs) ≡ true → AreDistinct vs
  unique-AreDistinct [] h = tt
  unique-AreDistinct (v ∷ vs) h = (
    λ w i e.
        let there : mem v.version (nums Draft vs) ≡ true =
          subst (λ n. mem n (nums Draft vs) ≡ true) e
            (mem-In w.version (nums Draft vs) (In-nums Draft w vs i)) in
        absurd (ground arith),
    unique-AreDistinct vs (ground arith),
  )

  AreDistinct-unique : (vs : List Version) → AreDistinct vs → all_unique (nums Draft vs) ≡ true
  AreDistinct-unique [] h = refl
  AreDistinct-unique (v ∷ vs) (a, b) =
      let rest = AreDistinct-unique vs b in
      elim (Bool-cases (mem v.version (nums Draft vs))) [
        | inl y ↦ let (w, i, e) = In-unmapped v.version vs y in absurd (a w i e)
        | inr n ↦ ground arith
      ]

  positive-all :
      (vs : List Version)
      → ((v : Version) → In v vs → 1 ≤ v.version)
      → all_positive (nums Draft vs) ≡ true
  positive-all [] h = refl
  positive-all (v ∷ vs) h =
      let first = h v (inl refl) in let rest = positive-all vs (λ w i. h w (inr i)) in ground arith

  highest-below :
      (n : ℕ) (vs : List Version)
      → ((v : Version) → In v vs → v.version ≤ n)
      → highest (nums Draft vs) ≤ n
  highest-below n [] h = omega arith
  highest-below n (v ∷ vs) h =
      let first = h v (inl refl) in
      let rest = highest-below n vs (λ w i. h w (inr i)) in ground arith

  nobody :
      (vs : List Version)
      → ((v : Version) → In v vs → is_active Draft v ≡ false)
      → keep (is_active Draft) vs ≡ []
  nobody [] h = refl
  nobody (v ∷ vs) h = let first = h v (inl refl) in rw first (nobody vs (λ w i. h w (inr i)))

  only-one :
      (c : Version) (vs : List Version)
      → AreDistinct vs
      → In c vs
      → c.status ≡ active
      → ((v : Version) → In v vs → v.status ≡ active → v ≡ c)
      → keep (is_active Draft) vs ≡ c ∷ []
  only-one c [] d i a h = absurd i
  only-one c (w ∷ ws) (d, ds) i a h = elim (Bool-cases (is_active Draft w)) [
    | inl y ↦
        let same : w ≡ c = h w (inl refl) (active-status w y) in
        let none_else : (v : Version) → In v ws → is_active Draft v ≡ false = λ v j.
          elim (Bool-cases (is_active Draft v)) [
            | inr n ↦ n
            | inl z ↦ absurd (
                d v j
                  (ap (λ (x : Version). x.version) (h v (inr j) (active-status v z) ∙ sym same)))
          ] in
        rw y (rw (nobody ws none_else) (ap (λ (x : Version). x ∷ []) same))
    | inr n ↦
        let there : In c ws = elim i [
          | inl e ↦
              let f : is_active Draft w ≡ true =
                subst (λ (x : Version). is_active Draft x ≡ true) e (status-active c a) in
              absurd (ground arith)
          | inr j ↦ j
        ] in
        rw n (only-one c ws ds there a (λ v j. h v (inr j)))
  ]

  valid-Sound : (doc : Document Draft) → IsValid Draft doc → IsSound doc
  valid-Sound doc v =
      let i = current-In Draft doc v in
      let kept : In v.current (keep (is_active Draft) doc.versions) =
        subst (In v.current) (sym v.only) (inl refl) in
      record {
        positive = λ w j. positive-1 Draft w doc.versions j v.positive;
        at_most = v.at_most;
        distinct = unique-AreDistinct doc.versions v.unique;
        current = v.current;
        stored = i;
        is_current =
            active-status v.current (In-keep (is_active Draft) v.current doc.versions kept).1;
        no_other = λ w j a.
            elim (subst (In w) v.only
              (keep-In (is_active Draft) w doc.versions j (status-active w a))) [
                | inl e ↦ e
                | inr k ↦ absurd k
              ];
        pointed = v.pointed;
        top = λ w j.
            let l =
              highest-le w.version (nums Draft doc.versions) (In-nums Draft w doc.versions j) in
            omega (arith, l, v.top);
      }

  Sound-valid : (doc : Document Draft) → IsSound doc → IsValid Draft doc
  Sound-valid doc s =
      let below = highest-below doc.active_version doc.versions s.top in
      let above =
        highest-le s.current.version (nums Draft doc.versions)
          (In-nums Draft s.current doc.versions s.stored) in
      record {
        positive = positive-all doc.versions s.positive;
        at_most = s.at_most;
        unique = AreDistinct-unique doc.versions s.distinct;
        current = s.current;
        only = only-one s.current doc.versions s.distinct s.stored s.is_current s.no_other;
        pointed = s.pointed;
        top = omega (arith, below, above, s.pointed);
      }

  -- The validator accepts a document of records, each within the limits of its own fields, exactly if it
  -- has at most twenty records, their numbers are positive and distinct, one of them is active and no
  -- other, and the document points to that one, which no other record's number is above.
  pub integrity-IsSound : (doc : Document Draft) → (integrity Draft doc ≡ none) ↔ IsSound doc
  integrity-IsSound doc =
      let (to, from) = integrity_iff Draft doc in
      (λ h. valid-Sound doc (to h), λ s. from (Sound-valid doc s))
