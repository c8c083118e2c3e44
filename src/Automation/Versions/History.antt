-- ===== src/Automation/Versions/History.antt =====
-- What a commit does to the stored history.
use polygate.Prelude.{
  ℕ, ◌≤◌, ◌<◌, ◌≡◌, refl, sym, ap, subst, ◌∙◌, inl, inr, true, some, List, [], ◌∷◌, ◌++◌, map,
  arith, ltb, length, keep, In, Bool-cases, All, All-keep, length-map,
}
use polygate.Automation.Versions.{
  active, max_versions, all_unique, all_positive, highest, PolicyVersion, Document, nums, archive,
  next_document, next_version, active_record, the_only,
}
use polygate.Automation.Versions.Valid.{IsValid, keep_unique}
use polygate.Automation.Versions.Next.{IsOld, snoc-IsValid, all_unique-keep}
use polygate.Automation.Versions.Dropped.{
  Oldest, sort-Oldest, not_oldest, dropped, not_dropped, keep-shorter,
}

module _ (Draft : Type 0) where
  abbrev Version : Type 0
  Version = PolicyVersion Draft

  nums-archive : (vs : List Version) → nums Draft (map (archive Draft) vs) ≡ nums Draft vs
  nums-archive [] = refl
  nums-archive (v ∷ vs) = ap (λ xs. v.version ∷ xs) (nums-archive vs)

  archived-IsOld :
      (n : ℕ) (vs : List Version)
      → all_positive (nums Draft vs) ≡ true
      → highest (nums Draft vs) < n
      → All (IsOld Draft n) (map (archive Draft) vs)
  archived-IsOld n [] p h = tt
  archived-IsOld n (v ∷ vs) p h =
      ((refl, ground arith, ground arith), archived-IsOld n vs (ground arith) (ground arith))

  -- The records that a commit keeps: the archived ones, without the oldest if there were twenty.
  pub data Keeps (doc : Document Draft) : List Version → Type 0 where
    all_of : length doc.versions < max_versions → Keeps doc (map (archive Draft) doc.versions)
    all_but :
        (o : Oldest Draft (map (archive Draft) doc.versions))
        → length doc.versions ≡ max_versions
        → Keeps doc (keep (not_oldest Draft o) (map (archive Draft) doc.versions))

  length-Oldest : (vs : List Version) → 1 ≤ length vs → Oldest Draft vs
  length-Oldest [] h = absurd (omega arith)
  length-Oldest (v ∷ vs) h = sort-Oldest Draft v vs

  module _ (doc : Document Draft) (new : Version) (v : IsValid Draft doc)
      (act : new.status ≡ active) (num : new.version ≡ next_version Draft doc) where
    abbrev old : List Version
    old = map (archive Draft) doc.versions

    old-IsOld : All (IsOld Draft new.version) old
    old-IsOld = archived-IsOld new.version doc.versions v.positive (omega (arith, num))

    is_unique : all_unique (nums Draft old) ≡ true
    is_unique = rw (nums-archive doc.versions) v.unique

    kept_ok :
        (kept : List Version)
        → Keeps doc kept
        → All (IsOld Draft new.version) kept
          × (all_unique (nums Draft kept) ≡ true)
          × (length kept < max_versions)
    kept_ok kept (all_of l) = (old-IsOld, is_unique, rw (length-map (archive Draft) doc.versions) l)
    kept_ok kept (all_but o l) =
        let short = keep-shorter Draft old o.oldest o.there in
        let same = length-map (archive Draft) doc.versions in
        (
          All-keep (IsOld Draft new.version) (not_oldest Draft o) old old-IsOld,
          all_unique-keep Draft (not_oldest Draft o) old is_unique,
          omega arith,
        )

    -- What is written after a valid document is its history, archived, with the new record at its
    -- end; of twenty records the one with the lowest number is dropped, and no other.
    pub next_document-versions :
        (kept : List Version) × Keeps doc kept
        × ((next_document Draft doc new).versions ≡ kept ++ new ∷ [])
    unfolding next_document
    next_document-versions = elim (Bool-cases (ltb (length doc.versions) max_versions)) [
      | inl h ↦
          let less : length doc.versions < max_versions = ground arith in
          (
            old,
            all_of less,
            not_dropped Draft new old (rw (length-map (archive Draft) doc.versions) less),
          )
      | inr h ↦
          let top = v.at_most in
          let full : length doc.versions ≡ max_versions = ground arith in
          let full' : length old ≡ max_versions = length-map (archive Draft) doc.versions ∙ full in
          let o = length-Oldest old (omega arith) in
          (_, all_but o full, dropped Draft new old o act old-IsOld full')
    ]

    -- After a valid document the document that a commit writes, with an active record of the next
    -- number, is valid.
    pub next_document-IsValid : IsValid Draft (next_document Draft doc new)
    unfolding next_document
    next_document-IsValid =
        let (kept, k, e) = next_document-versions in
        let (a, u, l) = kept_ok kept k in
        subst (λ vs. IsValid Draft (record { active_version = new.version; versions = vs })) (sym e)
          (snoc-IsValid Draft new kept act (omega (arith, num)) a u l)

    new-In : (kept : List Version) → In new (kept ++ new ∷ [])
    new-In [] = inl refl
    new-In (k ∷ ks) = inr (new-In ks)

    -- The new record is the active one of the written document.
    pub active_record-next_document : active_record Draft (next_document Draft doc new) ≡ some new
    unfolding next_document active_record
    active_record-next_document =
        let (kept, k, e) = next_document-versions in
        ap (the_only Draft) (
          keep_unique Draft new (next_document Draft doc new).versions
            (subst (In new) (sym e) (new-In kept)) next_document-IsValid.unique)
