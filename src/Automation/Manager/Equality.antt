-- ===== src/Automation/Manager/Equality.antt =====
-- Equality of stored documents field by field, as the models of a document compare.
use polygate.Prelude.{
  ℕ, ◌≡◌, refl, ap, ◌↔◌, Bool, true, false, ◌&&◌, Option, none, some, List, [], ◌∷◌, arith, ◌==◌,
  str_eq, str_eq_iff, str_eq_refl, subst,
}
use polygate.Automation.Versions.{Status, archived, PolicyVersion, Document}

abbrev pub same_status : Status → Status → Bool
same_status Status.active Status.active = true
same_status Status.active archived = false
same_status archived Status.active = false
same_status archived archived = true

abbrev pub same_origin : Option ℕ → Option ℕ → Bool
same_origin none none = true
same_origin none (some n) = false
same_origin (some n) none = false
same_origin (some n) (some m) = n == m

same_status_iff : (a b : Status) → (same_status a b ≡ true) ↔ (a ≡ b)
same_status_iff Status.active Status.active = (λ h. refl, λ h. refl)
same_status_iff Status.active archived = (λ h. cc, λ h. cc)
same_status_iff archived Status.active = (λ h. cc, λ h. cc)
same_status_iff archived archived = (λ h. refl, λ h. refl)

same_ℕ_iff : (a b : ℕ) → ((a == b) ≡ true) ↔ (a ≡ b)
same_ℕ_iff a b = (λ h. ground arith, λ h. ground arith)

same_origin_iff : (a b : Option ℕ) → (same_origin a b ≡ true) ↔ (a ≡ b)
same_origin_iff none none = (λ h. refl, λ h. refl)
same_origin_iff none (some n) = (λ h. cc, λ h. cc)
same_origin_iff (some n) none = (λ h. cc, λ h. cc)
same_origin_iff (some n) (some m) =
    (λ h. ap some ((same_ℕ_iff n m).0 h), λ h. let e : n ≡ m = cc in (same_ℕ_iff n m).1 e)

and_iff : (a b : Bool) → ((a && b) ≡ true) ↔ ((a ≡ true) × (b ≡ true))
and_iff true b = (λ h. (refl, h), λ h. h.1)
and_iff false b = (λ h. cc, λ h. cc)

module _ (Draft : Type 0) (same_draft : Draft → Draft → Bool)
    (same_draft_iff : (a b : Draft) → (same_draft a b ≡ true) ↔ (a ≡ b)) where
  abbrev pub same_version : PolicyVersion Draft → PolicyVersion Draft → Bool
  same_version a b =
      (a.version == b.version)
      && same_status a.status b.status
      && (a.created_at == b.created_at)
      && str_eq a.created_by b.created_by
      && str_eq a.change_note b.change_note
      && same_origin a.rollback_from b.rollback_from
      && same_draft a.policy b.policy

  abbrev pub same_versions : List (PolicyVersion Draft) → List (PolicyVersion Draft) → Bool
  same_versions [] [] = true
  same_versions [] (b ∷ bs) = false
  same_versions (a ∷ xs) [] = false
  same_versions (a ∷ xs) (b ∷ bs) = same_version a b && same_versions xs bs

  abbrev pub same_document : Document Draft → Document Draft → Bool
  same_document a b = (a.active_version == b.active_version) && same_versions a.versions b.versions

  same_version_refl : (a : PolicyVersion Draft) → same_version a a ≡ true
  same_version_refl a =
      let v = (same_ℕ_iff a.version a.version).1 refl in
      let c = (same_ℕ_iff a.created_at a.created_at).1 refl in
      let s = (same_status_iff a.status a.status).1 refl in
      let o = (same_origin_iff a.rollback_from a.rollback_from).1 refl in
      let d = (same_draft_iff a.policy a.policy).1 refl in
      ground (arith, str_eq_refl a.created_by, str_eq_refl a.change_note)

  same_version_eq : (a b : PolicyVersion Draft) → same_version a b ≡ true → a ≡ b
  same_version_eq a b h =
      let v : (a.version == b.version) ≡ true = ground arith in
      let s : same_status a.status b.status ≡ true = ground arith in
      let c : (a.created_at == b.created_at) ≡ true = ground arith in
      let b1 : str_eq a.created_by b.created_by ≡ true = ground arith in
      let n : str_eq a.change_note b.change_note ≡ true = ground arith in
      let o : same_origin a.rollback_from b.rollback_from ≡ true = ground arith in
      let d : same_draft a.policy b.policy ≡ true = ground arith in
      let e1 = (same_ℕ_iff a.version b.version).0 v in
      let e2 = (same_status_iff a.status b.status).0 s in
      let e3 = (same_ℕ_iff a.created_at b.created_at).0 c in
      let e4 = (str_eq_iff a.created_by b.created_by).0 b1 in
      let e5 = (str_eq_iff a.change_note b.change_note).0 n in
      let e6 = (same_origin_iff a.rollback_from b.rollback_from).0 o in
      let e7 = (same_draft_iff a.policy b.policy).0 d in cc

  same_versions_refl : (xs : List (PolicyVersion Draft)) → same_versions xs xs ≡ true
  same_versions_refl [] = refl
  same_versions_refl (a ∷ xs) = ground (arith, same_version_refl a, same_versions_refl xs)

  same_versions_eq : (xs bs : List (PolicyVersion Draft)) → same_versions xs bs ≡ true → xs ≡ bs
  same_versions_eq [] [] h = refl
  same_versions_eq [] (b ∷ bs) h = cc
  same_versions_eq (a ∷ xs) [] h = cc
  same_versions_eq (a ∷ xs) (b ∷ bs) h =
      let (k, l) = (and_iff (same_version a b) (same_versions xs bs)).0 h in
      let e = same_version_eq a b k in let f = same_versions_eq xs bs l in cc

  pub same_document_iff : (a b : Document Draft) → (same_document a b ≡ true) ↔ (a ≡ b)
  same_document_iff a b = (
    λ h.
        let (k, l) =
          (and_iff (a.active_version == b.active_version) (same_versions a.versions b.versions)).0
            h in
        let e = (same_ℕ_iff a.active_version b.active_version).0 k in
        let f = same_versions_eq a.versions b.versions l in cc,
    λ h.
        let n : a.active_version ≡ b.active_version =
          ap (λ (d : Document Draft). d.active_version) h in
        let r = same_versions_refl a.versions in
        let m : same_versions a.versions b.versions ≡ true =
          subst (λ (d : Document Draft). same_versions a.versions d.versions ≡ true) h r in
        (and_iff (a.active_version == b.active_version) (same_versions a.versions b.versions)).1
          ((same_ℕ_iff a.active_version b.active_version).1 n, m),
  )
