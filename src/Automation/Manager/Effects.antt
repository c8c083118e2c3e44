-- ===== src/Automation/Manager/Effects.antt =====
-- What a commit does to the store and to the manager, whatever its outcome is.
use polygate.Prelude.{
  ℕ, ◌≡◌, ◌≢◌, refl, sym, ap, ◌∙◌, ◌↔◌, ◌⊎◌, inl, inr, Bool, true, false, ◌&&◌, none, some, String,
  arith, ◌==◌, Bool-cases,
}
use polygate.Automation.Versions.{PolicyVersion, Document, integrity, active_record, next_document}
use polygate.Automation.Versions.Valid.{IsValid, integrity_iff, active_record-current}
use polygate.Automation.Versions.History.{next_document-IsValid, active_record-next_document}
use polygate.Automation.Repository.{
  Snapshot, Loaded, loaded, load_failed, Swapped, swapped, conflict, no_answer, Repository,
}
use polygate.Automation.Manager.{
  stale_base, conflicting, other_policy, cannot_load, unreconciled, not_committed,
  version_not_found, bad_record, bad_document, no_active_record, Manager, Commit, published, failed,
  After, activate_and_cache, new_record, record_is_good, finish, reconcile, write, commit_from,
}

pub Loaded-cases :
    (Draft : Type 0) (l : Loaded Draft)
    → (l ≡ load_failed) ⊎ ((p : Snapshot Draft) × (l ≡ loaded p))
Loaded-cases Draft load_failed = inl refl
Loaded-cases Draft (loaded p) = inr (p, refl)

pub Swapped-cases :
    (Draft : Type 0) (a : Swapped Draft)
    → ((p : Snapshot Draft) × (a ≡ swapped p)) ⊎ (a ≡ conflict) ⊎ (a ≡ no_answer)
Swapped-cases Draft (swapped p) = inl (p, refl)
Swapped-cases Draft conflict = inr (inl refl)
Swapped-cases Draft no_answer = inr (inr refl)

Snapshot-eq :
    (Draft : Type 0) (a b : Snapshot Draft)
    → a.document ≡ b.document
    → a.revision ≡ b.revision
    → a ≡ b
Snapshot-eq Draft a b d r = cc

module _ (Draft : Type 0) (chars : String → ℕ) (same : Document Draft → Document Draft → Bool)
    (same_iff : (a b : Document Draft) → (same a b ≡ true) ↔ (a ≡ b))
    (cache_takes : PolicyVersion Draft → Bool) (repo : Repository Draft) where
  open repo use {Store, contents, load, compare_and_swap}

  module _ (c : Commit Draft) (snap : Snapshot Draft) where
    -- The record and the document that the commit means to store.
    abbrev pub planned_record : PolicyVersion Draft
    planned_record = new_record Draft chars same cache_takes repo c snap.document

    abbrev pub planned : Document Draft
    planned = next_document Draft snap.document planned_record

    -- What the answer says: an answer means that the document is stored and in force; without one the
    -- store and the policy in force are as they were, but for a write of unknown outcome and for
    -- another policy found in the store, which takes force.
    abbrev pub Effect : Store → Manager Draft → After Draft chars same cache_takes repo → Type 0
    Effect s m (published r, s', m') =
        ((contents s').document ≡ planned)
        × (m'.active_policy ≡ planned_record)
        × (r.version ≡ planned_record.version)
        × (m'.ready ≡ true)
    Effect s m (failed unreconciled, s', m') =
        ((contents s' ≡ contents s) ⊎ ((contents s').document ≡ planned))
        × (m'.active_policy ≡ m.active_policy)
        × (m'.ready ≡ false)
    Effect s m (failed other_policy, s', m') =
        (contents s' ≡ contents s)
        × (active_record Draft (contents s').document ≡ some m'.active_policy)
    Effect s m (failed no_active_record, s', m') = ⊥
    Effect s m (failed (bad_document e), s', m') = ⊥
    Effect s m (failed stale_base, s', m') =
        (s' ≡ s) × (m' ≡ m) × (c.base_version ≢ snap.document.active_version)
    Effect s m (failed conflicting, s', m') = (contents s' ≡ contents s) × (m' ≡ m)
    Effect s m (failed cannot_load, s', m') = ⊥
    Effect s m (failed not_committed, s', m') =
        (contents s' ≡ contents s) × (contents s ≡ snap) × (m'.active_policy ≡ m.active_policy)
    Effect s m (failed version_not_found, s', m') = ⊥
    Effect s m (failed bad_record, s', m') =
        (s' ≡ s) × (m' ≡ m) × (record_is_good Draft chars same cache_takes repo c ≡ false)

    module _ (valid : IsValid Draft snap.document) (s : Store) (m : Manager Draft) where
      pub planned-IsValid : IsValid Draft planned
      planned-IsValid = next_document-IsValid Draft snap.document planned_record valid refl refl

      finish-Effect :
          (d : Document Draft) (s' : Store) (m0 : Manager Draft)
          → d ≡ planned
          → (contents s').document ≡ planned
          → Effect s m (finish Draft chars same cache_takes repo c d s' m0)
      unfolding finish activate_and_cache
      finish-Effect d s' m0 e f =
          let g : active_record Draft d ≡ some planned_record =
            rw e (active_record-next_document Draft snap.document planned_record valid refl refl) in
          rw (g, finish, Effect) (f, refl, refl, refl)

      module _ (valid_now : IsValid Draft (contents s).document) where
        other-Effect :
            (p : Snapshot Draft) (s' : Store)
            → p ≡ contents s'
            → contents s' ≡ contents s
            → Effect s m (elim (active_record Draft p.document) [
              | none ↦ (failed no_active_record, s', record m { ready = true })
              | some r ↦ (
                failed other_policy,
                s',
                activate_and_cache Draft chars same cache_takes repo r (record m { ready = true }),
              )
            ])
        unfolding activate_and_cache
        other-Effect p s' e k =
            let now_valid : IsValid Draft (contents s').document = rw k valid_now in
            let a = active_record-current Draft (contents s').document now_valid in
            let b : active_record Draft p.document ≡ some now_valid.current = rw e a in rw b (k, a)

        reconcile-Effect :
            (s' : Store)
            → (contents s' ≡ contents s) ⊎ ((contents s').document ≡ planned)
            → Effect s m (reconcile Draft chars same cache_takes repo c snap planned s' m)
        unfolding reconcile
        reconcile-Effect s' k = elim (Loaded-cases Draft (load s')) [
          | inl e ↦ rw (e, reconcile, Effect) (k, refl, refl)
          | inr (p, e) ↦
              let pc = repo.load_lem s' p e in
              elim (Bool-cases (same p.document planned)) [
                | inl y ↦
                    let d = (same_iff p.document planned).0 y in
                    rw (e, reconcile, Effect)
                      (rw (y, Effect)
                        (finish-Effect p.document s' m d
                          (ap (λ (x : Snapshot Draft). x.document) (sym pc) ∙ d)))
                | inr n ↦
                    let kept : contents s' ≡ contents s = elim k [
                      | inl a ↦ a
                      | inr b ↦
                          let d : p.document ≡ planned =
                            ap (λ (x : Snapshot Draft). x.document) pc ∙ b in
                          let y = (same_iff p.document planned).1 d in absurd (ground arith)
                    ] in
                    elim (Bool-cases
                      ((p.revision == snap.revision) && same p.document snap.document)) [
                        | inl y ↦
                            let rev : p.revision ≡ snap.revision = ground arith in
                            let doc = (same_iff p.document snap.document).0 (ground arith) in
                            let eq : p ≡ snap = Snapshot-eq Draft p snap doc rev in
                            rw (e, reconcile, Effect)
                              (rw (n, Effect) (rw (y, Effect) (kept, sym kept ∙ sym pc ∙ eq, refl)))
                        | inr z ↦
                            rw (e, reconcile, Effect)
                              (rw (n, Effect) (rw (z, Effect) (other-Effect p s' pc kept)))
                      ]
              ]
        ]

        write-Effect : Effect s m (write Draft chars same cache_takes repo c snap planned s m)
        unfolding write
        write-Effect =
            let now = compare_and_swap planned snap.revision s in
            elim (Swapped-cases Draft now.0) [
              | inl (p, e) ↦
                  let (_, d, k) = repo.swapped_lem planned snap.revision s p e in
                  rw (e, write, Effect)
                    (finish-Effect p.document now.1 m d
                      (ap (λ (x : Snapshot Draft). x.document) k ∙ d))
              | inr (inl e) ↦
                  rw (e, write, Effect) (repo.conflict_lem planned snap.revision s e, refl)
              | inr (inr e) ↦
                  rw (e, write, Effect)
                    (reconcile-Effect now.1 (elim (repo.no_answer_lem planned snap.revision s e) [
                      | inl k ↦ inl k
                      | inr (_, d) ↦ inr d
                    ]))
            ]

        -- A commit from a valid snapshot, at a store that may have changed since and holds a valid
        -- document, does what its answer says: a result means that the planned document is stored
        -- and in force, and an error leaves both the store and the policy in force, unless the write
        -- has no known outcome or another policy is found, which then takes force. It never raises a
        -- validation error of the document.
        pub commit_from-Effect :
            Effect s m (commit_from Draft chars same cache_takes repo c snap s m)
        unfolding commit_from
        commit_from-Effect = elim (Bool-cases (c.base_version == snap.document.active_version)) [
          | inr n ↦ rw (n, commit_from, Effect) (refl, refl, ground arith)
          | inl y ↦ elim (Bool-cases (record_is_good Draft chars same cache_takes repo c)) [
            | inr n ↦ rw (y, commit_from, Effect) (rw (n, Effect) (refl, refl, n))
            | inl g ↦
                let good : integrity Draft planned ≡ none =
                  (integrity_iff Draft planned).1 planned-IsValid in
                rw (y, commit_from, Effect) (rw (g, Effect) (rw (good, Effect) write-Effect))
          ]
        ]
