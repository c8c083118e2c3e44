-- ===== src/Automation/Manager/Histories.antt =====
-- Any sequence of publications and rollbacks, and what a rollback restores.
use polygate.Prelude.{
  ℕ, ◌+◌, ◌≤◌, ◌≡◌, refl, sym, ap, subst, ◌∙◌, ◌↔◌, ◌⊎◌, inl, inr, Bool, true, none, some, String,
  arith, ◌==◌, Option-cases, List, [], ◌∷◌, first, In, In-first,
}
use polygate.Automation.Versions.{PolicyVersion, Document, active_record, next_document}
use polygate.Automation.Versions.Valid.{IsValid}
use polygate.Automation.Versions.History.{active_record-next_document}
use polygate.Automation.Repository.{Snapshot, loaded, Repository}
use polygate.Automation.Manager.{
  CommitError, stale_base, conflicting, other_policy, cannot_load, unreconciled, not_committed,
  version_not_found, bad_record, bad_document, no_active_record, Manager, Commit, published, failed,
  After, commit, publish, rollback,
}
use polygate.Automation.Manager.Effects.{
  Effect, commit_from-Effect, planned-IsValid, Loaded-cases, planned_record, planned,
}

module _ (Draft : Type 0) (chars : String → ℕ) (same : Document Draft → Document Draft → Bool)
    (same_iff : (a b : Document Draft) → (same a b ≡ true) ↔ (a ≡ b))
    (cache_takes : PolicyVersion Draft → Bool) (repo : Repository Draft) where
  open repo use {Store, contents, load, compare_and_swap}

  -- What an operation may do to the stored document: nothing, or store a valid one with a higher version.
  abbrev pub Moves : Store → Store → Type 0
  Moves s s' =
      (contents s' ≡ contents s)
      ⊎ (IsValid Draft (contents s').document
          × ((contents s').document.active_version ≡ (contents s).document.active_version + 1))

  module _ (c : Commit Draft) (s : Store) (m : Manager Draft)
      (valid : IsValid Draft (contents s).document) where
    pub planned_moves :
        (d : Document Draft)
        → d ≡ planned Draft chars same same_iff cache_takes repo c (contents s)
        → IsValid Draft d × (d.active_version ≡ (contents s).document.active_version + 1)
    unfolding next_document
    planned_moves d e = rw e (
      planned-IsValid Draft chars same same_iff cache_takes repo c (contents s) valid s m,
      ap (λ n. n + 1) (valid.top),
    )

    Effect-Moves :
        (after : After Draft chars same cache_takes repo)
        → Effect Draft chars same same_iff cache_takes repo c (contents s) s m after
        → Moves s after.1
    Effect-Moves (published r, s', m') (d, _, _, _) = inr (planned_moves (contents s').document d)
    Effect-Moves (failed unreconciled, s', m') (inl k, _, _) = inl k
    Effect-Moves (failed unreconciled, s', m') (inr d, _, _) =
        inr (planned_moves (contents s').document d)
    Effect-Moves (failed other_policy, s', m') (k, _) = inl k
    Effect-Moves (failed no_active_record, s', m') h = absurd h
    Effect-Moves (failed (bad_document e), s', m') h = absurd h
    Effect-Moves (failed stale_base, s', m') (k, _, _) = inl (ap contents k)
    Effect-Moves (failed conflicting, s', m') (k, _) = inl k
    Effect-Moves (failed cannot_load, s', m') h = absurd h
    Effect-Moves (failed not_committed, s', m') (k, _, _) = inl k
    Effect-Moves (failed version_not_found, s', m') h = absurd h
    Effect-Moves (failed bad_record, s', m') (k, _, _) = inl (ap contents k)

    -- A commit from what the store holds.
    pub from_load :
        (p : Snapshot Draft)
        → load s ≡ loaded p
        → Effect Draft chars same same_iff cache_takes repo c
            (contents s)
            s
            m
            (commit Draft chars same cache_takes repo c s m)
    unfolding commit
    from_load p e =
        let now = repo.load_lem s p e in
        rw (e, commit)
          (rw now (
            commit_from-Effect Draft chars same same_iff cache_takes repo c (contents s) valid s m
              valid))

    commit-Moves : Moves s (commit Draft chars same cache_takes repo c s m).1
    unfolding commit
    commit-Moves = elim (Loaded-cases Draft (load s)) [
      | inl e ↦ rw (e, commit) (inl refl)
      | inr (p, e) ↦ Effect-Moves _ (from_load p e)
    ]

    -- What a rollback restores.
    abbrev pub Restores : ℕ → After Draft chars same cache_takes repo → Type 0
    Restores target (published r, s', m') =
        (v : PolicyVersion Draft) × In v (contents s).document.versions
        × (v.version ≡ target)
        × (m'.active_policy.policy ≡ v.policy)
        × (m'.active_policy.rollback_from ≡ some target)
        × (active_record Draft (contents s').document ≡ some m'.active_policy)
    Restores target (failed e, s', m') = Unit

  target_commit : (c : Commit Draft) (target : ℕ) (v : PolicyVersion Draft) → Commit Draft
  target_commit c target v = record c { draft = v.policy; rollback_from = some target }

  module _ (target : ℕ) (c : Commit Draft) (s : Store) (m : Manager Draft)
      (valid : IsValid Draft (contents s).document) where
    Effect-Restores :
        (v : PolicyVersion Draft)
        → In v (contents s).document.versions
        → v.version ≡ target
        → (after : After Draft chars same cache_takes repo)
        → Effect Draft chars same same_iff cache_takes repo
            (target_commit c target v)
            (contents s)
            s
            m
            after
        → Restores c s m valid target after
    unfolding target_commit
    Effect-Restores v i e (failed x, s', m') h = tt
    Effect-Restores v i e (published r, s', m') (d, a, _, _) =
        let now =
          active_record-next_document Draft (contents s).document
            (planned_record Draft chars same same_iff cache_takes repo (target_commit c target v)
              (contents s))
            valid refl refl in
        let stored : active_record Draft (contents s').document
            ≡ some (
                planned_record Draft chars same same_iff cache_takes repo (target_commit c target v)
                  (contents s)) =
          rw d now in
        (
          v,
          i,
          e,
          ap (λ (x : PolicyVersion Draft). x.policy) a,
          ap (λ (x : PolicyVersion Draft). x.rollback_from) a,
          stored ∙ ap some (sym a),
        )

    rollback_cases :
        ((e : CommitError) × (rollback Draft chars same cache_takes repo target c s m
            ≡ (failed e, s, m)))
        ⊎ ((v : PolicyVersion Draft) × (p : Snapshot Draft) × (load s ≡ loaded p)
            × In v (contents s).document.versions
            × (v.version ≡ target)
            × (rollback Draft chars same cache_takes repo target c s m
                ≡ commit Draft chars same cache_takes repo (target_commit c target v) s m))
    unfolding rollback target_commit
    rollback_cases = elim (Loaded-cases Draft (load s)) [
      | inl e ↦ inl (cannot_load, rw (e, rollback) refl)
      | inr (p, e) ↦
          let now = repo.load_lem s p e in
          elim (Option-cases
            (first (λ (v : PolicyVersion Draft). v.version == target) p.document.versions)) [
              | inl n ↦ inl (version_not_found, rw (e, rollback) (rw (n, rollback) refl))
              | inr (v, f) ↦
                  let (i, g) =
                    In-first (λ (v : PolicyVersion Draft). v.version == target) v
                      p.document.versions f in
                  inr (
                    v,
                    p,
                    e,
                    subst (λ (x : Snapshot Draft). In v x.document.versions) now i,
                    ground arith,
                    rw (e, rollback) (rw (f, rollback) refl),
                  )
            ]
    ]

    -- At a store with a valid document, a rollback that is answered puts the policy of the stored
    -- version of that number in force again, as a new version that names it.
    pub rollback-Restores :
        Restores c s m valid target (rollback Draft chars same cache_takes repo target c s m)
    rollback-Restores = elim rollback_cases [
      | inl (e, h) ↦ rw (h, Restores) tt
      | inr (v, p, l, i, e, h) ↦
          subst (Restores c s m valid target) (sym h)
            (Effect-Restores v i e _ (from_load (target_commit c target v) s m valid p l))
    ]

    rollback-Moves : Moves s (rollback Draft chars same cache_takes repo target c s m).1
    rollback-Moves = elim rollback_cases [
      | inl (e, h) ↦ rw h (inl refl)
      | inr (v, p, l, i, e, h) ↦ rw h (commit-Moves (target_commit c target v) s m valid)
    ]

  -- What an administrator asks for.
  pub data Operation : Type 0 where
    to_publish : Commit Draft → Operation
    to_roll_back : ℕ → Commit Draft → Operation

  abbrev pub perform : Operation → Store × Manager Draft → Store × Manager Draft
  perform (to_publish c) (s, m) =
      let (a, s', m') = publish Draft chars same cache_takes repo c s m in (s', m')
  perform (to_roll_back n c) (s, m) =
      let (a, s', m') = rollback Draft chars same cache_takes repo n c s m in (s', m')

  abbrev pub perform_all : List Operation → Store × Manager Draft → Store × Manager Draft
  perform_all [] now = now
  perform_all (o ∷ os) now = perform_all os (perform o now)

  perform-Moves :
      (o : Operation) (now : Store × Manager Draft)
      → IsValid Draft (contents now.0).document
      → Moves now.0 (perform o now).0
  unfolding publish
  perform-Moves (to_publish c) (s, m) v = commit-Moves (record c { rollback_from = none }) s m v
  perform-Moves (to_roll_back n c) (s, m) v = rollback-Moves n c s m v

  Moves-IsValid :
      (s s' : Store)
      → IsValid Draft (contents s).document
      → Moves s s'
      → IsValid Draft (contents s').document
        × ((contents s).document.active_version ≤ (contents s').document.active_version)
  Moves-IsValid s s' v (inl k) = rw k (v, omega arith)
  Moves-IsValid s s' v (inr (w, n)) = (w, omega arith)

  -- Whatever administrators publish and roll back, and however a lawful repository and the cache
  -- fail, a stored document that is valid stays valid, and the version in force in it never goes
  -- down.
  pub perform_all-IsValid :
      (os : List Operation) (now : Store × Manager Draft)
      → IsValid Draft (contents now.0).document
      → IsValid Draft (contents (perform_all os now).0).document
        × ((contents now.0).document.active_version
            ≤ (contents (perform_all os now).0).document.active_version)
  perform_all-IsValid [] now v = (v, omega arith)
  perform_all-IsValid (o ∷ os) now v =
      let (w, n) = Moves-IsValid now.0 (perform o now).0 v (perform-Moves o now v) in
      let (x, k) = perform_all-IsValid os (perform o now) w in (x, omega arith)
