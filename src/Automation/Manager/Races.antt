-- ===== src/Automation/Manager/Races.antt =====
-- Two administrators who have read the same revision of a repository (automation/app/policy_manager.py).
use polygate.Prelude.{
  ℕ, ◌≡◌, ◌≢◌, refl, sym, ap, ◌∙◌, ◌↔◌, ◌⊎◌, inl, inr, Bool, true, ◌&&◌, String, arith, ◌==◌,
  Bool-cases, Option-cases, some, subst,
}
use polygate.Automation.Versions.{
  PolicyVersion, Document, integrity, active_record, next_document, next_version,
}
use polygate.Automation.Versions.Valid.{IsValid}
use polygate.Automation.Versions.History.{active_record-next_document}
use polygate.Automation.Repository.{Snapshot, loaded, Repository, ChangesRevision}
use polygate.Automation.Manager.{
  stale_base, conflicting, other_policy, cannot_load, unreconciled, not_committed,
  version_not_found, bad_record, bad_document, no_active_record, Manager, Commit, Answer,
  PublishResult, published, failed, After, record_is_good, finish, reconcile, write, commit_from,
}
use polygate.Automation.Manager.Effects.{
  Loaded-cases, Swapped-cases, planned, Effect, planned-IsValid, commit_from-Effect,
}

module _ (Draft : Type 0) (chars : String → ℕ) (same : Document Draft → Document Draft → Bool)
    (same_iff : (a b : Document Draft) → (same a b ≡ true) ↔ (a ≡ b))
    (cache_takes : PolicyVersion Draft → Bool) (repo : Repository Draft) where
  open repo use {Store, contents, load, compare_and_swap}

  abbrev from :
      Commit Draft
      → Snapshot Draft
      → Store
      → Manager Draft
      → After Draft chars same cache_takes repo
  from = commit_from Draft chars same cache_takes repo

  abbrev plan : Commit Draft → Snapshot Draft → Document Draft
  plan = planned Draft chars same same_iff cache_takes repo

  module _ (c : Commit Draft) (snap : Snapshot Draft) (m : Manager Draft) where
    finish-store :
        (d : Document Draft) (t : Store) → (finish Draft chars same cache_takes repo c d t m).1 ≡ t
    unfolding finish
    finish-store d t = elim (Option-cases (active_record Draft d)) [
      | inl e ↦ rw (e, finish) refl
      | inr (v, e) ↦ rw (e, finish) refl
    ]

    reconcile-store :
        (new : Document Draft) (t : Store)
        → (reconcile Draft chars same cache_takes repo c snap new t m).1 ≡ t
    unfolding reconcile
    reconcile-store new t = elim (Loaded-cases Draft (load t)) [
      | inl e ↦ rw (e, reconcile) refl
      | inr (p, e) ↦ elim (Bool-cases (same p.document new)) [
        | inl y ↦ rw (e, reconcile) (rw y (finish-store p.document t))
        | inr n ↦
            elim (Bool-cases ((p.revision == snap.revision) && same p.document snap.document)) [
              | inl y ↦ rw (e, reconcile) (rw n (rw (y, reconcile) refl))
              | inr z ↦ elim (Option-cases (active_record Draft p.document)) [
                | inl g ↦ rw (e, reconcile) (rw n (rw z (rw g refl)))
                | inr (v, g) ↦ rw (e, reconcile) (rw n (rw z (rw g refl)))
              ]
            ]
      ]
    ]

    write-store :
        (new : Document Draft) (s : Store)
        → (write Draft chars same cache_takes repo c snap new s m).1
          ≡ (compare_and_swap new snap.revision s).1
    unfolding write
    write-store new s = elim (Swapped-cases Draft (compare_and_swap new snap.revision s).0) [
      | inl (p, e) ↦ rw (e, write) (finish-store p.document _)
      | inr (inl e) ↦ rw (e, write) refl
      | inr (inr e) ↦ rw (e, write) (reconcile-store new _)
    ]

    -- A commit leaves the store alone, or it is one swap.
    store_cases :
        (s : Store)
        → ((from c snap s m).1 ≡ s)
          ⊎ ((from c snap s m).1 ≡ (compare_and_swap (plan c snap) snap.revision s).1)
    unfolding commit_from
    store_cases s = elim (Bool-cases (c.base_version == snap.document.active_version)) [
      | inr n ↦ inl (rw (n, commit_from) refl)
      | inl y ↦ elim (Bool-cases (record_is_good Draft chars same cache_takes repo c)) [
        | inr n ↦ inl (rw (y, commit_from) (rw (n, commit_from) refl))
        | inl g ↦ elim (Option-cases (integrity Draft (plan c snap))) [
          | inl e ↦ inr (
              rw (y, commit_from)
                (rw (g, commit_from) (rw (e, commit_from) (write-store (plan c snap) s))))
          | inr (x, e) ↦ inl (rw (y, commit_from) (rw (g, commit_from) (rw (e, commit_from) refl)))
        ]
      ]
    ]

    -- A commit from an old revision stores nothing.
    old_commit :
        (t : Store)
        → (contents t).revision ≢ snap.revision
        → contents (from c snap t m).1 ≡ contents t
    old_commit t old = elim (store_cases t) [ inl e ↦ ap contents e | inr e ↦ ap contents e ∙ kept ]
      where
        kept : contents (compare_and_swap (plan c snap) snap.revision t).1 ≡ contents t
        kept = elim (Swapped-cases Draft (compare_and_swap (plan c snap) snap.revision t).0) [
          | inl (p, e) ↦ absurd (old (repo.swapped_lem _ _ t p e).0)
          | inr (inl e) ↦ repo.conflict_lem _ _ t e
          | inr (inr e) ↦ elim (repo.no_answer_lem _ _ t e) [
            | inl k ↦ k
            | inr (k, _) ↦ absurd (old k)
          ]
        ]

  -- What a commit means to store is another document than the one that it starts from.
  plan-new :
      (c : Commit Draft) (snap : Snapshot Draft)
      → IsValid Draft snap.document
      → plan c snap ≢ snap.document
  unfolding next_document
  plan-new c snap valid e =
      let v : next_version Draft snap.document ≡ snap.document.active_version =
        ap (λ (d : Document Draft). d.active_version) e in
      absurd (omega (arith, v, valid.top))

  -- What is published has changed the revision.
  published-fresh :
      (c : Commit Draft) (snap : Snapshot Draft) (s : Store) (m : Manager Draft)
      → ChangesRevision Draft repo
      → IsValid Draft snap.document
      → contents s ≡ snap
      → (contents (from c snap s m).1).document ≡ plan c snap
      → (contents (from c snap s m).1).revision ≢ snap.revision
  published-fresh c snap s m fresh valid e d r = elim (store_cases c snap m s) [
    | inl k ↦ unchanged (ap contents k)
    | inr k ↦ elim (fresh (plan c snap) snap.revision s) [
      | inl l ↦ unchanged (ap contents k ∙ l)
      | inr n ↦ n (
          ap (λ t. (contents t).revision) (sym k)
          ∙ (r ∙ ap (λ (x : Snapshot Draft). x.revision) (sym e)))
    ]
  ]
    where
      unchanged : contents (from c snap s m).1 ≡ contents s → ⊥
      unchanged k = plan-new c snap valid (sym d ∙ ap (λ (x : Snapshot Draft). x.document) (k ∙ e))

  -- The second of two commits: it has stored nothing; it answers with a result only if it meant to
  -- store the very document that is stored; and the policy that its manager has in force is the one
  -- before or the stored one.
  abbrev pub HasLost :
      Commit Draft
      → Commit Draft
      → Snapshot Draft
      → Store
      → Manager Draft
      → After Draft chars same cache_takes repo
      → Type 0
  HasLost a b snap t n (answer, t', n') =
      (contents t' ≡ contents t)
      × ((q : PublishResult Draft) → answer ≡ published q → plan b snap ≡ plan a snap)
      × ((n'.active_policy ≡ n.active_policy)
          ⊎ (active_record Draft (contents t).document ≡ some n'.active_policy))

  loses :
      (a b : Commit Draft) (snap : Snapshot Draft) (t : Store) (n : Manager Draft)
      (v : IsValid Draft snap.document) (answer : Answer Draft) (t' : Store) (n' : Manager Draft)
      → (contents t).document ≡ plan a snap
      → contents t' ≡ contents t
      → Effect Draft chars same same_iff cache_takes repo b snap t n (answer, t', n')
      → HasLost a b snap t n (answer, t', n')
  loses a b snap t n v (published q) t' n' d k (f, g, _, _) =
      let now : active_record Draft (plan b snap) ≡ some n'.active_policy =
        active_record-next_document Draft snap.document _ v refl refl ∙ ap some (sym g) in
      let one : plan b snap ≡ plan a snap =
        sym f ∙ (ap (λ (x : Snapshot Draft). x.document) k ∙ d) in
      (k, λ _ _. one, inr (ap (active_record Draft) (d ∙ sym one) ∙ now))
  loses a b snap t n v (failed unreconciled) t' n' d k (_, g, _) = (k, λ q e. cc, inl g)
  loses a b snap t n v (failed other_policy) t' n' d k (_, g) =
      (k, λ q e. cc, inr (ap (λ (x : Snapshot Draft). active_record Draft x.document) (sym k) ∙ g))
  loses a b snap t n v (failed no_active_record) t' n' d k f = absurd f
  loses a b snap t n v (failed (bad_document e)) t' n' d k f = absurd f
  loses a b snap t n v (failed stale_base) t' n' d k (_, g, _) =
      (k, λ q e. cc, inl (ap (λ (x : Manager Draft). x.active_policy) g))
  loses a b snap t n v (failed conflicting) t' n' d k (_, g) =
      (k, λ q e. cc, inl (ap (λ (x : Manager Draft). x.active_policy) g))
  loses a b snap t n v (failed cannot_load) t' n' d k f = absurd f
  loses a b snap t n v (failed not_committed) t' n' d k (_, _, g) = (k, λ q e. cc, inl g)
  loses a b snap t n v (failed version_not_found) t' n' d k f = absurd f
  loses a b snap t n v (failed bad_record) t' n' d k (_, g, _) =
      (k, λ q e. cc, inl (ap (λ (x : Manager Draft). x.active_policy) g))

  -- Over any repository in which a swap that changes what is stored changes the revision: of two commits from the snapshot of a valid document that both have read, once
  -- the first is published, the second stores nothing. It answers with a result only if its document is
  -- the one that the first has stored, in every field, and its manager has in force what it had before,
  -- or the policy that is stored.
  pub one_publisher_wins :
      (a b : Commit Draft) (snap : Snapshot Draft) (s : Store) (m n : Manager Draft)
      (r : PublishResult Draft)
      → ChangesRevision Draft repo
      → IsValid Draft snap.document
      → load s ≡ loaded snap
      → (from a snap s m).0 ≡ published r
      → HasLost a b snap (from a snap s m).1 n (from b snap (from a snap s m).1 n)
  one_publisher_wins a b snap s m n r fresh valid l h =
      let first = from a snap s m in
      let here : contents s ≡ snap = sym (repo.load_lem s snap l) in
      let valid_now : IsValid Draft (contents s).document =
        subst (λ (x : Snapshot Draft). IsValid Draft x.document) (sym here) valid in
      let (done, _, _, _) : Effect Draft chars same same_iff cache_takes repo a snap s m
          (published r, first.1, first.2) =
        subst
          (λ x. Effect Draft chars same same_iff cache_takes repo a snap s m (x, first.1, first.2))
          h
          (commit_from-Effect Draft chars same same_iff cache_takes repo a snap valid s m
            valid_now) in
      let valid_then : IsValid Draft (contents first.1).document =
        subst (IsValid Draft) (sym done)
          (planned-IsValid Draft chars same same_iff cache_takes repo a snap valid s m) in
      loses a b snap first.1 n valid _ _ _ done
        (old_commit b snap n first.1 (published-fresh a snap s m fresh valid here done))
        (commit_from-Effect Draft chars same same_iff cache_takes repo b snap valid first.1 n
          valid_then)
