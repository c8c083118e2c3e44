-- ===== src/Automation/PolicyApi/Publications.antt =====
-- What the replies to publications say (automation/app/main.py).
use polygate.Prelude.{
  ℕ, ◌+◌, ◌≡◌, refl, sym, ap, ◌∙◌, ◌↔◌, ◌⊎◌, inl, inr, Bool, true, false, Option, none, some,
  String, Text, Bool-cases,
}
use polygate.Automation.Versions.{PolicyVersion, Document, active_record}
use polygate.Automation.Versions.Valid.{IsValid}
use polygate.Automation.Versions.History.{active_record-next_document}
use polygate.Automation.Repository.{Repository}
use polygate.Automation.Manager.{
  stale_base, conflicting, other_policy, cannot_load, unreconciled, not_committed,
  version_not_found, bad_record, bad_document, no_active_record, Manager, Commit, published, failed,
  After, commit, publish,
}
use polygate.Automation.Manager.Effects.{Effect, Loaded-cases, planned_record}
use polygate.Automation.Manager.Histories.{from_load, planned_moves}
use polygate.Automation.PolicyApi.{
  unauthorized, no_such_version, version_conflict, repository_down, server_error, created, require,
  Handled, replied, publish_policy,
}

module _ (Draft : Type 0) (chars : String → ℕ) (same : Document Draft → Document Draft → Bool)
    (same_iff : (a b : Document Draft) → (same a b ≡ true) ↔ (a ≡ b))
    (cache_takes : PolicyVersion Draft → Bool) (repo : Repository Draft) where
  open repo use {Store, contents, load}

  module _ (expected_key : Text) (authorization : Option Text) (c : Commit Draft) (s : Store)
      (m : Manager Draft) where
    -- What a reply says: 201 that the draft is stored as the next version and in force, 401, 409 and 500
    -- that the store is as it was, 401 and 500 that the manager is too, and 503 that the store is as it
    -- was or holds the next version.
    abbrev pub Replies : Handled Draft chars same cache_takes repo → Type 0
    Replies (created r, s', m') =
        (require expected_key authorization ≡ true)
        × (r.version ≡ (contents s).document.active_version + 1)
        × (m'.active_policy.version ≡ r.version)
        × (m'.active_policy.policy ≡ c.draft)
        × IsValid Draft (contents s').document
        × (active_record Draft (contents s').document ≡ some m'.active_policy)
    Replies (unauthorized, s', m') =
        (require expected_key authorization ≡ false) × (s' ≡ s) × (m' ≡ m)
    Replies (version_conflict, s', m') =
        (require expected_key authorization ≡ true) × (contents s' ≡ contents s)
    Replies (repository_down, s', m') =
        (require expected_key authorization ≡ true)
        × ((contents s' ≡ contents s)
            ⊎ ((contents s').document.active_version ≡ (contents s).document.active_version + 1))
        × (m'.active_policy ≡ m.active_policy)
    Replies (server_error, s', m') =
        (require expected_key authorization ≡ true) × (contents s' ≡ contents s) × (m' ≡ m)
    Replies (no_such_version, s', m') = ⊥

  module _ (expected_key : Text) (authorization : Option Text) (c : Commit Draft) (s : Store)
      (m : Manager Draft) (valid : IsValid Draft (contents s).document)
      (allowed : require expected_key authorization ≡ true) where
    abbrev c' : Commit Draft
    c' = record c { rollback_from = none }

    Effect-Replies :
        (after : After Draft chars same cache_takes repo)
        → Effect Draft chars same same_iff cache_takes repo c' (contents s) s m after
        → Replies expected_key authorization c s m (replied Draft chars same cache_takes repo after)
    Effect-Replies (published r, s', m') (d, a, v, _) =
        let (w, n) =
          planned_moves Draft chars same same_iff cache_takes repo c' s m valid
            (contents s').document d in
        let now =
          active_record-next_document Draft (contents s).document
            (planned_record Draft chars same same_iff cache_takes repo c' (contents s)) valid refl
            refl in
        (
          allowed,
          v ∙ ap (λ k. k + 1) valid.top,
          ap (λ (x : PolicyVersion Draft). x.version) a ∙ sym v,
          ap (λ (x : PolicyVersion Draft). x.policy) a,
          w,
          ap (active_record Draft) d ∙ (now ∙ ap some (sym a)),
        )
    Effect-Replies (failed unreconciled, s', m') (inl k, e, _) = (allowed, inl k, e)
    Effect-Replies (failed unreconciled, s', m') (inr d, e, _) = (
      allowed,
      inr
          (planned_moves Draft chars same same_iff cache_takes repo c' s m valid
            (contents s').document d).1,
      e,
    )
    Effect-Replies (failed other_policy, s', m') (k, _) = (allowed, k)
    Effect-Replies (failed no_active_record, s', m') h = absurd h
    Effect-Replies (failed (bad_document e), s', m') h = absurd h
    Effect-Replies (failed stale_base, s', m') (k, _, _) = (allowed, ap contents k)
    Effect-Replies (failed conflicting, s', m') (k, _) = (allowed, k)
    Effect-Replies (failed cannot_load, s', m') h = absurd h
    Effect-Replies (failed not_committed, s', m') (k, _, e) = (allowed, inl k, e)
    Effect-Replies (failed version_not_found, s', m') h = absurd h
    Effect-Replies (failed bad_record, s', m') (k, e, _) = (allowed, ap contents k, e)

    publish-Replies : Replies expected_key authorization c s m (
        replied Draft chars same cache_takes repo (publish Draft chars same cache_takes repo c s m))
    unfolding publish commit
    publish-Replies = elim (Loaded-cases Draft (load s)) [
      | inl e ↦ rw (e, commit) (allowed, inl refl, refl)
      | inr (p, e) ↦
          Effect-Replies (commit Draft chars same cache_takes repo c' s m)
            (from_load Draft chars same same_iff cache_takes repo c' s m valid p e)
    ]

  pub publish_policy-Replies :
      (expected_key : Text) (authorization : Option Text) (c : Commit Draft) (s : Store)
      (m : Manager Draft)
      → IsValid Draft (contents s).document
      → Replies expected_key authorization c s m
          (publish_policy Draft chars same cache_takes repo expected_key authorization c s m)
  unfolding publish_policy
  publish_policy-Replies expected_key authorization c s m valid =
      elim (Bool-cases (require expected_key authorization)) [
        | inl y ↦ rw (y, publish_policy) (publish-Replies expected_key authorization c s m valid y)
        | inr n ↦ rw (n, publish_policy) (n, refl, refl)
      ]
