-- ===== src/Automation/Manager.antt =====
-- Publishing and rolling back policies: `PolicyManager` (automation/app/policy_manager.py), over any
-- repository that keeps the laws of its interface.
pub mod Effects
pub mod Equality
mod Tests
pub mod Races
pub mod Histories
use polygate.Prelude.{
  ℕ, zero, suc, ◌+◌, ◌≡◌, Bool, true, false, not, ◌&&◌, ◌||◌, Option, none, some, List, [], ◌∷◌,
  ◌++◌, map, String, leb, ltb, ◌==◌, first, if◌then◌else◌, str_eq, is_some,
}
use polygate.Automation.Versions.{
  Status, active, archived, StoreError, PolicyVersion, Document, integrity, active_record,
  next_document, next_version,
}
use polygate.Automation.Repository.{
  Snapshot, Loaded, loaded, load_failed, Swapped, swapped, conflict, no_answer, Repository,
}

-- What a commit raises. A stale base, a conflict and another policy are `PolicyConflictError`; a failed
-- load, an unreconciled write and a write that was not committed are `RepositoryUnavailable`; the rest
-- are `PolicyVersionNotFound` and validation errors.
pub data CommitError : Type 0 where
  stale_base conflicting other_policy cannot_load unreconciled not_committed version_not_found
        bad_record :
      CommitError
  bad_document : StoreError → CommitError
  no_active_record : CommitError

module _ (Draft : Type 0) where
  -- The state of the manager, and what its cache was last given.
  pub record Manager : Type 0 where
    pub active_policy : PolicyVersion Draft
    pub ready : Bool
    pub cached : Option (PolicyVersion Draft)

  -- The arguments of `_commit`, and the clock.
  pub record Commit : Type 0 where
    pub base_version : ℕ
    pub draft : Draft
    pub change_note : String
    pub actor : String
    pub rollback_from : Option ℕ
    pub now : ℕ

  -- `PublishResult`
  pub record PublishResult : Type 0 where
    pub version : ℕ
    pub previous_version : ℕ
    pub rollback_from : Option ℕ
    pub published_at : ℕ
    pub degraded : Bool

  pub data Answer : Type 0 where
    published : PublishResult → Answer
    failed : CommitError → Answer

module _ (Draft : Type 0) (chars : String → ℕ) (same : Document Draft → Document Draft → Bool)
    (cache_takes : PolicyVersion Draft → Bool) (repo : Repository Draft) where
  open repo use {Store, load, compare_and_swap}

  -- The outcome of an operation: its answer, the store and the manager after it.
  abbrev pub After : Type 0
  After = Answer Draft × Store × Manager Draft

  -- `_activate_and_cache`: the manager after it; a cache that fails keeps what it has.
  unfoldable pub activate_and_cache : PolicyVersion Draft → Manager Draft → Manager Draft
  activate_and_cache r m = record m {
    active_policy = r;
    cached = if cache_takes r then some r else m.cached;
  }

  -- The record that a commit makes, and its field limits.
  abbrev pub new_record : Commit Draft → Document Draft → PolicyVersion Draft
  new_record c doc = record {
    version = next_version Draft doc;
    status = Status.active;
    created_at = c.now;
    created_by = c.actor;
    change_note = c.change_note;
    rollback_from = c.rollback_from;
    policy = c.draft;
  }

  unfoldable pub record_is_good : Commit Draft → Bool
  record_is_good c =
      leb 1 (chars c.actor)
      && leb 1 (chars c.change_note)
      && leb (chars c.change_note) 500
      && (elim c.rollback_from [ none ↦ true | some n ↦ leb 1 n ])

  -- The end of `_commit`, once the document is known to be stored.
  unfoldable pub finish : Commit Draft → Document Draft → Store → Manager Draft → After
  finish c persisted s m = elim (active_record Draft persisted) [
    | none ↦ (failed no_active_record, s, record m { ready = true })
    | some r ↦ (
      published (record {
        version = r.version;
        previous_version = c.base_version;
        rollback_from = r.rollback_from;
        published_at = r.created_at;
        degraded = not (cache_takes r);
      }),
      s,
      activate_and_cache r (record m { ready = true }),
    )
  ]

  -- What `_commit` does when the write got no answer: it reads the store again.
  unfoldable pub reconcile :
      Commit Draft → Snapshot Draft → Document Draft → Store → Manager Draft → After
  reconcile c snap new s m = elim (load s) [
    | load_failed ↦ (failed unreconciled, s, record m { ready = false })
    | loaded p ↦
        if same p.document new
        then finish c p.document s m
        else if (p.revision == snap.revision) && same p.document snap.document
        then (failed not_committed, s, record m { ready = true })
        else elim (active_record Draft p.document) [
          | none ↦ (failed no_active_record, s, record m { ready = true })
          | some r ↦ (failed other_policy, s, activate_and_cache r (record m { ready = true }))
        ]
  ]

  -- The write of `_commit`.
  unfoldable pub write :
      Commit Draft → Snapshot Draft → Document Draft → Store → Manager Draft → After
  write c snap new s m =
      let (answer, s') = compare_and_swap new snap.revision s in
      elim answer [
        | swapped p ↦ finish c p.document s' m
        | conflict ↦ (failed conflicting, s', m)
        | no_answer ↦ reconcile c snap new s' m
      ]

  -- `_commit` from the snapshot that it has loaded.
  unfoldable pub commit_from : Commit Draft → Snapshot Draft → Store → Manager Draft → After
  commit_from c snap s m =
      if not (c.base_version == snap.document.active_version)
      then (failed stale_base, s, m)
      else if not (record_is_good c)
      then (failed bad_record, s, m)
      else (let new = next_document Draft snap.document (new_record c snap.document) in
          elim (integrity Draft new) [
            | some e ↦ (failed (bad_document e), s, m)
            | none ↦ write c snap new s m
          ])

  -- `_commit`
  unfoldable pub commit : Commit Draft → Store → Manager Draft → After
  commit c s m = elim (load s) [
    | load_failed ↦ (failed cannot_load, s, m)
    | loaded snap ↦ commit_from c snap s m
  ]

  -- `publish`
  unfoldable pub publish : Commit Draft → Store → Manager Draft → After
  publish c s m = commit (record c { rollback_from = none }) s m

  -- `rollback`; its `draft` and `rollback_from` are those of the target.
  unfoldable pub rollback : ℕ → Commit Draft → Store → Manager Draft → After
  rollback target c s m = elim (load s) [
    | load_failed ↦ (failed cannot_load, s, m)
    | loaded snap ↦
        elim (first (λ (v : PolicyVersion Draft). v.version == target) snap.document.versions) [
          | none ↦ (failed version_not_found, s, m)
          | some v ↦ commit (record c { draft = v.policy; rollback_from = some target }) s m
        ]
  ]

  -- The constructor: the policy in force is the active one of the stored document.
  unfoldable pub new_manager : Store → Option (Manager Draft)
  new_manager s = elim (load s) [
    | load_failed ↦ none
    | loaded snap ↦ elim (active_record Draft snap.document) [
      | none ↦ none
      | some r ↦ some (record { active_policy = r; ready = true; cached = none })
    ]
  ]
