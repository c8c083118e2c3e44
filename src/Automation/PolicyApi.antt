-- ===== src/Automation/PolicyApi.antt =====
-- The routes of the policy: `_policy_router` (automation/app/main.py), with `PolicyAdminAuthenticator`
-- (automation/app/policy_auth.py). What clients read of a reply is what they parse of its body.
pub mod Access
pub mod Publications
pub mod Following
mod Tests
use polygate.Prelude.{
  ℕ, Bool, true, false, not, ◌&&◌, Option, none, some, List, [], ◌∷◌, ◌++◌, String, Text, codes,
  text_eq, strip, first, ◌==◌, if◌then◌else◌,
}
use polygate.Gateway.CacheKey.{show_nat}
use polygate.Automation.Versions.{PolicyVersion, Document}
use polygate.Automation.Repository.{Snapshot, Loaded, loaded, load_failed, Repository}
use polygate.Automation.Manager.{
  CommitError, stale_base, conflicting, other_policy, cannot_load, unreconciled, not_committed,
  version_not_found, bad_record, bad_document, no_active_record, Manager, Commit, PublishResult,
  Answer, published, failed, publish, rollback,
}

-- `s.partition(" ")`: what is before the first space, whether there is one, and what is behind it.
unfoldable pub partition : Text → Text × Bool × Text
partition [] = ([], false, [])
partition (c ∷ cs) =
    let (head, found, tail) = partition cs in
    if c == b' ' then ([], true, cs) else (c ∷ head, found, tail)

-- The credentials that an Authorization header supplies.
unfoldable pub supplied : Option Text → Text
unfolding partition
supplied none = []
supplied (some authorization) =
    let (scheme, separator, credentials) = partition authorization in
    if text_eq scheme (codes "Bearer") && separator then strip credentials else []

-- `PolicyAdminAuthenticator.require`
unfoldable pub require : Text → Option Text → Bool
unfolding supplied
require expected_key authorization = text_eq (supplied authorization) expected_key

-- `f'"policy-v{version}"'`
unfoldable pub etag_of : ℕ → Text
etag_of version = codes "\"policy-v" ++ (show_nat version ++ b'"' ∷ [])

module _ (Draft : Type 0) where
  -- `active_policy`: a 304 or the policy, with the ETag.
  pub data ActiveReply : Type 0 where
    not_modified : Text → ActiveReply
    active_is : PolicyVersion Draft → Text → ActiveReply

  abbrev pub is_same_tag : Option Text → Text → Bool
  is_same_tag none tag = false
  is_same_tag (some t) tag = text_eq t tag

  -- `active_policy`
  unfoldable pub active_policy : Manager Draft → Option Text → ActiveReply
  active_policy m if_none_match =
      if is_same_tag if_none_match (etag_of m.active_policy.version)
      then not_modified (etag_of m.active_policy.version)
      else active_is m.active_policy (etag_of m.active_policy.version)

  -- The replies of the routes of administrators: 401, 201, 404, 409, 503, and the 500 of an exception
  -- that no route expects.
  pub data ApiReply : Type 0 where
    unauthorized no_such_version version_conflict repository_down server_error : ApiReply
    created : PublishResult Draft → ApiReply

  -- The `except` clauses of `publish_policy` and `rollback_policy`.
  abbrev pub reply_to : Answer Draft → ApiReply
  reply_to (published r) = created r
  reply_to (failed stale_base) = version_conflict
  reply_to (failed conflicting) = version_conflict
  reply_to (failed other_policy) = version_conflict
  reply_to (failed cannot_load) = repository_down
  reply_to (failed unreconciled) = repository_down
  reply_to (failed not_committed) = repository_down
  reply_to (failed version_not_found) = no_such_version
  reply_to (failed bad_record) = server_error
  reply_to (failed (bad_document e)) = server_error
  reply_to (failed no_active_record) = server_error

  -- What `get_policy` answers.
  pub data Shown : Type 0 where
    not_shown : ApiReply → Shown
    shown : PolicyVersion Draft → Shown

module _ (Draft : Type 0) (chars : String → ℕ) (same : Document Draft → Document Draft → Bool)
    (cache_takes : PolicyVersion Draft → Bool) (repo : Repository Draft) where
  open repo use {Store, load}

  -- A reply, with the store and the manager after it.
  abbrev pub Handled : Type 0
  Handled = ApiReply Draft × Store × Manager Draft

  abbrev pub replied : Answer Draft × Store × Manager Draft → Handled
  replied (a, s, m) = (reply_to Draft a, s, m)

  -- `publish_policy`
  unfoldable pub publish_policy :
      Text → Option Text → Commit Draft → Store → Manager Draft → Handled
  unfolding require
  publish_policy expected_key authorization c s m =
      if require expected_key authorization
      then replied (publish Draft chars same cache_takes repo c s m)
      else (unauthorized, s, m)

  -- `rollback_policy`
  unfoldable pub rollback_policy :
      Text → Option Text → ℕ → Commit Draft → Store → Manager Draft → Handled
  unfolding require
  rollback_policy expected_key authorization version c s m =
      if require expected_key authorization
      then replied (rollback Draft chars same cache_takes repo version c s m)
      else (unauthorized, s, m)

  -- `get_policy`, with `PolicyManager.get_version` and `history`.
  unfoldable pub get_policy : Text → Option Text → ℕ → Store → Shown Draft
  unfolding require
  get_policy expected_key authorization version s =
      if require expected_key authorization
      then (elim (load s) [
        | load_failed ↦ not_shown repository_down
        | loaded snap ↦
            elim (first (λ (v : PolicyVersion Draft). v.version == version)
              snap.document.versions) [ none ↦ not_shown no_such_version | some v ↦ shown v ]
      ])
      else not_shown unauthorized
