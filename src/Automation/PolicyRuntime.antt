-- ===== src/Automation/PolicyRuntime.antt =====
-- The policy that the worker schedules by: `PolicyRuntime` (automation/app/policy_runtime.py). A policy is
-- whatever the service validates as one: the bodies and the file come parsed, or not.
use polygate.Prelude.{
  ℕ, ◌≡◌, refl, Bool, true, false, not, ◌&&◌, leb, ltb, Option, none, some, List, [], ◌∷◌, ◌==◌,
  if◌then◌else◌, or_else, arith, subst,
}
use polygate.Automation.Versions.{PolicyVersion, Document, active_record}

module _ (Draft Queue : Type 0) (queue_of : Draft → Queue) where
  -- `ActivePolicyResponse`
  pub record ActivePolicy : Type 0 where
    pub version : ℕ
    pub published_at : ℕ
    pub policy : Draft

  pub data ReloadFailure : Type 0 where
    network http validation file : ReloadFailure

  -- The mounted file: absent, or not a valid document, or one.
  pub data MountedStore : Type 0 where
    no_file bad_file : MountedStore
    store_file : Document Draft → MountedStore

  -- The answer of the Policy API: none, or a status and a valid body or not.
  pub data ApiAnswer : Type 0 where
    no_answer : ApiAnswer
    answer : ℕ → Option ActivePolicy → ApiAnswer

  pub record Runtime : Type 0 where
    pub active : ActivePolicy
    pub failures : List ReloadFailure

  -- `_snapshot_from_store_version`
  abbrev pub snapshot_from : PolicyVersion Draft → ActivePolicy
  snapshot_from v = record { version = v.version; published_at = v.created_at; policy = v.policy }

  -- `_load_initial_over_http`, where `raise_for_status` passes any 2xx; `none` is `PolicyLoadError`.
  unfoldable pub load_initial_over_http : ApiAnswer → Option Runtime
  load_initial_over_http no_answer = none
  load_initial_over_http (answer status body) =
      if leb 200 status && ltb status 300
      then (elim body [ none ↦ none | some a ↦ some (record { active = a; failures = file ∷ [] }) ])
      else none

  -- `_load_initial_snapshot`
  unfoldable pub load_initial : MountedStore → ApiAnswer → Option Runtime
  load_initial no_file api = load_initial_over_http api
  load_initial bad_file api = load_initial_over_http api
  load_initial (store_file d) api = elim (active_record Draft d) [
    | none ↦ none
    | some v ↦ some (record { active = snapshot_from v; failures = [] })
  ]

  -- `queue_policy`
  abbrev pub queue_policy : Runtime → Queue
  queue_policy r = queue_of r.active.policy

  abbrev pub failed_with : ReloadFailure → Runtime → Bool × Runtime
  failed_with why r = (false, record r { failures = why ∷ r.failures })

  -- `refresh_once`
  unfoldable pub poll_once : ApiAnswer → Runtime → Bool × Runtime
  poll_once no_answer r = failed_with network r
  poll_once (answer status body) r =
      if status == 304
      then (false, r)
      else if not (status == 200)
      then failed_with http r
      else elim body [ none ↦ failed_with validation r | some a ↦ (true, record r { active = a }) ]

  -- The policy of a poll that succeeds.
  abbrev pub new_policy : ApiAnswer → Option ActivePolicy
  new_policy no_answer = none
  new_policy (answer status body) = if status == 200 then body else none

  unfoldable pub poll_all : List ApiAnswer → Runtime → Runtime
  poll_all [] r = r
  poll_all (p ∷ ps) r = poll_all ps (poll_once p r).1

  abbrev pub last_policy : List ApiAnswer → ActivePolicy → ActivePolicy
  last_policy [] a = a
  last_policy (p ∷ ps) a = last_policy ps (or_else (new_policy p) a)

  poll_once-new_policy :
      (p : ApiAnswer) (r : Runtime) → (poll_once p r).1.active ≡ or_else (new_policy p) r.active
  unfolding poll_once
  poll_once-new_policy no_answer r = refl
  poll_once-new_policy (answer status none) r = ground arith
  poll_once-new_policy (answer status (some a)) r = ground arith

  -- Whatever the polls meet, the worker schedules by the last policy that arrived whole, or by the one
  -- it started with.
  pub poll_all-last_policy :
      (ps : List ApiAnswer) (r : Runtime) → (poll_all ps r).active ≡ last_policy ps r.active
  unfolding poll_all
  poll_all-last_policy [] r = refl
  poll_all-last_policy (p ∷ ps) r =
      subst (λ a. (poll_all ps (poll_once p r).1).active ≡ last_policy ps a)
        (poll_once-new_policy p r) (poll_all-last_policy ps (poll_once p r).1)
