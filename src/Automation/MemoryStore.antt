-- ===== src/Automation/MemoryStore.antt =====
-- The store in memory: `InMemoryAutomationStore` (automation/app/store.py), and the submission of jobs,
-- `submit_job` (automation/app/main.py). A new identifier is an argument of the call that draws it.
pub mod Submissions
use polygate.Prelude.{
  ℕ, ◌+◌, ◌≡◌, refl, sym, ap, ◌∙◌, subst, inl, inr, Bool, true, false, not, Option, none, some,
  List, [], ◌∷◌, String, Dict, lookup, insert, lookup-insert, keep, take, leb, str_eq, str_eq_refl,
  str_eq_iff, if◌then◌else◌, Bool-cases,
}
use polygate.Automation.Jobs.{JobState, queued, Urgency, JobRecord, is_queued, same_state}

-- What the API answers to a submission: the job, the 422 of one that is not confirmed, the 404 of an
-- unknown preview; `broken` is the `KeyError` of a key whose job is missing.
pub data Submitted {ℓ} (A : Type ℓ) : Type ℓ where
  accepted : A → Submitted A
  not_confirmed no_preview broken : Submitted A

module _ (Res Request : Type 0) where
  -- A preview, as far as the store reads it.
  pub record StoredPreview : Type 0 where
    pub preview_id : String
    pub urgency : Urgency
    pub initial_score : ℕ
    pub gateway_request : Request
    pub policy_version : Option ℕ

  -- `InMemoryAutomationStore`
  pub record MemoryStore : Type 0 where
    pub previews : Dict StoredPreview
    pub jobs : Dict (JobRecord Res)
    pub idempotency : Dict String

  abbrev pub empty_store : MemoryStore
  empty_store = record { previews = []; jobs = []; idempotency = [] }

  -- `save_preview` and `get_preview`
  unfoldable pub save_preview : StoredPreview → MemoryStore → MemoryStore
  save_preview p s = record s { previews = insert p.preview_id p s.previews }

  unfoldable pub get_preview : String → MemoryStore → Option StoredPreview
  get_preview id s = lookup id s.previews

  -- `get_job`
  unfoldable pub get_job : String → MemoryStore → Option (JobRecord Res)
  get_job id s = lookup id s.jobs

  unfoldable pub queued_count : Dict (JobRecord Res) → ℕ
  queued_count [] = 0
  queued_count ((id, r) ∷ jobs) = (if is_queued r.status then 1 else 0) + queued_count jobs

  abbrev pub new_job : StoredPreview → String → ℕ → MemoryStore → JobRecord Res
  new_job p id now s = record {
    job_id = id;
    status = queued;
    urgency = p.urgency;
    initial_score = p.initial_score;
    queue_position = queued_count s.jobs + 1;
    created_at = now;
    started_at = none;
    completed_at = none;
    result = none;
    error = none;
    policy_version = p.policy_version;
  }

  -- `enqueue`, with the number that it may draw.
  unfoldable pub enqueue :
      StoredPreview → String → String → ℕ → MemoryStore → Submitted (JobRecord Res) × MemoryStore
  unfolding get_job
  enqueue p key fresh now s = elim (lookup key s.idempotency) [
    | some id ↦ elim (get_job id s) [ some r ↦ (accepted r, s) | none ↦ (broken, s) ]
    | none ↦ (
      accepted (new_job p fresh now s),
      record s {
        jobs = insert fresh (new_job p fresh now s) s.jobs;
        idempotency = insert key fresh s.idempotency;
      },
    )
  ]

  -- `submit_job`
  unfoldable pub submit_job :
      Bool → String → String → String → ℕ → MemoryStore → Submitted (JobRecord Res) × MemoryStore
  unfolding enqueue get_preview
  submit_job confirmed preview_id key fresh now s =
      if not confirmed then (not_confirmed, s) else elim (get_preview preview_id s) [
        | none ↦ (no_preview, s)
        | some p ↦ enqueue p key fresh now s
      ]

  -- `sorted(jobs, key=…, reverse=True)`: newest first, equal times in their order.
  unfoldable pub insert_newest : JobRecord Res → List (JobRecord Res) → List (JobRecord Res)
  insert_newest r [] = r ∷ []
  insert_newest r (q ∷ qs) =
      let rest = insert_newest r qs in
      if leb q.created_at r.created_at then r ∷ q ∷ qs else q ∷ rest

  unfoldable pub newest_first : Dict (JobRecord Res) → List (JobRecord Res)
  unfolding insert_newest
  newest_first [] = []
  newest_first ((id, r) ∷ jobs) = insert_newest r (newest_first jobs)

  abbrev pub wanted : Option JobState → JobRecord Res → Bool
  wanted none r = true
  wanted (some status) r = same_state r.status status

  -- `list_jobs`
  unfoldable pub list_jobs : Option JobState → ℕ → MemoryStore → List (JobRecord Res)
  unfolding newest_first
  list_jobs status limit s = take limit (keep (wanted status) (newest_first s.jobs))
