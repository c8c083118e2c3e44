-- ===== src/Automation/Queue.antt =====
-- The store of jobs: `RedisAutomationStore` (automation/app/redis_store.py), less the claim.
pub mod Claim
pub mod Steps
pub mod Recovery
pub mod Claims
pub mod Choice
pub mod Invariant
pub mod Submissions
pub mod Crash
pub mod Losses
pub mod Bystanders
use polygate.Prelude.{
  ℕ, zero, suc, ◌+◌, ◌-◌, ◌*◌, ◌/◌, min, ◌≡◌, Bool, true, false, not, ◌&&◌, ◌||◌, Option, none,
  some, List, [], ◌∷◌, ◌++◌, String, leb, ltb, ◌==◌, length, keep, if◌then◌else◌, str_eq, mem_text,
  or_else,
}
use polygate.Automation.Redis.{Strings, Sets, SortedSets}
use polygate.Automation.Jobs.{
  QueuePolicy, waiting_bonus, JobState, queued, running, completed, failed, Urgency, critical, high,
  normal, low, is_urgent, JobRecord, Preview, is_queued, same_state,
}

module _ (Res Payload : Type 0) (jobs : Strings (JobRecord Res)) (payloads : Strings Payload)
    (ids : Strings String) (sets : Sets) (sorted : SortedSets) where
  abbrev pub Job : Type 0
  Job = JobRecord Res

  -- The key spaces of the store.
  pub record Store : Type 0 where
    pub job : jobs.Space
    pub job_payload : payloads.Space
    pub idempotency : ids.Space
    pub pending : sets.Space
    pub streak : ℕ
    pub leases : sorted.Space
    pub index : sorted.Space

  abbrev pub get_job : String → Store → Option Job
  get_job id s = jobs.get id s.job

  -- `_save_job`
  abbrev pub save_job : Job → Store → Store
  save_job r s = record s { job = jobs.set r.job_id r s.job }

  abbrev pub get_execution_payload : String → Store → Option Payload
  get_execution_payload id s = payloads.get id s.job_payload

  abbrev pub queue_depth : Store → ℕ
  queue_depth s = length (sets.smembers s.pending)

  -- The pipeline of `enqueue`, for a job that is new under the number `id`.
  abbrev pub new_job : Preview Payload → String → ℕ → Store → Job
  new_job p id now s = record {
    job_id = id;
    status = queued;
    urgency = p.urgency;
    initial_score = p.initial_score;
    queue_position = queue_depth s + 1;
    created_at = now;
    started_at = none;
    completed_at = none;
    result = none;
    error = none;
    policy_version = p.policy_version;
  }

  abbrev pub add_job : Preview Payload → String → ℕ → Store → Job × Store
  add_job p id now s = (
    new_job p id now s,
    record s {
      job = jobs.set id (new_job p id now s) s.job;
      job_payload = payloads.set id p.gateway_request s.job_payload;
      pending = sets.sadd id s.pending;
      index = sorted.zadd id now s.index;
    },
  )

  -- `enqueue` with the two numbers that it may draw.
  unfoldable pub enqueue : Preview Payload → String → String → String → ℕ → Store → Job × Store
  enqueue p key fresh again now s = elim (ids.get key s.idempotency) [
    | none ↦ add_job p fresh now (record s { idempotency = ids.set key fresh s.idempotency })
    | some id ↦ elim (get_job id s) [
      | some existing ↦ (existing, s)
      | none ↦ add_job p again now (record s { idempotency = ids.set key again s.idempotency })
    ]
  ]

  -- The expiry of a key of `enqueue` that was set at `set_at`; `now` is the time of the next command.
  abbrev pub idempotency_ttl_seconds : ℕ
  idempotency_ttl_seconds = 24 * 60 * 60

  unfoldable pub expire_key : String → ℕ → ℕ → Store → Store
  expire_key key set_at now s =
      if leb (set_at + idempotency_ttl_seconds) now
      then (record s { idempotency = ids.del key s.idempotency })
      else s

  -- `list_jobs` along the index, newest first.
  abbrev pub wanted : Option JobState → Job → Bool
  wanted none r = true
  wanted (some st) r = same_state r.status st

  unfoldable pub list_from : Option JobState → List String → ℕ → Store → List Job
  list_from st [] limit s = []
  list_from st (id ∷ rest) limit s = elim (get_job id s) [
    | none ↦ list_from st rest limit s
    | some r ↦
        if not (wanted st r)
        then list_from st rest limit s
        else r ∷ (if leb limit 1 then [] else list_from st rest (limit - 1) s)
  ]

  unfoldable pub list_jobs : Option JobState → ℕ → Store → List Job
  unfolding list_from
  list_jobs st limit s = list_from st (sorted.zrevrange s.index) limit s

  unfoldable pub renew_lease : String → ℕ → ℕ → Store → Store
  renew_lease id lease now s = record s { leases = sorted.zadd id (now + lease) s.leases }

  -- The common end of `complete_job` and `fail_job`.
  abbrev pub close_job : String → Job → Store → Store
  close_job id r s = record s {
    job = jobs.set r.job_id r s.job;
    leases = sorted.zrem id s.leases;
    job_payload = payloads.del id s.job_payload;
  }

  unfoldable pub complete_job : String → Res → ℕ → Store → Store
  complete_job id result now s = elim (get_job id s) [
    | none ↦ s
    | some r ↦
        close_job id
          (record r { status = completed; completed_at = some now; result = some result }) s
  ]

  unfoldable pub fail_job : String → String → ℕ → Store → Store
  fail_job id error now s = elim (get_job id s) [
    | none ↦ s
    | some r ↦
        close_job id (record r { status = failed; completed_at = some now; error = some error }) s
  ]

  abbrev pub put_back : String → Job → Store → Store
  put_back id r s = record s {
    job = jobs.set r.job_id (record r { status = queued }) s.job;
    leases = sorted.zrem id s.leases;
    pending = sets.sadd id s.pending;
  }

  -- GET, SET, ZREM and SADD, one after the other and with nothing in between.
  unfoldable pub requeue_job : String → Store → Store
  requeue_job id s = elim (get_job id s) [ none ↦ s | some r ↦ put_back id r s ]

  unfoldable pub requeue_all : List String → Store → Store
  requeue_all [] s = s
  requeue_all (id ∷ rest) s = requeue_all rest (requeue_job id s)

  -- `reap_expired_leases`
  unfoldable pub reap_expired_leases : ℕ → Store → List String × Store
  reap_expired_leases now s =
      let expired = sorted.zrangebyscore now s.leases in (expired, requeue_all expired s)
