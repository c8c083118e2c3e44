-- ===== src/Automation/Worker.antt =====
-- The worker: executing a job, its retries, and one round of its loop (automation/app/worker.py).
pub mod Retries
use polygate.Prelude.{
  ℕ, zero, suc, ◌+◌, ◌-◌, ◌≡◌, Bool, true, false, not, ◌&&◌, ◌||◌, Option, none, some, List, [],
  ◌∷◌, String, leb, ltb, ◌==◌, if◌then◌else◌, or_else, Dict, lookup, insert,
}
use polygate.Automation.Redis.{Strings, Sets, SortedSets}
use polygate.Automation.Jobs.{QueuePolicy, JobRecord}
use polygate.Automation.Queue.{
  Store, get_execution_payload, complete_job, fail_job, requeue_job, reap_expired_leases,
}
use polygate.Automation.Queue.Claim.{claim_next_job}

-- What the call of the gateway raises: an HTTP status, or anything else.
pub data JobFailure : Type 0 where
  http_status : ℕ → JobFailure
  other_failure : JobFailure

-- `_is_retryable`
unfoldable pub is_retryable : JobFailure → Bool
is_retryable (http_status code) = code == 408 || code == 429 || leb 500 code
is_retryable other_failure = true

pub data GatewayAnswer (Res : Type 0) : Type 0 where
  result : Res → GatewayAnswer Res
  failure : JobFailure → GatewayAnswer Res

module _ (Res Payload : Type 0) (jobs : Strings (JobRecord Res)) (payloads : Strings Payload)
    (ids : Strings String) (sets : Sets) (sorted : SortedSets) (max_retries : ℕ)
    (text_of : JobFailure → String) where
  abbrev pub JobStore : Type 0
  JobStore = Store Res Payload jobs payloads ids sets sorted

  -- `_retry_counts`, the counters of the metrics, and the store.
  pub record Worker : Type 0 where
    pub store : JobStore
    pub retry_counts : Dict ℕ
    pub processed : ℕ
    pub given_up : ℕ
    pub retried : ℕ

  abbrev pub retries_of : String → Worker → ℕ
  retries_of id w = or_else (lookup id w.retry_counts) 0

  abbrev pub retry : String → Worker → Worker
  retry id w = record w {
    store = requeue_job Res Payload jobs payloads ids sets sorted id w.store;
    retry_counts = insert id (retries_of id w + 1) w.retry_counts;
    retried = w.retried + 1;
  }

  abbrev pub give_up : String → JobFailure → ℕ → Worker → Worker
  give_up id e now w = record w {
    store = fail_job Res Payload jobs payloads ids sets sorted id (text_of e) now w.store;
    given_up = w.given_up + 1;
  }

  -- The handler of `execute_job`'s exceptions.
  unfoldable pub on_failure : String → JobFailure → ℕ → Worker → Worker
  on_failure id e now w =
      if is_retryable e && ltb (retries_of id w) max_retries then retry id w else give_up id e now w

  -- `execute_job`, with the gateway as it answers now; a payload that is gone raises.
  unfoldable pub execute_job : String → (Payload → GatewayAnswer Res) → ℕ → Worker → Worker
  execute_job id gateway now w =
      elim (get_execution_payload Res Payload jobs payloads ids sets sorted id w.store) [
        | none ↦ on_failure id other_failure now w
        | some p ↦ elim (gateway p) [
          | failure e ↦ on_failure id e now w
          | result r ↦ record w {
            store = complete_job Res Payload jobs payloads ids sets sorted id r now w.store;
            processed = w.processed + 1;
          }
        ]
      ]

  -- The state of `worker_loop` between two rounds; `in_flight` counts the jobs that it executes.
  pub record Loop : Type 0 where
    pub jobs_store : JobStore
    pub last_reap : ℕ
    pub in_flight : ℕ

  abbrev pub reap_if_due : ℕ → ℕ → Loop → Loop
  reap_if_due interval now l =
      if leb interval (now - l.last_reap)
      then record l {
        jobs_store =
            (reap_expired_leases Res Payload jobs payloads ids sets sorted now l.jobs_store).1;
        last_reap = now;
      }
      else l

  -- A round of `worker_loop`, in which `done` jobs have ended; it returns the job to execute.
  unfoldable pub loop_round : ℕ → ℕ → QueuePolicy → ℕ → ℕ → ℕ → Loop → Option (JobRecord Res) × Loop
  loop_round interval concurrency q lease now done l =
      let due = reap_if_due interval now l in
      let running_now = due.in_flight - done in
      if leb concurrency running_now
      then (none, record due { in_flight = running_now })
      else (let (claimed, s) =
            claim_next_job Res Payload jobs payloads ids sets sorted q lease now due.jobs_store in
          elim claimed [
            | none ↦ (none, record due { jobs_store = s; in_flight = running_now })
            | some r ↦ (some r, record due { jobs_store = s; in_flight = running_now + 1 })
          ])
