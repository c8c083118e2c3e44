-- ===== src/Automation/Tests.antt =====
-- A queue of jobs and its worker at concrete inputs.
use polygate.Prelude.{
  ℕ, ◌≤◌, ◌<◌, ◌≡◌, refl, inl, inr, false, Option, none, some, [], ◌∷◌, String, lookup, arith,
  mem_text, Bool-cases, str_eq, str_eq_iff, subst, sym,
}
use polygate.Automation.Spaces.{text_space, set_space, sorted_space}
use polygate.Automation.Jobs.{
  default_queue_policy, waiting_bonus, queued, running, failed, critical, high, normal, JobRecord,
  Preview,
}
use polygate.Automation.Queue.{enqueue, reap_expired_leases}
use polygate.Automation.Queue.Claim.{
  claim_next_job, candidates, choose, take_job, candidate_of, max_by, clean, Candidate,
}
use polygate.Automation.Queue.Claims.{Claims, claim_next_job-Claims, take_job-once}
use polygate.Automation.Queue.Invariant.{Here, NoneLost, IsKept, kept-job_id}
use polygate.Automation.Queue.Steps.{here, onward, takes}
use polygate.Automation.Queue.Submissions.{
  set_nx, after_set_nx, alone, AreBothQueued, overlap_queues_twice,
}
use polygate.Automation.Queue.Recovery.{Resubmits, enqueue-again, IsWaiting, reaped-IsWaiting}
use polygate.Automation.Queue.Crash.{
  StaysLost, claim_breaks, take_until, removed, reaps, takes, onward, here,
}
use polygate.Automation.Queue.Losses.{BreaksOff-StaysLost}
use polygate.Automation.Worker.{
  JobFailure, http_status, GatewayAnswer, failure, Worker, is_retryable,
}
use polygate.Automation.Worker.Retries.{executions, executions-IsSettled, IsSettled}

abbrev Here' : Type 0
Here' =
    Here ℕ ℕ (text_space (JobRecord ℕ)) (text_space ℕ) (text_space String) set_space sorted_space

abbrev job : String → JobRecord ℕ
job id = record {
  job_id = id;
  status = queued;
  urgency = normal;
  initial_score = 50;
  queue_position = 1;
  created_at = 100;
  started_at = none;
  completed_at = none;
  result = none;
  error = none;
  policy_version = some 1;
}

abbrev urgent : String → JobRecord ℕ
urgent id = record (job id) { urgency = critical; initial_score = 150; created_at = 130 }

abbrev begun : JobRecord ℕ
begun = record (job "c") { status = running; started_at = some 110 }

-- Two jobs wait, an old normal one and a critical one; a third is running.
abbrev store : Here'
store = record {
  job = ("a", job "a") ∷ ("b", urgent "b") ∷ ("c", begun) ∷ [];
  job_payload = ("a", 1) ∷ ("b", 2) ∷ ("c", 3) ∷ [];
  idempotency = ("key", "a") ∷ [];
  pending = "a" ∷ "b" ∷ [];
  streak = 3;
  leases = ("c", 170) ∷ [];
  index = ("b", 130) ∷ ("a", 100) ∷ [];
}

nothing_lost :
    NoneLost ℕ ℕ
      (text_space (JobRecord ℕ))
      (text_space ℕ)
      (text_space String)
      set_space
      sorted_space
      store
unfolding lookup
nothing_lost id = elim (Bool-cases (str_eq "a" id)) [
  | inl y ↦ subst Kept ((str_eq_iff "a" id).0 y) (refl, λ q. refl, λ q. cc)
  | inr a ↦ elim (Bool-cases (str_eq "b" id)) [
    | inl y ↦ subst Kept ((str_eq_iff "b" id).0 y) (refl, λ q. refl, λ q. cc)
    | inr b ↦ elim (Bool-cases (str_eq "c" id)) [
      | inl y ↦ subst Kept ((str_eq_iff "c" id).0 y) (refl, λ q. cc, λ q. refl)
      | inr c ↦
          subst
            (IsKept ℕ ℕ (text_space (JobRecord ℕ)) (text_space ℕ) (text_space String) set_space
              sorted_space id _ _)
            (sym (absent id a b c)) tt
    ]
  ]
]
  where
    Kept : String → Type 0
    Kept id =
        IsKept ℕ ℕ (text_space (JobRecord ℕ)) (text_space ℕ) (text_space String) set_space
          sorted_space id (mem_text id store.pending) (lookup id store.leases) (lookup id store.job)

    absent :
        (id : String)
        → str_eq "a" id ≡ false
        → str_eq "b" id ≡ false
        → str_eq "c" id ≡ false
        → lookup id store.job ≡ none
    absent id a b c = rw a (rw b (rw c refl))

abbrev claimed : Option (JobRecord ℕ) × Here'
claimed =
    claim_next_job ℕ ℕ (text_space (JobRecord ℕ)) (text_space ℕ) (text_space String) set_space
      sorted_space default_queue_policy 60 140 store

-- Behind three urgent jobs the normal one is claimed, since it has waited 40 seconds.
starved_first : claimed.0 ≡ some (record (job "a") { status = running; started_at = some 140 })
unfolding claim_next_job candidates choose take_job clean max_by waiting_bonus lookup
starved_first = refl

claim_next_job-Claims_example :
    Claims ℕ ℕ
      (text_space (JobRecord ℕ))
      (text_space ℕ)
      (text_space String)
      set_space
      sorted_space
      default_queue_policy
      60
      140
      store
      claimed
claim_next_job-Claims_example =
    claim_next_job-Claims ℕ ℕ (text_space (JobRecord ℕ)) (text_space ℕ) (text_space String)
      set_space sorted_space default_queue_policy 60 140 store nothing_lost

abbrev candidate :
    Candidate ℕ ℕ
      (text_space (JobRecord ℕ))
      (text_space ℕ)
      (text_space String)
      set_space
      sorted_space
candidate =
    candidate_of ℕ ℕ (text_space (JobRecord ℕ)) (text_space ℕ) (text_space String) set_space
      sorted_space default_queue_policy 140 "a" (job "a")

abbrev take : ℕ → Here' → Option (JobRecord ℕ) × Here'
take now s =
    take_job ℕ ℕ (text_space (JobRecord ℕ)) (text_space ℕ) (text_space String) set_space
      sorted_space candidate 60 now s

take_job-once_example : take 141 (take 140 store).1 ≡ (none, (take 140 store).1)
take_job-once_example =
    take_job-once ℕ ℕ (text_space (JobRecord ℕ)) (text_space ℕ) (text_space String) set_space
      sorted_space candidate candidate 60 140 60 141 store refl refl

abbrev preview : Preview ℕ
preview = record {
  urgency = high;
  initial_score = 100;
  gateway_request = 9;
  policy_version = some 1;
}

abbrev submit : String → ℕ → Here' → JobRecord ℕ × Here'
submit fresh now s =
    enqueue ℕ ℕ (text_space (JobRecord ℕ)) (text_space ℕ) (text_space String) set_space sorted_space
      preview "new key" fresh "again" now s

enqueue-again_example :
    let (r, t) = submit "d" 200 store in
    Resubmits ℕ ℕ
      (text_space (JobRecord ℕ))
      (text_space ℕ)
      (text_space String)
      set_space
      sorted_space
      preview
      "new key"
      "e"
      "again"
      200
      90000
      r
      t
unfolding lookup
enqueue-again_example =
    enqueue-again ℕ ℕ (text_space (JobRecord ℕ)) (text_space ℕ) (text_space String) set_space
      sorted_space preview preview "new key" "d" "again" "e" "again" 200 90000 store refl

-- The second request draws "e", and "f" for a job of its own.
overlap_queues_twice_example :
    let (was_set, t) =
      set_nx ℕ ℕ
        (text_space (JobRecord ℕ))
        (text_space ℕ)
        (text_space String)
        set_space
        sorted_space
        "new key"
        "d"
        store in
    AreBothQueued ℕ ℕ
      (text_space (JobRecord ℕ))
      (text_space ℕ)
      (text_space String)
      set_space
      sorted_space
      "d"
      "f"
      (after_set_nx ℕ ℕ
        (text_space (JobRecord ℕ))
        (text_space ℕ)
        (text_space String)
        set_space
        sorted_space
        preview
        "new key"
        "d"
        "again"
        201
        was_set
        (alone ℕ ℕ
          (text_space (JobRecord ℕ))
          (text_space ℕ)
          (text_space String)
          set_space
          sorted_space
          preview
          "new key"
          "e"
          "f"
          200
          t).1).1
unfolding lookup
overlap_queues_twice_example =
    overlap_queues_twice ℕ ℕ (text_space (JobRecord ℕ)) (text_space ℕ) (text_space String) set_space
      sorted_space preview preview "new key" "d" "again" "e" "f" 200 201 store refl refl refl

reaped-IsWaiting_example :
    IsWaiting ℕ ℕ
      (text_space (JobRecord ℕ))
      (text_space ℕ)
      (text_space String)
      set_space
      sorted_space
      "c"
      begun
      (reap_expired_leases ℕ ℕ
        (text_space (JobRecord ℕ))
        (text_space ℕ)
        (text_space String)
        set_space
        sorted_space
        180
        store).1
unfolding lookup
reaped-IsWaiting_example =
    reaped-IsWaiting ℕ ℕ (text_space (JobRecord ℕ)) (text_space ℕ) (text_space String) set_space
      sorted_space "c" begun 180 170 store refl (omega arith) refl nothing_lost

abbrev text_of : JobFailure → String
text_of e = "failed"

abbrev worker :
    Worker ℕ ℕ
      (text_space (JobRecord ℕ))
      (text_space ℕ)
      (text_space String)
      set_space
      sorted_space
      3
      text_of
worker = record { store = store; retry_counts = []; processed = 0; given_up = 0; retried = 0 }

abbrev busy : ℕ → GatewayAnswer ℕ
busy p = failure (http_status 503)

abbrev executed :
    ℕ
    → Worker ℕ ℕ
        (text_space (JobRecord ℕ))
        (text_space ℕ)
        (text_space String)
        set_space
        sorted_space
        3
        text_of
executed n =
    executions ℕ ℕ (text_space (JobRecord ℕ)) (text_space ℕ) (text_space String) set_space
      sorted_space 3 text_of n "c" busy 150 worker

executions-IsSettled_example :
    IsSettled ℕ ℕ
      (text_space (JobRecord ℕ))
      (text_space ℕ)
      (text_space String)
      set_space
      sorted_space
      3
      text_of
      "c"
      failed
      none
      (executed 4).store
    × ((n : ℕ)
        → 0 < n
        → n ≤ 3
        → IsSettled ℕ ℕ
            (text_space (JobRecord ℕ))
            (text_space ℕ)
            (text_space String)
            set_space
            sorted_space
            3
            text_of
            "c"
            queued
            (some 3)
            (executed n).store)
unfolding lookup is_retryable
executions-IsSettled_example =
    executions-IsSettled ℕ ℕ (text_space (JobRecord ℕ)) (text_space ℕ) (text_space String) set_space
      sorted_space 3 text_of "c" busy 150 (http_status 503) (λ p. refl) refl 3 worker begun 3 refl
      refl refl refl

-- The worker dies after SREM; then leases are reaped, and another worker tries to take the job.
abbrev after_death : Here'
after_death =
    (take 501
      (reap_expired_leases ℕ ℕ (text_space (JobRecord ℕ)) (text_space ℕ) (text_space String)
        set_space sorted_space 500
        (take_until ℕ ℕ (text_space (JobRecord ℕ)) (text_space ℕ) (text_space String) set_space
          sorted_space removed candidate 60 140 store)).1).1

BreaksOff-StaysLost_example :
    StaysLost ℕ ℕ
      (text_space (JobRecord ℕ))
      (text_space ℕ)
      (text_space String)
      set_space
      sorted_space
      "a"
      (job "a")
      after_death
unfolding lookup
BreaksOff-StaysLost_example =
    BreaksOff-StaysLost ℕ ℕ (text_space (JobRecord ℕ)) (text_space ℕ) (text_space String) set_space
      sorted_space "a" (job "a") store
      (take_until ℕ ℕ (text_space (JobRecord ℕ)) (text_space ℕ) (text_space String) set_space
        sorted_space removed candidate 60 140 store)
      after_death
      (λ k r e.
        kept-job_id ℕ ℕ (text_space (JobRecord ℕ)) (text_space ℕ) (text_space String) set_space
          sorted_space k _ _ _ r (nothing_lost k) e)
      (claim_breaks removed candidate 60 140 (λ e. cc) refl refl)
      (onward (reaps 500) (onward (takes candidate 60 501 refl) here))
