-- ===== src/Automation/Worker/Retries.antt =====
-- Every execution settles its job, and a job that keeps failing is given up after its retries.
use polygate.Prelude.{
  ℕ, zero, suc, ◌+◌, ◌≤◌, ◌<◌, ◌≡◌, refl, sym, ap, subst, ◌∙◌, ◌⊎◌, inl, inr, true, ◌&&◌, Option,
  none, some, String, ltb, arith, Bool-cases, str_eq_refl, or_else, lookup, insert, lookup-insert,
}
use polygate.Automation.Redis.{Strings, Sets, SortedSets}
use polygate.Automation.Jobs.{queued, completed, failed, JobRecord, JobState}
use polygate.Automation.Queue.{complete_job, fail_job, requeue_job, close_job}
use polygate.Automation.Queue.Invariant.{requeued}
use polygate.Automation.Worker.{
  JobFailure, other_failure, is_retryable, GatewayAnswer, result, failure, Worker, retries_of,
  retry, give_up, on_failure, execute_job, JobStore,
}

module _ (Res Payload : Type 0) (jobs : Strings (JobRecord Res)) (payloads : Strings Payload)
    (ids : Strings String) (sets : Sets) (sorted : SortedSets) (max_retries : ℕ)
    (text_of : JobFailure → String) where
  abbrev W : Type 0
  W = Worker Res Payload jobs payloads ids sets sorted max_retries text_of

  -- The job has the given status and no lease, and its snapshot is kept exactly for a retry.
  pub record IsSettled (id : String) (st : JobState) (payload : Option Payload)
      (s : JobStore Res Payload jobs payloads ids sets sorted max_retries text_of) : Type 0 where
    pub job : JobRecord Res
    pub stored : jobs.get id s.job ≡ some job
    pub own : job.job_id ≡ id
    pub status : job.status ≡ st
    pub no_lease : sorted.zscore id s.leases ≡ none
    pub snapshot : payloads.get id s.job_payload ≡ payload

  module _ (id : String) (r : JobRecord Res)
      (s : JobStore Res Payload jobs payloads ids sets sorted max_retries text_of)
      (found : jobs.get id s.job ≡ some r) (own : r.job_id ≡ id) where
    closed-IsSettled :
        (q : JobRecord Res)
        → q.job_id ≡ r.job_id
        → IsSettled id q.status none (close_job Res Payload jobs payloads ids sets sorted id q s)
    closed-IsSettled q e = record {
      job = q;
      stored =
          subst (λ k. jobs.get id (jobs.set k q s.job) ≡ some q) (sym (e ∙ own))
            (jobs.get_set id id q s.job ∙ rw (str_eq_refl id) refl);
      own = e ∙ own;
      status = refl;
      no_lease = sorted.zscore_zrem id id s.leases ∙ rw (str_eq_refl id) refl;
      snapshot = payloads.get_del id id s.job_payload ∙ rw (str_eq_refl id) refl;
    }

    fail_job-IsSettled :
        (text : String) (now : ℕ)
        → IsSettled id failed none
            (fail_job Res Payload jobs payloads ids sets sorted id text now s)
    unfolding fail_job
    fail_job-IsSettled text now =
        let c =
          closed-IsSettled
            (record r { status = failed; completed_at = some now; error = some text }) refl in
        rw (found, fail_job) c

    complete_job-IsSettled :
        (res : Res) (now : ℕ)
        → IsSettled id completed none
            (complete_job Res Payload jobs payloads ids sets sorted id res now s)
    unfolding complete_job
    complete_job-IsSettled res now =
        let c =
          closed-IsSettled
            (record r { status = completed; completed_at = some now; result = some res }) refl in
        rw (found, complete_job) c

    requeue_job-IsSettled :
        IsSettled id queued
          (payloads.get id s.job_payload)
          (requeue_job Res Payload jobs payloads ids sets sorted id s)
    requeue_job-IsSettled =
        subst (IsSettled id queued (payloads.get id s.job_payload))
          (sym (requeued Res Payload jobs payloads ids sets sorted id r s found))
          (record {
            job = record r { status = queued };
            stored =
                subst
                  (λ k.
                    jobs.get id (jobs.set k (record r { status = queued }) s.job)
                    ≡ some (record r { status = queued }))
                  (sym own) (jobs.get_set id id _ s.job ∙ rw (str_eq_refl id) refl);
            own = own;
            status = refl;
            no_lease = sorted.zscore_zrem id id s.leases ∙ rw (str_eq_refl id) refl;
            snapshot = refl;
          })

  -- A failure is retried or final.
  abbrev pub AfterFailure : String → JobFailure → W → W → Type 0
  AfterFailure id e w v =
      ((is_retryable e ≡ true)
        × (retries_of Res Payload jobs payloads ids sets sorted max_retries text_of id w
            < max_retries)
        × (retries_of Res Payload jobs payloads ids sets sorted max_retries text_of id v
            ≡ retries_of Res Payload jobs payloads ids sets sorted max_retries text_of id w + 1)
        × IsSettled id queued (payloads.get id w.store.job_payload) v.store)
      ⊎ ((is_retryable e ≡ true
            → max_retries
              ≤ retries_of Res Payload jobs payloads ids sets sorted max_retries text_of id w)
          × (v.retry_counts ≡ w.retry_counts)
          × IsSettled id failed none v.store)

  on_failure-lem :
      (id : String) (e : JobFailure) (now : ℕ) (w : W) (r : JobRecord Res)
      → jobs.get id w.store.job ≡ some r
      → r.job_id ≡ id
      → AfterFailure id e w
          (on_failure Res Payload jobs payloads ids sets sorted max_retries text_of id e now w)
  unfolding on_failure
  on_failure-lem id e now w r found own =
      elim (Bool-cases (
        is_retryable e
        && ltb (retries_of Res Payload jobs payloads ids sets sorted max_retries text_of id w)
            max_retries)) [
              | inl y ↦
                  let again : on_failure Res Payload jobs payloads ids sets sorted max_retries
                        text_of id e now w
                      ≡ retry Res Payload jobs payloads ids sets sorted max_retries text_of id w =
                    rw (y, on_failure) refl in
                  let more : lookup id (
                        insert id
                          (retries_of Res Payload jobs payloads ids sets sorted max_retries text_of
                              id w
                            + 1)
                          w.retry_counts)
                      ≡ some (
                          retries_of Res Payload jobs payloads ids sets sorted max_retries text_of
                            id w
                          + 1) =
                    lookup-insert id id _ w.retry_counts ∙ rw (str_eq_refl id) refl in
                  subst (AfterFailure id e w) (sym again) (
                    inl (
                      ground arith,
                      ground arith,
                      ap (λ o. or_else o 0) more,
                      requeue_job-IsSettled id r w.store found own,
                    ))
              | inr n ↦
                  let last : on_failure Res Payload jobs payloads ids sets sorted max_retries
                        text_of id e now w
                      ≡ give_up Res Payload jobs payloads ids sets sorted max_retries text_of id e
                          now w =
                    rw (n, on_failure) refl in
                  subst (AfterFailure id e w) (sym last) (
                    inr (
                      λ y. ground arith,
                      refl,
                      fail_job-IsSettled id r w.store found own (text_of e) now,
                    ))
            ]

  -- What an execution does, by what it meets.
  abbrev pub AfterExecution : String → (Payload → GatewayAnswer Res) → W → W → Type 0
  AfterExecution id gateway w v =
      (payloads.get id w.store.job_payload ≡ none → AfterFailure id other_failure w v)
      × ((p : Payload) (e : JobFailure)
          → payloads.get id w.store.job_payload ≡ some p
          → gateway p ≡ failure e
          → AfterFailure id e w v)
      × ((p : Payload) (x : Res)
          → payloads.get id w.store.job_payload ≡ some p
          → gateway p ≡ result x
          → IsSettled id completed none v.store × (v.retry_counts ≡ w.retry_counts))

  -- An execution of a job whose record stands under its own number settles it, with no lease left:
  -- completed with the gateway's result; queued again, its snapshot kept and one more retry counted,
  -- behind a failure that may pass while retries are left; and failed, its snapshot erased, behind
  -- any other. A snapshot that is gone counts as a failure that may pass.
  pub execute_job-AfterExecution :
      (id : String) (gateway : Payload → GatewayAnswer Res) (now : ℕ) (w : W) (r : JobRecord Res)
      → jobs.get id w.store.job ≡ some r
      → r.job_id ≡ id
      → AfterExecution id gateway w (
          execute_job Res Payload jobs payloads ids sets sorted max_retries text_of id gateway now
            w)
  unfolding execute_job
  execute_job-AfterExecution id gateway now w r found own = (
    λ e.
        let ran : execute_job Res Payload jobs payloads ids sets sorted max_retries text_of id
              gateway now w
            ≡ on_failure Res Payload jobs payloads ids sets sorted max_retries text_of id
                other_failure now w =
          rw (e, execute_job) refl in
        subst (AfterFailure id other_failure w) (sym ran)
          (on_failure-lem id other_failure now w r found own),
    λ p x e g.
        let ran : execute_job Res Payload jobs payloads ids sets sorted max_retries text_of id
              gateway now w
            ≡ on_failure Res Payload jobs payloads ids sets sorted max_retries text_of id x now w =
          rw (e, execute_job) (rw (g, execute_job) refl) in
        subst (AfterFailure id x w) (sym ran) (on_failure-lem id x now w r found own),
    λ p x e g.
        let c = complete_job-IsSettled id r w.store found own x now in
        rw (e, execute_job) (rw (g, execute_job) (c, refl)),
  )

  -- Executing a job again and again.
  abbrev pub executions : ℕ → String → (Payload → GatewayAnswer Res) → ℕ → W → W
  executions zero id gateway now w = w
  executions (suc n) id gateway now w =
      executions n id gateway now
        (execute_job Res Payload jobs payloads ids sets sorted max_retries text_of id gateway now w)

  earlier :
      (id : String) (gateway : Payload → GatewayAnswer Res) (now : ℕ) (p : Payload) (d : ℕ) (w : W)
      → IsSettled id queued (some p) (executions 1 id gateway now w).store
      → ((n : ℕ)
          → 0 < n
          → n ≤ d
          → IsSettled id queued (some p) (executions (suc n) id gateway now w).store)
      → (n : ℕ) → 0 < n
      → n ≤ suc d
      → IsSettled id queued (some p) (executions n id gateway now w).store
  earlier id gateway now p d w kept y zero z m = absurd (omega arith)
  earlier id gateway now p d w kept y (suc zero) z m = kept
  earlier id gateway now p d w kept y (suc (suc n)) z m = y (suc n) (omega arith) (omega arith)

  -- A job with a snapshot whose executions keep failing in a way that may pass is given up after its
  -- retries: with `d` retries left, execution number `d + 1` marks it failed, and up to number `d`
  -- it is queued again.
  pub executions-IsSettled :
      (id : String) (gateway : Payload → GatewayAnswer Res) (now : ℕ) (e : JobFailure)
      → ((p : Payload) → gateway p ≡ failure e)
      → is_retryable e ≡ true
      → (d : ℕ) (w : W) (r : JobRecord Res) (p : Payload) → jobs.get id w.store.job ≡ some r
      → r.job_id ≡ id
      → payloads.get id w.store.job_payload ≡ some p
      → retries_of Res Payload jobs payloads ids sets sorted max_retries text_of id w + d
        ≡ max_retries
      → IsSettled id failed none (executions (suc d) id gateway now w).store
        × ((n : ℕ)
            → 0 < n
            → n ≤ d
            → IsSettled id queued (some p) (executions n id gateway now w).store)
  executions-IsSettled id gateway now e bad may zero w r p found own snap left =
      elim ((execute_job-AfterExecution id gateway now w r found own).1 p e snap (bad p)) [
        | inl (_, l, _, _) ↦ absurd (omega arith)
        | inr (_, _, t) ↦ (t, λ n z l. absurd (omega arith))
      ]
  executions-IsSettled id gateway now e bad may (suc d) w r p found own snap left =
      elim ((execute_job-AfterExecution id gateway now w r found own).1 p e snap (bad p)) [
        | inr (l, _, _) ↦ absurd (let m = l may in omega arith)
        | inl (_, l, c, t) ↦
            let v =
              execute_job Res Payload jobs payloads ids sets sorted max_retries text_of id gateway
                now w in
            let kept : IsSettled id queued (some p) v.store =
              subst (λ o. IsSettled id queued o v.store) snap t in
            let (x, y) =
              executions-IsSettled id gateway now e bad may d v t.job p t.stored t.own kept.snapshot
                (omega arith) in
            (x, λ n z m. earlier id gateway now p d w kept y n z m)
      ]
