-- ===== src/Automation/Queue/Bystanders.antt =====
-- What the calls for other numbers leave of a lost job.
use polygate.Prelude.{
  ℕ, ◌+◌, ◌≡◌, refl, sym, ap, subst, ◌∙◌, inl, inr, true, false, Option, some, List, [], ◌∷◌,
  String, arith, Bool-cases, Option-cases, mem_text, str_eq, str_eq_iff,
}
use polygate.Automation.Redis.{Strings, Sets, SortedSets}
use polygate.Automation.Jobs.{JobState, queued, JobRecord, Preview}
use polygate.Automation.Queue.{enqueue, add_job, complete_job, fail_job, requeue_job, requeue_all}
use polygate.Automation.Queue.Claim.{take_job, take_now, started, clean, is_dirty}
use polygate.Automation.Queue.Choice.{Cand}
use polygate.Automation.Queue.Claims.{take_job-some, take_job-none}
use polygate.Automation.Queue.Crash.{Now, IsLost}

module _ (Res Payload : Type 0) (jobs : Strings (JobRecord Res)) (payloads : Strings Payload)
    (ids : Strings String) (sets : Sets) (sorted : SortedSets) where
  abbrev There : Type 0
  There = Now Res Payload jobs payloads ids sets sorted

  module _ (id : String) (r : JobRecord Res) where
    -- Storing another record under its own number.
    put_other :
        (k : String) (q : JobRecord Res) (s t : There)
        → str_eq k id ≡ false
        → q.job_id ≡ k
        → t.job ≡ jobs.set k q s.job
        → mem_text id (sets.smembers t.pending) ≡ mem_text id (sets.smembers s.pending)
        → sorted.zscore id t.leases ≡ sorted.zscore id s.leases
        → IsLost Res Payload jobs payloads ids sets sorted id r s
        → IsLost Res Payload jobs payloads ids sets sorted id r t
    put_other k q s t n e f a b h = record {
      own = λ j x g. elim (Bool-cases (str_eq k j)) [
        | inl y ↦
            let new : some q ≡ some x = sym (rw f (jobs.get_set k j q s.job ∙ rw y refl)) ∙ g in
            let same : q ≡ x = cc in
            ap (λ (z : JobRecord Res). z.job_id) (sym same) ∙ (e ∙ (str_eq_iff k j).0 y)
        | inr z ↦ h.own j x (sym (rw f (jobs.get_set k j q s.job ∙ rw z refl)) ∙ g)
      ];
      stored = rw f (jobs.get_set k id q s.job ∙ (rw n h.stored));
      not_pending = a ∙ h.not_pending;
      no_lease = b ∙ h.no_lease;
    }

    added :
        (p : Preview Payload) (key k : String) (now : ℕ) (s : There)
        → str_eq k id ≡ false
        → IsLost Res Payload jobs payloads ids sets sorted id r s
        → IsLost Res Payload jobs payloads ids sets sorted id r
            (add_job Res Payload jobs payloads ids sets sorted p k now
              (record s { idempotency = ids.set key k s.idempotency })).1
    added p key k now s n h =
        put_other k _ s _ n refl refl (ground (arith, sets.smembers_sadd k id s.pending)) refl h

    pub enqueued :
        (p : Preview Payload) (key fresh again : String) (now : ℕ) (s : There)
        → str_eq fresh id ≡ false
        → str_eq again id ≡ false
        → IsLost Res Payload jobs payloads ids sets sorted id r s
        → IsLost Res Payload jobs payloads ids sets sorted id r
            (enqueue Res Payload jobs payloads ids sets sorted p key fresh again now s).1
    unfolding enqueue
    enqueued p key fresh again now s m n h = elim (Option-cases (ids.get key s.idempotency)) [
      | inl e ↦ rw (e, enqueue) (added p key fresh now s m h)
      | inr (x, e) ↦ elim (Option-cases (jobs.get x s.job)) [
        | inl f ↦ rw (e, enqueue) (rw (f, enqueue) (added p key again now s n h))
        | inr (q, f) ↦ rw (e, enqueue) (rw (f, enqueue) h)
      ]
    ]

    pub clean-out :
        (rest : List String) (s : There) (space : sets.Space)
        → mem_text id (sets.smembers space) ≡ false
        → mem_text id (sets.smembers (clean Res Payload jobs payloads ids sets sorted rest s space))
          ≡ false
    unfolding clean
    clean-out [] s space m = m
    clean-out (x ∷ rest) s space m =
        elim (Bool-cases (is_dirty Res Payload jobs payloads ids sets sorted (jobs.get x s.job))) [
          | inr n ↦ rw (n, clean) (clean-out rest s space m)
          | inl y ↦
              rw (y, clean)
                (clean-out rest s (sets.srem x space)
                  (ground (arith, sets.smembers_srem x id space)))
        ]

    pub taken :
        (c : Cand Res Payload jobs payloads ids sets sorted) (lease now : ℕ) (s : There)
        → c.record_of.job_id ≡ c.id
        → IsLost Res Payload jobs payloads ids sets sorted id r s
        → IsLost Res Payload jobs payloads ids sets sorted id r
            (take_job Res Payload jobs payloads ids sets sorted c lease now s).1
    taken c lease now s e h = elim (Bool-cases (mem_text c.id (sets.smembers s.pending))) [
      | inr n ↦
          subst
            (λ (x : Option (JobRecord Res) × There).
              IsLost Res Payload jobs payloads ids sets sorted id r x.1)
            (sym (take_job-none Res Payload jobs payloads ids sets sorted c lease now s n)) h
      | inl y ↦ elim (Bool-cases (str_eq c.id id)) [
        | inl same ↦
            let g : mem_text id (sets.smembers s.pending) ≡ true =
              subst (λ k. mem_text k (sets.smembers s.pending) ≡ true) ((str_eq_iff c.id id).0 same)
                y in
            absurd (let z = h.not_pending in ground arith)
        | inr n ↦
            subst
              (λ (x : Option (JobRecord Res) × There).
                IsLost Res Payload jobs payloads ids sets sorted id r x.1)
              (sym (take_job-some Res Payload jobs payloads ids sets sorted c lease now s y))
              (put_other c.id (started Res Payload jobs payloads ids sets sorted now c.record_of) s
                (take_now Res Payload jobs payloads ids sets sorted c lease now s) n e (rw e refl)
                (ground (arith, sets.smembers_srem c.id id s.pending))
                (sorted.zscore_zadd c.id id (now + lease) s.leases ∙ rw n refl) h)
      ]
    ]

    pub requeued :
        (k : String) (s : There)
        → str_eq k id ≡ false
        → IsLost Res Payload jobs payloads ids sets sorted id r s
        → IsLost Res Payload jobs payloads ids sets sorted id r
            (requeue_job Res Payload jobs payloads ids sets sorted k s)
    unfolding requeue_job
    requeued k s n h = elim (Option-cases (jobs.get k s.job)) [
      | inl e ↦ rw (e, requeue_job) h
      | inr (q, e) ↦
          let f = h.own k q e in
          rw (e, requeue_job)
            (put_other k (record q { status = queued }) s _ n f (rw f refl)
              (ground (arith, sets.smembers_sadd k id s.pending))
              (sorted.zscore_zrem k id s.leases ∙ rw n refl) h)
    ]

    pub all_requeued :
        (expired : List String) (s : There)
        → mem_text id expired ≡ false
        → IsLost Res Payload jobs payloads ids sets sorted id r s
        → IsLost Res Payload jobs payloads ids sets sorted id r
            (requeue_all Res Payload jobs payloads ids sets sorted expired s)
    unfolding requeue_all
    all_requeued [] s m h = h
    all_requeued (k ∷ rest) s m h =
        let n : str_eq k id ≡ false = ground (arith, str_eq_iff k id, str_eq_iff id k) in
        all_requeued rest (requeue_job Res Payload jobs payloads ids sets sorted k s) (ground arith)
          (requeued k s n h)

    -- A lost number is not among those whose lease has expired.
    pub not_listed :
        (now : ℕ) (s : There)
        → IsLost Res Payload jobs payloads ids sets sorted id r s
        → mem_text id (sorted.zrangebyscore now s.leases) ≡ false
    not_listed now s h = sorted.zrangebyscore_lem now id s.leases ∙ rw (h.no_lease) refl

    pub completed :
        (k : String) (result : Res) (now : ℕ) (s : There)
        → str_eq k id ≡ false
        → IsLost Res Payload jobs payloads ids sets sorted id r s
        → IsLost Res Payload jobs payloads ids sets sorted id r
            (complete_job Res Payload jobs payloads ids sets sorted k result now s)
    unfolding complete_job
    completed k result now s n h = elim (Option-cases (jobs.get k s.job)) [
      | inl e ↦ rw (e, complete_job) h
      | inr (q, e) ↦
          let f = h.own k q e in
          rw (e, complete_job)
            (put_other k
              (record q {
                status = JobState.completed;
                completed_at = some now;
                result = some result;
              })
              s _ n f (rw f refl) refl (sorted.zscore_zrem k id s.leases ∙ rw n refl) h)
    ]

    pub failed_job :
        (k text : String) (now : ℕ) (s : There)
        → str_eq k id ≡ false
        → IsLost Res Payload jobs payloads ids sets sorted id r s
        → IsLost Res Payload jobs payloads ids sets sorted id r
            (fail_job Res Payload jobs payloads ids sets sorted k text now s)
    unfolding fail_job
    failed_job k text now s n h = elim (Option-cases (jobs.get k s.job)) [
      | inl e ↦ rw (e, fail_job) h
      | inr (q, e) ↦
          let f = h.own k q e in
          rw (e, fail_job)
            (put_other k
              (record q { status = JobState.failed; completed_at = some now; error = some text }) s
              _ n f (rw f refl) refl (sorted.zscore_zrem k id s.leases ∙ rw n refl) h)
    ]
