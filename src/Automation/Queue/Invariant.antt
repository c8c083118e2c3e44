-- ===== src/Automation/Queue/Invariant.antt =====
-- No job is lost: what holds of the store after every operation that runs to its end.
use polygate.Prelude.{
  ℕ, ◌+◌, ◌≡◌, ◌≢◌, refl, sym, subst, ◌∙◌, inl, inr, Bool, true, false, Option, none, some, String,
  arith, str_eq, str_eq_iff, str_eq_refl, mem_text, is_some, Bool-cases, Option-cases,
}
use polygate.Automation.Redis.{Strings, Sets, SortedSets}
use polygate.Automation.Jobs.{queued, running, completed, failed, JobRecord, Preview}
use polygate.Automation.Queue.{
  Store, enqueue, add_job, new_job, close_job, complete_job, fail_job, requeue_job, put_back,
}
use polygate.Automation.Queue.Claim.{Candidate, take_job, take_now, started}

module _ (Res Payload : Type 0) (jobs : Strings (JobRecord Res)) (payloads : Strings Payload)
    (ids : Strings String) (sets : Sets) (sorted : SortedSets) where
  abbrev pub Here : Type 0
  Here = Store Res Payload jobs payloads ids sets sorted

  -- A record stands under its own number; a queued job is pending, and a running one holds a lease.
  abbrev pub IsKept : String → Bool → Option ℕ → Option (JobRecord Res) → Type 0
  IsKept id is_pending lease none = Unit
  IsKept id is_pending lease (some r) =
      (r.job_id ≡ id)
      × (r.status ≡ queued → is_pending ≡ true)
      × (r.status ≡ running → is_some lease ≡ true)

  abbrev pub NoneLost : Here → Type 0
  NoneLost s =
      (id : String)
      → IsKept id (mem_text id (sets.smembers s.pending)) (sorted.zscore id s.leases)
          (jobs.get id s.job)

  -- Storing one record, where the sets change for its number only.
  put :
      (k : String) (r : JobRecord Res) (s t : Here)
      → NoneLost s
      → t.job ≡ jobs.set k r s.job
      → ((id : String)
          → str_eq k id ≡ false
          → (mem_text id (sets.smembers t.pending) ≡ mem_text id (sets.smembers s.pending))
            × (sorted.zscore id t.leases ≡ sorted.zscore id s.leases))
      → IsKept k (mem_text k (sets.smembers t.pending)) (sorted.zscore k t.leases) (some r)
      → NoneLost t
  put k r s t h e frame new id = elim (Bool-cases (str_eq k id)) [
    | inl y ↦
        let same : k ≡ id = (str_eq_iff k id).0 y in
        let g : jobs.get id t.job ≡ some r = rw e (jobs.get_set k id r s.job ∙ (rw y refl)) in
        subst (IsKept id (mem_text id (sets.smembers t.pending)) (sorted.zscore id t.leases))
          (sym g)
          (subst
            (λ x.
              IsKept x (mem_text x (sets.smembers t.pending)) (sorted.zscore x t.leases) (some r))
            same new)
    | inr n ↦
        let g : jobs.get id t.job ≡ jobs.get id s.job =
          rw e (jobs.get_set k id r s.job ∙ (rw n refl)) in
        let (p, l) = frame id n in
        subst (IsKept id (mem_text id (sets.smembers t.pending)) (sorted.zscore id t.leases))
          (sym g)
          (subst (λ x. IsKept id x (sorted.zscore id t.leases) (jobs.get id s.job)) (sym p)
            (subst (λ x. IsKept id (mem_text id (sets.smembers s.pending)) x (jobs.get id s.job))
              (sym l) (h id)))
  ]

  pub kept-job_id :
      (id : String) (p : Bool) (l : Option ℕ) (o : Option (JobRecord Res)) (r : JobRecord Res)
      → IsKept id p l o
      → o ≡ some r
      → r.job_id ≡ id
  kept-job_id id p l none r h e = cc
  kept-job_id id p l (some q) r h e =
      let f : q ≡ r = cc in subst (λ (x : JobRecord Res). x.job_id ≡ id) f h.0

  took :
      (c : Candidate Res Payload jobs payloads ids sets sorted) (lease now : ℕ) (s : Here)
      → mem_text c.id (sets.smembers s.pending) ≡ true
      → (take_job Res Payload jobs payloads ids sets sorted c lease now s).1
        ≡ take_now Res Payload jobs payloads ids sets sorted c lease now s
  unfolding take_job
  took c lease now s e = rw (e, take_job) refl

  pub take_job-NoneLost :
      (c : Candidate Res Payload jobs payloads ids sets sorted) (lease now : ℕ) (s : Here)
      → c.record_of.job_id ≡ c.id
      → NoneLost s
      → NoneLost (take_job Res Payload jobs payloads ids sets sorted c lease now s).1
  unfolding take_job
  take_job-NoneLost c lease now s e h =
      elim (Bool-cases (mem_text c.id (sets.smembers s.pending))) [
        | inr n ↦ rw (n, take_job) h
        | inl y ↦ subst NoneLost (sym (took c lease now s y)) (
            put c.id (started Res Payload jobs payloads ids sets sorted now c.record_of) s
              (take_now Res Payload jobs payloads ids sets sorted c lease now s) h (rw e refl)
              (λ id n. (
                ground (arith, sets.smembers_srem c.id id s.pending),
                sorted.zscore_zadd c.id id (now + lease) s.leases ∙ (rw n refl),
              ))
              (
                e,
                λ q. cc,
                λ q.
                    ground (
                      arith,
                      sorted.zscore_zadd c.id c.id (now + lease) s.leases,
                      str_eq_refl c.id,
                    ),
              ))
      ]

  pub requeued :
      (id : String) (r : JobRecord Res) (s : Here)
      → jobs.get id s.job ≡ some r
      → requeue_job Res Payload jobs payloads ids sets sorted id s
        ≡ put_back Res Payload jobs payloads ids sets sorted id r s
  unfolding requeue_job
  requeued id r s e = rw (e, requeue_job) refl

  pub requeue_job-NoneLost :
      (id : String) (s : Here)
      → NoneLost s
      → NoneLost (requeue_job Res Payload jobs payloads ids sets sorted id s)
  unfolding requeue_job
  requeue_job-NoneLost id s h = elim (Option-cases (jobs.get id s.job)) [
    | inl e ↦ rw (e, requeue_job) h
    | inr (r, e) ↦
        let f = kept-job_id id _ _ _ r (h id) e in
        subst NoneLost (sym (requeued id r s e)) (
          put id (record r { status = queued }) s
            (put_back Res Payload jobs payloads ids sets sorted id r s) h (rw f refl)
            (λ j n. (
              ground (arith, sets.smembers_sadd id j s.pending),
              sorted.zscore_zrem id j s.leases ∙ (rw n refl),
            ))
            (f, λ q. ground (arith, sets.smembers_sadd id id s.pending, str_eq_refl id), λ q. cc))
  ]

  closed :
      (id : String) (r q : JobRecord Res) (s : Here)
      → jobs.get id s.job ≡ some r
      → q.job_id ≡ r.job_id
      → q.status ≢ queued
      → q.status ≢ running
      → NoneLost s
      → NoneLost (close_job Res Payload jobs payloads ids sets sorted id q s)
  closed id r q s e j n m h =
      let f = j ∙ kept-job_id id _ _ _ r (h id) e in
      put id q s (close_job Res Payload jobs payloads ids sets sorted id q s) h (rw f refl)
        (λ k n. (refl, sorted.zscore_zrem id k s.leases ∙ (rw n refl)))
        (f, λ x. absurd (n x), λ x. absurd (m x))

  pub complete_job-NoneLost :
      (id : String) (res : Res) (now : ℕ) (s : Here)
      → NoneLost s
      → NoneLost (complete_job Res Payload jobs payloads ids sets sorted id res now s)
  unfolding complete_job
  complete_job-NoneLost id res now s h = elim (Option-cases (jobs.get id s.job)) [
    | inl e ↦ rw (e, complete_job) h
    | inr (r, e) ↦
        let c =
          closed id r (record r { status = completed; completed_at = some now; result = some res })
            s e refl (λ x. cc) (λ x. cc) h in
        rw (e, complete_job) c
  ]

  pub fail_job-NoneLost :
      (id text : String) (now : ℕ) (s : Here)
      → NoneLost s
      → NoneLost (fail_job Res Payload jobs payloads ids sets sorted id text now s)
  unfolding fail_job
  fail_job-NoneLost id text now s h = elim (Option-cases (jobs.get id s.job)) [
    | inl e ↦ rw (e, fail_job) h
    | inr (r, e) ↦
        let c =
          closed id r (record r { status = failed; completed_at = some now; error = some text }) s e
            refl (λ x. cc) (λ x. cc) h in
        rw (e, fail_job) c
  ]

  add_job-NoneLost :
      (p : Preview Payload) (id : String) (now : ℕ) (s : Here)
      → NoneLost s
      → NoneLost (add_job Res Payload jobs payloads ids sets sorted p id now s).1
  add_job-NoneLost p id now s h =
      put id (new_job Res Payload jobs payloads ids sets sorted p id now s) s
        (add_job Res Payload jobs payloads ids sets sorted p id now s).1 h refl
        (λ k n. (ground (arith, sets.smembers_sadd id k s.pending), refl))
        (refl, λ q. ground (arith, sets.smembers_sadd id id s.pending, str_eq_refl id), λ q. cc)

  pub enqueue-NoneLost :
      (p : Preview Payload) (key fresh again : String) (now : ℕ) (s : Here)
      → NoneLost s
      → NoneLost (enqueue Res Payload jobs payloads ids sets sorted p key fresh again now s).1
  unfolding enqueue
  enqueue-NoneLost p key fresh again now s h = elim (Option-cases (ids.get key s.idempotency)) [
    | inl e ↦
        let c =
          add_job-NoneLost p fresh now (record s { idempotency = ids.set key fresh s.idempotency })
            h in
        rw (e, enqueue) c
    | inr (id, e) ↦ elim (Option-cases (jobs.get id s.job)) [
      | inl f ↦
          let c =
            add_job-NoneLost p again now
              (record s { idempotency = ids.set key again s.idempotency }) h in
          rw (e, enqueue) (rw (f, enqueue) c)
      | inr (r, f) ↦ rw (e, enqueue) (rw (f, enqueue) h)
    ]
  ]
