-- ===== src/Automation/Queue/Recovery.antt =====
-- Idempotent submission, reaping of expired leases, and the bonus for waiting.
use polygate.Prelude.{
  ℕ, ◌+◌, ◌*◌, ◌/◌, min, leb, false, ◌≤◌, ◌<◌, ◌≡◌, refl, sym, ap, subst, ◌∙◌, inl, inr, true,
  false, none, some, List, [], ◌∷◌, String, le→leb, arith, Bool-cases, Option-cases, mem_text,
  str_eq, str_eq_refl, str_eq_iff,
}
use native.Mathlib.Nat.{mul-le-mul_left, le-div_iff_mul-le, div-mul-le_self}
use polygate.Automation.Redis.{Strings, Sets, SortedSets}
use polygate.Automation.Jobs.{
  QueuePolicy, waiting_bonus, check_queue_policy, queued, JobRecord, Preview,
}
use polygate.Automation.Queue.{
  enqueue, idempotency_ttl_seconds, expire_key, add_job, requeue_job, requeue_all,
  reap_expired_leases,
}
use polygate.Automation.Queue.Invariant.{
  Here, NoneLost, kept-job_id, requeue_job-NoneLost, requeued,
}

div-monotone : (k a b : ℕ) → 0 < k → a ≤ b → a / k ≤ b / k
div-monotone k a b p l = (le-div_iff_mul-le p).1 (omega (arith, div-mul-le_self a k))

points-monotone : (p m n c : ℕ) → m ≤ n → min c (p * m) ≤ min c (p * n)
points-monotone p m n c l = let k = mul-le-mul_left p l in omega arith

-- Under a valid policy the bonus never shrinks with the time waited, and it never exceeds 1000.
pub waiting_bonus-bounds :
    (q : QueuePolicy) (a b : ℕ)
    → check_queue_policy q ≡ true
    → a ≤ b
    → (waiting_bonus a q ≤ waiting_bonus b q) × (waiting_bonus b q ≤ 1000)
unfolding waiting_bonus check_queue_policy
waiting_bonus-bounds q a b h l =
    let interval : 0 < q.waiting_bonus_interval_seconds = ground arith in
    let cap : q.waiting_bonus_cap ≤ 1000 = ground arith in
    (
      points-monotone q.waiting_bonus_points _ _ q.waiting_bonus_cap
          (div-monotone q.waiting_bonus_interval_seconds a b interval l),
      omega arith,
    )

module _ (Res Payload : Type 0) (jobs : Strings (JobRecord Res)) (payloads : Strings Payload)
    (ids : Strings String) (sets : Sets) (sorted : SortedSets) where
  abbrev pub Now : Type 0
  Now = Here Res Payload jobs payloads ids sets sorted

  abbrev submit : Preview Payload → String → String → String → ℕ → Now → JobRecord Res × Now
  submit = enqueue Res Payload jobs payloads ids sets sorted

  remember : String → String → Now → Now
  remember key id s = record s { idempotency = ids.set key id s.idempotency }

  known :
      (p : Preview Payload) (key fresh again : String) (now : ℕ) (s : Now) (id : String)
      (r : JobRecord Res)
      → ids.get key s.idempotency ≡ some id
      → jobs.get id s.job ≡ some r
      → submit p key fresh again now s ≡ (r, s)
  unfolding enqueue
  known p key fresh again now s id r e f = rw (e, enqueue) (rw (f, enqueue) refl)

  abbrev ttl : ℕ
  ttl = idempotency_ttl_seconds Res Payload jobs payloads ids sets sorted

  abbrev later : String → ℕ → ℕ → Now → Now
  later = expire_key Res Payload jobs payloads ids sets sorted

  -- A submission of `p'` after one of the same key at `now`, which returned `r` and left `t`.
  abbrev pub Resubmits :
      Preview Payload → String → String → String → ℕ → ℕ → JobRecord Res → Now → Type 0
  Resubmits p' key fresh' again' now now' r t =
      (now' < now + ttl → submit p' key fresh' again' now' (later key now now' t) ≡ (r, t))
      × (now + ttl ≤ now'
          → str_eq r.job_id fresh' ≡ false
          → let (r', t') = submit p' key fresh' again' now' (later key now now' t) in
            (r'.job_id ≡ fresh')
            × (jobs.get fresh' t'.job ≡ some r')
            × (mem_text fresh' (sets.smembers t'.pending) ≡ true)
            × (jobs.get r.job_id t'.job ≡ some r))

  resubmitted :
      (p' : Preview Payload) (key fresh' again' : String) (now now' : ℕ) (r : JobRecord Res)
      (t : Now)
      → ids.get key t.idempotency ≡ some r.job_id
      → jobs.get r.job_id t.job ≡ some r
      → Resubmits p' key fresh' again' now now' r t
  unfolding expire_key enqueue remember
  resubmitted p' key fresh' again' now now' r t e f = (
    λ l.
        let n : leb (now + ttl) now' ≡ false = ground arith in
        rw n (known p' key fresh' again' now' t r.job_id r e f),
    λ l d.
        let y : leb (now + ttl) now' ≡ true = le→leb _ _ l in
        let u : Now = record t { idempotency = ids.del key t.idempotency } in
        let gone : ids.get key (ids.del key t.idempotency) ≡ none =
          ids.get_del key key t.idempotency ∙ rw (str_eq_refl key) refl in
        let other : str_eq fresh' r.job_id ≡ false =
          ground (arith, str_eq_iff fresh' r.job_id, str_eq_iff r.job_id fresh') in
        let here : later key now now' t ≡ u = rw (y, expire_key) refl in
        let made : submit p' key fresh' again' now' u
            ≡ add_job Res Payload jobs payloads ids sets sorted p' fresh' now'
                (remember key fresh' u) =
          rw (gone, enqueue) refl in
        subst
          (λ (x : JobRecord Res × Now).
            (x.0.job_id ≡ fresh')
            × (jobs.get fresh' x.1.job ≡ some x.0)
            × (mem_text fresh' (sets.smembers x.1.pending) ≡ true)
            × (jobs.get r.job_id x.1.job ≡ some r))
          (sym (ap (submit p' key fresh' again' now') here ∙ made))
          (
            refl,
            jobs.get_set fresh' fresh' _ t.job ∙ rw (str_eq_refl fresh') refl,
            sets.smembers_sadd fresh' fresh' t.pending ∙ rw (str_eq_refl fresh') refl,
            jobs.get_set fresh' r.job_id _ t.job ∙ (rw other f),
          ),
  )

  -- A second submission under a key that was free before the first, of whatever preview and with nothing
  -- in between: within 24 hours of the first it returns the first one's job and changes nothing; from
  -- then on, with a number that is not the first one's, it makes a job of its own, which waits beside
  -- the first.
  pub enqueue-again :
      (p p' : Preview Payload) (key fresh again fresh' again' : String) (now now' : ℕ) (s : Now)
      → ids.get key s.idempotency ≡ none
      → let (r, t) = submit p key fresh again now s in Resubmits p' key fresh' again' now now' r t
  unfolding enqueue remember
  enqueue-again p p' key fresh again fresh' again' now now' s e =
      let first : submit p key fresh again now s
          ≡ add_job Res Payload jobs payloads ids sets sorted p fresh now (remember key fresh s) =
        rw (e, enqueue) refl in
      subst (λ (x : JobRecord Res × Now). Resubmits p' key fresh' again' now now' x.0 x.1)
        (sym first)
        (resubmitted p' key fresh' again' now now' _ _
          (ids.get_set key key fresh s.idempotency ∙ rw (str_eq_refl key) refl)
          (jobs.get_set fresh fresh _ s.job ∙ rw (str_eq_refl fresh) refl))

  abbrev requeue : String → Now → Now
  requeue = requeue_job Res Payload jobs payloads ids sets sorted

  -- The job is waiting again, with the rest of its record as it was.
  pub record IsWaiting (id : String) (r : JobRecord Res) (s : Now) : Type 0 where
    pub stored : jobs.get id s.job ≡ some (record r { status = queued })
    pub is_pending : mem_text id (sets.smembers s.pending) ≡ true
    pub no_lease : sorted.zscore id s.leases ≡ none

  requeue_self :
      (id : String) (r : JobRecord Res) (s : Now)
      → jobs.get id s.job ≡ some r
      → NoneLost Res Payload jobs payloads ids sets sorted s
      → IsWaiting id r (requeue id s)
  requeue_self id r s e h =
      let f = kept-job_id Res Payload jobs payloads ids sets sorted id _ _ _ r (h id) e in
      subst (IsWaiting id r) (sym (requeued Res Payload jobs payloads ids sets sorted id r s e))
        (record {
          stored = rw f (jobs.get_set id id _ s.job ∙ rw (str_eq_refl id) refl);
          is_pending = ground (arith, sets.smembers_sadd id id s.pending, str_eq_refl id);
          no_lease = sorted.zscore_zrem id id s.leases ∙ rw (str_eq_refl id) refl;
        })

  -- Putting another job back does not touch this one.
  abbrev IsSame : String → Now → Now → Type 0
  IsSame id s t =
      (jobs.get id t.job ≡ jobs.get id s.job)
      × (mem_text id (sets.smembers t.pending) ≡ mem_text id (sets.smembers s.pending))
      × (sorted.zscore id t.leases ≡ sorted.zscore id s.leases)

  requeue_other :
      (k id : String) (s : Now)
      → str_eq k id ≡ false
      → NoneLost Res Payload jobs payloads ids sets sorted s
      → IsSame id s (requeue k s)
  unfolding requeue_job
  requeue_other k id s n h = elim (Option-cases (jobs.get k s.job)) [
    | inl e ↦ rw (e, requeue_job) (refl, refl, refl)
    | inr (r, e) ↦
        let f = kept-job_id Res Payload jobs payloads ids sets sorted k _ _ _ r (h k) e in
        subst (IsSame id s) (sym (requeued Res Payload jobs payloads ids sets sorted k r s e)) (
          rw f (jobs.get_set k id _ s.job ∙ rw n refl),
          ground (arith, sets.smembers_sadd k id s.pending),
          sorted.zscore_zrem k id s.leases ∙ rw n refl,
        )
  ]

  module _ (id : String) (r : JobRecord Res) where
    all-IsWaiting :
        (rest : List String) (s : Now)
        → IsWaiting id r s
        → NoneLost Res Payload jobs payloads ids sets sorted s
        → IsWaiting id r (requeue_all Res Payload jobs payloads ids sets sorted rest s)
    unfolding requeue_all
    all-IsWaiting [] s w h = w
    all-IsWaiting (x ∷ rest) s w h =
        let h' = requeue_job-NoneLost Res Payload jobs payloads ids sets sorted x s h in
        elim (Bool-cases (str_eq x id)) [
          | inl y ↦
              let e : id ≡ x = sym ((str_eq_iff x id).0 y) in
              let again = requeue_self id (record r { status = queued }) s w.stored h in
              all-IsWaiting rest _
                (subst (λ k. IsWaiting id r (requeue k s)) e
                  (record {
                    stored = again.stored;
                    is_pending = again.is_pending;
                    no_lease = again.no_lease;
                  }))
                h'
          | inr n ↦
              let (a, b, c) = requeue_other x id s n h in
              all-IsWaiting rest _
                (record {
                  stored = a ∙ w.stored;
                  is_pending = b ∙ w.is_pending;
                  no_lease = c ∙ w.no_lease;
                })
                h'
        ]

    reached :
        (rest : List String) (s : Now)
        → mem_text id rest ≡ true
        → jobs.get id s.job ≡ some r
        → NoneLost Res Payload jobs payloads ids sets sorted s
        → IsWaiting id r (requeue_all Res Payload jobs payloads ids sets sorted rest s)
    unfolding requeue_all
    reached [] s m e h = cc
    reached (x ∷ rest) s m e h =
        let h' = requeue_job-NoneLost Res Payload jobs payloads ids sets sorted x s h in
        elim (Bool-cases (str_eq x id)) [
          | inl y ↦
              let same : id ≡ x = sym ((str_eq_iff x id).0 y) in
              all-IsWaiting rest _
                (subst (λ k. IsWaiting id r (requeue k s)) same (requeue_self id r s e h)) h'
          | inr n ↦
              let (a, b, c) = requeue_other x id s n h in
              let other : str_eq id x ≡ false = ground (arith, str_eq_iff x id, str_eq_iff id x) in
              reached rest _ (ground arith) (a ∙ e) h'
        ]

    -- In a store in which no job is lost, a job whose lease has expired waits in the queue again
    -- after reaping: queued, pending and without a lease, with everything else of its record, its
    -- time of creation for one, as it was.
    pub reaped-IsWaiting :
        (now until : ℕ) (s : Now)
        → sorted.zscore id s.leases ≡ some until
        → until ≤ now
        → jobs.get id s.job ≡ some r
        → NoneLost Res Payload jobs payloads ids sets sorted s
        → IsWaiting id r (reap_expired_leases Res Payload jobs payloads ids sets sorted now s).1
    unfolding reap_expired_leases
    reaped-IsWaiting now until s z l e h =
        reached (sorted.zrangebyscore now s.leases) s
          (sorted.zrangebyscore_lem now id s.leases ∙ rw z (le→leb until now l)) e h
