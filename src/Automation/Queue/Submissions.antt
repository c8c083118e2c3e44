-- ===== src/Automation/Queue/Submissions.antt =====
-- The steps of `enqueue` (automation/app/redis_store.py), which other requests may come between: SET NX of
-- the key, the reads of the job that a known key leads to, and the pipeline.
use polygate.Prelude.{
  ℕ, ◌≡◌, refl, sym, ◌∙◌, subst, Bool, true, false, Option, none, some, String, str_eq, str_eq_refl,
  mem_text, inl, inr, Option-cases,
}
use polygate.Automation.Redis.{Strings, Sets, SortedSets}
use polygate.Automation.Jobs.{JobRecord, Preview}
use polygate.Automation.Queue.{Store, get_job, add_job, new_job, enqueue}

module _ (Res Payload : Type 0) (jobs : Strings (JobRecord Res)) (payloads : Strings Payload)
    (ids : Strings String) (sets : Sets) (sorted : SortedSets) where
  abbrev S : Type 0
  S = Store Res Payload jobs payloads ids sets sorted

  -- `self.r.set(idem_key, job_id, nx=True, …)`: whether the key was set.
  unfoldable pub set_nx : String → String → S → Bool × S
  set_nx key id s = elim (ids.get key s.idempotency) [
    | none ↦ (true, record s { idempotency = ids.set key id s.idempotency })
    | some other ↦ (false, s)
  ]

  -- The job that the key leads to.
  unfoldable pub existing_job : String → S → Option (JobRecord Res)
  existing_job key s = elim (ids.get key s.idempotency) [
    | none ↦ none
    | some id ↦ get_job Res Payload jobs payloads ids sets sorted id s
  ]

  -- What follows on the SET NX.
  unfoldable pub after_set_nx :
      Preview Payload → String → String → String → ℕ → Bool → S → JobRecord Res × S
  unfolding existing_job
  after_set_nx p key fresh again now true s =
      add_job Res Payload jobs payloads ids sets sorted p fresh now s
  after_set_nx p key fresh again now false s = elim (existing_job key s) [
    | some existing ↦ (existing, s)
    | none ↦
        add_job Res Payload jobs payloads ids sets sorted p again now
          (record s { idempotency = ids.set key again s.idempotency })
  ]

  -- A request that no other comes between.
  abbrev pub alone : Preview Payload → String → String → String → ℕ → S → JobRecord Res × S
  alone p key fresh again now s =
      after_set_nx p key fresh again now (set_nx key fresh s).0 (set_nx key fresh s).1

  found :
      (key id : String) (s : S)
      → ids.get key s.idempotency ≡ some id
      → existing_job key s ≡ get_job Res Payload jobs payloads ids sets sorted id s
  unfolding existing_job
  found key id s e = rw (e, existing_job) refl

  -- Without other requests between them, the steps are those of `enqueue`.
  pub alone-enqueue :
      (p : Preview Payload) (key fresh again : String) (now : ℕ) (s : S)
      → alone p key fresh again now s
        ≡ enqueue Res Payload jobs payloads ids sets sorted p key fresh again now s
  unfolding set_nx after_set_nx existing_job enqueue
  alone-enqueue p key fresh again now s = elim (Option-cases (ids.get key s.idempotency)) [
    | inl n ↦ rw (n, enqueue, set_nx) refl
    | inr (id, e) ↦ elim (Option-cases (get_job Res Payload jobs payloads ids sets sorted id s)) [
      | inl m ↦
          rw (e, enqueue, set_nx) (rw (m, enqueue) (rw (found key id s e ∙ m, after_set_nx) refl))
      | inr (r, f) ↦
          rw (e, enqueue, set_nx) (rw (f, enqueue) (rw (found key id s e ∙ f, after_set_nx) refl))
    ]
  ]

  -- Both jobs of two requests are stored and wait, under different numbers.
  abbrev pub AreBothQueued : String → String → S → Type 0
  AreBothQueued a b s =
      (str_eq a b ≡ false)
      × ((r : JobRecord Res) × (get_job Res Payload jobs payloads ids sets sorted a s ≡ some r)
          × (r.job_id ≡ a))
      × ((r : JobRecord Res) × (get_job Res Payload jobs payloads ids sets sorted b s ≡ some r)
          × (r.job_id ≡ b))
      × (mem_text a (sets.smembers s.pending) ≡ true)
      × (mem_text b (sets.smembers s.pending) ≡ true)

  added-AreBothQueued :
      (p q : Preview Payload) (a b : String) (m n : ℕ) (s : S)
      → str_eq a b ≡ false
      → AreBothQueued a b
          (add_job Res Payload jobs payloads ids sets sorted p a n
            (add_job Res Payload jobs payloads ids sets sorted q b m s).1).1
  added-AreBothQueued p q a b m n s d = (
    d,
    (
      new_job Res Payload jobs payloads ids sets sorted p a n
          (add_job Res Payload jobs payloads ids sets sorted q b m s).1,
      jobs.get_set a a _ _ ∙ rw (str_eq_refl a) refl,
      refl,
    ),
    (
      new_job Res Payload jobs payloads ids sets sorted q b m s,
      jobs.get_set a b _ _ ∙ (rw d (jobs.get_set b b _ _ ∙ rw (str_eq_refl b) refl)),
      refl,
    ),
    sets.smembers_sadd a a _ ∙ rw (str_eq_refl a) refl,
    sets.smembers_sadd a b _ ∙ rw d (sets.smembers_sadd b b _ ∙ rw (str_eq_refl b) refl),
  )

  -- The key is new, so the first request sets it.
  first_sets :
      (key a : String) (s : S)
      → ids.get key s.idempotency ≡ none
      → set_nx key a s ≡ (true, record s { idempotency = ids.set key a s.idempotency })
  unfolding set_nx
  first_sets key a s h = rw (h, set_nx) refl

  -- The second request finds the key, but no job under it yet.
  second_adds :
      (q : Preview Payload) (key a b b' : String) (m : ℕ) (s : S)
      → ids.get key s.idempotency ≡ some a
      → jobs.get a s.job ≡ none
      → alone q key b b' m s
        ≡ add_job Res Payload jobs payloads ids sets sorted q b' m
            (record s { idempotency = ids.set key b' s.idempotency })
  unfolding set_nx after_set_nx existing_job
  second_adds q key a b b' m s e n = rw (e, set_nx) (rw (found key a s e ∙ n, after_set_nx) refl)

  -- When two requests with one new key overlap, so that the second runs between the SET NX of the
  -- first and its pipeline, both put a job of their own into the queue, under different numbers. The
  -- number of the first is assumed to be new, and the one that the second draws last to differ from it.
  pub overlap_queues_twice :
      (p q : Preview Payload) (key a a' b b' : String) (m n : ℕ) (s : S)
      → ids.get key s.idempotency ≡ none
      → jobs.get a s.job ≡ none
      → str_eq a b' ≡ false
      → let (was_set, t) = set_nx key a s in
        AreBothQueued a b' (after_set_nx p key a a' n was_set (alone q key b b' m t).1).1
  unfolding after_set_nx
  overlap_queues_twice p q key a a' b b' m n s h g d =
      let t = record s { idempotency = ids.set key a s.idempotency } in
      let known : ids.get key t.idempotency ≡ some a =
        ids.get_set key key a s.idempotency ∙ rw (str_eq_refl key) refl in
      subst
        (λ (x : Bool × S).
          AreBothQueued a b' (after_set_nx p key a a' n x.0 (alone q key b b' m x.1).1).1)
        (sym (first_sets key a s h))
        (subst
          (λ (x : JobRecord Res × S). AreBothQueued a b' (after_set_nx p key a a' n true x.1).1)
          (sym (second_adds q key a b b' m t known g))
          (added-AreBothQueued p q a b' m n
            (record t { idempotency = ids.set key b' t.idempotency }) d))
