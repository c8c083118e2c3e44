-- ===== src/Automation/Queue/Claims.antt =====
-- What a claim returns and leaves, and what happens when two workers want the same job.
use polygate.Prelude.{
  ℕ, ◌+◌, ◌-◌, ◌≤◌, ◌<◌, ◌⊎◌, In, ◌≡◌, refl, sym, ap, subst, ◌∙◌, inl, inr, true, false, Option,
  none, some, List, [], ◌∷◌, String, arith, if◌then◌else◌, Bool-cases, Option-cases, mem_text,
  str_eq, str_eq_refl, str_eq_iff,
}
use polygate.Automation.Redis.{Strings, Sets, SortedSets}
use polygate.Automation.Jobs.{running, QueuePolicy, JobRecord, is_urgent, is_queued, waiting_bonus}
use polygate.Automation.Queue.Claim.{
  candidates, candidate_of, is_starved, goes_first, choose, take_job, take_now, claim_next_job,
  clean, is_dirty, started,
}
use polygate.Automation.Queue.Choice.{
  Cand, candidates-IsFound, candidates-complete, IsRightChoice, choose-IsRightChoice, choose-none,
}
use polygate.Automation.Queue.Invariant.{Here, NoneLost, kept-job_id}

module _ (Res Payload : Type 0) (jobs : Strings (JobRecord Res)) (payloads : Strings Payload)
    (ids : Strings String) (sets : Sets) (sorted : SortedSets) where
  abbrev pub Now : Type 0
  Now = Here Res Payload jobs payloads ids sets sorted

  abbrev claim : QueuePolicy → ℕ → ℕ → Now → Option (JobRecord Res) × Now
  claim = claim_next_job Res Payload jobs payloads ids sets sorted

  different :
      (x id : String) (s : Now)
      → is_dirty Res Payload jobs payloads ids sets sorted (jobs.get id s.job) ≡ false
      → is_dirty Res Payload jobs payloads ids sets sorted (jobs.get x s.job) ≡ true
      → str_eq x id ≡ false
  different x id s h y = elim (Bool-cases (str_eq x id)) [
    | inr n ↦ n
    | inl e ↦
        let same : x ≡ id = (str_eq_iff x id).0 e in
        let k : is_dirty Res Payload jobs payloads ids sets sorted (jobs.get id s.job) ≡ true =
          subst (λ z. is_dirty Res Payload jobs payloads ids sets sorted (jobs.get z s.job) ≡ true)
            same y in
        cc
  ]

  -- Cleaning removes no number of a queued job.
  pub clean-kept :
      (id : String) (rest : List String) (s : Now) (space : sets.Space)
      → is_dirty Res Payload jobs payloads ids sets sorted (jobs.get id s.job) ≡ false
      → mem_text id (sets.smembers space) ≡ true
      → mem_text id (sets.smembers (clean Res Payload jobs payloads ids sets sorted rest s space))
        ≡ true
  unfolding clean
  clean-kept id [] s space h m = m
  clean-kept id (x ∷ rest) s space h m =
      elim (Bool-cases (is_dirty Res Payload jobs payloads ids sets sorted (jobs.get x s.job))) [
        | inr n ↦ rw (n, clean) (clean-kept id rest s space h m)
        | inl y ↦
            let other : str_eq x id ≡ false = different x id s h y in
            let there : mem_text id (sets.smembers (sets.srem x space)) ≡ true =
              ground (arith, sets.smembers_srem x id space) in
            rw (y, clean) (clean-kept id rest s (sets.srem x space) h there)
      ]

  abbrev cleaned : Now → Now
  cleaned s = record s {
    pending = clean Res Payload jobs payloads ids sets sorted (sets.smembers s.pending) s s.pending;
  }

  pub take_job-some :
      (c : Cand Res Payload jobs payloads ids sets sorted) (lease now : ℕ) (s : Now)
      → mem_text c.id (sets.smembers s.pending) ≡ true
      → take_job Res Payload jobs payloads ids sets sorted c lease now s ≡ (
        some (started Res Payload jobs payloads ids sets sorted now c.record_of),
        take_now Res Payload jobs payloads ids sets sorted c lease now s,
      )
  unfolding take_job
  take_job-some c lease now s h = rw (h, take_job) refl

  pub take_job-none :
      (c : Cand Res Payload jobs payloads ids sets sorted) (lease now : ℕ) (s : Now)
      → mem_text c.id (sets.smembers s.pending) ≡ false
      → take_job Res Payload jobs payloads ids sets sorted c lease now s ≡ (none, s)
  unfolding take_job
  take_job-none c lease now s h = rw (h, take_job) refl

  -- A pending number with a queued job.
  abbrev pub IsOpen : Now → String → JobRecord Res → Type 0
  IsOpen s id r =
      (mem_text id (sets.smembers s.pending) ≡ true)
      × (jobs.get id s.job ≡ some r)
      × (is_queued r.status ≡ true)

  abbrev seen_as :
      QueuePolicy → ℕ → String → JobRecord Res → Cand Res Payload jobs payloads ids sets sorted
  seen_as q now id r = candidate_of Res Payload jobs payloads ids sets sorted q now id r

  abbrev pub waited : ℕ → JobRecord Res → ℕ
  waited now r = now - r.created_at

  abbrev pub priority : QueuePolicy → ℕ → JobRecord Res → ℕ
  priority q now r = r.initial_score + waiting_bonus (waited now r) q

  -- A job that is not urgent and has waited long enough.
  abbrev pub Starves : QueuePolicy → ℕ → JobRecord Res → Type 0
  Starves q now r = (is_urgent r.urgency ≡ false) × (q.starvation_wait_seconds ≤ waited now r)

  -- The first has a higher priority than the second, or the same and was not created later.
  abbrev pub Precedes : QueuePolicy → ℕ → JobRecord Res → JobRecord Res → Type 0
  Precedes q now r x =
      (priority q now x < priority q now r)
      ⊎ ((priority q now x ≡ priority q now r) × (r.created_at ≤ x.created_at))

  -- The rule of the queue over all pending queued jobs: behind a long enough streak of urgent jobs the
  -- starved one that has waited longest; if none is starved, or the streak is shorter, one that precedes
  -- all.
  abbrev pub IsNext : QueuePolicy → ℕ → Now → JobRecord Res → Type 0
  IsNext q now s r =
      ((q.starvation_streak_threshold ≤ s.streak)
        × Starves q now r
        × ((id : String) (x : JobRecord Res)
            → IsOpen s id x
            → Starves q now x
            → waited now x ≤ waited now r))
      ⊎ ((q.starvation_streak_threshold ≤ s.streak
            → (id : String) (x : JobRecord Res) → IsOpen s id x
            → ¬ Starves q now x)
          × ((id : String) (x : JobRecord Res) → IsOpen s id x → Precedes q now r x))

  open-In :
      (q : QueuePolicy) (now : ℕ) (s : Now) (id : String) (r : JobRecord Res)
      → IsOpen s id r
      → In
          (seen_as q now id r)
          (candidates Res Payload jobs payloads ids sets sorted q now (sets.smembers s.pending) s)
  open-In q now s id r (m, e, y) =
      candidates-complete Res Payload jobs payloads ids sets sorted q now (sets.smembers s.pending)
        s id r m e y

  Starves-is_starved :
      (q : QueuePolicy) (now : ℕ) (id : String) (x : JobRecord Res)
      → Starves q now x
      → is_starved Res Payload jobs payloads ids sets sorted q (seen_as q now id x) ≡ true
  Starves-is_starved q now id x (a, b) = ground (arith, a, b)

  is_starved-Starves :
      (q : QueuePolicy) (now : ℕ) (c : Cand Res Payload jobs payloads ids sets sorted)
      → c.waited ≡ waited now c.record_of
      → is_starved Res Payload jobs payloads ids sets sorted q c ≡ true
      → Starves q now c.record_of
  is_starved-Starves q now c w h = ground (arith, w)

  goes_first-Precedes :
      (q : QueuePolicy) (now : ℕ) (c : Cand Res Payload jobs payloads ids sets sorted) (id : String)
      (x : JobRecord Res)
      → c.effective_priority ≡ priority q now c.record_of
      → goes_first Res Payload jobs payloads ids sets sorted (seen_as q now id x) c ≡ false
      → Precedes q now c.record_of x
  goes_first-Precedes q now c id x p h = ground (arith, p)

  right-IsNext :
      (q : QueuePolicy) (now : ℕ) (s : Now) (c : Cand Res Payload jobs payloads ids sets sorted)
      → IsRightChoice Res Payload jobs payloads ids sets sorted q s.streak
          (candidates Res Payload jobs payloads ids sets sorted q now (sets.smembers s.pending) s)
          c
      → c.waited ≡ waited now c.record_of
      → c.effective_priority ≡ priority q now c.record_of
      → IsNext q now s c.record_of
  right-IsNext q now s c (i, inl (l, t, m)) w p = inl (
    l,
    is_starved-Starves q now c w t,
    λ id x o h.
        let k = m _ (open-In q now s id x o) (Starves-is_starved q now id x h) in
        omega (arith, k, w),
  )
  right-IsNext q now s c (i, inr (n, m)) w p = inr (
    λ l id x o h.
        let no = n l _ (open-In q now s id x o) in
        let yes = Starves-is_starved q now id x h in absurd (ground (arith, no, yes)),
    λ id x o. goes_first-Precedes q now c id x p (m _ (open-In q now s id x o)),
  )

  -- The state of a store in which a job has just been claimed.
  pub record IsClaimed (q : QueuePolicy) (lease now : ℕ) (s t : Now) (r : JobRecord Res)
      : Type 0 where
    pub id : String
    pub job : JobRecord Res
    pub was_open : IsOpen s id job
    pub next : IsNext q now s job
    pub returned : r ≡ record job { status = running; started_at = some now }
    pub stored : jobs.get id t.job ≡ some r
    pub not_pending : mem_text id (sets.smembers t.pending) ≡ false
    pub leased : sorted.zscore id t.leases ≡ some (now + lease)
    pub streak : t.streak ≡ (if is_urgent job.urgency then s.streak + 1 else 0)

  abbrev pub Claims : QueuePolicy → ℕ → ℕ → Now → Option (JobRecord Res) × Now → Type 0
  Claims q lease now s (none, t) =
      ((id : String) (r : JobRecord Res) → IsOpen s id r → ⊥) × (t.job ≡ s.job)
  Claims q lease now s (some r, t) = IsClaimed q lease now s t r

  none_open :
      (q : QueuePolicy) (now : ℕ) (s : Now)
      → candidates Res Payload jobs payloads ids sets sorted q now (sets.smembers s.pending) s ≡ []
      → (id : String) (r : JobRecord Res) → IsOpen s id r
      → ⊥
  none_open q now s e id r o = subst (In (seen_as q now id r)) e (open-In q now s id r o)

  -- In a store in which no job is lost a claim returns nothing only if no number is both pending and of
  -- a queued job; otherwise it returns, started, the one of all pending queued jobs that the rule of
  -- the queue names, which is then not pending any more and has a lease, and the streak counts it.
  pub claim_next_job-Claims :
      (q : QueuePolicy) (lease now : ℕ) (s : Now)
      → NoneLost Res Payload jobs payloads ids sets sorted s
      → Claims q lease now s (claim q lease now s)
  unfolding claim_next_job
  claim_next_job-Claims q lease now s h =
      elim (Option-cases (
        choose Res Payload jobs payloads ids sets sorted q s.streak (
          candidates Res Payload jobs payloads ids sets sorted q now (sets.smembers s.pending)
            s))) [
              | inl e ↦
                  rw (e, claim_next_job, Claims)
                    (
                      none_open q now s
                          (choose-none Res Payload jobs payloads ids sets sorted q s.streak _ e),
                      refl,
                    )
              | inr (c, e) ↦
                  let right =
                    choose-IsRightChoice Res Payload jobs payloads ids sets sorted q s.streak _ c
                      e in
                  let (f, m) =
                    candidates-IsFound Res Payload jobs payloads ids sets sorted q now
                      (sets.smembers s.pending) s c right.0 in
                  let own =
                    kept-job_id Res Payload jobs payloads ids sets sorted c.id _ _ _ c.record_of
                      (h c.id) f.0 in
                  let clean_c : is_dirty Res Payload jobs payloads ids sets sorted
                        (jobs.get c.id s.job)
                      ≡ false =
                    rw (f.0) (rw (f.1) refl) in
                  let there = clean-kept c.id (sets.smembers s.pending) s s.pending clean_c m in
                  let taken : take_job Res Payload jobs payloads ids sets sorted c lease now
                        (cleaned s)
                      ≡ (
                        some (started Res Payload jobs payloads ids sets sorted now c.record_of),
                        take_now Res Payload jobs payloads ids sets sorted c lease now (cleaned s),
                      ) =
                    take_job-some c lease now (cleaned s) there in
                  rw (e, claim_next_job, Claims)
                    (subst (Claims q lease now s) (sym taken) (record {
                      id = c.id;
                      job = c.record_of;
                      was_open = (m, f.0, rw (f.1) refl);
                      next =
                          right-IsNext q now s c right f.2
                            (f.3 ∙ ap (λ n. c.record_of.initial_score + waiting_bonus n q) f.2);
                      returned = refl;
                      stored = rw own (jobs.get_set c.id c.id _ s.job ∙ rw (str_eq_refl c.id) refl);
                      not_pending = ground (
                        arith,
                        sets.smembers_srem c.id c.id (cleaned s).pending,
                        str_eq_refl c.id,
                      );
                      leased =
                          sorted.zscore_zadd c.id c.id (now + lease) s.leases
                          ∙ rw (str_eq_refl c.id) refl;
                      streak = refl;
                    }))
            ]

  -- Of two workers that have chosen the same pending job and take it one after the other, the second
  -- gets nothing and changes nothing.
  pub take_job-once :
      (c d : Cand Res Payload jobs payloads ids sets sorted) (lease now lease' now' : ℕ) (s : Now)
      → c.id ≡ d.id
      → mem_text c.id (sets.smembers s.pending) ≡ true
      → take_job Res Payload jobs payloads ids sets sorted d lease' now'
          (take_job Res Payload jobs payloads ids sets sorted c lease now s).1
        ≡ (none, (take_job Res Payload jobs payloads ids sets sorted c lease now s).1)
  unfolding take_job
  take_job-once c d lease now lease' now' s e m =
      let first = take_job-some c lease now s m in
      let left : (take_job Res Payload jobs payloads ids sets sorted c lease now s).1
          ≡ take_now Res Payload jobs payloads ids sets sorted c lease now s =
        ap (λ (x : Option (JobRecord Res) × Now). x.1) first in
      subst (λ t. take_job Res Payload jobs payloads ids sets sorted d lease' now' t ≡ (none, t))
        (sym left)
        (take_job-none d lease' now'
          (take_now Res Payload jobs payloads ids sets sorted c lease now s)
          (rw⁻¹ e (ground (arith, sets.smembers_srem c.id c.id s.pending, str_eq_refl c.id))))
