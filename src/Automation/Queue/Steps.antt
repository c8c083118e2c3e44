-- ===== src/Automation/Queue/Steps.antt =====
-- The store along sequences of calls of the API and of workers, each of which ends before the next
-- begins; a claim is two steps, its cleaning and its take. A call is several commands of Redis, and what
-- may happen between those is in Queue/Crash and Queue/Submissions.
use polygate.Prelude.{ℕ, ◌+◌, ◌≡◌, refl, Option, none, some, List, [], ◌∷◌, String, arith, mem_text}
use polygate.Automation.Redis.{Strings, Sets, SortedSets}
use polygate.Automation.Jobs.{JobRecord, Preview}
use polygate.Automation.Queue.{
  enqueue, complete_job, fail_job, requeue_job, requeue_all, renew_lease, reap_expired_leases,
}
use polygate.Automation.Queue.Claim.{take_job, clean}
use polygate.Automation.Queue.Choice.{Cand}
use polygate.Automation.Queue.Claims.{clean-kept}
use polygate.Automation.Queue.Invariant.{
  Here, NoneLost, IsKept, take_job-NoneLost, requeue_job-NoneLost, complete_job-NoneLost,
  fail_job-NoneLost, enqueue-NoneLost,
}

module _ (Res Payload : Type 0) (jobs : Strings (JobRecord Res)) (payloads : Strings Payload)
    (ids : Strings String) (sets : Sets) (sorted : SortedSets) where
  abbrev pub Now : Type 0
  Now = Here Res Payload jobs payloads ids sets sorted

  abbrev pub cleaned : List String → Now → Now
  cleaned waiting s = record s {
    pending = clean Res Payload jobs payloads ids sets sorted waiting s s.pending;
  }

  -- Whole calls; a claim is two steps, between which others may act: it cleans, and later takes a
  -- candidate that it has read before.
  infix 30 ◌⟶◌
  pub data ◌⟶◌ : Now → Now → Type 0 where
    enqueues :
        {s : Now} (p : Preview Payload) (key fresh again : String) (now : ℕ)
        → s ⟶ (enqueue Res Payload jobs payloads ids sets sorted p key fresh again now s).1
    cleans : {s : Now} (waiting : List String) → s ⟶ cleaned waiting s
    takes :
        {s : Now} (c : Cand Res Payload jobs payloads ids sets sorted) (lease now : ℕ)
        → c.record_of.job_id ≡ c.id
        → s ⟶ (take_job Res Payload jobs payloads ids sets sorted c lease now s).1
    renews :
        {s : Now} (id : String) (lease now : ℕ)
        → s ⟶ renew_lease Res Payload jobs payloads ids sets sorted id lease now s
    completes :
        {s : Now} (id : String) (r : Res) (now : ℕ)
        → s ⟶ complete_job Res Payload jobs payloads ids sets sorted id r now s
    fails :
        {s : Now} (id text : String) (now : ℕ)
        → s ⟶ fail_job Res Payload jobs payloads ids sets sorted id text now s
    requeues :
        {s : Now} (id : String) → s ⟶ requeue_job Res Payload jobs payloads ids sets sorted id s
    reaps :
        {s : Now} (now : ℕ)
        → s ⟶ (reap_expired_leases Res Payload jobs payloads ids sets sorted now s).1

  infix 30 ◌⟶*◌
  pub data ◌⟶*◌ : Now → Now → Type 0 where
    here : {s : Now} → s ⟶* s
    onward : {s t u : Now} → s ⟶ t → t ⟶* u → s ⟶* u

  cleaned-IsKept :
      (waiting : List String) (s : Now) (id : String) (o : Option (JobRecord Res))
      → jobs.get id s.job ≡ o
      → IsKept Res Payload jobs payloads ids sets sorted id
          (mem_text id (sets.smembers s.pending))
          (sorted.zscore id s.leases)
          o
      → IsKept Res Payload jobs payloads ids sets sorted id
          (mem_text id (sets.smembers (cleaned waiting s).pending))
          (sorted.zscore id s.leases)
          o
  cleaned-IsKept waiting s id none e h = tt
  cleaned-IsKept waiting s id (some r) e (a, b, c) = (
    a,
    λ q.
        clean-kept Res Payload jobs payloads ids sets sorted id waiting s s.pending
          (rw e (rw q refl)) (b q),
    c,
  )

  renewed-IsKept :
      (key : String) (until : ℕ) (s : Now) (id : String) (o : Option (JobRecord Res))
      → IsKept Res Payload jobs payloads ids sets sorted id
          (mem_text id (sets.smembers s.pending))
          (sorted.zscore id s.leases)
          o
      → IsKept Res Payload jobs payloads ids sets sorted id
          (mem_text id (sets.smembers s.pending))
          (sorted.zscore id (sorted.zadd key until s.leases))
          o
  renewed-IsKept key until s id none h = tt
  renewed-IsKept key until s id (some r) (a, b, c) =
      (a, b, λ q. let d = c q in ground (arith, sorted.zscore_zadd key id until s.leases))

  requeue_all-NoneLost :
      (expired : List String) (s : Now)
      → NoneLost Res Payload jobs payloads ids sets sorted s
      → NoneLost Res Payload jobs payloads ids sets sorted
          (requeue_all Res Payload jobs payloads ids sets sorted expired s)
  unfolding requeue_all
  requeue_all-NoneLost [] s h = h
  requeue_all-NoneLost (id ∷ rest) s h =
      requeue_all-NoneLost rest _
        (requeue_job-NoneLost Res Payload jobs payloads ids sets sorted id s h)

  step-NoneLost :
      {s t : Now}
      → s ⟶ t
      → NoneLost Res Payload jobs payloads ids sets sorted s
      → NoneLost Res Payload jobs payloads ids sets sorted t
  unfolding renew_lease reap_expired_leases
  step-NoneLost {s} (enqueues p key fresh again now) h =
      enqueue-NoneLost Res Payload jobs payloads ids sets sorted p key fresh again now s h
  step-NoneLost {s} (cleans waiting) h = λ id. cleaned-IsKept waiting s id _ refl (h id)
  step-NoneLost {s} (takes c lease now e) h =
      take_job-NoneLost Res Payload jobs payloads ids sets sorted c lease now s e h
  step-NoneLost {s} (renews id lease now) h = λ k. renewed-IsKept id (now + lease) s k _ (h k)
  step-NoneLost {s} (completes id r now) h =
      complete_job-NoneLost Res Payload jobs payloads ids sets sorted id r now s h
  step-NoneLost {s} (fails id text now) h =
      fail_job-NoneLost Res Payload jobs payloads ids sets sorted id text now s h
  step-NoneLost {s} (requeues id) h =
      requeue_job-NoneLost Res Payload jobs payloads ids sets sorted id s h
  step-NoneLost {s} (reaps now) h = requeue_all-NoneLost _ s h

  -- Along any sequence of submissions, cleanings, takes, renewals, completions, failures, requeues and
  -- reapings, each of which runs to its end before the next begins, it stays true that every record
  -- stands under its own number, every queued job is pending, and every running one has a lease. The
  -- candidate that is taken may have been read at any time before. Nothing is said of calls that overlap
  -- or are broken off between their commands.
  pub runs-NoneLost :
      {s t : Now}
      → s ⟶* t
      → NoneLost Res Payload jobs payloads ids sets sorted s
      → NoneLost Res Payload jobs payloads ids sets sorted t
  runs-NoneLost here h = h
  runs-NoneLost (onward a b) h = runs-NoneLost b (step-NoneLost a h)
