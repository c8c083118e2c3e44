-- ===== src/Automation/Queue/Crash.antt =====
-- A claim and a requeue whose worker dies between its commands (`claim_next_job` and `requeue_job`,
-- automation/app/redis_store.py).
use polygate.Prelude.{
  ℕ, ◌+◌, ◌≡◌, ◌≢◌, refl, false, none, some, List, String, if◌then◌else◌, mem_text, str_eq,
}
use polygate.Automation.Redis.{Strings, Sets, SortedSets}
use polygate.Automation.Jobs.{queued, JobRecord, Preview, is_urgent}
use polygate.Automation.Queue.{
  enqueue, complete_job, fail_job, requeue_job, put_back, renew_lease, reap_expired_leases,
}
use polygate.Automation.Queue.Claim.{take_job, take_now, started, clean}
use polygate.Automation.Queue.Choice.{Cand}
use polygate.Automation.Queue.Invariant.{Here}

-- The last command that a claim has made: SREM, INCR or SET of the streak, SET of the record, ZADD.
pub data Reached : Type 0 where
  removed counted saved leased : Reached

module _ (Res Payload : Type 0) (jobs : Strings (JobRecord Res)) (payloads : Strings Payload)
    (ids : Strings String) (sets : Sets) (sorted : SortedSets) where
  abbrev pub Now : Type 0
  Now = Here Res Payload jobs payloads ids sets sorted

  -- The commands of a claim of `c`, in their order.
  abbrev pub remove_number : Cand Res Payload jobs payloads ids sets sorted → Now → Now
  remove_number c s = record s { pending = sets.srem c.id s.pending }

  abbrev pub count_claim : Cand Res Payload jobs payloads ids sets sorted → Now → Now
  count_claim c s = record s { streak = if is_urgent c.record_of.urgency then s.streak + 1 else 0 }

  abbrev pub save_started : Cand Res Payload jobs payloads ids sets sorted → ℕ → Now → Now
  save_started c now s = record s {
    job =
        jobs.set c.record_of.job_id
          (started Res Payload jobs payloads ids sets sorted now c.record_of) s.job;
  }

  abbrev pub add_lease : Cand Res Payload jobs payloads ids sets sorted → ℕ → ℕ → Now → Now
  add_lease c lease now s = record s { leases = sorted.zadd c.id (now + lease) s.leases }

  -- The store when a claim of `c` has got as far as that.
  unfoldable pub take_until :
      Reached → Cand Res Payload jobs payloads ids sets sorted → ℕ → ℕ → Now → Now
  take_until removed c lease now s = remove_number c s
  take_until counted c lease now s = count_claim c (remove_number c s)
  take_until saved c lease now s = save_started c now (count_claim c (remove_number c s))
  take_until leased c lease now s =
      add_lease c lease now (save_started c now (count_claim c (remove_number c s)))

  -- The whole of it is `take_now`.
  take_until-leased :
      (c : Cand Res Payload jobs payloads ids sets sorted) (lease now : ℕ) (s : Now)
      → take_until leased c lease now s
        ≡ take_now Res Payload jobs payloads ids sets sorted c lease now s
  unfolding take_until
  take_until-leased c lease now s = refl

  -- The commands of a requeue of the job `r` under `id`, in their order.
  abbrev pub save_queued : JobRecord Res → Now → Now
  save_queued r s = record s { job = jobs.set r.job_id (record r { status = queued }) s.job }

  abbrev pub remove_lease : String → Now → Now
  remove_lease id s = record s { leases = sorted.zrem id s.leases }

  abbrev pub add_number : String → Now → Now
  add_number id s = record s { pending = sets.sadd id s.pending }

  -- The whole of them is `put_back`.
  requeue-put_back :
      (id : String) (r : JobRecord Res) (s : Now)
      → add_number id (remove_lease id (save_queued r s))
        ≡ put_back Res Payload jobs payloads ids sets sorted id r s
  requeue-put_back id r s = refl

  -- The record that is stored then.
  abbrev pub record_until : Reached → ℕ → JobRecord Res → JobRecord Res
  record_until removed now r = r
  record_until counted now r = r
  record_until saved now r = started Res Payload jobs payloads ids sets sorted now r
  record_until leased now r = started Res Payload jobs payloads ids sets sorted now r

  abbrev pub OwnNumbers : Now → Type 0
  OwnNumbers s = (k : String) (r : JobRecord Res) → jobs.get k s.job ≡ some r → r.job_id ≡ k

  -- The record is there, but its number is not pending and has no lease.
  pub record IsLost (id : String) (r : JobRecord Res) (s : Now) : Type 0 where
    pub own : OwnNumbers s
    pub stored : jobs.get id s.job ≡ some r
    pub not_pending : mem_text id (sets.smembers s.pending) ≡ false
    pub no_lease : sorted.zscore id s.leases ≡ none

  -- The worker of a call dies: in a claim of a job that has no lease, after SREM and before ZADD; or in a
  -- requeue of a job that is not pending, after ZREM and before SADD. `r` is the record that is stored
  -- then, and `u` the store.
  pub data BreaksOff : String → JobRecord Res → Now → Now → Type 0 where
    claim_breaks :
        {s : Now} (at : Reached) (c : Cand Res Payload jobs payloads ids sets sorted)
        (lease now : ℕ)
        → at ≢ leased
        → jobs.get c.id s.job ≡ some c.record_of
        → sorted.zscore c.id s.leases ≡ none
        → BreaksOff c.id (record_until at now c.record_of) s (take_until at c lease now s)
    requeue_breaks :
        {s : Now} (id : String) (r : JobRecord Res)
        → jobs.get id s.job ≡ some r
        → mem_text id (sets.smembers s.pending) ≡ false
        → BreaksOff id (record r { status = queued }) s (remove_lease id (save_queued r s))

  -- The steps of others: all calls but those for the number that the dead worker alone would make.
  pub data Step (id : String) : Now → Now → Type 0 where
    enqueues :
        {s : Now} (p : Preview Payload) (key fresh again : String) (now : ℕ)
        → str_eq fresh id ≡ false
        → str_eq again id ≡ false
        → Step id s (enqueue Res Payload jobs payloads ids sets sorted p key fresh again now s).1
    cleans :
        {s : Now} (waiting : List String)
        → Step id s (record s {
          pending = clean Res Payload jobs payloads ids sets sorted waiting s s.pending;
        })
    takes :
        {s : Now} (c : Cand Res Payload jobs payloads ids sets sorted) (lease now : ℕ)
        → c.record_of.job_id ≡ c.id
        → Step id s (take_job Res Payload jobs payloads ids sets sorted c lease now s).1
    renews :
        {s : Now} (k : String) (lease now : ℕ)
        → str_eq k id ≡ false
        → Step id s (renew_lease Res Payload jobs payloads ids sets sorted k lease now s)
    completes :
        {s : Now} (k : String) (result : Res) (now : ℕ)
        → str_eq k id ≡ false
        → Step id s (complete_job Res Payload jobs payloads ids sets sorted k result now s)
    fails :
        {s : Now} (k text : String) (now : ℕ)
        → str_eq k id ≡ false
        → Step id s (fail_job Res Payload jobs payloads ids sets sorted k text now s)
    requeues :
        {s : Now} (k : String)
        → str_eq k id ≡ false
        → Step id s (requeue_job Res Payload jobs payloads ids sets sorted k s)
    reaps :
        {s : Now} (now : ℕ)
        → Step id s (reap_expired_leases Res Payload jobs payloads ids sets sorted now s).1

  pub data Steps (id : String) : Now → Now → Type 0 where
    here : {s : Now} → Steps id s s
    onward : {s t u : Now} → Step id s t → Steps id t u → Steps id s u

  -- A lost job stays where it is: nobody can take it, and no reaper lists it.
  abbrev pub StaysLost : String → JobRecord Res → Now → Type 0
  StaysLost id r t =
      IsLost id r t
      × ((d : Cand Res Payload jobs payloads ids sets sorted) (lease now : ℕ)
          → d.id ≡ id
          → take_job Res Payload jobs payloads ids sets sorted d lease now t ≡ (none, t))
      × ((now : ℕ)
          → mem_text id (reap_expired_leases Res Payload jobs payloads ids sets sorted now t).0
            ≡ false)
