-- ===== src/Automation/Queue/Claim.antt =====
-- Claiming the next job: `claim_next_job` (automation/app/redis_store.py). The commands between which
-- other workers may act are functions of their own: `candidates` reads and `take_job` removes and writes.
use polygate.Prelude.{
  ℕ, ◌+◌, ◌-◌, Bool, true, not, ◌&&◌, ◌||◌, Option, none, some, List, [], ◌∷◌, String, leb, ltb,
  ◌==◌, keep, if◌then◌else◌, mem_text,
}
use polygate.Automation.Redis.{Strings, Sets, SortedSets}
use polygate.Automation.Jobs.{QueuePolicy, waiting_bonus, running, is_urgent, JobRecord, is_queued}
use polygate.Automation.Queue.{Store, get_job}

module _ (Res Payload : Type 0) (jobs : Strings (JobRecord Res)) (payloads : Strings Payload)
    (ids : Strings String) (sets : Sets) (sorted : SortedSets) where
  abbrev pub Here : Type 0
  Here = Store Res Payload jobs payloads ids sets sorted

  -- A candidate of a claim, with its effective priority and its wait.
  pub record Candidate : Type 0 where
    pub id : String
    pub record_of : JobRecord Res
    pub effective_priority : ℕ
    pub waited : ℕ

  abbrev pub candidate_of : QueuePolicy → ℕ → String → JobRecord Res → Candidate
  candidate_of q now id r = record {
    id = id;
    record_of = r;
    effective_priority = r.initial_score + waiting_bonus (now - r.created_at) q;
    waited = now - r.created_at;
  }

  -- A pending number whose job is gone or not queued.
  abbrev pub is_dirty : Option (JobRecord Res) → Bool
  is_dirty none = true
  is_dirty (some r) = not (is_queued r.status)

  -- The first loop of `claim_next_job`: it removes dirty numbers and collects the candidates.
  unfoldable pub clean : List String → Here → sets.Space → sets.Space
  clean [] s space = space
  clean (id ∷ rest) s space = clean rest s (
      if is_dirty (get_job Res Payload jobs payloads ids sets sorted id s)
      then sets.srem id space
      else space)

  unfoldable pub candidates : QueuePolicy → ℕ → List String → Here → List Candidate
  candidates q now [] s = []
  candidates q now (id ∷ rest) s =
      let more = candidates q now rest s in
      elim (get_job Res Payload jobs payloads ids sets sorted id s) [
        | none ↦ more
        | some r ↦ if is_queued r.status then candidate_of q now id r ∷ more else more
      ]

  abbrev pub is_starved : QueuePolicy → Candidate → Bool
  is_starved q c = not (is_urgent c.record_of.urgency) && leb q.starvation_wait_seconds c.waited

  -- `max(…, key=…)`, which keeps the first of equals.
  unfoldable pub max_by : (Candidate → Candidate → Bool) → Candidate → List Candidate → Candidate
  max_by above best [] = best
  max_by above best (c ∷ cs) = max_by above (if above c best then c else best) cs

  abbrev pub waits_longer : Candidate → Candidate → Bool
  waits_longer c d = ltb d.waited c.waited

  -- The order of the key `(effective_priority, -created_at)`.
  abbrev pub goes_first : Candidate → Candidate → Bool
  goes_first c d =
      ltb d.effective_priority c.effective_priority
      || ((c.effective_priority == d.effective_priority)
          && ltb c.record_of.created_at d.record_of.created_at)

  abbrev pub first_in_line : List Candidate → Option Candidate
  first_in_line [] = none
  first_in_line (c ∷ cs) = some (max_by goes_first c cs)

  abbrev pub longest_starved : List Candidate → Option Candidate
  longest_starved [] = none
  longest_starved (c ∷ cs) = some (max_by waits_longer c cs)

  -- Which candidate is chosen, given the streak of urgent jobs.
  unfoldable pub choose : QueuePolicy → ℕ → List Candidate → Option Candidate
  choose q streak cs =
      if leb q.starvation_streak_threshold streak
      then (elim (longest_starved (keep (is_starved q) cs)) [
        | none ↦ first_in_line cs
        | some c ↦ some c
      ])
      else first_in_line cs

  abbrev pub started : ℕ → JobRecord Res → JobRecord Res
  started now r = record r { status = running; started_at = some now }

  abbrev pub take_now : Candidate → ℕ → ℕ → Here → Here
  take_now c lease now s = record s {
    job = jobs.set c.record_of.job_id (started now c.record_of) s.job;
    pending = sets.srem c.id s.pending;
    streak = if is_urgent c.record_of.urgency then s.streak + 1 else 0;
    leases = sorted.zadd c.id (now + lease) s.leases;
  }

  -- The end of `claim_next_job`: nothing is claimed if another worker has removed the number. SREM, the
  -- streak, SET and ZADD are commands of their own in the code; here they are made at once.
  unfoldable pub take_job : Candidate → ℕ → ℕ → Here → Option (JobRecord Res) × Here
  take_job c lease now s =
      if mem_text c.id (sets.smembers s.pending)
      then (some (started now c.record_of), take_now c lease now s)
      else (none, s)

  -- `claim_next_job`
  unfoldable pub claim_next_job : QueuePolicy → ℕ → ℕ → Here → Option (JobRecord Res) × Here
  claim_next_job q lease now s =
      let waiting = sets.smembers s.pending in
      let s' = record s { pending = clean waiting s s.pending } in
      elim (choose q s.streak (candidates q now waiting s)) [
        | none ↦ (none, s')
        | some c ↦ take_job c lease now s'
      ]
