-- ===== src/Automation/Queue/Losses.antt =====
-- What becomes of a job whose worker dies between the commands of a call.
use polygate.Prelude.{
  ℕ, ◌+◌, ◌≡◌, ◌≢◌, refl, sym, ap, subst, ◌∙◌, inl, inr, false, none, some, String, arith,
  Bool-cases, mem_text, str_eq, str_eq_refl, str_eq_iff,
}
use polygate.Automation.Redis.{Strings, Sets, SortedSets}
use polygate.Automation.Jobs.{queued, JobRecord}
use polygate.Automation.Queue.{renew_lease, reap_expired_leases}
use polygate.Automation.Queue.Claim.{started}
use polygate.Automation.Queue.Choice.{Cand}
use polygate.Automation.Queue.Claims.{take_job-none}
use polygate.Automation.Queue.Bystanders.{
  enqueued, clean-out, taken, requeued, all_requeued, not_listed, completed, failed_job,
}
use polygate.Automation.Queue.Crash.{
  Now, Reached, removed, counted, saved, leased, save_started, take_until, record_until,
  save_queued, remove_lease, BreaksOff, claim_breaks, requeue_breaks, OwnNumbers, IsLost, Step,
  enqueues, cleans, takes, renews, completes, fails, requeues, reaps, Steps, here, onward,
  StaysLost,
}

module _ (Res Payload : Type 0) (jobs : Strings (JobRecord Res)) (payloads : Strings Payload)
    (ids : Strings String) (sets : Sets) (sorted : SortedSets) where
  abbrev There : Type 0
  There = Now Res Payload jobs payloads ids sets sorted

  module _ (id : String) (r : JobRecord Res) where
    step-IsLost :
        {s t : There}
        → Step Res Payload jobs payloads ids sets sorted id s t
        → IsLost Res Payload jobs payloads ids sets sorted id r s
        → IsLost Res Payload jobs payloads ids sets sorted id r t
    unfolding renew_lease reap_expired_leases
    step-IsLost {s} (enqueues p key fresh again now m n) h =
        enqueued Res Payload jobs payloads ids sets sorted id r p key fresh again now s m n h
    step-IsLost {s} (cleans waiting) h = record {
      own = h.own;
      stored = h.stored;
      not_pending =
          clean-out Res Payload jobs payloads ids sets sorted id r waiting s s.pending
            (h.not_pending);
      no_lease = h.no_lease;
    }
    step-IsLost {s} (takes c lease now e) h =
        taken Res Payload jobs payloads ids sets sorted id r c lease now s e h
    step-IsLost {s} (renews k lease now n) h = record {
      own = h.own;
      stored = h.stored;
      not_pending = h.not_pending;
      no_lease = sorted.zscore_zadd k id (now + lease) s.leases ∙ (rw n (h.no_lease));
    }
    step-IsLost {s} (completes k result now n) h =
        completed Res Payload jobs payloads ids sets sorted id r k result now s n h
    step-IsLost {s} (fails k text now n) h =
        failed_job Res Payload jobs payloads ids sets sorted id r k text now s n h
    step-IsLost {s} (requeues k n) h =
        requeued Res Payload jobs payloads ids sets sorted id r k s n h
    step-IsLost {s} (reaps now) h =
        all_requeued Res Payload jobs payloads ids sets sorted id r _ s
          (not_listed Res Payload jobs payloads ids sets sorted id r now s h) h

    steps-IsLost :
        {s t : There}
        → Steps Res Payload jobs payloads ids sets sorted id s t
        → IsLost Res Payload jobs payloads ids sets sorted id r s
        → IsLost Res Payload jobs payloads ids sets sorted id r t
    steps-IsLost here h = h
    steps-IsLost (onward a b) h = steps-IsLost b (step-IsLost a h)

  -- Storing a record under its own number.
  set_own :
      (k : String) (q : JobRecord Res) (s t : There)
      → OwnNumbers Res Payload jobs payloads ids sets sorted s
      → q.job_id ≡ k
      → t.job ≡ jobs.set k q s.job
      → OwnNumbers Res Payload jobs payloads ids sets sorted t
  set_own k q s t own e f j x g = elim (Bool-cases (str_eq k j)) [
    | inl y ↦
        let new : some q ≡ some x = sym (rw f (jobs.get_set k j q s.job ∙ rw y refl)) ∙ g in
        let same : q ≡ x = cc in
        ap (λ (z : JobRecord Res). z.job_id) (sym same) ∙ (e ∙ (str_eq_iff k j).0 y)
    | inr z ↦ own j x (sym (rw f (jobs.get_set k j q s.job ∙ rw z refl)) ∙ g)
  ]

  removed-out :
      (c : Cand Res Payload jobs payloads ids sets sorted) (s : There)
      → mem_text c.id (sets.smembers (sets.srem c.id s.pending)) ≡ false
  removed-out c s = ground (arith, sets.smembers_srem c.id c.id s.pending, str_eq_refl c.id)

  dies :
      (at : Reached) (c : Cand Res Payload jobs payloads ids sets sorted) (lease now : ℕ)
      (s : There)
      → at ≢ leased
      → OwnNumbers Res Payload jobs payloads ids sets sorted s
      → c.record_of.job_id ≡ c.id
      → jobs.get c.id s.job ≡ some c.record_of
      → sorted.zscore c.id s.leases ≡ none
      → IsLost Res Payload jobs payloads ids sets sorted c.id
          (record_until Res Payload jobs payloads ids sets sorted at now c.record_of)
          (take_until Res Payload jobs payloads ids sets sorted at c lease now s)
  unfolding take_until
  dies removed c lease now s d own e f g = record {
    own = own;
    stored = f;
    not_pending = removed-out c s;
    no_lease = g;
  }
  dies counted c lease now s d own e f g = record {
    own = own;
    stored = f;
    not_pending = removed-out c s;
    no_lease = g;
  }
  dies saved c lease now s d own e f g = record {
    own =
        set_own c.id (started Res Payload jobs payloads ids sets sorted now c.record_of) s
          (save_started Res Payload jobs payloads ids sets sorted c now s) own e (rw e refl);
    stored = rw e (jobs.get_set c.id c.id _ s.job ∙ rw (str_eq_refl c.id) refl);
    not_pending = removed-out c s;
    no_lease = g;
  }
  dies leased c lease now s d own e f g = absurd (d refl)

  released :
      (id : String) (r : JobRecord Res) (s : There)
      → OwnNumbers Res Payload jobs payloads ids sets sorted s
      → jobs.get id s.job ≡ some r
      → mem_text id (sets.smembers s.pending) ≡ false
      → IsLost Res Payload jobs payloads ids sets sorted id
          (record r { status = queued })
          (remove_lease Res Payload jobs payloads ids sets sorted id
            (save_queued Res Payload jobs payloads ids sets sorted r s))
  released id r s own f m =
      let e = own id r f in
      record {
        own =
            set_own id (record r { status = queued }) s
              (remove_lease Res Payload jobs payloads ids sets sorted id
                (save_queued Res Payload jobs payloads ids sets sorted r s))
              own e (rw e refl);
        stored = rw e (jobs.get_set id id _ s.job ∙ rw (str_eq_refl id) refl);
        not_pending = m;
        no_lease = sorted.zscore_zrem id id s.leases ∙ rw (str_eq_refl id) refl;
      }

  broken-IsLost :
      {id : String} {r : JobRecord Res} {s u : There}
      → OwnNumbers Res Payload jobs payloads ids sets sorted s
      → BreaksOff Res Payload jobs payloads ids sets sorted id r s u
      → IsLost Res Payload jobs payloads ids sets sorted id r u
  broken-IsLost {s = s} own (claim_breaks at c lease now d f g) =
      dies at c lease now s d own (own c.id c.record_of f) f g
  broken-IsLost {s = s} own (requeue_breaks id r f m) = released id r s own f m

  -- When a worker dies in a claim after SREM and before ZADD, or in a requeue after ZREM and before SADD,
  -- the job is lost: whatever others do after that, its record stays as it is then, its number is not
  -- pending and has no lease, so that no worker can take it and no reaper lists it. Before the claim it
  -- had no lease, before the requeue it was not pending, and records stood under their own numbers.
  -- Others here do not complete, fail, requeue or renew this job, and draw other numbers.
  pub BreaksOff-StaysLost :
      (id : String) (r : JobRecord Res) (s u t : There)
      → OwnNumbers Res Payload jobs payloads ids sets sorted s
      → BreaksOff Res Payload jobs payloads ids sets sorted id r s u
      → Steps Res Payload jobs payloads ids sets sorted id u t
      → StaysLost Res Payload jobs payloads ids sets sorted id r t
  unfolding reap_expired_leases
  BreaksOff-StaysLost id r s u t own b steps =
      let lost = steps-IsLost id r steps (broken-IsLost own b) in
      (
        lost,
        λ x l n same.
            take_job-none Res Payload jobs payloads ids sets sorted x l n t (
              subst (λ k. mem_text k (sets.smembers t.pending) ≡ false) (sym same)
                lost.not_pending),
        λ n. not_listed Res Payload jobs payloads ids sets sorted id r n t lost,
      )
