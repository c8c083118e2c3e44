-- ===== src/Gateway/Retry/Attempts.antt =====
-- How the retry loop ends: how many requests it has made and what the breaker is told.
use polygate.Prelude.{
  ℕ, zero, suc, ◌+◌, ◌≤◌, ◌<◌, ◌≡◌, ◌≢◌, refl, subst, sym, ◌⊎◌, inl, inr, true, false, not, ◌||◌,
  none, some, List, [], ◌∷◌, arith, ◌==◌, Bool-cases, Option-cases,
}
use polygate.Gateway.Breaker.{Call, success}
use polygate.Gateway.Retry.{
  RetryReason, Failure, Answer, answered, failed, Attempt, Config, unavailable, budget_exceeded,
  no_attempt, provider_error, Outcome, returned, raised, Event, requested, slept, Run,
  after_failure, attempts, is_transient_error, terminal_report, attempt_timeout, delay_fits,
  retry_delay, retry_reason, stop, prepend,
}

-- The requests among the events.
abbrev pub requests : List Event → ℕ
requests [] = 0
requests (requested now t ∷ es) = suc (requests es)
requests (slept now d r ∷ es) = requests es

module _ (cfg : Config) (env : ℕ → Attempt) where
  -- The end of a loop that begins at the attempt `a`. A result or a provider's error carries the
  -- number of retries, and is the last of that many requests and one; the breaker is told of it
  -- once. A provider's error ends the loop only if it is no transient one or the retries are used
  -- up. A spent budget is told to the breaker as the failure before it, or not at all if the
  -- deadline had passed before the attempt began.
  abbrev pub EndsWith : ℕ → Outcome → List Event → List Call → Type 0
  EndsWith a (returned n) events reports =
      (n + 1 ≡ a + requests events)
      × (n ≤ cfg.max_retries)
      × ((env n).answer ≡ answered)
      × (reports ≡ success ∷ [])
  EndsWith a (raised (provider_error e) n) events reports =
      (n + 1 ≡ a + requests events)
      × (n ≤ cfg.max_retries)
      × ((env n).answer ≡ failed e)
      × (reports ≡ terminal_report e (env n).wall ∷ [])
      × ((is_transient_error e ≡ false) ⊎ (n ≡ cfg.max_retries))
  EndsWith a (raised budget_exceeded n) events reports =
      (n ≤ cfg.max_retries)
      × (((n ≡ a + requests events)
            × (reports ≡ [])
            × (attempt_timeout cfg.timeout_s cfg.deadline (env n).started ≡ none))
          ⊎ ((n + 1 ≡ a + requests events)
              × ((e : Failure) × ((env n).answer ≡ failed e)
                  × (reports ≡ terminal_report e (env n).wall ∷ []))))
  EndsWith a (raised unavailable n) events reports = ⊥
  EndsWith a (raised no_attempt n) events reports = ⊥

  abbrev pub Ends : ℕ → Run → Type 0
  Ends a r = EndsWith a r.outcome r.events r.reports

  Ends-later :
      (a now t now' d : ℕ) (why : RetryReason) (o : Outcome) (es : List Event) (cs : List Call)
      → EndsWith (a + 1) o es cs
      → EndsWith a o (requested now t ∷ slept now' d why ∷ es) cs
  Ends-later a now t now' d why (returned n) es cs h = ground arith
  Ends-later a now t now' d why (raised (provider_error e) n) es cs h = ground arith
  Ends-later a now t now' d why (raised budget_exceeded n) es cs h = (
    h.0,
    elim h.1 [
      | inl (n_eq, r, l) ↦ inl (omega arith, r, l)
      | inr (n_eq, found) ↦ inr (omega arith, found)
    ],
  )
  Ends-later a now t now' d why (raised unavailable n) es cs h = h
  Ends-later a now t now' d why (raised no_attempt n) es cs h = h

  module _ (a t : ℕ) (e : Failure) (rest : Run) where
    abbrev asked : Event
    asked = requested (env a).started t

    abbrev pub wait : ℕ
    wait = retry_delay e a cfg.base_delay_s cfg.max_backoff_s (env a).jitter

    -- The three branches behind a failed attempt.
    pub after_failure-last :
        (not (is_transient_error e) || a == cfg.max_retries) ≡ true
        → after_failure cfg env a asked e rest
          ≡ stop cfg env (provider_error e) a (asked ∷ []) (terminal_report e (env a).wall ∷ [])
    unfolding after_failure
    after_failure-last h = rw h

    pub after_failure-retry :
        (not (is_transient_error e) || a == cfg.max_retries) ≡ false
        → delay_fits wait cfg.deadline (env a).ended ≡ true
        → after_failure cfg env a asked e rest
          ≡ prepend cfg env asked (slept (env a).ended wait (retry_reason e)) rest
    unfolding after_failure
    after_failure-retry h f = rw (h, f)

    pub after_failure-late :
        (not (is_transient_error e) || a == cfg.max_retries) ≡ false
        → delay_fits wait cfg.deadline (env a).ended ≡ false
        → after_failure cfg env a asked e rest
          ≡ stop cfg env budget_exceeded a (asked ∷ []) (terminal_report e (env a).wall ∷ [])
    unfolding after_failure
    after_failure-late h f = rw (h, f)

  after_failure-Ends :
      (a t : ℕ) (e : Failure) (rest : Run)
      → a ≤ cfg.max_retries
      → (env a).answer ≡ failed e
      → (a ≢ cfg.max_retries → Ends (a + 1) rest)
      → Ends a (after_failure cfg env a (requested (env a).started t) e rest)
  after_failure-Ends a t e rest le ans h =
      elim (Bool-cases (not (is_transient_error e) || a == cfg.max_retries)) [
        | inl last ↦
            subst (Ends a) (sym (after_failure-last a t e rest last))
              (omega arith, le, ans, refl, ground arith)
        | inr more ↦ elim (Bool-cases (delay_fits (wait a t e rest) cfg.deadline (env a).ended)) [
          | inl fits ↦
              subst (Ends a) (sym (after_failure-retry a t e rest more fits))
                (Ends-later a _ _ _ _ _ rest.outcome rest.events rest.reports (h (ground arith)))
          | inr late ↦
              subst (Ends a) (sym (after_failure-late a t e rest more late))
                (le, inr (omega arith, (e, ans, refl)))
        ]
      ]

  module _ (rounds a : ℕ) where
    -- The branches of one round of the loop.
    pub attempts-late :
        attempt_timeout cfg.timeout_s cfg.deadline (env a).started ≡ none
        → attempts cfg env (suc rounds) a ≡ stop cfg env budget_exceeded a [] []
    unfolding attempts
    attempts-late h = rw (h, attempts)

    pub attempts-answered :
        (t : ℕ)
        → attempt_timeout cfg.timeout_s cfg.deadline (env a).started ≡ some t
        → (env a).answer ≡ answered
        → attempts cfg env (suc rounds) a ≡ record {
          outcome = returned a;
          events = requested (env a).started t ∷ [];
          reports = success ∷ [];
        }
    unfolding attempts
    attempts-answered t h k = rw (h, k, attempts)

    pub attempts-failed :
        (t : ℕ) (e : Failure)
        → attempt_timeout cfg.timeout_s cfg.deadline (env a).started ≡ some t
        → (env a).answer ≡ failed e
        → attempts cfg env (suc rounds) a
          ≡ after_failure cfg env a
              (requested (env a).started t)
              e
              (attempts cfg env rounds (a + 1))
    unfolding attempts
    attempts-failed t e h k = rw (h, k, attempts)

  pub answer_cases : (x : Answer) → (x ≡ answered) ⊎ ((e : Failure) × (x ≡ failed e))
  answer_cases answered = inl refl
  answer_cases (failed e) = inr (e, refl)

  attempts-Ends :
      (rounds a : ℕ)
      → a + rounds ≡ cfg.max_retries + 1
      → 0 < rounds
      → Ends a (attempts cfg env rounds a)
  attempts-Ends zero a h pos = elim pos [ ]
  attempts-Ends (suc rounds) a h pos =
      elim (Option-cases (attempt_timeout cfg.timeout_s cfg.deadline (env a).started)) [
        | inl late ↦
            subst (Ends a) (sym (attempts-late rounds a late))
              (omega arith, inl (omega arith, refl, late))
        | inr (t, ontime) ↦ elim (answer_cases (env a).answer) [
          | inl good ↦
              subst (Ends a) (sym (attempts-answered rounds a t ontime good))
                (omega arith, omega arith, good, refl)
          | inr (e, bad) ↦ subst (Ends a) (sym (attempts-failed rounds a t e ontime bad)) (
              after_failure-Ends a t e (attempts cfg env rounds (a + 1)) (omega arith) bad
                (λ more. attempts-Ends rounds (a + 1) (omega arith) (omega arith)))
        ]
      ]

  -- However the provider answers, the loop of `max_retries + 1` rounds ends: with the answer of its
  -- last request, and the breaker is told of the success; with that request's exception, which is
  -- final or came in the last round, and the breaker is told of it; or with the budget exceeded,
  -- before a request or behind a failed one. The retries that it carries are counted right.
  pub loop-Ends : Ends 0 (attempts cfg env (cfg.max_retries + 1) 0)
  loop-Ends = attempts-Ends (cfg.max_retries + 1) 0 (omega arith) (omega arith)
