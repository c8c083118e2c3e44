-- ===== src/Gateway/Retry/Streams.antt =====
-- Opening a stream: `open_provider_stream_with_resilience` (gateway/app/retry.py), and what it tells the
-- breaker. The loop shares the handling of a failed attempt with the loop of plain calls.
use polygate.Prelude.{
  ℕ, zero, suc, ◌+◌, ◌-◌, ◌≤◌, ◌≡◌, ◌≢◌, refl, sym, subst, ◌⊎◌, inl, inr, Bool, true, false, not,
  ◌||◌, Option, none, some, List, [], ◌∷◌, String, arith, leb, ◌==◌, if◌then◌else◌, Bool-cases,
  or_else,
}
use polygate.Gateway.Breaker.{Call, allow, failure}
use polygate.Gateway.Breaker.Registry.{Registry, call}
use polygate.Gateway.Retry.{
  Failure, timeout, transport, wait_timeout, payload, protocol, other, status, is_transient_error,
  terminal_report, delay_fits, answered, failed, Attempt, Config, unavailable, budget_exceeded,
  no_attempt, Outcome, returned, raised, Event, requested, Run, stop, after_failure, report_all,
}
use polygate.Gateway.Retry.Attempts.{
  after_failure-last, after_failure-retry, after_failure-late, wait, answer_cases,
}
use polygate.Gateway.Retry.Probes.{IsReport, terminal_report-IsReport}

-- `_remaining_seconds`, and whether there is any left.
abbrev pub is_over : Option ℕ → ℕ → Bool
is_over none now = false
is_over (some deadline) now = leb deadline now

-- How long an opening is waited for.
abbrev pub window : Config → ℕ → ℕ
window cfg now = elim cfg.deadline [ none ↦ cfg.timeout_s | some deadline ↦ deadline - now ]

-- The built-in `TimeoutError`.
abbrev pub is_wait_timeout : Failure → Bool
is_wait_timeout wait_timeout = true
is_wait_timeout timeout = false
is_wait_timeout transport = false
is_wait_timeout payload = false
is_wait_timeout protocol = false
is_wait_timeout other = false
is_wait_timeout (status code after) = false

module _ (cfg : Config) (env : ℕ → Attempt) where
  -- An opening that failed: a timeout of the wait ends the budget, anything else is handled as in a
  -- plain call.
  abbrev pub failed_opening : ℕ → Event → Failure → Run → Run
  failed_opening attempt asked e rest =
      if is_wait_timeout e
      then stop cfg env budget_exceeded attempt (asked ∷ [])
          (terminal_report e (env attempt).wall ∷ [])
      else after_failure cfg env attempt asked e rest

  -- The loop; an opened stream is not reported, since its consumer reports at the end.
  unfoldable pub openings : ℕ → ℕ → Run
  openings zero attempt = stop cfg env no_attempt attempt [] (failure (env attempt).wall ∷ [])
  openings (suc rounds) attempt =
      let rest = openings rounds (attempt + 1) in
      let a = env attempt in
      let asked = requested a.started (window cfg a.started) in
      if is_over cfg.deadline a.started
      then stop cfg env budget_exceeded attempt [] []
      else elim a.answer [
        | answered ↦ record { outcome = returned attempt; events = asked ∷ []; reports = [] }
        | failed e ↦ failed_opening attempt asked e rest
      ]

  -- `open_provider_stream_with_resilience`
  unfoldable pub open_provider_stream_with_resilience : String → ℕ → Registry → Run × Registry
  open_provider_stream_with_resilience name now reg =
      let (reg', admitted) = call reg name (allow now) in
      let run = openings (cfg.max_retries + 1) 0 in
      if or_else admitted false
      then (run, report_all cfg env name run.reports reg')
      else (record { outcome = raised unavailable 0; events = []; reports = [] }, reg')

  -- What the breaker is told: of an opened stream nothing, of one end otherwise; and nothing of a
  -- request whose time is over before an attempt.
  abbrev pub Tells : Outcome → List Call → Type 0
  Tells (returned n) cs = (n ≤ cfg.max_retries) × (cs ≡ [])
  Tells (raised e n) cs =
      (n ≤ cfg.max_retries)
      × (((cs ≡ []) × (e ≡ budget_exceeded) × (is_over cfg.deadline (env n).started ≡ true))
          ⊎ ((c : Call) × (cs ≡ c ∷ []) × IsReport c))

  abbrev pub RunTells : Run → Type 0
  RunTells r = Tells r.outcome r.reports

  after_failure-Tells :
      (a t : ℕ) (e : Failure) (rest : Run)
      → a ≤ cfg.max_retries
      → (a ≢ cfg.max_retries → RunTells rest)
      → RunTells (after_failure cfg env a (requested (env a).started t) e rest)
  after_failure-Tells a t e rest l h =
      elim (Bool-cases (not (is_transient_error e) || a == cfg.max_retries)) [
        | inl last ↦
            subst RunTells (sym (after_failure-last cfg env a t e rest last))
              (l, inr (_, refl, terminal_report-IsReport e (env a).wall))
        | inr more ↦
            elim (Bool-cases (delay_fits (wait cfg env a t e rest) cfg.deadline (env a).ended)) [
              | inl fits ↦
                  subst RunTells (sym (after_failure-retry cfg env a t e rest more fits))
                    (h (ground arith))
              | inr late ↦
                  subst RunTells (sym (after_failure-late cfg env a t e rest more late))
                    (l, inr (_, refl, terminal_report-IsReport e (env a).wall))
            ]
      ]

  failed_opening-Tells :
      (a t : ℕ) (e : Failure) (rest : Run)
      → a ≤ cfg.max_retries
      → (a ≢ cfg.max_retries → RunTells rest)
      → RunTells (failed_opening a (requested (env a).started t) e rest)
  failed_opening-Tells a t e rest l h = elim (Bool-cases (is_wait_timeout e)) [
    | inl y ↦
        let same : failed_opening a (requested (env a).started t) e rest
            ≡ stop cfg env budget_exceeded a (requested (env a).started t ∷ [])
                (terminal_report e (env a).wall ∷ []) =
          rw y refl in
        subst RunTells (sym same) (l, inr (_, refl, terminal_report-IsReport e (env a).wall))
    | inr n ↦
        let same : failed_opening a (requested (env a).started t) e rest
            ≡ after_failure cfg env a (requested (env a).started t) e rest =
          rw n refl in
        subst RunTells (sym same) (after_failure-Tells a t e rest l h)
  ]

  opening-RunTells :
      (rounds a : ℕ)
      → a ≤ cfg.max_retries
      → (a ≢ cfg.max_retries → RunTells (openings rounds (a + 1)))
      → RunTells (openings (suc rounds) a)
  unfolding openings
  opening-RunTells rounds a l h = elim (Bool-cases (is_over cfg.deadline (env a).started)) [
    | inl y ↦
        let same : openings (suc rounds) a ≡ stop cfg env budget_exceeded a [] [] =
          rw (y, openings) refl in
        subst RunTells (sym same) (l, inl (refl, refl, y))
    | inr n ↦ elim (answer_cases cfg env (env a).answer) [
      | inl ans ↦
          let same : openings (suc rounds) a ≡ record {
            outcome = returned a;
            events = requested (env a).started (window cfg (env a).started) ∷ [];
            reports = [];
          } =
            rw (n, openings) (rw (ans, openings) refl) in
          subst RunTells (sym same) (l, refl)
      | inr (e, ans) ↦
          let same : openings (suc rounds) a
              ≡ failed_opening a (requested (env a).started (window cfg (env a).started)) e
                  (openings rounds (a + 1)) =
            rw (n, openings) (rw (ans, openings) refl) in
          subst RunTells (sym same) (failed_opening-Tells a _ e _ l h)
    ]
  ]

  openings-RunTells :
      (rounds a : ℕ) → a + rounds ≡ cfg.max_retries → RunTells (openings (suc rounds) a)
  openings-RunTells zero a e = opening-RunTells zero a (omega arith) (λ n. absurd (n (omega arith)))
  openings-RunTells (suc rounds) a e =
      opening-RunTells (suc rounds) a (omega arith)
        (λ n. openings-RunTells rounds (a + 1) (omega arith))

  -- However the provider answers, opening a stream ends after at most `max_retries` retries, with an
  -- opened stream or an error. The breaker is told nothing of an opened stream; of an error it is told
  -- one outcome, or nothing if the time was over before an attempt.
  pub open_ends_told : RunTells (openings (cfg.max_retries + 1) 0)
  open_ends_told =
      subst (λ n. RunTells (openings n 0)) (omega arith)
        (openings-RunTells cfg.max_retries 0 (omega arith))
