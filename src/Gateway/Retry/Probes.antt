-- ===== src/Gateway/Retry/Probes.antt =====
-- What a call with retries leaves of a half-open breaker.
use polygate.Prelude.{
  ℕ, suc, ◌+◌, ◌≡◌, subst, sym, ap, ◌⊎◌, inl, inr, ◌↔◌, Bool, true, false, none, some, List, [],
  ◌∷◌, String, arith, str_eq_refl, if◌then◌else◌, map, ◌∙◌,
}
use polygate.Gateway.Breaker.{
  open_, half_open, ProviderBreaker, Call, allow, success, failure, cancelled, step, cooled_down,
}
use polygate.Gateway.Breaker.Registry.{Registry, call, get_breaker, get_breaker-call}
use polygate.Gateway.Breaker.Runs.{grants, probe_refuses}
use polygate.Gateway.Retry.{
  Failure, Attempt, Config, Event, Run, budget_exceeded, raised, returned, Outcome, attempts,
  report_all, stop, attempt_timeout, unavailable, no_attempt, provider_error, terminal_report,
  is_provider_failure, call_provider_with_resilience,
}
use polygate.Gateway.Retry.Attempts.{attempts-late, EndsWith, loop-Ends}

-- A probe is out: the breaker is half open, and waits for the report of one request.
abbrev pub IsProbing : ProviderBreaker → Type 0
IsProbing b = (b.state ≡ half_open) × (b.half_open_probe_in_flight ≡ true)

-- A report, as against a request.
abbrev pub IsReport : Call → Type 0
IsReport (allow now) = ⊥
IsReport success = Unit
IsReport (failure now) = Unit
IsReport (cancelled now) = Unit

-- Any report ends a probe.
step-IsProbing :
    (b : ProviderBreaker) (c : Call) → IsReport c → IsProbing b → ¬ IsProbing (step b c).0
unfolding step
step-IsProbing b (allow now) r p q = r
step-IsProbing b success r p q = cc
step-IsProbing b (failure now) r p q = ground arith
step-IsProbing b (cancelled now) r p q = ground arith

-- After its cooldown an open breaker lets a request through as its probe.
allow-IsProbing :
    (now : ℕ) (b : ProviderBreaker)
    → b.state ≡ open_
    → cooled_down now b ≡ true
    → IsProbing (step b (allow now)).0 × ((step b (allow now)).1 ≡ some true)
unfolding step
allow-IsProbing now b s c = ground arith

pub terminal_report-IsReport : (e : Failure) (now : ℕ) → IsReport (terminal_report e now)
unfolding terminal_report
terminal_report-IsReport e now = if_IsReport (is_provider_failure e) now
  where
    if_IsReport : (t : Bool) (now : ℕ) → IsReport (if t then failure now else cancelled now)
    if_IsReport true now = tt
    if_IsReport false now = tt

module _ (cfg : Config) (env : ℕ → Attempt) where
  abbrev pub loop : Run
  loop = attempts cfg env (cfg.max_retries + 1) 0

  -- The breaker is told nothing, or it is told of one end.
  one-IsReport :
      (a : ℕ) (o : Outcome) (es : List Event) (cs : List Call)
      → EndsWith cfg env a o es cs
      → (cs ≡ []) ⊎ ((c : Call) × (cs ≡ c ∷ []) × IsReport c)
  one-IsReport a (returned n) es cs h = inr (success, h.3, tt)
  one-IsReport a (raised (provider_error e) n) es cs h =
      inr (_, h.3, terminal_report-IsReport e (env n).wall)
  one-IsReport a (raised budget_exceeded n) es cs h = elim h.1 [
    | inl (_, none_told, _) ↦ inl none_told
    | inr (_, found) ↦
        let (e, _, told) = found in inr (_, told, terminal_report-IsReport e (env n).wall)
  ]
  one-IsReport a (raised unavailable n) es cs h = absurd h
  one-IsReport a (raised no_attempt n) es cs h = absurd h

  module _ (name : String) (now : ℕ) (reg : Registry)
      (is_open : (get_breaker reg name).state ≡ open_)
      (cooled : cooled_down now (get_breaker reg name) ≡ true) where
    abbrev admitted : Registry
    admitted = (call reg name (allow now)).0

    abbrev after : Registry
    after = (call_provider_with_resilience cfg env name now reg).1

    call_self :
        (r : Registry) (c : Call)
        → get_breaker (call r name c).0 name ≡ (step (get_breaker r name) c).0
    call_self r c = rw (get_breaker-call r name name c, str_eq_refl name)

    admitted-IsProbing : IsProbing (get_breaker admitted name)
    admitted-IsProbing =
        subst IsProbing (sym (call_self reg (allow now)))
          (allow-IsProbing now (get_breaker reg name) is_open cooled).0

    answer_lem : (call reg name (allow now)).1 ≡ some true
    unfolding call
    answer_lem = (allow-IsProbing now (get_breaker reg name) is_open cooled).1

    after_lem : after ≡ report_all cfg env name loop.reports admitted
    unfolding call_provider_with_resilience
    after_lem = ground (arith, answer_lem)

    after_quiet : loop.reports ≡ [] → after ≡ admitted
    unfolding report_all
    after_quiet h = after_lem ∙ ap (λ cs. report_all cfg env name cs admitted) h

    after_told : (c : Call) → loop.reports ≡ c ∷ [] → after ≡ (call admitted name c).0
    unfolding report_all
    after_told c h = after_lem ∙ ap (λ cs. report_all cfg env name cs admitted) h

    -- An open breaker whose cooldown has passed lets the call through as its probe. Behind the call
    -- the probe is still out exactly when the breaker was told nothing.
    pub probe_is_left : IsProbing (get_breaker after name) ↔ (loop.reports ≡ [])
    probe_is_left =
        elim (one-IsReport 0 loop.outcome loop.events loop.reports (loop-Ends cfg env)) [
          | inl quiet ↦ (
            λ _. quiet,
            λ _.
                subst (λ r. IsProbing (get_breaker r name)) (sym (after_quiet quiet))
                  admitted-IsProbing,
          )
          | inr (c, told, r) ↦ (
            λ p. absurd (
                step-IsProbing (get_breaker admitted name) c r admitted-IsProbing (
                  subst IsProbing (call_self admitted c)
                    (subst (λ r. IsProbing (get_breaker r name)) (after_told c told) p))),
            λ quiet. absurd (let e : c ∷ [] ≡ [] = sym told ∙ quiet in cc),
          )
        ]

    -- If the deadline has passed when the first attempt begins, the probe is never given back: the
    -- call raises, the breaker is told nothing, and it refuses every later request at any time, as
    -- long as nobody else reports on the provider.
    pub late_probe_blocks :
        attempt_timeout cfg.timeout_s cfg.deadline (env 0).started ≡ none
        → (ts : List ℕ)
        → (loop.outcome ≡ raised budget_exceeded 0)
          × (grants (get_breaker after name) (map allow ts) ≡ 0)
    late_probe_blocks late ts =
        let rounds : cfg.max_retries + 1 ≡ suc cfg.max_retries = omega arith in
        let e : loop ≡ stop cfg env budget_exceeded 0 [] [] =
          ap (λ n. attempts cfg env n 0) rounds ∙ attempts-late cfg env cfg.max_retries 0 late in
        let p = probe_is_left.1 (ap (λ r. r.reports) e) in
        (ap (λ r. r.outcome) e, probe_refuses (get_breaker after name) ts p.0 p.1)
