-- ===== src/Gateway/Retry/Deadline.antt =====
-- Every request and every sleep of the retry loop fits the deadline.
use polygate.Prelude.{
  ℕ, zero, suc, ◌+◌, ◌≤◌, ◌<◌, ◌≡◌, subst, sym, inl, inr, true, not, ◌||◌, some, arith, ◌==◌,
  Bool-cases, Option-cases, All,
}
use polygate.Gateway.Retry.{
  Failure, Attempt, Config, Event, requested, slept, Run, after_failure, attempts,
  is_transient_error, attempt_timeout, delay_fits, RetryReason, retry_reason,
}
use polygate.Gateway.Retry.Attempts.{
  after_failure-last, after_failure-retry, after_failure-late, attempts-late, attempts-answered,
  attempts-failed, answer_cases, wait,
}

-- A request begins before the deadline, and its timeout is no longer than the configured one nor
-- than what is left; a sleep ends before the deadline.
abbrev pub FitsIn : ℕ → ℕ → Event → Type 0
FitsIn timeout_s deadline (requested now t) =
    (now < deadline) × (now + t ≤ deadline) × (t ≤ timeout_s)
FitsIn timeout_s deadline (slept now delay why) = now + delay < deadline

attempt_timeout-FitsIn :
    (timeout_s deadline now : ℕ) {t : ℕ}
    → attempt_timeout timeout_s (some deadline) now ≡ some t
    → FitsIn timeout_s deadline (requested now t)
unfolding attempt_timeout
attempt_timeout-FitsIn timeout_s deadline now h = ground arith

delay_fits-FitsIn :
    (timeout_s deadline now delay : ℕ) (why : RetryReason)
    → delay_fits delay (some deadline) now ≡ true
    → FitsIn timeout_s deadline (slept now delay why)
unfolding delay_fits
delay_fits-FitsIn timeout_s deadline now delay why h = ground arith

module _ (cfg : Config) (env : ℕ → Attempt) (deadline : ℕ)
    (set : cfg.deadline ≡ some deadline) where
  abbrev InTime : Run → Type 0
  InTime r = All (FitsIn cfg.timeout_s deadline) r.events

  after_failure-InTime :
      (a t : ℕ) (e : Failure) (rest : Run)
      → FitsIn cfg.timeout_s deadline (requested (env a).started t)
      → InTime rest
      → InTime (after_failure cfg env a (requested (env a).started t) e rest)
  after_failure-InTime a t e rest f h =
      elim (Bool-cases (not (is_transient_error e) || a == cfg.max_retries)) [
        | inl last ↦ subst InTime (sym (after_failure-last cfg env a t e rest last)) (f, tt)
        | inr more ↦
            elim (Bool-cases (delay_fits (wait cfg env a t e rest) cfg.deadline (env a).ended)) [
              | inl fits ↦ subst InTime (sym (after_failure-retry cfg env a t e rest more fits)) (
                f,
                (
                  delay_fits-FitsIn cfg.timeout_s deadline (env a).ended _ (retry_reason e) (
                      subst (λ d. delay_fits (wait cfg env a t e rest) d (env a).ended ≡ true) set
                        fits),
                  h,
                ),
              )
              | inr late ↦
                  subst InTime (sym (after_failure-late cfg env a t e rest more late)) (f, tt)
            ]
      ]

  attempts-InTime : (rounds a : ℕ) → InTime (attempts cfg env rounds a)
  attempts-InTime zero a = unfold attempts in tt
  attempts-InTime (suc rounds) a =
      elim (Option-cases (attempt_timeout cfg.timeout_s cfg.deadline (env a).started)) [
        | inl late ↦ subst InTime (sym (attempts-late cfg env rounds a late)) tt
        | inr (t, ontime) ↦
            let f =
              attempt_timeout-FitsIn cfg.timeout_s deadline (env a).started (
                subst (λ d. attempt_timeout cfg.timeout_s d (env a).started ≡ some t) set ontime) in
            elim (answer_cases cfg env (env a).answer) [
              | inl good ↦
                  subst InTime (sym (attempts-answered cfg env rounds a t ontime good)) (f, tt)
              | inr (e, bad) ↦
                  subst InTime (sym (attempts-failed cfg env rounds a t e ontime bad))
                    (after_failure-InTime a t e _ f (attempts-InTime rounds (a + 1)))
            ]
      ]

  -- Under a deadline every request of the loop begins before it, with a timeout that ends by it, and
  -- every sleep ends before it.
  pub loop-InTime : InTime (attempts cfg env (cfg.max_retries + 1) 0)
  loop-InTime = attempts-InTime (cfg.max_retries + 1) 0
