-- ===== src/Gateway/Breaker/Runs.antt =====
-- Runs of a breaker: what every sequence of calls keeps, and how long an open breaker refuses.
use polygate.Prelude.{
  ℕ, ◌+◌, ◌≤◌, ◌<◌, ◌≡◌, ◌≢◌, refl, sym, ◌∙◌, subst, ◌↔◌, ◌⊎◌, inl, inr, Bool, true, false, Option,
  none, some, List, [], ◌∷◌, ◌++◌, arith, All, map, keep, length, ltb, leb, leb→le, if◌then◌else◌,
  Bool-cases, Option-cases,
}
use polygate.Gateway.Breaker.{
  State, closed, open_, half_open, ProviderBreaker, Call, allow, success, failure, cancelled, step,
  run, cooled_down, allow_request, admit_probe, record_success, record_failure, record_cancelled,
  prune_old_failures,
}
use polygate.Gateway.Breaker.Invariant.{IsValid, step-IsValid}

-- The cooldown has passed since the breaker opened.
abbrev pub HasCooledDown : ℕ → ProviderBreaker → Type 0
HasCooledDown now b = (t : ℕ) × (b.opened_at ≡ some t) × (t + b.cooldown_seconds ≤ now)

cooled : (now : ℕ) (b : ProviderBreaker) → cooled_down now b ≡ true → HasCooledDown now b
cooled now b h = elim (Option-cases b.opened_at) [
  | inl e ↦ ground arith
  | inr (t, e) ↦ (t, e, ground arith)
]

-- How many of the failures are younger than the window.
abbrev pub recent : ℕ → ℕ → List ℕ → ℕ
recent now window [] = 0
recent now window (t ∷ ts) =
    if ltb now (t + window) then recent now window ts + 1 else recent now window ts

-- The recorded failures in the window and one more at `now` reach the threshold.
abbrev pub ReachesThreshold : ℕ → ProviderBreaker → Type 0
ReachesThreshold now b =
    b.failure_threshold
    ≤ recent now b.window_seconds b.failure_timestamps + recent now b.window_seconds (now ∷ [])

-- The transitions of a breaker: the call, and the state that follows. Only a success closes it; only a
-- failure or a cancelled probe opens it; only a request after the cooldown probes it.
pub data Moves (b : ProviderBreaker) : Call → State → Type 0 where
  recovers : Moves b success closed
  lets_pass : {now : ℕ} → b.state ≡ closed → Moves b (allow now) closed
  probes : {now : ℕ} → b.state ≡ open_ → HasCooledDown now b → Moves b (allow now) half_open
  waits : {now : ℕ} → b.state ≡ open_ → ¬ HasCooledDown now b → Moves b (allow now) open_
  is_probed : {now : ℕ} → b.state ≡ half_open → Moves b (allow now) half_open
  trips : {now : ℕ} → b.state ≡ closed → ReachesThreshold now b → Moves b (failure now) open_
  counts : {now : ℕ} → b.state ≡ closed → ¬ ReachesThreshold now b → Moves b (failure now) closed
  stays_open : {now : ℕ} → b.state ≡ open_ → Moves b (failure now) open_
  fails_probe : {now : ℕ} → b.state ≡ half_open → Moves b (failure now) open_
  drops_probe : {now : ℕ} → b.state ≡ half_open → Moves b (cancelled now) open_
  ignores : {now : ℕ} → b.state ≢ half_open → Moves b (cancelled now) b.state

recent-keep :
    (now window : ℕ) (ts : List ℕ)
    → length (keep (λ t. ltb now (t + window)) ts) ≡ recent now window ts
recent-keep now window [] = refl
recent-keep now window (t ∷ ts) = elim (Bool-cases (ltb now (t + window))) [
  | inl y ↦ let e = recent-keep now window ts in rw y (omega (arith, e))
  | inr n ↦ rw n (recent-keep now window ts)
]

recent-append :
    (now window t : ℕ) (ts : List ℕ)
    → recent now window (ts ++ t ∷ []) ≡ recent now window ts + recent now window (t ∷ [])
recent-append now window t [] = omega arith
recent-append now window t (u ∷ ts) =
    let e = recent-append now window t ts in
    elim (Bool-cases (ltb now (u + window))) [
      | inl y ↦ rw (y, recent) (rw e (omega arith))
      | inr n ↦ rw (n, recent) e
    ]

-- What a failure counts.
counted :
    (now : ℕ) (b : ProviderBreaker)
    → length (keep (λ t. ltb now (t + b.window_seconds)) (b.failure_timestamps ++ now ∷ []))
      ≡ recent now b.window_seconds b.failure_timestamps + recent now b.window_seconds (now ∷ [])
counted now b =
    recent-keep now b.window_seconds (b.failure_timestamps ++ now ∷ [])
    ∙ recent-append now b.window_seconds now b.failure_timestamps

State-cases : (s : State) → (s ≡ closed) ⊎ (s ≡ open_) ⊎ (s ≡ half_open)
State-cases closed = inl refl
State-cases open_ = inr (inl refl)
State-cases half_open = inr (inr refl)

-- The transitions name no other state.
moved : (b : ProviderBreaker) (c : Call) (s : State) → Moves b c s → (step b c).0.state ≡ s
unfolding step allow_request admit_probe record_success record_failure record_cancelled
    prune_old_failures
moved b success s recovers = refl
moved b (allow now) s (lets_pass e) = ground arith
moved b (allow now) s (probes e (t, o, l)) = ground arith
moved b (allow now) s (waits e n) = elim (Bool-cases (cooled_down now b)) [
  | inl y ↦ absurd (n (cooled now b y))
  | inr x ↦ ground arith
]
moved b (allow now) s (is_probed e) = ground arith
moved b (failure now) s (trips e r) = ground (arith, counted now b)
moved b (failure now) s (counts e n) =
    elim (Bool-cases (
      leb b.failure_threshold (
        recent now b.window_seconds b.failure_timestamps
        + recent now b.window_seconds (now ∷ [])))) [
          | inl y ↦ absurd (n (leb→le _ _ y))
          | inr x ↦ ground (arith, counted now b)
        ]
moved b (failure now) s (stays_open e) = ground arith
moved b (failure now) s (fails_probe e) = ground arith
moved b (cancelled now) s (drops_probe e) = ground arith
moved b (cancelled now) s (ignores n) = ground arith

-- Every call has a transition.
some_move : (b : ProviderBreaker) (c : Call) → (s : State) × Moves b c s
some_move b success = (closed, recovers)
some_move b (allow now) = elim (State-cases b.state) [
  | inl e ↦ (closed, lets_pass e)
  | inr (inl e) ↦ elim (Bool-cases (cooled_down now b)) [
    | inl y ↦ (half_open, probes e (cooled now b y))
    | inr n ↦ (open_, waits e (λ h. let (t, o, l) = h in ground arith))
  ]
  | inr (inr e) ↦ (half_open, is_probed e)
]
some_move b (failure now) = elim (State-cases b.state) [
  | inl e ↦
      elim (Bool-cases (
        leb b.failure_threshold (
          recent now b.window_seconds b.failure_timestamps
          + recent now b.window_seconds (now ∷ [])))) [
            | inl y ↦ (open_, trips e (leb→le _ _ y))
            | inr n ↦ (closed, counts e (λ h. ground arith))
          ]
  | inr (inl e) ↦ (open_, stays_open e)
  | inr (inr e) ↦ (open_, fails_probe e)
]
some_move b (cancelled now) = elim (State-cases b.state) [
  | inl e ↦ (b.state, ignores (λ h. cc))
  | inr (inl e) ↦ (b.state, ignores (λ h. cc))
  | inr (inr e) ↦ (open_, drops_probe e)
]

-- Every call moves a breaker as the transitions say, which name one state for each call: a success
-- closes it; a failure opens a closed one exactly when the failures in the window reach the threshold,
-- and one that is probed in any case; a cancelled probe opens it again; a request takes an open one to
-- half open exactly when its cooldown has passed; and nothing else changes the state.
pub step-Moves :
    (b : ProviderBreaker) (c : Call) (s : State) → Moves b c s ↔ ((step b c).0.state ≡ s)
step-Moves b c s =
    (moved b c s, λ e. let (t, m) = some_move b c in subst (Moves b c) (sym (moved b c t m) ∙ e) m)

-- Whatever calls come, a breaker for which the invariant holds keeps it.
pub run-IsValid : (b : ProviderBreaker) (cs : List Call) → IsValid b → IsValid (run b cs)
unfolding run
run-IsValid b [] h = h
run-IsValid b (c ∷ cs) h = run-IsValid (step b c).0 cs (step-IsValid b c h)

-- How many of the calls are requests that the breaker lets through.
abbrev pub granted : Option Bool → ℕ
granted none = 0
granted (some false) = 0
granted (some true) = 1

unfoldable pub grants : ProviderBreaker → List Call → ℕ
grants b [] = 0
grants b (c ∷ cs) = granted (step b c).1 + grants (step b c).0 cs

step_exclusive :
    (b : ProviderBreaker) (t : ℕ)
    → b.state ≡ half_open
    → b.half_open_probe_in_flight ≡ true
    → step b (allow t) ≡ (b, some false)
unfolding step
step_exclusive b t s p = ground arith

pub probe_refuses :
    (b : ProviderBreaker) (ts : List ℕ)
    → b.state ≡ half_open
    → b.half_open_probe_in_flight ≡ true
    → grants b (map allow ts) ≡ 0
unfolding grants
probe_refuses b [] s p = refl
probe_refuses b (t ∷ ts) s p = rw (step_exclusive b t s p) (omega (arith, probe_refuses b ts s p))

step_not_closed :
    (b : ProviderBreaker) (t : ℕ)
    → b.state ≢ closed
    → let (b', answer) = step b (allow t) in
      ((granted answer ≡ 0) × (b'.state ≢ closed))
      ⊎ ((granted answer ≡ 1) × (b'.state ≡ half_open) × (b'.half_open_probe_in_flight ≡ true))
unfolding step
step_not_closed b t s = ground arith

-- Of any requests that meet a breaker that is not closed, at any times, at most one goes through
-- until an outcome is reported.
pub grants-le-one :
    (b : ProviderBreaker) (ts : List ℕ) → b.state ≢ closed → grants b (map allow ts) ≤ 1
unfolding grants
grants-le-one b [] s = omega arith
grants-le-one b (t ∷ ts) s = elim (step_not_closed b t s) [
  | inl (e, s') ↦ omega (arith, grants-le-one (step b (allow t)).0 ts s')
  | inr (e, s', p) ↦ omega (arith, probe_refuses (step b (allow t)).0 ts s' p)
]

-- A call at a time in the cooldown that runs up to `limit`, and no report of a success.
abbrev pub IsInCooldown : ℕ → ℕ → Call → Type 0
IsInCooldown limit cooldown (allow now) = now < limit
IsInCooldown limit cooldown success = ⊥
IsInCooldown limit cooldown (failure now) = (now < limit) × (limit ≤ now + cooldown)
IsInCooldown limit cooldown (cancelled now) = now < limit

abbrev pub EndsFrom : ℕ → ℕ → Option ℕ → Type 0
EndsFrom limit cooldown none = ⊥
EndsFrom limit cooldown (some t) = limit ≤ t + cooldown

-- The breaker is open, and its cooldown ends at `limit` or later.
abbrev pub IsOpenUntil : ℕ → ProviderBreaker → Type 0
IsOpenUntil limit b = (b.state ≡ open_) × EndsFrom limit b.cooldown_seconds b.opened_at

step_open :
    (limit cooldown : ℕ) (b : ProviderBreaker) (c : Call)
    → b.cooldown_seconds ≡ cooldown
    → IsOpenUntil limit b
    → IsInCooldown limit cooldown c
    → (granted (step b c).1 ≡ 0)
      × ((step b c).0.cooldown_seconds ≡ cooldown)
      × IsOpenUntil limit (step b c).0
unfolding step
step_open limit cooldown b (allow now) e h q = ground arith
step_open limit cooldown b success e h q = absurd q
step_open limit cooldown b (failure now) e h q = ground arith
step_open limit cooldown b (cancelled now) e h q = ground arith

-- An open breaker lets nothing through before its cooldown has passed, whatever requests and
-- failures it meets in between.
pub grants-open :
    (limit cooldown : ℕ) (b : ProviderBreaker) (cs : List Call)
    → b.cooldown_seconds ≡ cooldown
    → IsOpenUntil limit b
    → All (IsInCooldown limit cooldown) cs
    → (grants b cs ≡ 0) × ((run b cs).state ≡ open_)
unfolding grants run
grants-open limit cooldown b [] e h q = (refl, h.0)
grants-open limit cooldown b (c ∷ cs) e h q =
    let (g, e', h') = step_open limit cooldown b c e h q.0 in
    let (gs, s) = grants-open limit cooldown (step b c).0 cs e' h' q.1 in (omega (arith, g, gs), s)
