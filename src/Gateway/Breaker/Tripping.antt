-- ===== src/Gateway/Breaker/Tripping.antt =====
-- When failures open a closed breaker: those of one window count, older ones do not.
use polygate.Prelude.{
  ℕ, ◌+◌, ◌≤◌, ◌<◌, ◌≡◌, refl, ap, ◌↔◌, some, List, [], ◌∷◌, ◌++◌, arith, length, All, map, keep,
  ltb, leb, leb→le, if◌then◌else◌, Bool-cases, inl, inr,
}
use polygate.Gateway.Breaker.{closed, open_, ProviderBreaker, record_failure, failure, step, run}

module _ (now window : ℕ) where
  -- Nothing is pruned where every failure is recent, and everything where none is.
  keep_recent :
      (ts : List ℕ)
      → 0 < window
      → All (λ t. now < t + window) ts
      → keep (λ t. ltb now (t + window)) (ts ++ now ∷ []) ≡ ts ++ now ∷ []
  keep_recent [] w h = ground arith
  keep_recent (t ∷ ts) w h = ground (arith, keep_recent ts w h.1)

  keep_old :
      (ts : List ℕ)
      → 0 < window
      → All (λ t. t + window ≤ now) ts
      → keep (λ t. ltb now (t + window)) (ts ++ now ∷ []) ≡ now ∷ []
  keep_old [] w h = ground arith
  keep_old (t ∷ ts) w h = ground (arith, keep_old ts w h.1)

length-snoc : (t : ℕ) (ts : List ℕ) → length (ts ++ t ∷ []) ≡ length ts + 1
length-snoc t [] = omega arith
length-snoc t (x ∷ ts) = omega (arith, length-snoc t ts)

module _ (lo window : ℕ) where
  -- The times of one window.
  abbrev pub IsInWindow : ℕ → Type 0
  IsInWindow t = (lo ≤ t) × (t < lo + window)

  recent_of_window :
      (now : ℕ) (ts : List ℕ) → IsInWindow now → All IsInWindow ts → All (λ t. now < t + window) ts
  recent_of_window now [] n h = tt
  recent_of_window now (t ∷ ts) n h = (omega arith, recent_of_window now ts n h.1)

  All-snoc :
      (t : ℕ) (ts : List ℕ) → All IsInWindow ts → IsInWindow t → All IsInWindow (ts ++ t ∷ [])
  All-snoc t [] h k = (k, tt)
  All-snoc t (x ∷ ts) h k = (h.0, All-snoc t ts h.1 k)

open_stays_open :
    (b : ProviderBreaker) (ts : List ℕ) → b.state ≡ open_ → (run b (map failure ts)).state ≡ open_
unfolding run step
open_stays_open b [] h = h
open_stays_open b (t ∷ ts) h =
    open_stays_open (record_failure t b) ts (unfold record_failure in ground arith)

module _ (lo : ℕ) where
  -- A closed breaker, after a failure in the window of all that it remembers.
  after_failure : ℕ → ProviderBreaker → ProviderBreaker
  after_failure now b =
      let c = record b { failure_timestamps = b.failure_timestamps ++ now ∷ [] } in
      if leb b.failure_threshold (length b.failure_timestamps + 1)
      then record c { state = open_; opened_at = some now }
      else c

  record_failure-closed :
      (now : ℕ) (b : ProviderBreaker)
      → b.state ≡ closed
      → IsInWindow lo b.window_seconds now
      → All (IsInWindow lo b.window_seconds) b.failure_timestamps
      → record_failure now b ≡ after_failure now b
  unfolding record_failure after_failure
  record_failure-closed now b s n h = ground (
    arith,
    keep_recent now b.window_seconds b.failure_timestamps (omega arith)
        (recent_of_window lo b.window_seconds now b.failure_timestamps n h),
    length-snoc now b.failure_timestamps,
  )

  run-after_failure :
      (t : ℕ) (b : ProviderBreaker) (ts : List ℕ)
      → b.state ≡ closed
      → IsInWindow lo b.window_seconds t
      → All (IsInWindow lo b.window_seconds) b.failure_timestamps
      → run b (map failure (t ∷ ts)) ≡ run (after_failure t b) (map failure ts)
  unfolding run step
  run-after_failure t b ts s n h =
      ap (λ c. run c (map failure ts)) (record_failure-closed t b s n h)

  -- Failures that all fall into one window open a closed breaker exactly when the failures that
  -- it had recorded in that window and the new ones together reach the threshold.
  pub burst_trips :
      (b : ProviderBreaker) (ts : List ℕ)
      → b.state ≡ closed
      → length b.failure_timestamps < b.failure_threshold
      → All (IsInWindow lo b.window_seconds) b.failure_timestamps
      → All (IsInWindow lo b.window_seconds) ts
      → ((run b (map failure ts)).state ≡ open_)
        ↔ (b.failure_threshold ≤ length b.failure_timestamps + length ts)
  unfolding after_failure
  burst_trips b [] s l h q = (λ o. unfold run in cc, λ p. absurd (omega arith))
  burst_trips b (t ∷ ts) s l h q =
      elim (Bool-cases (leb b.failure_threshold (length b.failure_timestamps + 1))) [
        | inl e ↦ (
          λ _. omega (arith, leb→le _ _ e),
          λ _. rw (run-after_failure t b ts s q.0 h, e) (open_stays_open _ ts refl),
        )
        | inr e ↦
            let c = record b { failure_timestamps = b.failure_timestamps ++ t ∷ [] } in
            let rest =
              burst_trips c ts s (ground (arith, length-snoc t b.failure_timestamps))
                (All-snoc lo b.window_seconds t b.failure_timestamps h q.0) q.1 in
            let n = length-snoc t b.failure_timestamps in
            rw (run-after_failure t b ts s q.0 h, e)
              (λ o. omega (arith, rest.0 o), λ p. rest.1 (omega arith))
      ]
