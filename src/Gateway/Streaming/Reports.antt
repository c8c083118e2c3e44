-- ===== src/Gateway/Streaming/Reports.antt =====
-- What the breakers are told when streamed answers end (gateway/app/main.py).
use polygate.Prelude.{
  ℕ, ◌+◌, ◌≡◌, refl, sym, ap, ◌∙◌, subst, ◌↔◌, inl, inr, Bool, true, false, Option, none, is_some,
  List, [], ◌∷◌, map, All, String, Text, str_eq, length, length-map, ◌≤◌, ◌<◌,
}
use polygate.Prelude.Floats.{Floats}
use polygate.Gateway.Breaker.Tripping.{IsInWindow, burst_trips}
use polygate.Gateway.Breaker.{ProviderBreaker, closed, open_, run, Call, failure}
use polygate.Gateway.Breaker.Registry.{Registry, get_breaker}
use polygate.Gateway.Chunks.{Json, Observation, new_observation, consume}
use polygate.Gateway.Decisions.{partial_error, DecisionRecord}
use polygate.Gateway.Streaming.{
  Arrival, generator_closed, Streamed, Closing, closed_or_suppressed, close_cancelled, report_of,
  is_visible, downstream,
}
use polygate.Gateway.Streaming.Endings.{
  downstream-on, downstream-broke, forward-outcome, Observed-cases,
}

-- A client that goes away while an event is sent to it: the events before, and the time.
pub record Departure : Type 0 where
  pub arrivals : List Arrival
  pub time : ℕ

module _ (fl : Floats) where
  -- What the end of a streamed answer has done to the breakers and the records.
  abbrev pub Reports : String → Closing → Registry → Registry × Option (DecisionRecord fl) → Type 0
  Reports name closed_or_suppressed reg (reg', saved) =
      ((get_breaker reg' name).half_open_probe_in_flight ≡ false)
      × (is_some saved ≡ true)
      × ((other : String)
          → str_eq name other ≡ false
          → get_breaker reg' other ≡ get_breaker reg other)
  Reports name close_cancelled reg (reg', saved) = (reg' ≡ reg) × (saved ≡ none)

module _ (parse : Text → Json) (include_usage : Bool) where
  closed-outcome :
      (rest : List Arrival) (o : Observation)
      → All (λ (a : Arrival). a.disconnected ≡ false) rest
      → (downstream parse include_usage rest generator_closed o).outcome ≡ partial_error
  unfolding downstream
  closed-outcome [] o h = refl
  closed-outcome (a ∷ rest) o (n, h) =
      elim (Observed-cases parse include_usage (consume parse a.event o)) [
        | inl (o', e) ↦
            ap (λ (s : Streamed). s.outcome)
              (downstream-on parse include_usage a rest generator_closed o o' n e)
            ∙ ((forward-outcome parse include_usage (is_visible parse include_usage a.event) a.event
                  (downstream parse include_usage rest generator_closed o')).0
                ∙ closed-outcome rest o' h)
        | inr (o', e) ↦
            ap (λ (s : Streamed). s.outcome)
              (downstream-broke parse include_usage a rest generator_closed o o' n e)
      ]

  -- What the breaker is told when the generator is closed.
  abbrev pub told : Departure → Call
  told d =
      report_of (downstream parse include_usage d.arrivals generator_closed new_observation).outcome
        d.time

  abbrev pub WasThere : Departure → Type 0
  WasThere d = All (λ (a : Arrival). a.disconnected ≡ false) d.arrivals

  told-failures :
      (ds : List Departure)
      → All WasThere ds
      → map told ds ≡ map failure (map (λ (d : Departure). d.time) ds)
  told-failures [] h = refl
  told-failures (d ∷ ds) (a, b) =
      λ i. report_of (closed-outcome d.arrivals new_observation a i) d.time ∷ told-failures ds b i

  -- When clients go away while an event is sent to them, so that their generators are closed, the
  -- breaker counts failures of the provider, whatever the provider sent: such departures in one window
  -- open a closed breaker exactly when they and its recorded failures together reach the threshold.
  pub departures_trip :
      (lo : ℕ) (b : ProviderBreaker) (ds : List Departure)
      → All WasThere ds
      → b.state ≡ closed
      → length b.failure_timestamps < b.failure_threshold
      → All (IsInWindow lo b.window_seconds) b.failure_timestamps
      → All (IsInWindow lo b.window_seconds) (map (λ (d : Departure). d.time) ds)
      → ((run b (map told ds)).state ≡ open_)
        ↔ (b.failure_threshold ≤ length b.failure_timestamps + length ds)
  departures_trip lo b ds w s l h q =
      let times = map (λ (d : Departure). d.time) ds in
      subst
        (λ cs.
          ((run b cs).state ≡ open_)
          ↔ (b.failure_threshold ≤ length b.failure_timestamps + length ds))
        (sym (told-failures ds w))
        (subst
          (λ n.
            ((run b (map failure times)).state ≡ open_)
            ↔ (b.failure_threshold ≤ length b.failure_timestamps + n))
          (length-map (λ (d : Departure). d.time) ds) (burst_trips lo b times s l h q))
