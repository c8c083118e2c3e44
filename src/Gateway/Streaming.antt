-- ===== src/Gateway/Streaming.antt =====
-- The body of a streamed answer and its end: `downstream` in `_stream_response` (gateway/app/main.py). What
-- the client and the provider do is given: the events that come, whether the client has gone when each
-- comes, and how the iteration ends.
pub mod Endings
pub mod Reports
mod Tests
use polygate.Prelude.{
  ℕ, Bool, true, false, not, ◌&&◌, ◌||◌, Option, none, some, List, [], ◌∷◌, ◌++◌, String, Text,
  if◌then◌else◌, is_some, length, ◌-◌,
}
use polygate.Prelude.Floats.{Floats}
use polygate.Gateway.Breaker.{Call, failure}
use polygate.Gateway.Breaker.Registry.{Registry, call}
use polygate.Gateway.Router.{Provider, estimate_cost}
use polygate.Gateway.Chunks.{
  Json, Observation, new_observation, Observed, went_on, broke, consume, is_usage_only_event,
}
use polygate.Gateway.Decisions.{
  Outcome, success, cancelled, partial_error, cache_hit, DecisionCard, DecisionRecord,
  decision_record, first_tried, failover_from,
}

-- An event, and what `request.is_disconnected()` answers when it has come.
pub record Arrival : Type 0 where
  pub event : Text
  pub disconnected : Bool

-- How the iteration ends: the provider's stream ends or raises, or the task is cancelled, or the
-- generator is closed at a `yield`, which raises `GeneratorExit` there.
pub data Finish : Type 0 where
  ended raised_error task_cancelled generator_closed : Finish

-- What was forwarded, what was observed and the outcome.
pub record Streamed : Type 0 where
  pub forwarded : List Text
  pub observation : Observation
  pub outcome : Outcome

abbrev pub stop_with : Outcome → Observation → Streamed
stop_with outcome o = record { forwarded = []; observation = o; outcome = outcome }

-- The `else` of the loop: a success needs the end mark and a finish reason.
abbrev pub outcome_at_end : Observation → Outcome
outcome_at_end o = if o.saw_done && is_some o.finish_reason then success else partial_error

abbrev pub outcome_of : Finish → Observation → Outcome
outcome_of ended o = outcome_at_end o
outcome_of raised_error o = partial_error
outcome_of task_cancelled o = cancelled
outcome_of generator_closed o = partial_error

abbrev pub forward : Bool → Text → Streamed → Streamed
forward true event s = record s { forwarded = event ∷ s.forwarded }
forward false event s = s

-- What the breaker is told at the end.
abbrev pub report_of : Outcome → ℕ → Call
report_of success now = Call.success
report_of partial_error now = failure now
report_of cancelled now = Call.cancelled now
report_of cache_hit now = Call.cancelled now

module _ (parse : Text → Json) (include_usage : Bool) where
  -- `include_usage or not _is_usage_only_event(event)`
  abbrev pub is_visible : Text → Bool
  is_visible event = include_usage || not (is_usage_only_event parse event)

  -- The loop over the events.
  unfoldable pub downstream : List Arrival → Finish → Observation → Streamed
  downstream [] finish o = stop_with (outcome_of finish o) o
  downstream (a ∷ rest) finish o = elim a.disconnected [
    | true ↦ stop_with cancelled o
    | false ↦ elim (consume parse a.event o) [
      | broke o' ↦ stop_with partial_error o'
      | went_on o' ↦ forward (is_visible a.event) a.event (downstream rest finish o')
    ]
  ]

-- How `await opened.aclose()` ends: it returns or raises an `Exception`, which is suppressed, or it is
-- cancelled; `CancelledError` is not an `Exception`, and goes through.
pub data Closing : Type 0 where
  closed_or_suppressed close_cancelled : Closing

module _ (fl : Floats) where
  -- The `finally` of `downstream`: the upstream is closed, and unless that is cancelled, the breaker is
  -- told and the decision is recorded.
  unfoldable pub finish_stream :
      Provider fl
      → List String
      → String
      → ℕ
      → String
      → ℕ
      → ℕ
      → ℕ
      → Closing
      → Streamed
      → Registry
      → Registry × Option (DecisionRecord fl)
  finish_stream chosen tried reason retries request_id latency now ttl close_cancelled s reg =
      (reg, none)
  finish_stream chosen tried reason retries request_id latency now ttl closed_or_suppressed s reg =
      (
        (call reg chosen.name (report_of s.outcome now)).0,
        some (
            decision_record fl
              (record {
                chosen_provider = chosen.name;
                reason = reason;
                cache_hit = false;
                cost_estimate_usd =
                    estimate_cost fl chosen s.observation.input_tokens s.observation.output_tokens;
                latency_ms = latency;
                tokens = record {
                  input = s.observation.input_tokens;
                  output = s.observation.output_tokens;
                };
                retries = retries;
                failover_from = failover_from tried;
                request_id = request_id;
              })
              s.outcome (first_tried tried) true (length tried - 1) now ttl),
      )
