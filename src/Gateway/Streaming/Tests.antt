-- ===== src/Gateway/Streaming/Tests.antt =====
-- Streamed answers at concrete events (gateway/app/main.py, gateway/app/adapters.py).
use polygate.Prelude.{
  ◌+◌, ◌≤◌, ◌≡◌, refl, ◌↔◌, false, true, none, some, List, [], ◌∷◌, map, lookup, All, IsLine,
  String, Text, codes, text_eq, arith, length, is_line_break, if◌then◌else◌, splitlines, strip,
}
use polygate.Gateway.Breaker.{ProviderBreaker, closed, half_open, open_, run}
use polygate.Gateway.Breaker.Registry.{Registry, default_registry, get_breaker}
use polygate.Gateway.Samples.{fixed, flash}
use polygate.Gateway.Sse.{data_event, event_data, sse_data_values, iter_sse_events}
use polygate.Gateway.Chunks.{
  Json, malformed, object, Chunk, no_usage, usage, count, choices, no_choices, choice,
  new_observation, consume, is_usage_only_event, is_completion_event,
}
use polygate.Gateway.Decisions.{success, cancelled}
use polygate.Gateway.Prefetch.{
  Upstream, finished, opened, open_provider_stream, Keeps, open_provider_stream-Keeps,
}
use polygate.Gateway.Streaming.{
  Arrival, ended, Streamed, close_cancelled, downstream, finish_stream,
}
use polygate.Gateway.Streaming.Endings.{IsComplete, success_iff}
use polygate.Gateway.Streaming.Reports.{Departure, told, Reports, departures_trip}

abbrev chunk : Chunk
chunk = record { has_error = false; usage = no_usage; choices = choices (choice none) [] }

-- Four texts that the parser knows.
abbrev parse : Text → Json
parse t =
    if text_eq t (codes "a")
    then object chunk
    else if text_eq t (codes "stop")
    then object (record chunk { choices = choices (choice (some "stop")) [] })
    else if text_eq t (codes "usage")
    then object (record chunk { usage = usage (count 4) (count 2); choices = no_choices })
    else malformed

abbrev arrives : String → Arrival
arrives s = record { event = data_event (codes s); disconnected = false }

abbrev arrivals : List Arrival
arrivals = arrives "a" ∷ arrives "stop" ∷ arrives "usage" ∷ arrives "[DONE]" ∷ []

-- A whole answer: the client, that did not ask for the usage, does not see it.
whole_answer : downstream parse false arrivals ended new_observation ≡ record {
  forwarded = data_event (codes "a") ∷ data_event (codes "stop") ∷ data_event (codes "[DONE]") ∷ [];
  observation = record {
    input_tokens = 4;
    output_tokens = 2;
    finish_reason = some "stop";
    saw_done = true;
  };
  outcome = success;
}
unfolding downstream consume is_usage_only_event splitlines strip sse_data_values
whole_answer = refl

success_iff_example :
    ((downstream parse false arrivals ended new_observation).outcome ≡ success)
    ↔ IsComplete parse false arrivals ended new_observation
success_iff_example = success_iff parse false arrivals ended new_observation

abbrev streamed : Streamed
streamed = record { forwarded = []; observation = new_observation; outcome = cancelled }

-- A probe of the provider is in flight.
abbrev probing : Registry
probing = record default_registry {
  breakers =
      (
        "deepseek-flash",
        record {
          failure_threshold = 5;
          window_seconds = 60;
          cooldown_seconds = 30;
          state = half_open;
          failure_timestamps = 1 ∷ 2 ∷ 3 ∷ 4 ∷ 5 ∷ [];
          opened_at = some 5;
          half_open_probe_in_flight = true;
        },
      )
      ∷ [];
}

-- A cancelled closing leaves the probe in flight.
probe_leaks :
    (get_breaker
      (finish_stream fixed flash
        ("deepseek-flash" ∷ [])
        "cheapest"
        0
        "req_1"
        12
        40
        600
        close_cancelled
        streamed
        probing).0
      "deepseek-flash").half_open_probe_in_flight
    ≡ true
unfolding finish_stream get_breaker lookup
probe_leaks = refl

abbrev fresh : ProviderBreaker
fresh = record {
  failure_threshold = 2;
  window_seconds = 60;
  cooldown_seconds = 30;
  state = closed;
  failure_timestamps = [];
  opened_at = none;
  half_open_probe_in_flight = false;
}

abbrev departures : List Departure
departures =
    record { arrivals = arrives "a" ∷ []; time = 100 } ∷ record { arrivals = []; time = 110 } ∷ []

departures_trip_example :
    ((run fresh (map (told parse false) departures)).state ≡ open_) ↔ (2 ≤ 0 + length departures)
departures_trip_example =
    departures_trip parse false 100 fresh departures ((refl, tt), (tt, tt)) refl (omega arith) tt
      (omega arith)

abbrev upstream : Upstream
upstream = record {
  error_status = none;
  is_event_stream = true;
  lines = codes ":" ∷ [] ∷ codes "data: a" ∷ [] ∷ codes "data: [DONE]" ∷ [];
  ending = finished;
}

upstream-AreLines : All IsLine upstream.lines
unfolding is_line_break
upstream-AreLines = ground arith

opens :
    open_provider_stream parse upstream
    ≡ opened (codes ":\n\ndata: a\n\n") (codes "data: [DONE]\n\n" ∷ [])
unfolding open_provider_stream iter_sse_events is_completion_event splitlines strip event_data
opens = refl

open_provider_stream-Keeps_example : Keeps parse upstream (open_provider_stream parse upstream)
open_provider_stream-Keeps_example = open_provider_stream-Keeps parse upstream upstream-AreLines
