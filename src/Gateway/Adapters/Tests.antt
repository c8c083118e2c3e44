-- ===== src/Gateway/Adapters/Tests.antt =====
-- A payload and a decision record at concrete inputs (gateway/app/adapters.py, gateway/app/decisions.py).
use polygate.Prelude.{◌≡◌, refl, false, true, none, some, [], ◌∷◌, codes, lookup, insert, erase}
use polygate.Gateway.Samples.{fixed}
use polygate.Gateway.Requests.{system, developer, user, plain, blocks, Message}
use polygate.Gateway.Adapters.{
  text, flag, messages, Body, Target, defaults, update, build_provider_payload, base,
  normalize_messages, sent_message, adapt_store, adapt_stream, options,
}
use polygate.Gateway.Adapters.Payload.{Sends, build_provider_payload-Sends}
use polygate.Gateway.Decisions.{DecisionCard}

abbrev develops : Message
develops = record {
  role = developer;
  content = some (plain (codes "be brief"));
  name = none;
  tool_calls = none;
  tool_call_id = none;
  extra = [];
}

abbrev asks : Message
asks = record develops {
  role = user;
  content = some (
      blocks (
        record { type = some "text"; text = some (codes "a"); raw = "{}" }
        ∷ record { type = some "text"; text = some (codes "b"); raw = "{}" }
        ∷ []));
}

-- A provider that takes neither developer roles nor blocks, and stores nothing.
abbrev target : Target
target = record {
  model = some "flash-v1";
  request_defaults = defaults (("top_p", text "1") ∷ []);
  capabilities = [];
}

abbrev payload : Body
payload =
    ("model", text "auto")
    ∷ ("messages", messages (develops ∷ asks ∷ []))
    ∷ ("stream", flag true)
    ∷ ("store", flag false)
    ∷ []

abbrev sent : Body
sent =
    ("top_p", text "1")
    ∷ ("model", text "flash-v1")
    ∷ (
      "messages",
      messages (
          record develops { role = system }
          ∷ record asks { content = some (plain (codes "ab")) }
          ∷ []),
    )
    ∷ ("stream", flag true)
    ∷ ("stream_options", options (("include_usage", "true") ∷ []))
    ∷ []

sends : build_provider_payload target payload ≡ some sent
unfolding build_provider_payload base normalize_messages sent_message adapt_store adapt_stream
    update lookup insert erase
sends = refl

build_provider_payload-Sends_example : Sends target (update (("top_p", text "1") ∷ []) payload) sent
build_provider_payload-Sends_example = build_provider_payload-Sends target payload sent sends

abbrev card : DecisionCard fixed
card = record {
  chosen_provider = "mock-a";
  reason = "cheapest";
  cache_hit = false;
  cost_estimate_usd = 14000;
  latency_ms = 12;
  tokens = record { input = 4; output = 2 };
  retries = 1;
  failover_from = some "deepseek-flash";
  request_id = "req_0123456789abcdef0123456789abcdef";
}
