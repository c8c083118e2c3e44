-- ===== src/Gateway/Chat/Tests.antt =====
-- The chat handler and the cache at concrete requests (gateway/app/main.py, gateway/app/cache.py).
use polygate.Prelude.{
  ℕ, zero, suc, ◌≡◌, ◌⊎◌, inl, inr, lookup, refl, true, false, none, some, List, [], ◌∷◌, String,
  Text, codes, map, insert, strip,
}
use polygate.Gateway.Breaker.{step, new_breaker}
use polygate.Gateway.Breaker.Registry.{call, get_breaker, default_registry, health_snapshot}
use polygate.Gateway.Router.{Privacy, Quality}
use polygate.Gateway.Retry.{
  answered, failed, transport, Attempt, Config, attempts, attempt_timeout,
  call_provider_with_resilience, report_all, after_failure,
}
use polygate.Gateway.Samples.{fixed, mock, all_three, default_policy, wish, hello, routing}
use polygate.Gateway.Failover.{
  call_non_stream, failover, next_provider, forced_provider, select, request_budget_exhausted,
}
use polygate.Gateway.Requests.{
  user, plain, Message, auto, GatewayRequest, bypass_cache, required_capabilities,
}
use polygate.Gateway.CacheKey.{show_nat, cache_key, escape}
use polygate.Gateway.CacheKey.Decimals.{show_nat-HasNoBar, show_nat-injective}
use polygate.Gateway.Chat.{World, from_cache, from_provider, chat_completions}
use polygate.Gateway.Failover.{Model, Request, Round}
use polygate.Gateway.Chat.{open_stream}
use polygate.Gateway.Chat.Openings.{EndsSoundly, open_stream-EndsSoundly}
use polygate.Gateway.Chat.Transparent.{exchanges, Exchange, AreTransparent, cache-AreTransparent}

abbrev says : String → Message
says s = record {
  role = user;
  content = some (plain (codes s));
  name = none;
  tool_calls = none;
  tool_call_id = none;
  extra = [];
}

abbrev asks : String → GatewayRequest fixed
asks s = record {
  model = "auto";
  messages = says s ∷ [];
  tools = none;
  parallel_tool_calls = none;
  stream = false;
  stream_options = none;
  logprobs = none;
  top_logprobs = none;
  store = none;
  options = [];
  polygate = record {
    routing = wish Quality.cheap Privacy.standard;
    cache_control = auto;
    session_id = none;
  };
}

abbrev settings : Config
settings = record {
  timeout_s = 1000;
  max_retries = 0;
  base_delay_s = 50;
  max_backoff_s = 500;
  deadline = some 3000;
}

abbrev prompt_answer : ℕ → Attempt
prompt_answer n = record { started = 0; ended = 5; wall = 10; jitter = 0; answer = answered }

-- Every provider answers, and Redis keeps everything.
abbrev answers : String → World fixed all_three
answers s = record {
  policy = default_policy;
  policy_version = 3;
  registry = default_registry;
  is_kept = λ k. true;
  can_read = true;
  can_write = true;
  cfg = settings;
  deadline = 3000;
  result = record { content = codes s; tokens = record { input = 4; output = 2 } };
  rounds = λ n. record { wall = 10; env = prompt_answer; clock = 5 };
}

abbrev requests : List (GatewayRequest fixed × World fixed all_three)
requests = (asks "hi ", answers "hello") ∷ (asks " hi", answers "other") ∷ []

abbrev same_text : Text → Text
same_text s = s

cache-AreTransparent_example :
    AreTransparent fixed all_three show_nat same_text show_nat-HasNoBar show_nat-injective
      (λ s t h. h)
      []
      (exchanges fixed all_three show_nat same_text show_nat-HasNoBar show_nat-injective
        (λ s t h. h)
        requests
        [])
cache-AreTransparent_example =
    cache-AreTransparent fixed all_three show_nat same_text show_nat-HasNoBar show_nat-injective
      (λ s t h. h) requests

-- The second request is answered from the cache.
second_is_cached :
    map
      (λ (x : Exchange fixed all_three). x.reply)
      (exchanges fixed all_three show_nat same_text show_nat-HasNoBar show_nat-injective
        (λ s t h. h)
        requests
        [])
    ≡ from_provider
        (record { chosen = mock; tried_names = "mock-a" ∷ []; retries = 0 })
        (answers "hello").result
      ∷ from_cache (record { answer = codes "hello"; tokens = record { input = 4; output = 2 } })
      ∷ []
unfolding chat_completions cache_key bypass_cache forced_provider call_non_stream failover
    next_provider select routing call_provider_with_resilience get_breaker attempts attempt_timeout
    report_all after_failure request_budget_exhausted call step new_breaker health_snapshot insert
    required_capabilities strip escape
second_is_cached = refl

mock_streams : (n : String) → (n ≡ "streaming") ⊎ ⊥ → lookup n mock.capabilities ≡ some true
unfolding lookup
mock_streams n (inl e) = rw e refl
mock_streams n (inr e) = absurd e

-- The first provider cannot be reached, whatever is asked of it; the others stream.
abbrev refuses : ℕ → Attempt
refuses n = record { started = 0; ended = 5; wall = 10; jitter = 0; answer = failed transport }

abbrev stream_rounds : ℕ → Round fixed all_three
stream_rounds zero = record { wall = 10; env = refuses; clock = 5 }
stream_rounds (suc n) = record { wall = 10; env = prompt_answer; clock = 9 }

abbrev stream_request : Request fixed
stream_request = record {
  model = Model.auto;
  messages = hello;
  constraints = wish Quality.balanced Privacy.standard;
  required_capabilities = "streaming" ∷ [];
}

open_stream-EndsSoundly_example :
    EndsSoundly fixed all_three stream_request settings 3000 default_policy stream_rounds (
      open_stream fixed all_three stream_request settings 3000 default_policy stream_rounds mock
        default_registry)
open_stream-EndsSoundly_example =
    open_stream-EndsSoundly fixed all_three stream_request settings 3000 default_policy
      stream_rounds mock default_registry (inr (inr (inl refl)), (λ e. cc), mock_streams)
