-- ===== src/Gateway/Chat.antt =====
-- The handler of chat requests: `chat_completions`, and the opening of `_stream_response`
-- (gateway/app/main.py). What happens outside is given per request: what Redis keeps and whether it
-- answers, the rounds of failover, and what the provider that serves it returns.
pub mod Scope
pub mod Openings
pub mod Transparent
mod Tests
use polygate.Prelude.{
  ℕ, zero, suc, ◌+◌, Bool, true, false, not, ◌&&◌, ◌||◌, Option, none, some, List, [], ◌∷◌, ◌++◌,
  map, String, Text, codes, text_eq, length, keep, str_eq, if◌then◌else◌, ◌==◌, is_some,
}
use polygate.Prelude.Floats.{Floats}
use polygate.Gateway.Breaker.Registry.{Registry}
use polygate.Gateway.Router.{Provider, RoutingPolicy}
use polygate.Gateway.Router.Select.{Selection}
use polygate.Gateway.Retry.{Config, returned, raised}
use polygate.Gateway.Retry.Streams.{open_provider_stream_with_resilience}
use polygate.Gateway.Failover.{
  Model, auto, named, HttpError, provider_timeout, Reply, reply, refuse, Request, forced_provider,
  select, Round, Served, Ending, served, failed_with, out_of_fuel, call_non_stream, next_provider,
  give_up, provider_timed_out, request_budget_exhausted,
}
use polygate.Gateway.Requests.{
  Content, plain, blocks, Message, GatewayRequest, required_capabilities, bypass_cache,
}
use polygate.Gateway.CacheKey.{cache_key}
use polygate.Gateway.Decisions.{Tokens}

-- `len(m.get("content", ""))`: characters of a text, items of a list.
abbrev pub content_length : Option Content → Option ℕ
content_length none = none
content_length (some (plain t)) = some (length t)
content_length (some (blocks bs)) = some (length bs)

abbrev pub model_of : String → Model
model_of model = if str_eq model "auto" then auto else named model

-- The value that is stored under a key.
pub record Answer : Type 0 where
  pub answer : Text
  pub tokens : Tokens

abbrev pub Entries : Type 0
Entries = List (Text × Answer)

unfoldable pub find_entry : Text → Entries → Option Answer
find_entry key [] = none
find_entry key ((k, a) ∷ entries) = if text_eq k key then some a else find_entry key entries

-- The answer of the provider that serves a request: the text of its first choice and its usage.
pub record Result : Type 0 where
  pub content : Text
  pub tokens : Tokens

module _ (fl : Floats) where
  -- What routing reads of a request.
  unfoldable pub routing_request : GatewayRequest fl → Request fl
  routing_request r = record {
    model = model_of r.model;
    messages = map (λ (m : Message). content_length m.content) r.messages;
    constraints = r.polygate.routing;
    required_capabilities = required_capabilities fl r;
  }

module _ (fl : Floats) (providers : List (Provider fl)) where
  -- What a request meets: the policy in force and its version, the breakers, the keys that Redis has
  -- kept and whether a read and a write work, the deadline, what the provider answers
  -- when its call succeeds, and the rounds of failover.
  pub record World : Type 0 where
    pub policy : RoutingPolicy fl
    pub policy_version : ℕ
    pub registry : Registry
    pub is_kept : Text → Bool
    pub can_read : Bool
    pub can_write : Bool
    pub cfg : Config
    pub deadline : ℕ
    pub result : Result
    pub rounds : ℕ → Round fl providers

  -- An opened stream and the state in which it was opened, or how the opening ended.
  pub data Opened : Type 0 where
    opened : Served fl providers → Registry → Opened
    not_opened : HttpError → List String → Opened
    still_opening : Opened

  abbrev pub give_up_opening : Bool → List String → Opened
  give_up_opening timed_out tried =
      not_opened (if timed_out then provider_timeout else HttpError.provider_failed) tried

  module _ (req : Request fl) (cfg : Config) (deadline : ℕ) (policy : RoutingPolicy fl)
      (rounds : ℕ → Round fl providers) where
    -- The loop of `_stream_response` until a stream is opened.
    unfoldable pub open_failover : ℕ → ℕ → List String → Provider fl → ℕ → Registry → Opened
    open_failover zero round tried chosen failed_retries reg = still_opening
    open_failover (suc fuel) round tried chosen failed_retries reg =
        let r = rounds round in
        let tried' = tried ++ chosen.name ∷ [] in
        let (run, reg') = open_provider_stream_with_resilience cfg r.env chosen.name r.wall reg in
        elim run.outcome [
          | returned n ↦
              opened
                (record { chosen = chosen; tried_names = tried'; retries = n + failed_retries })
                reg'
          | raised e n ↦ elim (request_budget_exhausted e deadline r.clock) [
            | true ↦ not_opened provider_timeout tried'
            | false ↦ elim (next_provider fl providers req cfg deadline policy rounds tried' reg') [
              | none ↦ give_up_opening (provider_timed_out e) tried'
              | some p ↦ open_failover fuel (round + 1) tried' p (failed_retries + n) reg'
            ]
          ]
        ]

    -- `_stream_response`, until the stream is opened.
    unfoldable pub open_stream : Provider fl → Registry → Opened
    unfolding open_failover
    open_stream chosen reg = open_failover (length providers + 1) 0 [] chosen 0 reg

  -- The replies of the handler.
  pub data ChatReply : Type 0 where
    from_cache : Answer → ChatReply
    from_provider : Served fl providers → Result → ChatReply
    stream_of : Opened → ChatReply
    refused : HttpError → ChatReply

  -- `forced["name"] if forced else "auto"`
  abbrev pub scope_of : Option (Provider fl) → Text
  scope_of none = codes "auto"
  scope_of (some p) = codes p.name

  -- `CACHE.get(key)`: a miss where there is no key, nothing kept, or no answer of Redis.
  abbrev pub read_cache : World → Option Text → Entries → Option Answer
  read_cache w none entries = none
  read_cache w (some key) entries =
      if w.can_read && w.is_kept key then find_entry key entries else none

  abbrev pub is_empty_text : Text → Bool
  is_empty_text [] = true
  is_empty_text (c ∷ cs) = false

  -- `if key is not None and result.content and len(tried_names) == 1: CACHE.set(…)`
  abbrev pub write_cache : World → Option Text → List String → Entries → Entries
  write_cache w none tried entries = entries
  write_cache w (some key) tried entries =
      if w.can_write && (not (is_empty_text w.result.content) && length tried == 1)
      then (key, record { answer = w.result.content; tokens = w.result.tokens }) ∷ entries
      else entries

  -- The first provider: the forced one, or the router's choice.
  abbrev pub first_provider : GatewayRequest fl → World → Option (Provider fl) → Reply (Provider fl)
  first_provider r w (some p) = reply p
  first_provider r w none =
      elim (select fl providers providers (routing_request fl r) w.policy w.registry) [
        | reply s ↦ reply s.chosen
        | refuse e ↦ refuse e
      ]

  -- The call of the provider, and what is stored of its answer.
  abbrev pub after_ending :
      World → Option Text → Entries → Ending fl providers → ChatReply × Entries
  after_ending w key entries (served s) =
      (from_provider s w.result, write_cache w key s.tried_names entries)
  after_ending w key entries (failed_with e tried) = (refused e, entries)
  after_ending w key entries out_of_fuel = (refused provider_timeout, entries)

  abbrev pub call_chosen :
      GatewayRequest fl → World → Option Text → Entries → Reply (Provider fl) → ChatReply × Entries
  call_chosen r w key entries (refuse e) = (refused e, entries)
  call_chosen r w key entries (reply p) =
      if r.stream
      then (
        stream_of
            (open_stream (routing_request fl r) w.cfg w.deadline w.policy w.rounds p w.registry),
        entries,
      )
      else after_ending w key entries (
          call_non_stream fl providers (routing_request fl r) w.cfg w.deadline w.policy w.rounds p
            w.registry)

  abbrev pub after_cache :
      GatewayRequest fl
      → World
      → Option (Provider fl)
      → Option Text
      → Entries
      → Option Answer
      → ChatReply × Entries
  after_cache r w forced key entries (some a) = (from_cache a, entries)
  after_cache r w forced key entries none = call_chosen r w key entries (first_provider r w forced)

  module _ (show_float : fl.Float → Text) (hash : Text → Text) where
    -- The key of a request that may use the cache.
    abbrev pub key_of : Bool → GatewayRequest fl → Text → ℕ → Option Text
    key_of true r scope version = none
    key_of false r scope version = cache_key fl show_float hash r scope version

    abbrev pub after_forced :
        GatewayRequest fl → World → Entries → Reply (Option (Provider fl)) → ChatReply × Entries
    after_forced r w entries (refuse e) = (refused e, entries)
    after_forced r w entries (reply forced) =
        let key = key_of (bypass_cache fl r) r (scope_of forced) w.policy_version in
        after_cache r w forced key entries (read_cache w key entries)

    -- `chat_completions`
    unfoldable pub chat_completions : GatewayRequest fl → World → Entries → ChatReply × Entries
    unfolding routing_request find_entry open_stream
    chat_completions r w entries =
        after_forced r w entries (forced_provider fl providers (routing_request fl r))
