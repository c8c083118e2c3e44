-- ===== src/Gateway/Failover.antt =====
-- Which provider serves a request, and failover among providers: `_forced_provider`, `_select`,
-- `simulate_routing` and `_call_non_stream` (gateway/app/main.py).
pub mod Untried
pub mod Guards
pub mod Naming
pub mod Ends
mod Tests
use polygate.Prelude.{
  ℕ, zero, suc, ◌+◌, Bool, true, false, not, ◌&&◌, ◌||◌, Option, none, some, List, [], ◌∷◌, ◌++◌,
  String, Dict, leb, length, keep, first, if◌then◌else◌, str_eq, mem_text, or_else,
}
use polygate.Prelude.Floats.{Floats}
use polygate.Gateway.Breaker.Registry.{Registry, health_snapshot}
use polygate.Gateway.Router.{
  Provider, Constraints, RoutingPolicy, RoutingError, Result, ok, err, Privacy, is_text,
}
use polygate.Gateway.Router.Select.{Selection, select_provider, missing_capabilities}
use polygate.Gateway.Retry.{
  Config, Attempt, Run, Outcome, returned, raised, Error, budget_exceeded, unavailable, no_attempt,
  provider_error, Failure, timeout, wait_timeout, transport, payload, protocol, other, status,
  call_provider_with_resilience,
}

-- The `model` of a request: "auto" or the name of a provider.
pub data Model : Type 0 where
  auto : Model
  named : String → Model

-- The HTTP errors of the chat handler: 400 for an unknown provider, 403, 400 for missing
-- capabilities, 503, 502 and the 504 of `ProviderTimeoutError`.
pub data HttpError : Type 0 where
  unknown_provider privacy_forbids provider_failed provider_timeout : HttpError
  lacks_capabilities : List String → HttpError
  no_route : RoutingError → HttpError

pub data Reply {ℓ} (A : Type ℓ) : Type ℓ where
  reply : A → Reply A
  refuse : HttpError → Reply A

-- `isinstance(exc, (httpx.TimeoutException, TimeoutError))`
unfoldable pub provider_timed_out : Error → Bool
provider_timed_out budget_exceeded = true
provider_timed_out unavailable = false
provider_timed_out no_attempt = false
provider_timed_out (provider_error timeout) = true
provider_timed_out (provider_error wait_timeout) = true
provider_timed_out (provider_error transport) = false
provider_timed_out (provider_error payload) = false
provider_timed_out (provider_error protocol) = false
provider_timed_out (provider_error other) = false
provider_timed_out (provider_error (status code after)) = false

abbrev is_budget : Error → Bool
is_budget budget_exceeded = true
is_budget unavailable = false
is_budget no_attempt = false
is_budget (provider_error e) = false

-- `_request_budget_exhausted`
unfoldable pub request_budget_exhausted : Error → ℕ → ℕ → Bool
request_budget_exhausted e deadline now = is_budget e || leb deadline now

module _ (fl : Floats) where
  -- The request, as far as routing reads it.
  pub record Request : Type 0 where
    pub model : Model
    pub messages : List (Option ℕ)
    pub constraints : Constraints fl
    pub required_capabilities : List String

module _ (fl : Floats) (providers : List (Provider fl)) where
  -- `req.constraints.privacy == "high" and provider.get("privacy") == "external"`
  abbrev pub is_leak : Privacy → Option String → Bool
  is_leak Privacy.standard label = false
  is_leak Privacy.high label = is_text "external" label

  abbrev pub answer_forced : Provider fl → Bool → List String → Reply (Provider fl)
  answer_forced p true missing = refuse privacy_forbids
  answer_forced p false [] = reply p
  answer_forced p false (m ∷ ms) = refuse (lacks_capabilities (m ∷ ms))

  abbrev pub check_forced : Request fl → Provider fl → Reply (Provider fl)
  check_forced req p =
      answer_forced p (is_leak req.constraints.privacy p.privacy)
        (missing_capabilities fl p req.required_capabilities)

  -- `_forced_provider`
  unfoldable pub forced_provider : Request fl → Reply (Option (Provider fl))
  forced_provider req = elim req.model [
    | auto ↦ reply none
    | named name ↦ elim (first (λ (p : Provider fl). str_eq p.name name) providers) [
      | none ↦ refuse unknown_provider
      | some p ↦ elim (check_forced req p) [ reply q ↦ reply (some q) | refuse e ↦ refuse e ]
    ]
  ]

  -- `_select`
  unfoldable pub select :
      List (Provider fl) → Request fl → RoutingPolicy fl → Registry → Reply (Selection fl)
  select candidates req policy reg =
      elim (select_provider fl candidates req.messages req.constraints
        (health_snapshot reg.breakers) req.required_capabilities policy) [
          | ok s ↦ reply s
          | err e ↦ refuse (no_route e)
        ]

  -- What `simulate_routing` answers, with `est_cost` of the first candidate of the chosen name.
  pub record Simulation : Type 0 where
    pub provider : String
    pub estimated_cost_usd : Option (fl.Float)
    pub typical_latency_ms : ℕ

  -- `simulate_routing`
  unfoldable pub simulate_routing : Request fl → RoutingPolicy fl → Registry → Reply Simulation
  unfolding select
  simulate_routing req draft reg = elim (select providers req draft reg) [
    | reply s ↦ reply (record {
      provider = s.chosen.name;
      estimated_cost_usd = elim (first (λ c. str_eq c.0 s.chosen.name) s.candidates) [
        | none ↦ none
        | some c ↦ some c.1
      ];
      typical_latency_ms = or_else s.chosen.typical_latency_ms 0;
    })
    | refuse e ↦ refuse e
  ]

  -- What one round of failover meets: the breaker's clock when it begins, the attempts at the
  -- provider, and the clock of the deadline when the provider has failed.
  pub record Round : Type 0 where
    pub wall : ℕ
    pub env : ℕ → Attempt
    pub clock : ℕ

  -- A served request: the provider, the names tried and the retries of all of them.
  pub record Served : Type 0 where
    pub chosen : Provider fl
    pub tried_names : List String
    pub retries : ℕ

  -- How `_call_non_stream` ends; `out_of_fuel` stands for a loop that goes on.
  pub data Ending : Type 0 where
    served : Served → Ending
    failed_with : HttpError → List String → Ending
    out_of_fuel : Ending

  abbrev pub untried : List String → List (Provider fl)
  untried tried = keep (λ (p : Provider fl). not (mem_text p.name tried)) providers

  -- `[] if req.model != "auto" else [provider for provider in PROVIDERS if …]`
  abbrev pub remaining : Model → List String → List (Provider fl)
  remaining auto tried = untried tried
  remaining (named name) tried = []

  -- `ProviderTimeoutError`, or the 502 of a last failure.
  abbrev pub give_up : Bool → List String → Ending
  give_up timed_out tried =
      failed_with (if timed_out then provider_timeout else provider_failed) tried

  module _ (req : Request fl) (cfg : Config) (deadline : ℕ) (policy : RoutingPolicy fl)
      (rounds : ℕ → Round) where
    -- After a failure: the next provider, if any is left and the router finds one.
    unfoldable pub next_provider : List String → Registry → Option (Provider fl)
    next_provider tried reg = elim (remaining req.model tried) [
      | [] ↦ none
      | p ∷ ps ↦ elim (select (p ∷ ps) req policy reg) [ reply s ↦ some s.chosen | refuse e ↦ none ]
    ]

    -- The loop of `_call_non_stream`.
    unfoldable pub failover : ℕ → ℕ → List String → Provider fl → ℕ → Registry → Ending
    failover zero round tried chosen failed_retries reg = out_of_fuel
    failover (suc fuel) round tried chosen failed_retries reg =
        let r = rounds round in
        let tried' = tried ++ chosen.name ∷ [] in
        let (run, reg') = call_provider_with_resilience cfg r.env chosen.name r.wall reg in
        elim run.outcome [
          | returned n ↦
              served
                (record { chosen = chosen; tried_names = tried'; retries = n + failed_retries })
          | raised e n ↦ elim (request_budget_exhausted e deadline r.clock) [
            | true ↦ failed_with provider_timeout tried'
            | false ↦ elim (next_provider tried' reg') [
              | none ↦ give_up (provider_timed_out e) tried'
              | some p ↦ failover fuel (round + 1) tried' p (failed_retries + n) reg'
            ]
          ]
        ]

    -- `_call_non_stream`
    unfoldable pub call_non_stream : Provider fl → Registry → Ending
    unfolding failover
    call_non_stream chosen reg = failover (length providers + 1) 0 [] chosen 0 reg
