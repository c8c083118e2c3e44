-- ===== src/Lib.antt =====
-- Polygate: a gateway that routes chat requests to model providers, and an automation service that
-- queues jobs for it and keeps the versions of the policy that both follow. This library models
-- their Python code and proves what makes it correct.
--
-- How the parts interact. A chat request names a provider or leaves the choice to the router. The
-- router filters the registry of providers by privacy, capabilities and the health that the circuit
-- breakers report, then by budget and latency, and picks by quality. The call of the chosen provider
-- is retried under a deadline, and its end is reported to the provider's breaker. If it fails, the
-- handler routes again among the providers that it has not tried. A plain request may be answered
-- from the cache; a streamed answer is read ahead to its first chunk, then forwarded event by event.
-- The router's parameters come from the policy that the gateway polls. Administrators publish and roll
-- back policies through the manager, which stores versions in a repository by compare-and-swap. The API
-- queues jobs in Redis; a worker claims them by priority, calls the gateway, and completes, requeues or
-- fails them.
--
-- Files and code.
--   Prelude, Prelude/*: the names shared by all; lists, dicts and tests over the native numbers; the
--     arithmetic of amounts as a record of operations (Prelude/Floats).
--   Gateway/Breaker: `_ProviderBreaker` (gateway/app/circuit_breaker.py), one function per method, the
--     clock an argument; Breaker/Registry: `CircuitBreakerRegistry`. Proofs: Breaker/Invariant, Runs
--     (the transitions with their conditions, and what a run of calls grants) and Tripping.
--   Gateway/Router, Router/Select: `select_provider` (gateway/app/router.py) stage by stage, and the
--     estimate of gateway/app/cost.py. Proofs: Router/Stages, Gates, Optimal, Best, Balanced,
--     Errors.
--   Gateway/Retry: `call_provider_with_resilience` (gateway/app/retry.py), Retry/Streams:
--     `open_provider_stream_with_resilience`. Proofs: Retry/Attempts, Deadline, Probes.
--   Gateway/Failover: `_forced_provider`, `_select`, `simulate_routing` and `_call_non_stream`
--     (gateway/app/main.py). Proofs: Failover/Untried, Ends, Guards, Naming.
--   Gateway/Cache: `Cache` (gateway/app/cache.py). Gateway/Policy: `GatewayPolicyRuntime`
--     (gateway/app/policy.py), with `_policy_refresh_loop` (gateway/app/main.py).
--   Gateway/Requests: `Message`, `PolygateConstraints`, `GatewayRequest` (gateway/app/models.py).
--   Gateway/CacheKey: `normalize` and `cache_key` (gateway/app/cache.py), down to the JSON text.
--     Proofs: CacheKey/Literals, Decimals, Sound, Bare, Cacheable.
--   Gateway/Chat: `chat_completions` and the opening in `_stream_response` (gateway/app/main.py).
--     Proofs: Chat/Openings, Scope, Transparent.
--   Gateway/Adapters: `build_provider_payload` (gateway/app/adapters.py). Proofs: Adapters/Messages,
--     Payload.
--   Gateway/Sse: `_data_event`, `_iter_sse_events`, `_event_data` (gateway/app/adapters.py) and
--     `_sse_data_values` (gateway/app/main.py) on texts. Proofs: Sse/RoundTrip, Framing.
--   Gateway/Chunks: `_StreamObservation`, `_is_usage_only_event` (gateway/app/main.py) and
--     `_is_completion_event` (gateway/app/adapters.py).
--   Gateway/Prefetch: `open_provider_stream` (gateway/app/adapters.py), from the response on.
--   Gateway/Streaming: `downstream` in `_stream_response` (gateway/app/main.py). Proofs:
--     Streaming/Endings, Reports.
--   Gateway/Decisions: `DecisionRecord`, `DecisionStore` (gateway/app/decisions.py), `_decision_record`.
--   Automation/Versions: `PolicyVersion`, `PolicyStoreDocument` and its validator
--     (automation/app/policy_models.py), with the document that `_commit` writes. Proofs: Versions/Valid,
--     Sound, Next, Dropped, History.
--   Automation/Repository: the protocol as an interface with laws, filled by
--     `InMemoryPolicyRepository` (automation/app/policy_repository.py).
--   Automation/ConfigMap: the same interface filled by `KubernetesConfigMapPolicyRepository`
--     (automation/app/kubernetes_policy_repository.py), over the Kubernetes API as an interface.
--   Automation/Manager: `PolicyManager` (automation/app/policy_manager.py) over any such repository;
--     between the write of a commit and the load that reconciles it nobody else acts.
--     Proofs: Manager/Effects, Histories, Races; Manager/Equality compares documents.
--   Automation/Redis: the commands of Redis that the store uses, as interfaces with laws;
--     Automation/Spaces fills them in memory. Automation/Jobs: the records. Automation/Queue and
--     Queue/Claim: `RedisAutomationStore` (automation/app/redis_store.py). Proofs: Queue/Choice, Claims,
--     Invariant, Steps (whole calls, one after another, as a step relation), Recovery; Queue/Submissions
--     takes a submission apart into its commands, and Queue/Crash, with its proofs in
--     Queue/Bystanders and Losses, the take of a claim and a requeue.
--   Automation/Worker: `execute_job` and a round of `worker_loop` (automation/app/worker.py). Proofs:
--     Worker/Retries.
--   Automation/PolicyRuntime: `PolicyRuntime` (automation/app/policy_runtime.py).
--   Automation/PolicyApi: the routes of `_policy_router` that read, publish and roll back policies
--     (automation/app/main.py), with `PolicyAdminAuthenticator` (automation/app/policy_auth.py). Proofs:
--     PolicyApi/Access, Publications, Following.
--   Automation/Drafts: the drafts of the policy with their validators (automation/app/policy_models.py),
--     intents, and their score. Automation/Previews: `_compile_preview` (automation/app/main.py).
--   Automation/MemoryStore: `InMemoryAutomationStore` (automation/app/store.py), and `submit_job`
--     (automation/app/main.py). Proofs: MemoryStore/Submissions.
--   Modules named Tests, and Gateway/Samples, hold concrete inputs and runs.
--
-- State is passed on explicitly; an operation returns its result with the new state, and exceptions
-- are constructors. What other threads, providers, repositories and clocks do is an argument: an
-- answer per attempt, a reading of the clock per call, or a step of a relation.
--
-- Bounds. Times are natural numbers: hundredths of a second for retries, whole seconds for the queue
-- and the policy store. Subtraction stops at 0 where the code takes a maximum with 0. The retry loop has
-- `max_retries + 1` rounds, as the code's `range` has. The failover loop runs on fuel, one more than
-- there are providers: every round tries a provider whose name was not tried, so the fuel is never
-- used up, and the results on failover include that. Other loops recur on lists.
--
-- A text that the code walks is a list of code points; other texts are strings. The read-ahead of a
-- stream has the 32 rounds and the 64 KiB of the code. The loop that opens a stream runs on the same
-- fuel as failover, for the same reason. `digits` prints a number on fuel that is the number itself and one.
--
-- Amounts are finite floats in a total order; sums, products and rounding are parameters. Redis, the
-- HTTP clients, the JSON parser, the hash and the text of a float are parameters too: bodies and files
-- come parsed or not, and a response is its status, type and lines. Not modelled: logs and metrics,
-- expiry of Redis keys other than those of idempotency, the web console, the monitoring service, mock
-- providers, deployment, the call of an adapter without a stream and the fake adapter, the envelopes of
-- answers, the snippets of previews, health checks, settings and the authentication of clients, which are
-- input, output and configuration.
pub mod Prelude
pub mod Gateway
pub mod Automation
