-- ===== src/Gateway/Tests.antt =====
-- The cache and the policy of the gateway at concrete inputs.
use polygate.Prelude.{
  ℕ, ◌≡◌, refl, Bool, true, false, Option, none, some, List, [], ◌∷◌, codes, String, leb,
}
use polygate.Gateway.Samples.{fixed, default_policy}
use polygate.Gateway.Cache.{
  Cache, CacheCall, get_call, set_call, enabled_call, fetched, redis_error, attempt_times,
  cache_get, cache_set, get_client,
}
use polygate.Gateway.Policy.{
  check_snapshot, check_routing_policy, Polled, transport_error, response, PolicyRuntime,
  refresh_all, refresh_once, invalid, not_a_dict, policy_body,
}

-- Redis comes back at time 30.
abbrev connects : ℕ → Bool
connects now = leb 30 now

abbrev parse : String → Option String
parse s = some s

abbrev calls : List CacheCall
calls =
    get_call 10 redis_error
    ∷ set_call 11 true
    ∷ enabled_call 12
    ∷ get_call 31 (fetched (some "hi"))
    ∷ get_call 32 redis_error
    ∷ get_call 33 redis_error
    ∷ []

abbrev down : Cache
down = record { connected = false; last_attempt = none }

two_attempts : attempt_times 2 connects parse calls down ≡ 10 ∷ 12 ∷ 31 ∷ 33 ∷ []
unfolding attempt_times cache_get cache_set get_client
two_attempts = refl

abbrev runtime : PolicyRuntime fixed
runtime = record {
  snapshot = record { version = 1; gateway = default_policy };
  etag = none;
  failures = [];
}

abbrev polls : List (Polled fixed)
polls =
    transport_error
    ∷ response 500 invalid none
    ∷ response 200 (policy_body (record { version = 4; gateway = default_policy }))
        (some (codes "policy-v4"))
    ∷ response 200 (policy_body (record { version = 0; gateway = default_policy })) none
    ∷ response 200 not_a_dict none
    ∷ response 200 (policy_body (record { version = 5; gateway = default_policy })) none
    ∷ []

-- The loop has ended, and version 5 is not adopted.
loop_has_ended :
    ((refresh_all fixed polls runtime).0 ≡ false)
    × ((refresh_all fixed polls runtime).1.snapshot.version ≡ 4)
unfolding refresh_all refresh_once check_snapshot check_routing_policy
loop_has_ended = (refl, refl)
