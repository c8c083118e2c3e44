-- ===== src/Gateway/Policy.antt =====
-- The policy that the gateway routes by: `GatewayPolicyRuntime` (gateway/app/policy.py).
use polygate.Prelude.{
  ℕ, ◌≡◌, Bool, true, false, any, not, ◌&&◌, Option, none, some, List, [], ◌∷◌, Text, leb, ◌==◌,
  first, or_else, if◌then◌else◌,
}
use polygate.Prelude.Floats.{Floats}
use polygate.Gateway.Router.{RoutingPolicy}

module _ (fl : Floats) where
  -- The limits of the fields of `GatewayRoutingPolicy`.
  unfoldable pub check_routing_policy : RoutingPolicy fl → Bool
  check_routing_policy p =
      leb 1 p.assumed_output_tokens
      && leb p.assumed_output_tokens 32768
      && fl.le (fl.of_ℕ 0) p.balanced_price_tolerance
      && fl.le p.balanced_price_tolerance (fl.of_ℕ 2)

  -- `GatewayPolicySnapshot`
  pub record Snapshot : Type 0 where
    pub version : ℕ
    pub gateway : RoutingPolicy fl

  unfoldable pub check_snapshot : Snapshot → Bool
  check_snapshot s = leb 1 s.version && check_routing_policy s.gateway

  -- A stored version: its number, and its policy if it has one of the right form.
  pub record StoredVersion : Type 0 where
    pub version : ℕ
    pub gateway : Option (RoutingPolicy fl)

  -- The mounted file: absent, not JSON, without the keys, or read.
  pub data Mounted : Type 0 where
    absent not_json no_keys : Mounted
    mounted : ℕ → List StoredVersion → Mounted

  pub data FailureReason : Type 0 where
    network http validation file : FailureReason

  -- `PolicyLoadError`, with the reason that is counted.
  pub data Initial : Type 0 where
    started_with : Snapshot → Initial
    load_error : FailureReason → Initial

  abbrev pub snapshot_of : ℕ → Option (RoutingPolicy fl) → Initial
  snapshot_of n none = load_error validation
  snapshot_of n (some p) =
      if check_snapshot (record { version = n; gateway = p })
      then started_with (record { version = n; gateway = p })
      else load_error validation

  -- `_load_initial_snapshot`, with `DEFAULT_GATEWAY_POLICY` for an absent file.
  unfoldable pub load_initial_snapshot : RoutingPolicy fl → Mounted → Initial
  load_initial_snapshot default absent = started_with (record { version = 1; gateway = default })
  load_initial_snapshot default not_json = load_error file
  load_initial_snapshot default no_keys = load_error validation
  load_initial_snapshot default (mounted n versions) =
      elim (first (λ (v : StoredVersion). v.version == n) versions) [
        | none ↦ load_error validation
        | some v ↦ snapshot_of n v.gateway
      ]

  -- The body of a response: not JSON, without the keys, or with fields of the wrong form; not a dict, or
  -- with a policy that is not one, so that it cannot be indexed by a text (`TypeError`); or read.
  pub data Body : Type 0 where
    invalid not_a_dict : Body
    policy_body : Snapshot → Body

  -- What a poll of the Policy API meets: a transport error, or a status with a body, and an ETag or
  -- none.
  pub data Polled : Type 0 where
    transport_error : Polled
    response : ℕ → Body → Option Text → Polled

  pub record PolicyRuntime : Type 0 where
    pub snapshot : Snapshot
    pub etag : Option Text
    pub failures : List FailureReason

  abbrev pub fail_with : FailureReason → PolicyRuntime → PolicyRuntime
  fail_with why r = record r { failures = why ∷ r.failures }

  -- Whether it raises, and the runtime after it; `TypeError` is not among the exceptions that are caught.
  abbrev pub adopt : Body → Option Text → PolicyRuntime → Bool × PolicyRuntime
  adopt invalid tag r = (false, fail_with validation r)
  adopt not_a_dict tag r = (true, r)
  adopt (policy_body s) tag r =
      if check_snapshot s
      then (false, record r { snapshot = s; etag = elim tag [ none ↦ r.etag | some t ↦ some t ] })
      else (false, fail_with validation r)

  -- `refresh_once`: whether it raises, and the runtime after it.
  unfoldable pub refresh_once : Polled → PolicyRuntime → Bool × PolicyRuntime
  refresh_once transport_error r = (false, fail_with network r)
  refresh_once (response status body tag) r =
      if status == 304
      then (false, r)
      else if not (status == 200)
      then (false, fail_with http r)
      else adopt body tag r

  -- `_policy_refresh_loop` over some polls: whether it is still running, and the runtime.
  unfoldable pub refresh_all : List Polled → PolicyRuntime → Bool × PolicyRuntime
  refresh_all [] r = (true, r)
  refresh_all (p ∷ ps) r =
      let (raised, r') = refresh_once p r in
      elim raised [ true ↦ (false, r') | false ↦ refresh_all ps r' ]

  -- A poll that is answered by 200 and a body that cannot be indexed.
  abbrev pub is_fatal : Polled → Bool
  is_fatal transport_error = false
  is_fatal (response status not_a_dict tag) = status == 200
  is_fatal (response status invalid tag) = false
  is_fatal (response status (policy_body s) tag) = false

  -- The polls before the first such one.
  abbrev pub before_fatal : List Polled → List Polled
  before_fatal [] = []
  before_fatal (p ∷ ps) = if is_fatal p then [] else p ∷ before_fatal ps

  -- The snapshot that a poll offers, if it is a good one.
  abbrev pub offered : Polled → Option Snapshot
  offered transport_error = none
  offered (response status invalid tag) = none
  offered (response status not_a_dict tag) = none
  offered (response status (policy_body s) tag) =
      if (status == 200) && check_snapshot s then some s else none

  -- The last good snapshot, from `s` on.
  abbrev pub last_good : List Polled → Snapshot → Snapshot
  last_good [] s = s
  last_good (p ∷ ps) s = last_good ps (or_else (offered p) s)

  -- What the loop does over some polls, from a runtime with the snapshot `s`.
  abbrev pub KeepsLastGood : List Polled → Snapshot → Bool × PolicyRuntime → Type 0
  KeepsLastGood ps s (is_running, r) =
      (is_running ≡ not (any is_fatal ps))
      × (r.snapshot ≡ last_good (before_fatal ps) s)
      × (check_snapshot r.snapshot ≡ true)
