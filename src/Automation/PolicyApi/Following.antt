-- ===== src/Automation/PolicyApi/Following.antt =====
-- How a publication reaches the gateway (gateway/app/policy.py) and the worker
-- (automation/app/policy_runtime.py), which poll `active_policy` (automation/app/main.py).
use polygate.Prelude.{
  ℕ, ◌+◌, ◌≤◌, ◌≡◌, ◌≢◌, refl, sym, ap, ◌∙◌, subst, ◌↔◌, inl, inr, Bool, true, Option, none, some,
  [], ◌∷◌, String, Text, codes, text_eq, text_eq_iff, arith, Bool-cases,
}
use polygate.Prelude.Floats.{Floats}
use polygate.Gateway.Router.{RoutingPolicy}
use polygate.Gateway.CacheKey.{show_nat}
use mathlib.Core.List.{append_cancel_left, append_cancel_right}
use polygate.Gateway.CacheKey.Decimals.{show_nat-injective}
use polygate.Gateway.Policy.{
  Polled, response, invalid, policy_body, PolicyRuntime, check_routing_policy, check_snapshot,
  refresh_once,
}
use polygate.Automation.Versions.{PolicyVersion, Document}
use polygate.Automation.Versions.Valid.{IsValid}
use polygate.Automation.Repository.{Repository}
use polygate.Automation.Manager.{Manager, Commit, PublishResult}
use polygate.Automation.PolicyRuntime.{
  ActivePolicy, ApiAnswer, answer, Runtime, snapshot_from, poll_once,
}
use polygate.Automation.PolicyApi.{
  etag_of, ActiveReply, not_modified, active_is, active_policy, created, publish_policy,
}
use polygate.Automation.PolicyApi.Publications.{Replies, publish_policy-Replies}

-- Versions have different ETags.
etag_of-injective : (m n : ℕ) → etag_of m ≡ etag_of n → m ≡ n
unfolding etag_of
etag_of-injective m n h = show_nat-injective m n (
    append_cancel_right (show_nat m) (show_nat n) (b'"' ∷ [])
      (append_cancel_left (codes "\"policy-v") _ _ h))

module _ (Draft : Type 0) where
  -- The reply to a client that holds the tag of another version, or none.
  active_policy-other :
      (m : Manager Draft) (o : Option Text) (n : ℕ)
      → ((t : Text) → o ≡ some t → t ≡ etag_of n)
      → n ≢ m.active_policy.version
      → active_policy Draft m o ≡ active_is m.active_policy (etag_of m.active_policy.version)
  unfolding active_policy
  active_policy-other m none n h d = refl
  active_policy-other m (some t) n h d =
      elim (Bool-cases (text_eq t (etag_of m.active_policy.version))) [
        | inl y ↦
            let e = (text_eq_iff t (etag_of m.active_policy.version)).0 y in
            absurd (d (etag_of-injective n m.active_policy.version (sym (h t refl) ∙ e)))
        | inr x ↦ rw x refl
      ]

  -- The reply to a client that holds the tag of the version in force.
  active_policy-same :
      (m : Manager Draft)
      → active_policy Draft m (some (etag_of m.active_policy.version))
        ≡ not_modified (etag_of m.active_policy.version)
  unfolding active_policy
  active_policy-same m =
      rw ((text_eq_iff (etag_of m.active_policy.version) (etag_of m.active_policy.version)).1 refl)
        refl

module _ (fl : Floats) (Draft Queue : Type 0) (queue_of : Draft → Queue)
    (gateway_of : Draft → RoutingPolicy fl) where
  -- What the gateway and the worker read of a reply.
  abbrev pub read_by_gateway : ActiveReply Draft → Polled fl
  read_by_gateway (not_modified tag) = response 304 invalid (some tag)
  read_by_gateway (active_is v tag) =
      response 200 (policy_body (record { version = v.version; gateway = gateway_of v.policy }))
        (some tag)

  abbrev pub read_by_worker : ActiveReply Draft → ApiAnswer Draft Queue queue_of
  read_by_worker (not_modified tag) = answer 304 none
  read_by_worker (active_is v tag) = answer 200 (some (snapshot_from Draft Queue queue_of v))

  -- A poll of the gateway, with the ETag that it holds.
  abbrev pub gateway_polls : Manager Draft → PolicyRuntime fl → PolicyRuntime fl
  gateway_polls m r = (refresh_once fl (read_by_gateway (active_policy Draft m r.etag)) r).1

  -- A poll of the worker, with the ETag of its version.
  abbrev pub worker_polls :
      Manager Draft → Runtime Draft Queue queue_of → Runtime Draft Queue queue_of
  worker_polls m w =
      (poll_once Draft Queue queue_of
        (read_by_worker (active_policy Draft m (some (etag_of w.active.version)))) w).1

  -- The ETag of a gateway, if it holds one, is that of its snapshot.
  abbrev pub HoldsTag : PolicyRuntime fl → Type 0
  HoldsTag r = (t : Text) → r.etag ≡ some t → t ≡ etag_of r.snapshot.version

  abbrev followed : Manager Draft → PolicyRuntime fl → PolicyRuntime fl
  followed m r = record r {
    snapshot = record {
      version = m.active_policy.version;
      gateway = gateway_of m.active_policy.policy;
    };
    etag = some (etag_of m.active_policy.version);
  }

  gateway_polls-other :
      (m : Manager Draft) (r : PolicyRuntime fl)
      → HoldsTag r
      → r.snapshot.version ≢ m.active_policy.version
      → check_snapshot fl (followed m r).snapshot ≡ true
      → gateway_polls m r ≡ followed m r
  unfolding refresh_once
  gateway_polls-other m r h d g =
      ap (λ a. (refresh_once fl (read_by_gateway a) r).1)
        (active_policy-other Draft m r.etag r.snapshot.version h d)
      ∙ rw g refl

  gateway_polls-same :
      (m : Manager Draft) (r : PolicyRuntime fl)
      → r.etag ≡ some (etag_of m.active_policy.version)
      → gateway_polls m r ≡ r
  unfolding refresh_once
  gateway_polls-same m r e =
      ap (λ o. (refresh_once fl (read_by_gateway (active_policy Draft m o)) r).1) e
      ∙ ap (λ a. (refresh_once fl (read_by_gateway a) r).1) (active_policy-same Draft m)

  worker_polls-other :
      (m : Manager Draft) (w : Runtime Draft Queue queue_of)
      → w.active.version ≢ m.active_policy.version
      → (worker_polls m w).active ≡ snapshot_from Draft Queue queue_of m.active_policy
  unfolding poll_once
  worker_polls-other m w d =
      ap (λ a. (poll_once Draft Queue queue_of (read_by_worker a) w).1.active)
        (active_policy-other Draft m (some (etag_of w.active.version)) w.active.version (λ t e. cc)
          d)

  module _ (chars : String → ℕ) (same : Document Draft → Document Draft → Bool)
      (same_iff : (a b : Document Draft) → (same a b ≡ true) ↔ (a ≡ b))
      (cache_takes : PolicyVersion Draft → Bool) (repo : Repository Draft) where
    open repo use {Store, contents}

    -- The gateway and the worker after a poll follow the draft, as a version.
    abbrev pub Follows :
        Draft → ℕ → Manager Draft → PolicyRuntime fl → Runtime Draft Queue queue_of → Type 0
    Follows draft version m r w =
        ((gateway_polls m r).snapshot ≡ record { version = version; gateway = gateway_of draft })
        × (gateway_polls m (gateway_polls m r) ≡ gateway_polls m r)
        × ((worker_polls m w).active.version ≡ version)
        × ((worker_polls m w).active.policy ≡ draft)

    created-Follows :
        (draft : Draft) (version : ℕ) (m : Manager Draft) (r : PolicyRuntime fl)
        (w : Runtime Draft Queue queue_of)
        → m.active_policy.version ≡ version + 1
        → m.active_policy.policy ≡ draft
        → HoldsTag r
        → r.snapshot.version ≤ version
        → w.active.version ≤ version
        → check_routing_policy fl (gateway_of draft) ≡ true
        → Follows draft (version + 1) m r w
    unfolding check_snapshot
    created-Follows draft version m r w v p h a b g =
        let good : check_routing_policy fl (gateway_of m.active_policy.policy) ≡ true =
          ap (λ d. check_routing_policy fl (gateway_of d)) p ∙ g in
        let new = gateway_polls-other m r h (λ e. absurd (omega arith)) (ground arith) in
        let work = worker_polls-other m w (λ e. absurd (omega arith)) in
        (
          ap (λ (x : PolicyRuntime fl). x.snapshot) new
              ∙ (λ i. record { version = v i; gateway = gateway_of (p i) }),
          gateway_polls-same m (gateway_polls m r) (ap (λ (x : PolicyRuntime fl). x.etag) new),
          ap (λ (x : ActivePolicy Draft Queue queue_of). x.version) work ∙ v,
          ap (λ (x : ActivePolicy Draft Queue queue_of). x.policy) work ∙ p,
        )

    -- When the route that publishes answers 201 at a store with a valid document, a gateway and a worker
    -- that hold no version above the stored one, and no ETag but that of their version, route and
    -- schedule by the draft after their next poll, as the next version; and another poll of the gateway
    -- changes nothing. The gateway's part of the draft is assumed to be within its limits.
    pub publish_policy-Follows :
        (expected_key : Text) (authorization : Option Text) (c : Commit Draft) (s : Store)
        (m : Manager Draft) (done : PublishResult Draft) (r : PolicyRuntime fl)
        (w : Runtime Draft Queue queue_of)
        → IsValid Draft (contents s).document
        → (publish_policy Draft chars same cache_takes repo expected_key authorization c s m).0
          ≡ created done
        → HoldsTag r
        → r.snapshot.version ≤ (contents s).document.active_version
        → w.active.version ≤ (contents s).document.active_version
        → check_routing_policy fl (gateway_of c.draft) ≡ true
        → Follows c.draft
            ((contents s).document.active_version + 1)
            (publish_policy Draft chars same cache_takes repo expected_key authorization c s m).2
            r
            w
    publish_policy-Follows expected_key authorization c s m done r w valid e h a b g =
        let (reply, s', m') =
          publish_policy Draft chars same cache_takes repo expected_key authorization c s m in
        let says : Replies Draft chars same same_iff cache_takes repo expected_key authorization c s
            m (created done, s', m') =
          subst
            (λ x.
              Replies Draft chars same same_iff cache_takes repo expected_key authorization c s m
                (x, s', m'))
            e
            (publish_policy-Replies Draft chars same same_iff cache_takes repo expected_key
              authorization c s m valid) in
        let (_, v, u, p, _, _) = says in
        created-Follows c.draft (contents s).document.active_version m' r w (u ∙ v) p h a b g
