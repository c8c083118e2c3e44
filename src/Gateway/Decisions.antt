-- ===== src/Gateway/Decisions.antt =====
-- The records of what was decided for a request: `DecisionRecord`, its validation and `DecisionStore`
-- (gateway/app/decisions.py), `DecisionCard` (gateway/app/models.py) and `_decision_record`
-- (gateway/app/main.py). Times are seconds.
use polygate.Prelude.{
  ℕ, zero, suc, ◌+◌, ◌-◌, ◌≡◌, Bool, true, false, not, ◌&&◌, ◌||◌, Option, none, some, List, [],
  ◌∷◌, String, Text, codes, after_prefix, length, leb, ltb, ◌==◌, str_eq, if◌then◌else◌, arith,
}
use polygate.Prelude.Floats.{Floats}
use polygate.Gateway.Cache.{Cache, Fetched, get_client, cache_get, cache_set}

pub data Outcome : Type 0 where
  success cache_hit cancelled partial_error : Outcome

pub record Tokens : Type 0 where
  pub input : ℕ
  pub output : ℕ

abbrev pub is_hex : ℕ → Bool
is_hex c = (leb b'0' c && leb c b'9') || (leb b'a' c && leb c b'f')

abbrev pub all_hex : Text → Bool
all_hex [] = true
all_hex (c ∷ cs) = is_hex c && all_hex cs

-- `^req_[0-9a-f]{32}$`
unfoldable pub is_request_id : Text → Bool
is_request_id s = elim (after_prefix (codes "req_") s) [
  | none ↦ false
  | some digits ↦ length digits == 32 && all_hex digits
]

abbrev pub is_blank : String → Bool
is_blank s = str_eq s ""

-- `validate_failover_fields`, of the count and the name.
abbrev pub failover_agrees : ℕ → Option String → Bool
failover_agrees zero none = true
failover_agrees zero (some name) = false
failover_agrees (suc n) none = false
failover_agrees (suc n) (some name) = true

-- `tried_names[0]`, and `tried_names[0] if len(tried_names) > 1 else None`.
abbrev pub first_tried : List String → String
first_tried [] = ""
first_tried (name ∷ names) = name

abbrev pub failover_from : List String → Option String
failover_from [] = none
failover_from (name ∷ []) = none
failover_from (name ∷ other ∷ names) = some name

-- `DECISION_RECORD_TTL_SECONDS` in its bounds.
abbrev pub is_ttl : ℕ → Bool
is_ttl ttl = leb 60 ttl && leb ttl 86400

module _ (fl : Floats) where
  -- `DecisionCard`
  pub record DecisionCard : Type 0 where
    pub chosen_provider : String
    pub reason : String
    pub cache_hit : Bool
    pub cost_estimate_usd : fl.Float
    pub latency_ms : ℕ
    pub tokens : Tokens
    pub retries : ℕ
    pub failover_from : Option String
    pub request_id : String

  -- `DecisionRecord`
  pub record DecisionRecord : Type 0 where
    pub card : DecisionCard
    pub outcome : Outcome
    pub initial_provider : String
    pub stream : Bool
    pub failover_count : ℕ
    pub created_at : ℕ
    pub expires_at : ℕ

  -- The fields' bounds and `validate_failover_fields`.
  unfoldable pub check_record : DecisionRecord → Bool
  unfolding is_request_id
  check_record r =
      is_request_id (codes r.card.request_id)
      && not (is_blank r.card.chosen_provider)
      && not (is_blank r.initial_provider)
      && not (is_blank r.card.reason)
      && fl.le (fl.of_ℕ 0) r.card.cost_estimate_usd
      && failover_agrees r.failover_count r.card.failover_from
      && ltb r.created_at r.expires_at

  -- `_decision_record`
  unfoldable pub decision_record :
      DecisionCard → Outcome → String → Bool → ℕ → ℕ → ℕ → DecisionRecord
  decision_record card outcome initial stream count now ttl = record {
    card = card;
    outcome = outcome;
    initial_provider = initial;
    stream = stream;
    failover_count = count;
    created_at = now;
    expires_at = now + ttl;
  }

  -- What `get` answers, `unavailable` for `DecisionStoreUnavailable`.
  pub data Found : Type 0 where
    unavailable missing : Found
    found : DecisionRecord → Found

  module _ (backoff : ℕ) (connects : ℕ → Bool) (parse : String → Option DecisionRecord) where
    -- `save`: whether the store could be used at the end.
    unfoldable pub save : ℕ → Bool → Cache → Bool × Cache
    unfolding get_client cache_set
    save now works c =
        let (enabled, d) = get_client backoff connects parse now c in
        if enabled
        then get_client backoff connects parse now (cache_set backoff connects parse now works d)
        else (false, d)

    -- A raw value is validated; what is not valid is not there.
    abbrev pub validated : Option DecisionRecord → Found
    validated none = missing
    validated (some r) = if check_record r then found r else missing

    -- `get`, with the reading of the client.
    unfoldable pub get : ℕ → Fetched → Cache → Found × Cache
    unfolding get_client cache_get check_record
    get now answer c =
        let (enabled, d) = get_client backoff connects parse now c in
        let (value, e) = cache_get backoff connects parse now answer d in
        let (still, f) = get_client backoff connects parse now e in
        if not enabled then (unavailable, d) else elim value [
          | none ↦ if still then (missing, f) else (unavailable, f)
          | some r ↦ (validated (some r), e)
        ]

  -- The record of any request that providers were tried for passes the validation, whatever its
  -- outcome, so that writing it never turns an answer into an error. Identifiers, names and reasons are
  -- assumed to be well formed, the cost not negative, and the time to live in its bounds.
  pub decision_record-IsGood :
      (card : DecisionCard) (outcome : Outcome) (name : String) (others : List String)
      (stream : Bool) (now ttl : ℕ)
      → is_request_id (codes card.request_id) ≡ true
      → is_blank card.chosen_provider ≡ false
      → is_blank name ≡ false
      → is_blank card.reason ≡ false
      → fl.le (fl.of_ℕ 0) card.cost_estimate_usd ≡ true
      → is_ttl ttl ≡ true
      → card.failover_from ≡ failover_from (name ∷ others)
      → check_record (
          decision_record card outcome
            (first_tried (name ∷ others))
            stream
            (length (name ∷ others) - 1)
            now
            ttl)
        ≡ true
  unfolding check_record decision_record
  decision_record-IsGood card outcome name [] stream now ttl a b c d e f g = ground arith
  decision_record-IsGood card outcome name (other ∷ names) stream now ttl a b c d e f g =
      ground arith
