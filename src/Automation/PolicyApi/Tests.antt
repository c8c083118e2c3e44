-- ===== src/Automation/PolicyApi/Tests.antt =====
-- A publication over the API, and its readers (automation/app/main.py).
use polygate.Prelude.{
  ℕ, ◌≡◌, refl, ◌↔◌, Bool, true, false, none, some, [], ◌∷◌, String, Text, codes, strip, arith,
  ◌==◌,
}
use polygate.Gateway.Samples.{fixed, default_policy}
use polygate.Gateway.Router.{RoutingPolicy}
use polygate.Gateway.Policy.{PolicyRuntime, check_routing_policy}
use polygate.Automation.Versions.{Status, archived, PolicyVersion, Document, integrity}
use polygate.Automation.Versions.Valid.{IsValid, integrity_iff}
use polygate.Automation.Repository.{in_memory, Memory, swap_memory, load_memory}
use polygate.Automation.Manager.{
  Manager, Commit, PublishResult, publish, commit, commit_from, write, finish, record_is_good,
  activate_and_cache,
}
use polygate.Automation.Versions.{active_record, next_document, drop_oldest}
use polygate.Automation.Manager.Equality.{same_document, same_document_iff}
use polygate.Automation.PolicyRuntime.{Runtime}
use polygate.Automation.PolicyApi.{require, created, publish_policy, etag_of}
use polygate.Automation.PolicyApi.Following.{Follows, publish_policy-Follows}

abbrev key : Text
key = codes "secret"

abbrev header : Text
header = codes "Bearer  secret"

lets_in : require key (some header) ≡ true
unfolding require strip
lets_in = refl

same_ℕ_iff : (a b : ℕ) → ((a == b) ≡ true) ↔ (a ≡ b)
same_ℕ_iff a b = (λ h. ground arith, λ h. ground arith)

abbrev same : Document ℕ → Document ℕ → Bool
same = same_document ℕ (λ a b. a == b) same_ℕ_iff

abbrev version_of : ℕ → Status → ℕ → PolicyVersion ℕ
version_of n s p = record {
  version = n;
  status = s;
  created_at = 100;
  created_by = "admin";
  change_note = "tune";
  rollback_from = none;
  policy = p;
}

abbrev two_versions : Document ℕ
two_versions = record {
  active_version = 2;
  versions = version_of 1 archived 70 ∷ version_of 2 Status.active 80 ∷ [];
}

two_versions-IsValid : IsValid ℕ two_versions
unfolding integrity
two_versions-IsValid = (integrity_iff ℕ two_versions).0 refl

abbrev chars : String → ℕ
chars s = 4

abbrev takes : PolicyVersion ℕ → Bool
takes v = true

abbrev store : Memory ℕ
store = record { document = two_versions; revision_counter = 1 }

abbrev manager : Manager ℕ
manager = record { active_policy = version_of 2 Status.active 80; ready = true; cached = none }

abbrev change : Commit ℕ
change = record {
  base_version = 2;
  draft = 90;
  change_note = "more";
  actor = "policy-admin";
  rollback_from = none;
  now = 200;
}

abbrev result : PublishResult ℕ
result = record {
  version = 3;
  previous_version = 2;
  rollback_from = none;
  published_at = 200;
  degraded = false;
}

is_created :
    (publish_policy ℕ chars same takes (in_memory ℕ) key (some header) change store manager).0
    ≡ created result
unfolding publish_policy require strip publish commit commit_from write finish record_is_good
    activate_and_cache load_memory swap_memory integrity active_record next_document drop_oldest
is_created = refl

-- A draft is the number of tokens that the gateway assumes.
abbrev gateway_of : ℕ → RoutingPolicy fixed
gateway_of n = record default_policy { assumed_output_tokens = n }

abbrev gateway : PolicyRuntime fixed
gateway = record {
  snapshot = record { version = 2; gateway = gateway_of 80 };
  etag = some (etag_of 2);
  failures = [];
}

abbrev worker : Runtime ℕ ℕ (λ n. n)
worker = record { active = record { version = 1; published_at = 100; policy = 70 }; failures = [] }

publish_policy-Follows_example :
    Follows fixed ℕ ℕ
      (λ n. n)
      gateway_of
      chars
      same
      (same_document_iff ℕ (λ a b. a == b) same_ℕ_iff)
      takes
      (in_memory ℕ)
      90
      3
      (publish_policy ℕ chars same takes (in_memory ℕ) key (some header) change store manager).2
      gateway
      worker
unfolding check_routing_policy
publish_policy-Follows_example =
    publish_policy-Follows fixed ℕ ℕ (λ n. n) gateway_of chars same
      (same_document_iff ℕ (λ a b. a == b) same_ℕ_iff) takes (in_memory ℕ) key (some header) change
      store manager result gateway worker two_versions-IsValid is_created (λ t e. cc) (omega arith)
      (omega arith) refl
