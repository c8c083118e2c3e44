-- ===== src/Automation/Manager/Tests.antt =====
-- A policy store that is published to and rolled back.
use polygate.Prelude.{
  ℕ, ◌≤◌, ◌≡◌, refl, ◌↔◌, Bool, true, false, none, List, [], ◌∷◌, String, arith, ◌==◌,
}
use polygate.Automation.Versions.{
  Status, archived, PolicyVersion, Document, integrity, active_record, next_document, drop_oldest,
}
use polygate.Automation.Versions.Valid.{IsValid, integrity_iff}
use polygate.Automation.Versions.Sound.{IsSound, integrity-IsSound}
use polygate.Automation.ConfigMap.{
  config_map, load_config_map, swap_config_map, request, config_map-ChangesRevision,
}
use polygate.Automation.ConfigMap.Tests.{server, fresh_here}
use polygate.Automation.Repository.{Snapshot, in_memory, Memory, swap_memory}
use polygate.Automation.Manager.{
  Manager, Commit, Answer, published, commit_from, rollback, write, finish, record_is_good,
  activate_and_cache,
}
use polygate.Automation.Manager.Equality.{same_document, same_document_iff}
use polygate.Automation.Manager.Effects.{Effect, commit_from-Effect}
use polygate.Automation.Manager.Histories.{
  Restores, rollback-Restores, perform_all, perform_all-IsValid, Operation, to_publish,
  to_roll_back,
}
use polygate.Automation.Manager.Races.{HasLost, one_publisher_wins}

-- Policies that are numbers.
same_ℕ_iff : (a b : ℕ) → ((a == b) ≡ true) ↔ (a ≡ b)
same_ℕ_iff a b = (λ h. ground arith, λ h. ground arith)

abbrev same : Document ℕ → Document ℕ → Bool
same = same_document ℕ (λ a b. a == b) same_ℕ_iff

abbrev version_of : ℕ → Status → ℕ → PolicyVersion ℕ
version_of n s p = record {
  version = n;
  status = s;
  created_at = 100;
  created_by = "admin";
  change_note = "tune";
  rollback_from = none;
  policy = p;
}

abbrev two_versions : Document ℕ
two_versions = record {
  active_version = 2;
  versions = version_of 1 archived 70 ∷ version_of 2 Status.active 80 ∷ [];
}

two_versions-IsValid : IsValid ℕ two_versions
unfolding integrity
two_versions-IsValid = (integrity_iff ℕ two_versions).0 refl

integrity-IsSound_example : (integrity ℕ two_versions ≡ none) ↔ IsSound ℕ two_versions
integrity-IsSound_example = integrity-IsSound ℕ two_versions

abbrev chars : String → ℕ
chars s = 4

abbrev takes : PolicyVersion ℕ → Bool
takes v = true

abbrev store : Memory ℕ
store = record { document = two_versions; revision_counter = 1 }

abbrev seen : Snapshot ℕ
seen = record { document = two_versions; revision = 1 }

abbrev manager : Manager ℕ
manager = record { active_policy = version_of 2 Status.active 80; ready = true; cached = none }

abbrev change : ℕ → Commit ℕ
change p = record {
  base_version = 2;
  draft = p;
  change_note = "more";
  actor = "admin";
  rollback_from = none;
  now = 200;
}

commit_from-Effect_example :
    Effect ℕ chars same
      (same_document_iff ℕ (λ a b. a == b) same_ℕ_iff)
      takes
      (in_memory ℕ)
      (change 90)
      seen
      store
      manager
      (commit_from ℕ chars same takes (in_memory ℕ) (change 90) seen store manager)
commit_from-Effect_example =
    commit_from-Effect ℕ chars same (same_document_iff ℕ (λ a b. a == b) same_ℕ_iff) takes
      (in_memory ℕ) (change 90) seen two_versions-IsValid store manager two_versions-IsValid

rollback-Restores_example :
    Restores ℕ chars same
      (same_document_iff ℕ (λ a b. a == b) same_ℕ_iff)
      takes
      (in_memory ℕ)
      (change 0)
      store
      manager
      two_versions-IsValid
      1
      (rollback ℕ chars same takes (in_memory ℕ) 1 (change 0) store manager)
rollback-Restores_example =
    rollback-Restores ℕ chars same (same_document_iff ℕ (λ a b. a == b) same_ℕ_iff) takes
      (in_memory ℕ) 1 (change 0) store manager two_versions-IsValid

abbrev two_operations :
    List
      (Operation ℕ chars same (same_document_iff ℕ (λ a b. a == b) same_ℕ_iff) takes (in_memory ℕ))
two_operations = to_publish (change 90) ∷ to_roll_back 1 (change 0) ∷ []

abbrev all_done : Memory ℕ × Manager ℕ
all_done =
    perform_all ℕ chars same (same_document_iff ℕ (λ a b. a == b) same_ℕ_iff) takes (in_memory ℕ)
      two_operations (store, manager)

perform_all-IsValid_example :
    IsValid ℕ all_done.0.document × (2 ≤ all_done.0.document.active_version)
perform_all-IsValid_example =
    perform_all-IsValid ℕ chars same (same_document_iff ℕ (λ a b. a == b) same_ℕ_iff) takes
      (in_memory ℕ) two_operations (store, manager) two_versions-IsValid

abbrev first_commit : Answer ℕ × Memory ℕ × Manager ℕ
first_commit = commit_from ℕ chars same takes (in_memory ℕ) (change 90) seen store manager

abbrev second_commit : Answer ℕ × Memory ℕ × Manager ℕ
second_commit = commit_from ℕ chars same takes (in_memory ℕ) (change 95) seen first_commit.1 manager

first_is_published :
    first_commit.0
    ≡ published (record {
      version = 3;
      previous_version = 2;
      rollback_from = none;
      published_at = 200;
      degraded = false;
    })
unfolding commit_from record_is_good next_document drop_oldest integrity write swap_memory finish
    active_record activate_and_cache
first_is_published = refl

-- The same two commits over the ConfigMap.
abbrev first_put : Answer ℕ × Snapshot ℕ × Manager ℕ
first_put = commit_from ℕ chars same takes (config_map ℕ server) (change 90) seen seen manager

abbrev second_put : Answer ℕ × Snapshot ℕ × Manager ℕ
second_put =
    commit_from ℕ chars same takes (config_map ℕ server) (change 95) seen first_put.1 manager

first_put_is_published :
    first_put.0
    ≡ published (record {
      version = 3;
      previous_version = 2;
      rollback_from = none;
      published_at = 200;
      degraded = false;
    })
unfolding commit_from record_is_good next_document drop_oldest integrity write swap_config_map
    request finish active_record activate_and_cache
first_put_is_published = refl

one_publisher_wins_example :
    HasLost ℕ chars same
      (same_document_iff ℕ (λ a b. a == b) same_ℕ_iff)
      takes
      (config_map ℕ server)
      (change 90)
      (change 95)
      seen
      first_put.1
      manager
      second_put
unfolding load_config_map request
one_publisher_wins_example =
    one_publisher_wins ℕ chars same (same_document_iff ℕ (λ a b. a == b) same_ℕ_iff) takes
      (config_map ℕ server) (change 90) (change 95) seen seen manager manager _
      (config_map-ChangesRevision ℕ server fresh_here) two_versions-IsValid refl
      first_put_is_published
