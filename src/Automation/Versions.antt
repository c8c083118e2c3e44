-- ===== src/Automation/Versions.antt =====
-- Versions of the policy and the document that stores them (automation/app/policy_models.py), with
-- the document that `PolicyManager._commit` writes (automation/app/policy_manager.py).
pub mod Valid
pub mod Sound
pub mod Next
pub mod Dropped
pub mod History
use polygate.Prelude.{
  ℕ, zero, suc, ◌+◌, ◌-◌, max, ◌≡◌, Bool, true, false, not, ◌&&◌, ◌||◌, Option, none, some, List,
  [], ◌∷◌, ◌++◌, map, String, leb, ltb, ◌==◌, length, take, keep, if◌then◌else◌, str_eq,
}

pub data Status : Type 0 where
  active archived : Status

-- `MAX_VERSIONS`
abbrev pub max_versions : ℕ
max_versions = 20

pub data StoreError : Type 0 where
  bad_number no_versions too_many not_unique not_one_active not_the_active not_the_highest :
      StoreError

-- `n in xs`
abbrev pub mem : ℕ → List ℕ → Bool
mem n [] = false
mem n (x ∷ xs) = n == x || mem n xs

-- `len(nums) == len(set(nums))`
abbrev pub all_unique : List ℕ → Bool
all_unique [] = true
all_unique (x ∷ xs) = not (mem x xs) && all_unique xs

abbrev pub all_positive : List ℕ → Bool
all_positive [] = true
all_positive (x ∷ xs) = leb 1 x && all_positive xs

-- `max(nums)`
abbrev pub highest : List ℕ → ℕ
highest [] = 0
highest (x ∷ xs) = max x (highest xs)

module _ (Draft : Type 0) where
  -- `PolicyVersion`; the times are UTC, in seconds.
  pub record PolicyVersion : Type 0 where
    pub version : ℕ
    pub status : Status
    pub created_at : ℕ
    pub created_by : String
    pub change_note : String
    pub rollback_from : Option ℕ
    pub policy : Draft

  -- `PolicyStoreDocument`
  pub record Document : Type 0 where
    pub active_version : ℕ
    pub versions : List PolicyVersion

  abbrev pub is_active : PolicyVersion → Bool
  is_active v = elim v.status [ Status.active ↦ true | archived ↦ false ]

  abbrev pub nums : List PolicyVersion → List ℕ
  nums vs = map (λ (v : PolicyVersion). v.version) vs

  -- The tests of the one active record.
  abbrev pub active_error : ℕ → List ℕ → List PolicyVersion → Option StoreError
  active_error n ns [] = some not_one_active
  active_error n ns (a ∷ []) =
      if not (a.version == n)
      then some not_the_active
      else if not (n == highest ns)
      then some not_the_highest
      else none
  active_error n ns (a ∷ b ∷ rest) = some not_one_active

  -- `_integrity`, after the limits of the fields.
  unfoldable pub integrity : Document → Option StoreError
  integrity doc =
      let ns = nums doc.versions in
      if not (leb 1 doc.active_version && all_positive ns)
      then some bad_number
      else if not (leb 1 (length doc.versions))
      then some no_versions
      else if not (leb (length doc.versions) max_versions)
      then some too_many
      else if not (all_unique ns)
      then some not_unique
      else active_error doc.active_version ns (keep is_active doc.versions)

  abbrev pub the_only : List PolicyVersion → Option PolicyVersion
  the_only [] = none
  the_only (a ∷ []) = some a
  the_only (a ∷ b ∷ rest) = none

  -- The property `active`; `none` is its ValueError.
  unfoldable pub active_record : Document → Option PolicyVersion
  active_record doc =
      the_only (keep (λ (v : PolicyVersion). v.version == doc.active_version) doc.versions)

  -- `sorted(…, key=lambda v: v.version)`
  abbrev pub insert_by_version : PolicyVersion → List PolicyVersion → List PolicyVersion
  insert_by_version v [] = v ∷ []
  insert_by_version v (w ∷ ws) =
      if leb v.version w.version then v ∷ w ∷ ws else w ∷ insert_by_version v ws

  abbrev pub sort_by_version : List PolicyVersion → List PolicyVersion
  sort_by_version [] = []
  sort_by_version (v ∷ vs) = insert_by_version v (sort_by_version vs)

  -- `v.model_copy(update={"status": "archived"})` of the active record.
  abbrev pub archive : PolicyVersion → PolicyVersion
  archive v = record v { status = archived }

  -- Keep at most twenty: the oldest records that are not active go.
  unfoldable pub drop_oldest : List PolicyVersion → List PolicyVersion
  drop_oldest vs =
      if ltb max_versions (length vs)
      then (let old = sort_by_version (keep (λ v. not (is_active v)) vs) in
          let dropped = nums (take (length vs - max_versions) old) in
          keep (λ (v : PolicyVersion). not (mem v.version dropped)) vs)
      else vs

  -- `max(v.version for v in document.versions) + 1`
  abbrev pub next_version : Document → ℕ
  next_version doc = highest (nums doc.versions) + 1

  -- The document that `_commit` writes: the records so far, archived, and the new one.
  unfoldable pub next_document : Document → PolicyVersion → Document
  next_document doc new = record {
    active_version = new.version;
    versions = drop_oldest (map archive doc.versions ++ new ∷ []);
  }
