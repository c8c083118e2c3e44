-- ===== src/Automation/Repository.antt =====
-- The repository of the policy document: its interface, with what every implementation promises, and
-- the one in memory (automation/app/policy_repository.py).
use polygate.Prelude.{
  ℕ, ◌+◌, ◌≡◌, ◌≢◌, refl, sym, ap, ◌⊎◌, inl, inr, ◌==◌, Bool-cases, if◌then◌else◌, arith,
}
use polygate.Automation.Versions.{Document}

module _ (Draft : Type 0) where
  -- `RepositorySnapshot`; a revision is the number n of the code's "rev-n".
  pub record Snapshot : Type 0 where
    pub document : Document Draft
    pub revision : ℕ

  pub data Loaded : Type 0 where
    loaded : Snapshot → Loaded
    load_failed : Loaded

  -- A swap is done, refused with PolicyConflict, or has no known outcome (RepositoryUnavailable).
  pub data Swapped : Type 0 where
    swapped : Snapshot → Swapped
    conflict no_answer : Swapped

  -- `PolicyRepository`: its operations on a store that is passed on, what is stored, and the laws.
  -- A swap without an answer may have been done or not.
  pub record Repository : Type 1 where
    pub Store : Type 0
    pub contents : Store → Snapshot
    pub load : Store → Loaded
    pub compare_and_swap : Document Draft → ℕ → Store → Swapped × Store
    pub load_lem : (s : Store) (snap : Snapshot) → load s ≡ loaded snap → snap ≡ contents s
    pub swapped_lem :
        (d : Document Draft) (r : ℕ) (s : Store) (snap : Snapshot)
        → (compare_and_swap d r s).0 ≡ swapped snap
        → ((contents s).revision ≡ r)
          × (snap.document ≡ d)
          × (contents (compare_and_swap d r s).1 ≡ snap)
    pub conflict_lem :
        (d : Document Draft) (r : ℕ) (s : Store)
        → (compare_and_swap d r s).0 ≡ conflict
        → contents (compare_and_swap d r s).1 ≡ contents s
    pub no_answer_lem :
        (d : Document Draft) (r : ℕ) (s : Store)
        → (compare_and_swap d r s).0 ≡ no_answer
        → (contents (compare_and_swap d r s).1 ≡ contents s)
          ⊎ (((contents s).revision ≡ r) × ((contents (compare_and_swap d r s).1).document ≡ d))

  -- A swap that changes what is stored changes the revision.
  abbrev pub ChangesRevision : Repository → Type 0
  ChangesRevision repo =
      (d : Document Draft) (r : ℕ) (s : repo.Store)
      → (repo.contents (repo.compare_and_swap d r s).1 ≡ repo.contents s)
        ⊎ ((repo.contents (repo.compare_and_swap d r s).1).revision ≢ (repo.contents s).revision)

  -- `InMemoryPolicyRepository`: the document and the counter of its revisions.
  pub record Memory : Type 0 where
    pub document : Document Draft
    pub revision_counter : ℕ

  unfoldable pub new_memory : Document Draft → Memory
  new_memory d = record { document = d; revision_counter = 1 }

  abbrev pub snapshot_of : Memory → Snapshot
  snapshot_of s = record { document = s.document; revision = s.revision_counter }

  unfoldable pub load_memory : Memory → Loaded
  load_memory s = loaded (snapshot_of s)

  -- The counter goes up with each document that is stored.
  abbrev pub store_document : Document Draft → Memory → Memory
  store_document d s = record { document = d; revision_counter = s.revision_counter + 1 }

  unfoldable pub swap_memory : Document Draft → ℕ → Memory → Swapped × Memory
  swap_memory d r s =
      if r == s.revision_counter
      then (swapped (snapshot_of (store_document d s)), store_document d s)
      else (conflict, s)

  pub swap_memory-done :
      (d : Document Draft) (r : ℕ) (s : Memory) (snap : Snapshot)
      → (swap_memory d r s).0 ≡ swapped snap
      → (s.revision_counter ≡ r) × (snap.document ≡ d) × (snapshot_of (swap_memory d r s).1 ≡ snap)
  unfolding swap_memory
  swap_memory-done d r s snap h = elim (Bool-cases (r == s.revision_counter)) [
    | inl e ↦
        let k : swapped (snapshot_of (store_document d s)) ≡ swapped snap = rw e at h in
        let l : snapshot_of (store_document d s) ≡ snap = cc in
        (ground arith, ap (λ (x : Snapshot). x.document) (sym l), rw e l)
    | inr e ↦ let k : conflict ≡ swapped snap = rw e at h in cc
  ]

  pub swap_memory-conflict :
      (d : Document Draft) (r : ℕ) (s : Memory)
      → (swap_memory d r s).0 ≡ conflict
      → snapshot_of (swap_memory d r s).1 ≡ snapshot_of s
  unfolding swap_memory
  swap_memory-conflict d r s h = elim (Bool-cases (r == s.revision_counter)) [
    | inl e ↦ let k : swapped (snapshot_of (store_document d s)) ≡ conflict = rw e at h in cc
    | inr e ↦ rw e refl
  ]

  pub swap_memory-answers :
      (d : Document Draft) (r : ℕ) (s : Memory) → (swap_memory d r s).0 ≢ no_answer
  unfolding swap_memory
  swap_memory-answers d r s h = ground arith

  swap_memory-fresh :
      (d : Document Draft) (r : ℕ) (s : Memory)
      → (snapshot_of (swap_memory d r s).1 ≡ snapshot_of s)
        ⊎ ((snapshot_of (swap_memory d r s).1).revision ≢ (snapshot_of s).revision)
  unfolding swap_memory
  swap_memory-fresh d r s = elim (Bool-cases (r == s.revision_counter)) [
    | inl y ↦ inr (λ e.
        let f : s.revision_counter + 1 ≡ s.revision_counter = rw y at e in
        absurd (omega (arith, f)))
    | inr n ↦ inl (rw n refl)
  ]

  pub load_memory-contents :
      (s : Memory) (snap : Snapshot) → load_memory s ≡ loaded snap → snap ≡ snapshot_of s
  unfolding load_memory
  load_memory-contents s snap h = cc

  -- The repository in memory fills the interface.
  abbrev pub in_memory : Repository
  in_memory = record {
    Store = Memory;
    contents = snapshot_of;
    load = load_memory;
    compare_and_swap = swap_memory;
    load_lem = load_memory-contents;
    swapped_lem = swap_memory-done;
    conflict_lem = swap_memory-conflict;
    no_answer_lem = λ d r s h. absurd (swap_memory-answers d r s h);
  }

  pub in_memory-ChangesRevision : ChangesRevision in_memory
  in_memory-ChangesRevision d r s = swap_memory-fresh d r s
