-- ===== src/Automation/MemoryStore/Submissions.antt =====
-- What the submission of jobs to the store in memory does (automation/app/store.py,
-- automation/app/main.py).
use polygate.Prelude.{
  ℕ, ◌≡◌, refl, sym, ap, ◌∙◌, subst, inl, inr, true, false, Option, none, some, String, lookup,
  insert, lookup-insert, str_eq, str_eq_refl, str_eq_iff, Bool-cases,
}
use polygate.Automation.Jobs.{JobRecord}
use polygate.Automation.MemoryStore.{
  Submitted, accepted, StoredPreview, MemoryStore, new_job, enqueue, get_job, get_preview,
  submit_job,
}

module _ (Res Request : Type 0) where
  -- Every submission that is remembered has its job, under its own number.
  abbrev pub IsConsistent : MemoryStore Res Request → Type 0
  IsConsistent s =
      (key id : String)
      → lookup key s.idempotency ≡ some id
      → (r : JobRecord Res) × (lookup id s.jobs ≡ some r)

  -- What a submission does.
  abbrev pub Submits :
      StoredPreview Res Request
      → String
      → ℕ
      → Option String
      → MemoryStore Res Request
      → Submitted (JobRecord Res) × MemoryStore Res Request
      → Type 0
  Submits p fresh now (some id) s (answer, t) =
      (r : JobRecord Res) × (get_job Res Request id s ≡ some r) × (answer ≡ accepted r) × (t ≡ s)
  Submits p fresh now none s (answer, t) =
      (answer ≡ accepted (new_job Res Request p fresh now s))
      × (get_job Res Request fresh t ≡ some (new_job Res Request p fresh now s))
      × ((other : String)
          → str_eq fresh other ≡ false
          → get_job Res Request other t ≡ get_job Res Request other s)

  enqueue-Submits :
      (p : StoredPreview Res Request) (key fresh : String) (now : ℕ) (s : MemoryStore Res Request)
      (o : Option String)
      → IsConsistent s
      → lookup key s.idempotency ≡ o
      → Submits p fresh now o s (enqueue Res Request p key fresh now s)
  unfolding enqueue get_job
  enqueue-Submits p key fresh now s none c e =
      rw (e, enqueue)
        (
          refl,
          lookup-insert fresh fresh (new_job Res Request p fresh now s) s.jobs
              ∙ rw (str_eq_refl fresh) refl,
          λ other n.
              lookup-insert fresh other (new_job Res Request p fresh now s) s.jobs ∙ rw n refl,
        )
  enqueue-Submits p key fresh now s (some id) c e =
      let (r, f) = c key id e in rw (e, enqueue) (rw (f, enqueue) (r, refl, refl, refl))

  remembered-IsConsistent :
      (key fresh : String) (r : JobRecord Res) (s : MemoryStore Res Request)
      → IsConsistent s
      → IsConsistent
          (record s { jobs = insert fresh r s.jobs; idempotency = insert key fresh s.idempotency })
  remembered-IsConsistent key fresh r s c key' id e = elim (Bool-cases (str_eq fresh id)) [
    | inl y ↦ (r, lookup-insert fresh id r s.jobs ∙ rw y refl)
    | inr n ↦ elim (Bool-cases (str_eq key key')) [
      | inl k ↦
          let f : some fresh ≡ some id =
            (rw k at (sym (lookup-insert key key' fresh s.idempotency))) ∙ e in
          let g : fresh ≡ id = text-eq f in
          let t : str_eq fresh id ≡ true = (str_eq_iff fresh id).1 g in cc
      | inr m ↦
          let f : lookup key' s.idempotency ≡ some id =
            (rw m at (sym (lookup-insert key key' fresh s.idempotency))) ∙ e in
          let (q, g) = c key' id f in (q, lookup-insert fresh id r s.jobs ∙ rw n g)
    ]
  ]
    where
      text-eq : {x y : String} → some x ≡ some y → x ≡ y
      text-eq f = cc

  -- After a first submission under a key, a second one returns its job and changes nothing.
  again :
      (p q : StoredPreview Res Request) (key fresh fresh' : String) (now now' : ℕ)
      (s : MemoryStore Res Request) (o : Option String)
      → IsConsistent s
      → lookup key s.idempotency ≡ o
      → enqueue Res Request q key fresh' now' (enqueue Res Request p key fresh now s).1
        ≡ enqueue Res Request p key fresh now s
  unfolding enqueue get_job
  again p q key fresh fresh' now now' s (some id) c e =
      let (r, f) = c key id e in
      let first : enqueue Res Request p key fresh now s ≡ (accepted r, s) =
        rw (e, enqueue) (rw (f, enqueue) refl) in
      let second : enqueue Res Request q key fresh' now' s ≡ (accepted r, s) =
        rw (e, enqueue) (rw (f, enqueue) refl) in
      ap
        (λ (x : Submitted (JobRecord Res) × MemoryStore Res Request).
          enqueue Res Request q key fresh' now' x.1)
        first
      ∙ (second ∙ sym first)
  again p q key fresh fresh' now now' s none c e =
      let r = new_job Res Request p fresh now s in
      let t = record s {
        jobs = insert fresh r s.jobs;
        idempotency = insert key fresh s.idempotency;
      } in
      let first : enqueue Res Request p key fresh now s ≡ (accepted r, t) = rw (e, enqueue) refl in
      let known : lookup key t.idempotency ≡ some fresh =
        lookup-insert key key fresh s.idempotency ∙ rw (str_eq_refl key) refl in
      let there : lookup fresh t.jobs ≡ some r =
        lookup-insert fresh fresh r s.jobs ∙ rw (str_eq_refl fresh) refl in
      let second : enqueue Res Request q key fresh' now' t ≡ (accepted r, t) =
        rw (known, enqueue) (rw (there, enqueue) refl) in
      ap
        (λ (x : Submitted (JobRecord Res) × MemoryStore Res Request).
          enqueue Res Request q key fresh' now' x.1)
        first
      ∙ (second ∙ sym first)

  enqueue-kept :
      (p : StoredPreview Res Request) (key fresh : String) (now : ℕ) (s : MemoryStore Res Request)
      (o : Option String)
      → IsConsistent s
      → lookup key s.idempotency ≡ o
      → IsConsistent (enqueue Res Request p key fresh now s).1
        × ((enqueue Res Request p key fresh now s).1.previews ≡ s.previews)
  unfolding enqueue get_job
  enqueue-kept p key fresh now s (some id) c e =
      let (r, f) = c key id e in
      let same : enqueue Res Request p key fresh now s ≡ (accepted r, s) =
        rw (e, enqueue) (rw (f, enqueue) refl) in
      subst
        (λ (x : Submitted (JobRecord Res) × MemoryStore Res Request).
          IsConsistent x.1 × (x.1.previews ≡ s.previews))
        (sym same) (c, refl)
  enqueue-kept p key fresh now s none c e =
      let r = new_job Res Request p fresh now s in
      let t = record s {
        jobs = insert fresh r s.jobs;
        idempotency = insert key fresh s.idempotency;
      } in
      let same : enqueue Res Request p key fresh now s ≡ (accepted r, t) = rw (e, enqueue) refl in
      subst
        (λ (x : Submitted (JobRecord Res) × MemoryStore Res Request).
          IsConsistent x.1 × (x.1.previews ≡ s.previews))
        (sym same) (remembered-IsConsistent key fresh r s c, refl)

  submit_job-enqueue :
      (p : StoredPreview Res Request) (id key fresh : String) (now : ℕ)
      (s : MemoryStore Res Request)
      → lookup id s.previews ≡ some p
      → submit_job Res Request true id key fresh now s ≡ enqueue Res Request p key fresh now s
  unfolding submit_job
  submit_job-enqueue p id key fresh now s e = rw (e, submit_job) refl

  -- A confirmed submission of a stored preview to a consistent store is accepted. Under a key that is
  -- known it returns that key's job and changes nothing. Under a new key it makes a queued job with the
  -- score and the version that the preview shows, which can then be read, and changes no other job. The
  -- store stays consistent, and a second submission under the key, of whatever preview and at whatever
  -- time, returns the same job and changes nothing.
  pub submit_job-Submits :
      (p q : StoredPreview Res Request) (id id' key fresh fresh' : String) (now now' : ℕ)
      (s : MemoryStore Res Request)
      → IsConsistent s
      → get_preview Res Request id s ≡ some p
      → get_preview Res Request id' s ≡ some q
      → let t = (submit_job Res Request true id key fresh now s).1 in
        Submits p fresh now
          (lookup key s.idempotency)
          s
          (submit_job Res Request true id key fresh now s)
        × IsConsistent t
        × (submit_job Res Request true id' key fresh' now' t
            ≡ submit_job Res Request true id key fresh now s)
  unfolding get_preview
  submit_job-Submits p q id id' key fresh fresh' now now' s c e f =
      let first = submit_job-enqueue p id key fresh now s e in
      let (kept, previews) = enqueue-kept p key fresh now s (lookup key s.idempotency) c refl in
      let t = (enqueue Res Request p key fresh now s).1 in
      let second : submit_job Res Request true id' key fresh' now' t
          ≡ enqueue Res Request q key fresh' now' t =
        submit_job-enqueue q id' key fresh' now' t (ap (lookup id') previews ∙ f) in
      (
        subst (Submits p fresh now (lookup key s.idempotency) s) (sym first)
            (enqueue-Submits p key fresh now s (lookup key s.idempotency) c refl),
        subst (λ (x : Submitted (JobRecord Res) × MemoryStore Res Request). IsConsistent x.1)
            (sym first) kept,
        ap
              (λ (x : Submitted (JobRecord Res) × MemoryStore Res Request).
                submit_job Res Request true id' key fresh' now' x.1)
              first
            ∙ (second
                ∙ (again p q key fresh fresh' now now' s (lookup key s.idempotency) c refl
                    ∙ sym first)),
      )
