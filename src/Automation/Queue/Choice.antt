-- ===== src/Automation/Queue/Choice.antt =====
-- Which of the candidates a claim chooses.
use polygate.Prelude.{
  ℕ, ◌+◌, ◌-◌, ◌≤◌, ◌≡◌, refl, sym, ap, ◌∙◌, subst, ◌⊎◌, inl, inr, Bool, true, false, none, some,
  List, [], ◌∷◌, String, leb, arith, In, In-keep, keep-In, keep, Bool-cases, Option-cases, mem_text,
  str_eq, str_eq_refl, str_eq_iff,
}
use polygate.Automation.Redis.{Strings, Sets, SortedSets}
use polygate.Automation.Jobs.{QueuePolicy, queued, JobRecord, is_queued, waiting_bonus}
use polygate.Automation.Queue.{Store}
use polygate.Automation.Queue.Claim.{
  Candidate, candidates, candidate_of, max_by, waits_longer, goes_first, first_in_line,
  longest_starved, is_starved, choose,
}

module _ (Res Payload : Type 0) (jobs : Strings (JobRecord Res)) (payloads : Strings Payload)
    (ids : Strings String) (sets : Sets) (sorted : SortedSets) where
  abbrev pub Cand : Type 0
  Cand = Candidate Res Payload jobs payloads ids sets sorted

  -- What a claim finds of a pending job.
  abbrev pub IsFound :
      QueuePolicy → ℕ → Store Res Payload jobs payloads ids sets sorted → Cand → Type 0
  IsFound q now s c =
      (jobs.get c.id s.job ≡ some c.record_of)
      × (c.record_of.status ≡ queued)
      × (c.waited ≡ now - c.record_of.created_at)
      × (c.effective_priority ≡ c.record_of.initial_score + waiting_bonus c.waited q)

  is_queued-eq : (r : JobRecord Res) → is_queued r.status ≡ true → r.status ≡ queued
  is_queued-eq r h = ground arith

  pub candidates-IsFound :
      (q : QueuePolicy) (now : ℕ) (waiting : List String)
      (s : Store Res Payload jobs payloads ids sets sorted) (c : Cand)
      → In c (candidates Res Payload jobs payloads ids sets sorted q now waiting s)
      → IsFound q now s c × (mem_text c.id waiting ≡ true)
  unfolding candidates
  candidates-IsFound q now [] s c i = absurd i
  candidates-IsFound q now (id ∷ rest) s c i = elim (Option-cases (jobs.get id s.job)) [
    | inl e ↦
        let (f, m) = candidates-IsFound q now rest s c (subst (In c) (no_record e) i) in
        (f, ground arith)
    | inr (r, e) ↦ elim (Bool-cases (is_queued r.status)) [
      | inl y ↦ elim (subst (In c) (is_candidate e y) i) [
        | inl same ↦
            subst (λ (x : Cand). IsFound q now s x × (mem_text x.id (id ∷ rest) ≡ true)) (sym same)
              ((e, is_queued-eq r y, refl, refl), ground (arith, str_eq_refl id))
        | inr j ↦ let (f, m) = candidates-IsFound q now rest s c j in (f, ground arith)
      ]
      | inr n ↦
          let (f, m) = candidates-IsFound q now rest s c (subst (In c) (not_candidate e n) i) in
          (f, ground arith)
    ]
  ]
    where
      more : List Cand
      more = candidates Res Payload jobs payloads ids sets sorted q now rest s

      all : List Cand
      all = candidates Res Payload jobs payloads ids sets sorted q now (id ∷ rest) s

      no_record : jobs.get id s.job ≡ none → all ≡ more
      no_record e = rw (e, candidates) refl

      is_candidate :
          {r : JobRecord Res}
          → jobs.get id s.job ≡ some r
          → is_queued r.status ≡ true
          → all ≡ candidate_of Res Payload jobs payloads ids sets sorted q now id r ∷ more
      is_candidate e y = rw (e, candidates) (rw (y, candidates) refl)

      not_candidate :
          {r : JobRecord Res} → jobs.get id s.job ≡ some r → is_queued r.status ≡ false → all ≡ more
      not_candidate e y = rw (e, candidates) (rw (y, candidates) refl)

  -- Every number that is looked at and whose job is queued gives a candidate.
  pub candidates-complete :
      (q : QueuePolicy) (now : ℕ) (waiting : List String)
      (s : Store Res Payload jobs payloads ids sets sorted) (id : String) (r : JobRecord Res)
      → mem_text id waiting ≡ true
      → jobs.get id s.job ≡ some r
      → is_queued r.status ≡ true
      → In
          (candidate_of Res Payload jobs payloads ids sets sorted q now id r)
          (candidates Res Payload jobs payloads ids sets sorted q now waiting s)
  unfolding candidates
  candidates-complete q now [] s id r m e y = cc
  candidates-complete q now (x ∷ rest) s id r m e y = elim (Bool-cases (str_eq x id)) [
    | inl same ↦
        let f : jobs.get x s.job ≡ some r =
          ap (λ k. jobs.get k s.job) ((str_eq_iff x id).0 same) ∙ e in
        rw (f, candidates)
          (rw (y, candidates)
            (inl (
              ap (λ k. candidate_of Res Payload jobs payloads ids sets sorted q now k r)
                (sym ((str_eq_iff x id).0 same)))))
    | inr n ↦
        let other : str_eq id x ≡ false = ground (arith, str_eq_iff x id, str_eq_iff id x) in
        let i = candidates-complete q now rest s id r (ground arith) e y in
        elim (Option-cases (jobs.get x s.job)) [
          | inl g ↦ rw (g, candidates) i
          | inr (r', g) ↦ elim (Bool-cases (is_queued r'.status)) [
            | inl z ↦ rw (g, candidates) (rw (z, candidates) (inr i))
            | inr z ↦ rw (g, candidates) (rw (z, candidates) i)
          ]
        ]
  ]

  module _ (above : Cand → Cand → Bool)
      (not_above : (a b c : Cand) → above a b ≡ false → above b c ≡ false → above a c ≡ false)
      (asym : (a b : Cand) → above a b ≡ true → above b a ≡ false)
      (irrefl : (a : Cand) → above a a ≡ false) where
    abbrev best_of : Cand → List Cand → Cand
    best_of = max_by Res Payload jobs payloads ids sets sorted above

    abbrev IsTop : List Cand → Cand → Type 0
    IsTop cs m = In m cs × ((d : Cand) → In d cs → above d m ≡ false)

    max_by-lem : (best : Cand) (cs : List Cand) → IsTop (best ∷ cs) (best_of best cs)
    unfolding max_by
    max_by-lem best [] = (inl refl, λ d i. elim i [ inl e ↦ rw e (irrefl best) | inr j ↦ absurd j ])
    max_by-lem best (c ∷ cs) = elim (Bool-cases (above c best)) [
      | inl y ↦
          let (i, m) = max_by-lem c cs in
          let low : above best (best_of c cs) ≡ false =
            not_above best c (best_of c cs) (asym c best y) (m c (inl refl)) in
          let same : best_of best (c ∷ cs) ≡ best_of c cs = rw (y, max_by) refl in
          subst (IsTop (best ∷ c ∷ cs)) (sym same) (
            inr i,
            λ d j. elim j [
              | inl e ↦ subst (λ x. above x (best_of c cs) ≡ false) (sym e) low
              | inr k ↦ m d k
            ],
          )
      | inr n ↦
          let (i, m) = max_by-lem best cs in
          let low : above c (best_of best cs) ≡ false =
            not_above c best (best_of best cs) n (m best (inl refl)) in
          let same : best_of best (c ∷ cs) ≡ best_of best cs = rw (n, max_by) refl in
          subst (IsTop (best ∷ c ∷ cs)) (sym same) (
            elim i [ inl e ↦ inl e | inr k ↦ inr (inr k) ],
            λ d j. elim j [
              | inl e ↦ m d (inl e)
              | inr k ↦ elim k [
                | inl e ↦ subst (λ x. above x (best_of best cs) ≡ false) (sym e) low
                | inr l ↦ m d (inr l)
              ]
            ],
          )
    ]

  -- No candidate goes before the first in line.
  first_in_line-lem :
      (cs : List Cand) (c : Cand)
      → first_in_line Res Payload jobs payloads ids sets sorted cs ≡ some c
      → In c cs
        × ((d : Cand) → In d cs → goes_first Res Payload jobs payloads ids sets sorted d c ≡ false)
  first_in_line-lem [] c h = cc
  first_in_line-lem (x ∷ xs) c h =
      let e : max_by Res Payload jobs payloads ids sets sorted
            (goes_first Res Payload jobs payloads ids sets sorted) x xs
          ≡ c =
        cc in
      subst
        (λ (y : Cand).
          In y (x ∷ xs)
          × ((d : Cand)
              → In d (x ∷ xs)
              → goes_first Res Payload jobs payloads ids sets sorted d y ≡ false))
        e
        (max_by-lem (goes_first Res Payload jobs payloads ids sets sorted)
          (λ a b c h k. ground arith) (λ a b h. ground arith) (λ a. ground arith) x xs)

  longest_starved-lem :
      (cs : List Cand) (c : Cand)
      → longest_starved Res Payload jobs payloads ids sets sorted cs ≡ some c
      → In c cs × ((d : Cand) → In d cs → d.waited ≤ c.waited)
  longest_starved-lem [] c h = cc
  longest_starved-lem (x ∷ xs) c h =
      let e : max_by Res Payload jobs payloads ids sets sorted
            (waits_longer Res Payload jobs payloads ids sets sorted) x xs
          ≡ c =
        cc in
      let (i, m) =
        max_by-lem (waits_longer Res Payload jobs payloads ids sets sorted)
          (λ a b c h k. ground arith) (λ a b h. ground arith) (λ a. ground arith) x xs in
      subst (λ (y : Cand). In y (x ∷ xs) × ((d : Cand) → In d (x ∷ xs) → d.waited ≤ y.waited)) e
        (i, λ d j. let n = m d j in ground arith)

  -- The rule of a claim: behind a long enough streak of urgent jobs a starved candidate, the one that
  -- has waited longest; otherwise one with the highest effective priority, of these one created first.
  abbrev pub IsRightChoice : QueuePolicy → ℕ → List Cand → Cand → Type 0
  IsRightChoice q streak cs c =
      In c cs
      × (((q.starvation_streak_threshold ≤ streak)
            × (is_starved Res Payload jobs payloads ids sets sorted q c ≡ true)
            × ((d : Cand)
                → In d cs
                → is_starved Res Payload jobs payloads ids sets sorted q d ≡ true
                → d.waited ≤ c.waited))
          ⊎ (((q.starvation_streak_threshold ≤ streak
                → (d : Cand) → In d cs
                → is_starved Res Payload jobs payloads ids sets sorted q d ≡ false))
              × ((d : Cand)
                  → In d cs
                  → goes_first Res Payload jobs payloads ids sets sorted d c ≡ false)))

  none_starved :
      (p : Cand → Bool) (cs : List Cand)
      → longest_starved Res Payload jobs payloads ids sets sorted (keep p cs) ≡ none
      → (d : Cand) → In d cs
      → p d ≡ false
  none_starved p cs h d i = elim (Bool-cases (p d)) [
    | inr n ↦ n
    | inl y ↦ absurd (nobody (keep p cs) h d (keep-In p d cs i y))
  ]
    where
      nobody :
          (xs : List Cand)
          → longest_starved Res Payload jobs payloads ids sets sorted xs ≡ none
          → (d : Cand) → In d xs
          → ⊥
      nobody [] h d i = i
      nobody (x ∷ xs) h d i = cc

  -- A choice follows the rule of a claim.
  pub choose-IsRightChoice :
      (q : QueuePolicy) (streak : ℕ) (cs : List Cand) (c : Cand)
      → choose Res Payload jobs payloads ids sets sorted q streak cs ≡ some c
      → IsRightChoice q streak cs c
  unfolding choose
  choose-IsRightChoice q streak cs c h =
      elim (Bool-cases (leb q.starvation_streak_threshold streak)) [
        | inr n ↦
            let k : first_in_line Res Payload jobs payloads ids sets sorted cs ≡ some c =
              rw n at h in
            let (i, m) = first_in_line-lem cs c k in (i, inr (λ l. absurd (ground arith), m))
        | inl y ↦
            elim (Option-cases (
              longest_starved Res Payload jobs payloads ids sets sorted
                (keep (is_starved Res Payload jobs payloads ids sets sorted q) cs))) [
                  | inl e ↦
                      let k : first_in_line Res Payload jobs payloads ids sets sorted cs ≡ some c =
                        rw e at (rw y at h) in
                      let (i, m) = first_in_line-lem cs c k in
                      (
                        i,
                        inr (
                          λ l.
                              none_starved (is_starved Res Payload jobs payloads ids sets sorted q)
                                cs e,
                          m,
                        ),
                      )
                  | inr (x, e) ↦
                      let k : some x ≡ some c = rw e at (rw y at h) in
                      let same : x ≡ c = cc in
                      let (i, m) =
                        longest_starved-lem
                          (keep (is_starved Res Payload jobs payloads ids sets sorted q) cs) x e in
                      let (j, t) =
                        In-keep (is_starved Res Payload jobs payloads ids sets sorted q) x cs i in
                      subst (IsRightChoice q streak cs) same (
                        j,
                        inl (
                          ground arith,
                          t,
                          λ d k s. m d (
                              keep-In (is_starved Res Payload jobs payloads ids sets sorted q) d cs
                                k s),
                        ),
                      )
                ]
      ]

  nobody_first :
      (cs : List Cand) → first_in_line Res Payload jobs payloads ids sets sorted cs ≡ none → cs ≡ []
  nobody_first [] h = refl
  nobody_first (c ∷ cs) h = cc

  pub choose-none :
      (q : QueuePolicy) (streak : ℕ) (cs : List Cand)
      → choose Res Payload jobs payloads ids sets sorted q streak cs ≡ none
      → cs ≡ []
  unfolding choose
  choose-none q streak cs h = elim (Bool-cases (leb q.starvation_streak_threshold streak)) [
    | inr n ↦ nobody_first cs (rw n at h)
    | inl y ↦
        elim (Option-cases (
          longest_starved Res Payload jobs payloads ids sets sorted
            (keep (is_starved Res Payload jobs payloads ids sets sorted q) cs))) [
              | inl e ↦ nobody_first cs (rw e at (rw y at h))
              | inr (x, e) ↦ let k : some x ≡ none = rw e at (rw y at h) in cc
            ]
  ]
