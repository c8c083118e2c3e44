-- ===== src/Gateway/Streaming/Endings.antt =====
-- How streamed answers end (gateway/app/main.py).
use polygate.Prelude.{
  ◌≡◌, refl, sym, ap, ◌∙◌, ◌↔◌, ◌⊎◌, inl, inr, Bool, true, false, List, [], ◌∷◌, ◌++◌, map, keep,
  All, Text, is_some, arith, Bool-cases,
}
use polygate.Gateway.Chunks.{Json, Observation, Observed, went_on, broke, and_observe, consume}
use polygate.Gateway.Decisions.{success, cancelled, partial_error}
use polygate.Gateway.Streaming.{
  Arrival, Finish, ended, raised_error, task_cancelled, generator_closed, Streamed, stop_with,
  outcome_of, forward, is_visible, downstream,
}

module _ (parse : Text → Json) (include_usage : Bool) where
  -- All events consumed, one after the other.
  abbrev pub consume_all : List Arrival → Observation → Observed
  consume_all [] o = went_on o
  consume_all (a ∷ rest) o = and_observe (consume parse a.event o) (consume_all rest)

  abbrev pub events : List Arrival → List Text
  events rest = map (λ (a : Arrival). a.event) rest

  -- What a success takes: the client stayed, the stream came to its end, and its chunks, all valid,
  -- held the end mark and a finish reason.
  abbrev pub IsComplete : List Arrival → Finish → Observation → Type 0
  IsComplete rest finish o =
      All (λ (a : Arrival). a.disconnected ≡ false) rest
      × (finish ≡ ended)
      × ((o' : Observation) × (consume_all rest o ≡ went_on o')
          × (o'.saw_done ≡ true)
          × (is_some o'.finish_reason ≡ true))

  -- Of a part of the events, those that the client is to see.
  abbrev pub Forwards : List Arrival → List Text → Type 0
  Forwards rest forwarded =
      (before : List Text) × (after : List Text) × (events rest ≡ before ++ after)
      × (forwarded ≡ keep (is_visible parse include_usage) before)

  went_on-injective : {o o' : Observation} → went_on o ≡ went_on o' → o ≡ o'
  went_on-injective h = cc

  pub forward-outcome :
      (b : Bool) (e : Text) (s : Streamed)
      → ((forward b e s).outcome ≡ s.outcome) × ((forward b e s).observation ≡ s.observation)
  forward-outcome true e s = (refl, refl)
  forward-outcome false e s = (refl, refl)

  -- The step of the loop over an event that is consumed.
  pub downstream-on :
      (a : Arrival) (rest : List Arrival) (finish : Finish) (o o' : Observation)
      → a.disconnected ≡ false
      → consume parse a.event o ≡ went_on o'
      → downstream parse include_usage (a ∷ rest) finish o
        ≡ forward
            (is_visible parse include_usage a.event)
            a.event
            (downstream parse include_usage rest finish o')
  unfolding downstream
  downstream-on a rest finish o o' h e = rw (h, downstream) (rw (e, downstream) refl)

  downstream-gone :
      (a : Arrival) (rest : List Arrival) (finish : Finish) (o : Observation)
      → a.disconnected ≡ true
      → downstream parse include_usage (a ∷ rest) finish o ≡ stop_with cancelled o
  unfolding downstream
  downstream-gone a rest finish o h = rw (h, downstream) refl

  pub downstream-broke :
      (a : Arrival) (rest : List Arrival) (finish : Finish) (o o' : Observation)
      → a.disconnected ≡ false
      → consume parse a.event o ≡ broke o'
      → downstream parse include_usage (a ∷ rest) finish o ≡ stop_with partial_error o'
  unfolding downstream
  downstream-broke a rest finish o o' h e = rw (h, downstream) (rw (e, downstream) refl)

  pub Observed-cases :
      (x : Observed) → ((o : Observation) × (x ≡ went_on o)) ⊎ ((o : Observation) × (x ≡ broke o))
  Observed-cases (went_on o) = inl (o, refl)
  Observed-cases (broke o) = inr (o, refl)

  outcome_of-success :
      (finish : Finish) (o : Observation) → (outcome_of finish o ≡ success) ↔ IsComplete [] finish o
  outcome_of-success ended o = (
    λ h. (tt, refl, (o, refl, ground arith, ground arith)),
    λ c.
        let (o', e, d, f) = c.2 in
        let same : o ≡ o' = went_on-injective e in rw (same, d) (rw f refl),
  )
  outcome_of-success raised_error o = (λ h. cc, λ c. cc (c.1))
  outcome_of-success task_cancelled o = (λ h. cc, λ c. cc (c.1))
  outcome_of-success generator_closed o = (λ h. cc, λ c. cc (c.1))

  consume_all-on :
      (a : Arrival) (rest : List Arrival) (o o' : Observation)
      → consume parse a.event o ≡ went_on o'
      → consume_all (a ∷ rest) o ≡ consume_all rest o'
  consume_all-on a rest o o' e = rw (e, and_observe) refl

  consume_all-broke :
      (a : Arrival) (rest : List Arrival) (o o' : Observation)
      → consume parse a.event o ≡ broke o'
      → consume_all (a ∷ rest) o ≡ broke o'
  consume_all-broke a rest o o' e = rw (e, and_observe) refl

  -- A streamed answer counts as a success exactly when the client was there at every event, the stream
  -- came to its end, every event was consumed, and they held the end mark and a finish reason.
  pub success_iff :
      (rest : List Arrival) (finish : Finish) (o : Observation)
      → ((downstream parse include_usage rest finish o).outcome ≡ success)
        ↔ IsComplete rest finish o
  unfolding downstream
  success_iff [] finish o = outcome_of-success finish o
  success_iff (a ∷ rest) finish o = elim (Bool-cases a.disconnected) [
    | inl y ↦ (
      λ h.
          let e : cancelled ≡ success =
            ap (λ (s : Streamed). s.outcome) (sym (downstream-gone a rest finish o y)) ∙ h in
          cc,
      λ c. cc (c.0.0, y),
    )
    | inr n ↦ elim (Observed-cases (consume parse a.event o)) [
      | inr (o', e) ↦ (
        λ h.
            let f : partial_error ≡ success =
              ap (λ (s : Streamed). s.outcome) (sym (downstream-broke a rest finish o o' n e))
              ∙ h in
            cc,
        λ c. let (q, f, d, r) = c.2 in cc (sym (consume_all-broke a rest o o' e) ∙ f),
      )
      | inl (o', e) ↦
          let same : (downstream parse include_usage (a ∷ rest) finish o).outcome
              ≡ (downstream parse include_usage rest finish o').outcome =
            ap (λ (s : Streamed). s.outcome) (downstream-on a rest finish o o' n e)
            ∙ (forward-outcome (is_visible parse include_usage a.event) a.event
                (downstream parse include_usage rest finish o')).0 in
          let ih = success_iff rest finish o' in
          (
            λ h.
                let c = ih.0 (sym same ∙ h) in
                let (q, f, d, r) = c.2 in
                ((n, c.0), c.1, (q, consume_all-on a rest o o' e ∙ f, d, r)),
            λ c.
                let (q, f, d, r) = c.2 in
                same ∙ ih.1 (c.0.1, c.1, (q, sym (consume_all-on a rest o o' e) ∙ f, d, r)),
          )
    ]
  ]

  keep_cons :
      (b : Bool) (e : Text) (es : List Text) (s : Streamed)
      → is_visible parse include_usage e ≡ b
      → s.forwarded ≡ keep (is_visible parse include_usage) es
      → (forward b e s).forwarded ≡ keep (is_visible parse include_usage) (e ∷ es)
  keep_cons true e es s h f = rw h (ap (λ xs. e ∷ xs) f)
  keep_cons false e es s h f = rw h f

  -- The client gets the events of a beginning of the stream, in order and unchanged, less those that
  -- only tell the usage if it did not ask for it; after a success that beginning is the whole stream.
  pub downstream-Forwards :
      (rest : List Arrival) (finish : Finish) (o : Observation)
      → (before : List Text) × (after : List Text) × (events rest ≡ before ++ after)
        × ((downstream parse include_usage rest finish o).forwarded
            ≡ keep (is_visible parse include_usage) before)
        × ((downstream parse include_usage rest finish o).outcome ≡ success → after ≡ [])
  unfolding downstream
  downstream-Forwards [] finish o = ([], [], refl, refl, λ h. refl)
  downstream-Forwards (a ∷ rest) finish o = elim (Bool-cases a.disconnected) [
    | inl y ↦
        let e = downstream-gone a rest finish o y in
        (
          [],
          events (a ∷ rest),
          refl,
          ap (λ (s : Streamed). s.forwarded) e,
          λ h. let f : cancelled ≡ success = ap (λ (s : Streamed). s.outcome) (sym e) ∙ h in cc,
        )
    | inr n ↦ elim (Observed-cases (consume parse a.event o)) [
      | inr (o', c) ↦
          let e = downstream-broke a rest finish o o' n c in
          (
            [],
            events (a ∷ rest),
            refl,
            ap (λ (s : Streamed). s.forwarded) e,
            λ h.
                let f : partial_error ≡ success = ap (λ (s : Streamed). s.outcome) (sym e) ∙ h in
                cc,
          )
      | inl (o', c) ↦
          let e = downstream-on a rest finish o o' n c in
          let later = downstream parse include_usage rest finish o' in
          let (before, after, x, y, z) = downstream-Forwards rest finish o' in
          (
            a.event ∷ before,
            after,
            ap (λ es. a.event ∷ es) x,
            ap (λ (s : Streamed). s.forwarded) e
                ∙ keep_cons (is_visible parse include_usage a.event) a.event before later refl y,
            λ h. z (
                sym (
                  ap (λ (s : Streamed). s.outcome) e
                  ∙ (forward-outcome (is_visible parse include_usage a.event) a.event later).0)
                ∙ h),
          )
    ]
  ]
