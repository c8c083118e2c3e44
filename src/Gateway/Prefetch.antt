-- ===== src/Gateway/Prefetch.antt =====
-- Opening a stream at a provider and reading ahead to its first chunk: `open_provider_stream`
-- (gateway/app/adapters.py), behind the request that is sent. The response is what it holds.
use polygate.Prelude.{
  ℕ, zero, suc, ◌+◌, ◌*◌, ◌≤◌, ◌<◌, ◌≡◌, refl, sym, ap, ◌∙◌, subst, inl, inr, Bool, true, Option,
  none, some, List, [], ◌∷◌, ◌++◌, append_assoc, append-nil, All, length, Text, IsLine, ltb, arith,
  if◌then◌else◌, Bool-cases, Option-cases,
}
use polygate.Gateway.Sse.{iter_sse_events, emit, concat, values_of, sse_data_values}
use polygate.Gateway.Sse.Framing.{
  read_each, IsWhole, AreFields, emit-AreWhole, fields-snoc, iter_sse_events-Agrees,
  iter_sse_events-AreWhole, read_joined,
}
use polygate.Gateway.Chunks.{Json, Completion, prelude, completion, invalid, is_completion_event}
use polygate.Gateway.Retry.{Failure, protocol, status}

-- How the lines of a response end: at the end of the body, or by an error of the connection.
pub data Ending : Type 0 where
  finished : Ending
  dropped : Failure → Ending

-- A response: its status, if it is an error, with the seconds of Retry-After; whether it is an event
-- stream; and its lines.
pub record Upstream : Type 0 where
  pub error_status : Option (ℕ × Option ℕ)
  pub is_event_stream : Bool
  pub lines : List Text
  pub ending : Ending

-- An opened stream, with its first event and those that remain; or a failure, and whether the
-- response was closed.
pub data Opening : Type 0 where
  opened : Text → List Text → Opening
  not_opened : Failure → Bool → Opening

-- The bytes of a code point in UTF-8, and of a text.
abbrev pub utf8_length : ℕ → ℕ
utf8_length c = if ltb c 0x80 then 1 else if ltb c 0x800 then 2 else if ltb c 0x10000 then 3 else 4

unfoldable pub byte_length : Text → ℕ
byte_length [] = 0
byte_length (c ∷ cs) = utf8_length c + byte_length cs

-- The events that come before the connection is lost: lines of an event that was not ended do not.
unfoldable pub events_before_loss : List Text → List Text → List Text
events_before_loss [] pending = []
events_before_loss ([] ∷ lines) pending = emit pending (events_before_loss lines [])
events_before_loss ((c ∷ cs) ∷ lines) pending = events_before_loss lines (pending ++ (c ∷ cs) ∷ [])

abbrev pub events_of : Ending → List Text → List Text
events_of finished lines = iter_sse_events lines
events_of (dropped e) lines = events_before_loss lines []

-- `StopAsyncIteration` is a `ProviderProtocolError`.
abbrev pub loss : Ending → Failure
loss finished = protocol
loss (dropped e) = e

module _ (parse : Text → Json) where
  -- The loop over the first events, with the rounds that are left, the bytes read and the events.
  unfoldable pub prefetch : Ending → ℕ → ℕ → List Text → List Text → Opening
  unfolding byte_length
  prefetch ending zero size got events = not_opened protocol true
  prefetch ending (suc rounds) size got [] = not_opened (loss ending) true
  prefetch ending (suc rounds) size got (e ∷ es) =
      let rest = prefetch ending rounds (size + byte_length e) (got ++ e ∷ []) es in
      if ltb (64 * 1024) (size + byte_length e)
      then not_opened protocol true
      else elim (is_completion_event parse e) [
        | prelude ↦ rest
        | completion ↦ opened (concat (got ++ e ∷ [])) es
        | invalid ↦ not_opened protocol true
      ]

  -- `open_provider_stream`, from the response on.
  unfoldable pub open_provider_stream : Upstream → Opening
  unfolding prefetch
  open_provider_stream r = elim r.error_status [
    | some (code, after) ↦ not_opened (status code after) true
    | none ↦
        if r.is_event_stream
        then prefetch r.ending 32 0 [] (events_of r.ending r.lines)
        else not_opened protocol true
  ]

  -- What an opening has read: the events before the first chunk and the chunk, joined, in their
  -- bounds; and every failure leaves the response closed.
  abbrev pub Opens : ℕ → ℕ → List Text → List Text → Opening → Type 0
  Opens rounds size got events (not_opened e closed) = closed ≡ true
  Opens rounds size got events (opened first rest) =
      (before : List Text) × (chunk : Text) × (events ≡ before ++ chunk ∷ rest)
      × (first ≡ concat (got ++ (before ++ chunk ∷ [])))
      × All (λ e. is_completion_event parse e ≡ prelude) before
      × (is_completion_event parse chunk ≡ completion)
      × (length before < rounds)
      × (size + byte_length (concat (before ++ chunk ∷ [])) ≤ 65536)

  events_before_loss-AreWhole :
      (lines pending : List Text)
      → All IsLine lines
      → AreFields pending
      → All IsWhole (events_before_loss lines pending)
  unfolding events_before_loss
  events_before_loss-AreWhole [] pending h f = tt
  events_before_loss-AreWhole ([] ∷ lines) pending (a, b) f =
      emit-AreWhole pending (events_before_loss lines []) f
        (events_before_loss-AreWhole lines [] b tt)
  events_before_loss-AreWhole ((c ∷ cs) ∷ lines) pending (a, b) f =
      events_before_loss-AreWhole lines (pending ++ (c ∷ cs) ∷ []) b
        (fields-snoc pending (c ∷ cs) f tt a)

  events_of-AreWhole :
      (ending : Ending) (lines : List Text)
      → All IsLine lines
      → All IsWhole (events_of ending lines)
  events_of-AreWhole finished lines h = iter_sse_events-AreWhole lines h
  events_of-AreWhole (dropped e) lines h = events_before_loss-AreWhole lines [] h tt

  byte_length-append : (s t : Text) → byte_length (s ++ t) ≡ byte_length s + byte_length t
  unfolding byte_length
  byte_length-append [] t = omega arith
  byte_length-append (c ∷ cs) t = omega (arith, byte_length-append cs t)

  -- A further event before the first chunk.
  further :
      (rounds size : ℕ) (got : List Text) (e : Text) (es : List Text) (o : Opening)
      → is_completion_event parse e ≡ prelude
      → Opens rounds (size + byte_length e) (got ++ e ∷ []) es o
      → Opens (suc rounds) size got (e ∷ es) o
  further rounds size got e es (not_opened why closed) p h = h
  further rounds size got e es (opened first rest) p (before, chunk, a, b, c, d, n, m) = (
    e ∷ before,
    chunk,
    ap (λ xs. e ∷ xs) a,
    b ∙ ap concat (append_assoc got (e ∷ []) (before ++ chunk ∷ [])),
    (p, c),
    d,
    omega arith,
    omega (arith, byte_length-append e (concat (before ++ chunk ∷ []))),
  )

  read_event :
      (rounds size : ℕ) (got : List Text) (e : Text) (es : List Text) (o : Opening)
      → Opens rounds (size + byte_length e) (got ++ e ∷ []) es o
      → size + byte_length e ≤ 65536
      → (c : Completion) → is_completion_event parse e ≡ c
      → Opens (suc rounds) size got (e ∷ es) (elim c [
        | prelude ↦ o
        | completion ↦ opened (concat (got ++ e ∷ [])) es
        | invalid ↦ not_opened protocol true
      ])
  read_event rounds size got e es o h m prelude p = further rounds size got e es o p h
  read_event rounds size got e es o h m completion p =
      ([], e, refl, refl, tt, p, omega arith, omega (arith, ap byte_length (append-nil e)))
  read_event rounds size got e es o h m invalid p = refl

  prefetch-Opens :
      (ending : Ending) (rounds size : ℕ) (got events : List Text)
      → Opens rounds size got events (prefetch ending rounds size got events)
  unfolding prefetch
  prefetch-Opens ending zero size got events = refl
  prefetch-Opens ending (suc rounds) size got [] = refl
  prefetch-Opens ending (suc rounds) size got (e ∷ es) =
      elim (Bool-cases (ltb (64 * 1024) (size + byte_length e))) [
        | inl y ↦ rw y refl
        | inr n ↦ rw n (
            read_event rounds size got e es
              (prefetch ending rounds (size + byte_length e) (got ++ e ∷ []) es)
              (prefetch-Opens ending rounds (size + byte_length e) (got ++ e ∷ []) es)
              (ground arith) (is_completion_event parse e) refl)
      ]

  -- What an opening of a response says of it.
  abbrev pub Keeps : Upstream → Opening → Type 0
  Keeps r (not_opened e closed) = closed ≡ true
  Keeps r (opened first rest) =
      (r.error_status ≡ none)
      × (r.is_event_stream ≡ true)
      × Opens 32 0 [] (events_of r.ending r.lines) (opened first rest)
      × (sse_data_values first ++ read_each rest ≡ read_each (events_of r.ending r.lines))
      × (r.ending ≡ finished → sse_data_values first ++ read_each rest ≡ values_of r.lines [])

  kept :
      (r : Upstream) (o : Opening)
      → All IsLine r.lines
      → r.error_status ≡ none
      → r.is_event_stream ≡ true
      → Opens 32 0 [] (events_of r.ending r.lines) o
      → Keeps r o
  kept r (not_opened e closed) h n y g = g
  kept r (opened first rest) h n y g =
      let all : All IsWhole (g.0 ++ g.1 ∷ rest) =
        subst (All IsWhole) g.2 (events_of-AreWhole r.ending r.lines h) in
      let all' : All IsWhole ((g.0 ++ g.1 ∷ []) ++ rest) =
        subst (All IsWhole) (sym (append_assoc g.0 (g.1 ∷ []) rest)) all in
      let same : sse_data_values first ++ read_each rest ≡ read_each (events_of r.ending r.lines) =
        ap (λ t. sse_data_values t ++ read_each rest) g.3
        ∙ (read_joined (g.0 ++ g.1 ∷ []) rest all'
            ∙ ap read_each (append_assoc g.0 (g.1 ∷ []) rest ∙ sym g.2)) in
      (
        n,
        y,
        g,
        same,
        λ f.
            same
            ∙ (ap (λ x. read_each (events_of x r.lines)) f ∙ (iter_sse_events-Agrees r.lines h).0),
      )

  -- Opening a stream, for every response whose lines hold no line breaks. If it is opened, then the
  -- response is a good event stream, at most 32 events and 64 KiB are read ahead, of which the last,
  -- and only that, is a chunk with choices, and the values in the first event and those that remain
  -- are the values of all events that arrive; when the body comes to its end, they are those of all
  -- its lines. If it is not opened, the response is closed.
  pub open_provider_stream-Keeps :
      (r : Upstream) → All IsLine r.lines → Keeps r (open_provider_stream r)
  unfolding open_provider_stream
  open_provider_stream-Keeps r h = elim (Option-cases r.error_status) [
    | inr (p, e) ↦ rw (e, open_provider_stream) refl
    | inl n ↦ elim (Bool-cases r.is_event_stream) [
      | inr m ↦ rw (n, open_provider_stream) (rw (m, Keeps) refl)
      | inl y ↦ subst (Keeps r) (rw (n, open_provider_stream) (rw y refl)) (
          kept r (prefetch r.ending 32 0 [] (events_of r.ending r.lines)) h n y
            (prefetch-Opens r.ending 32 0 [] (events_of r.ending r.lines)))
    ]
  ]
