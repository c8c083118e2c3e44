-- ===== src/Gateway/Sse/Framing.antt =====
-- What the framing of lines as events keeps: `_iter_sse_events` (gateway/app/adapters.py) against
-- `_sse_data_values` (gateway/app/main.py).
use polygate.Prelude.{
  ◌≡◌, refl, sym, ap, subst, ◌∙◌, inl, List, [], ◌∷◌, ◌++◌, append_assoc, append-nil, All, Text,
  IsLine, splitlines, splitlines-line, blank_lines, splitlines-break,
}
use polygate.Gateway.Sse.{
  sse_data_values, values_of, data_value, append_value, flush, frame, emit, events_from,
  iter_sse_events, concat,
}

abbrev pub IsFull : Text → Type 0
IsFull [] = ⊥
IsFull (c ∷ cs) = Unit

-- Lines of one event: none is empty or holds a break.
abbrev pub AreFields : List Text → Type 0
AreFields = All (λ l. IsFull l × IsLine l)

abbrev gather : List Text → List Text → List Text
gather data_lines [] = data_lines
gather data_lines (l ∷ ls) = gather (append_value data_lines (data_value l)) ls

gather-snoc :
    (data_lines ls : List Text) (l : Text)
    → gather data_lines (ls ++ l ∷ []) ≡ append_value (gather data_lines ls) (data_value l)
gather-snoc data_lines [] l = refl
gather-snoc data_lines (m ∷ ms) l = gather-snoc (append_value data_lines (data_value m)) ms l

pub fields-snoc :
    (ls : List Text) (l : Text) → AreFields ls → IsFull l → IsLine l → AreFields (ls ++ l ∷ [])
fields-snoc [] l h f g = ((f, g), tt)
fields-snoc (m ∷ ms) l (a, b) f g = (a, fields-snoc ms l b f g)

-- The lines of a frame are those it was made of, and an empty one.
splitlines-frame :
    (l : Text) (ls : List Text) (rest : Text)
    → AreFields (l ∷ ls)
    → splitlines (frame (l ∷ ls) ++ rest) ≡ (l ∷ ls) ++ [] ∷ splitlines rest
splitlines-frame l [] rest (a, b) =
    ap splitlines (append_assoc l (b'\n' ∷ b'\n' ∷ []) rest)
    ∙ splitlines-line l (b'\n' ∷ b'\n' ∷ rest) ([] ∷ splitlines rest) (blank_lines rest) a.1
splitlines-frame l (m ∷ ms) rest (a, b) =
    ap splitlines (simp append_assoc)
    ∙ splitlines-line l (b'\n' ∷ (frame (m ∷ ms) ++ rest)) ((m ∷ ms) ++ [] ∷ splitlines rest)
        (splitlines-break b'\n' (frame (m ∷ ms) ++ rest) (inl refl)
          ∙ ap (λ ls. [] ∷ ls) (splitlines-frame m ms rest b))
        a.1

-- Reading the lines of one event.
values_of-fields :
    (ls more data_lines : List Text)
    → AreFields ls
    → values_of (ls ++ [] ∷ more) data_lines ≡ flush (gather data_lines ls) (values_of more [])
unfolding values_of
values_of-fields [] more data_lines h = refl
values_of-fields ([] ∷ ls) more data_lines h = absurd h.0.0
values_of-fields ((c ∷ cs) ∷ ls) more data_lines h =
    values_of-fields ls more (append_value data_lines (data_value (c ∷ cs))) h.1

-- Reading a frame, and what follows it.
values_of-frame :
    (l : Text) (ls : List Text) (rest : Text)
    → AreFields (l ∷ ls)
    → sse_data_values (frame (l ∷ ls) ++ rest) ≡ flush (gather [] (l ∷ ls)) (sse_data_values rest)
unfolding sse_data_values
values_of-frame l ls rest h =
    ap (λ x. values_of x []) (splitlines-frame l ls rest h)
    ∙ values_of-fields (l ∷ ls) (splitlines rest) [] h

abbrev pub read_each : List Text → List Text
read_each [] = []
read_each (e ∷ es) = sse_data_values e ++ read_each es

flush-append :
    (data_lines xs ys : List Text) → flush data_lines xs ++ ys ≡ flush data_lines (xs ++ ys)
flush-append [] xs ys = refl
flush-append (d ∷ ds) xs ys = refl

-- An event is read by itself as among others.
read_each-frame :
    (l : Text) (ls events : List Text)
    → AreFields (l ∷ ls)
    → read_each (frame (l ∷ ls) ∷ events) ≡ flush (gather [] (l ∷ ls)) (read_each events)
unfolding sse_data_values values_of splitlines
read_each-frame l ls events h =
    ap (λ t. sse_data_values t ++ read_each events) (sym (append-nil (frame (l ∷ ls))))
    ∙ (ap (λ vs. vs ++ read_each events) (values_of-frame l ls [] h)
        ∙ flush-append (gather [] (l ∷ ls)) [] (read_each events))

abbrev pub Agrees : List Text → List Text → Type 0
Agrees events values = (read_each events ≡ values) × (sse_data_values (concat events) ≡ values)

emit-Agrees :
    (pending events values : List Text)
    → AreFields pending
    → Agrees events values
    → Agrees (emit pending events) (flush (gather [] pending) values)
emit-Agrees [] events values h g = g
emit-Agrees (l ∷ ls) events values h (a, b) = (
  read_each-frame l ls events h ∙ ap (flush (gather [] (l ∷ ls))) a,
  values_of-frame l ls (concat events) h ∙ ap (flush (gather [] (l ∷ ls))) b,
)

none-Agrees : Agrees [] []
unfolding sse_data_values values_of splitlines
none-Agrees = (refl, refl)

events_from-Agrees :
    (lines pending : List Text)
    → All IsLine lines
    → AreFields pending
    → Agrees (events_from lines pending) (values_of lines (gather [] pending))
unfolding events_from values_of
events_from-Agrees [] pending h f = emit-Agrees pending [] [] f none-Agrees
events_from-Agrees ([] ∷ lines) pending (a, b) f =
    emit-Agrees pending (events_from lines []) (values_of lines []) f
      (events_from-Agrees lines [] b tt)
events_from-Agrees ((c ∷ cs) ∷ lines) pending (a, b) f =
    subst (λ d. Agrees (events_from lines (pending ++ (c ∷ cs) ∷ [])) (values_of lines d))
      (gather-snoc [] pending (c ∷ cs))
      (events_from-Agrees lines (pending ++ (c ∷ cs) ∷ []) b (fields-snoc pending (c ∷ cs) f tt a))

-- Whatever lines a provider sends, the events that they are framed in hold the values of those lines,
-- whether the events are read one by one or joined to one piece of bytes, as the first events are.
pub iter_sse_events-Agrees :
    (lines : List Text) → All IsLine lines → Agrees (iter_sse_events lines) (values_of lines [])
unfolding iter_sse_events
iter_sse_events-Agrees lines h = events_from-Agrees lines [] h tt

-- An event that is read by itself whatever follows it.
abbrev pub IsWhole : Text → Type 0
IsWhole e = (rest : Text) → sse_data_values (e ++ rest) ≡ sse_data_values e ++ sse_data_values rest

frame-IsWhole : (l : Text) (ls : List Text) → AreFields (l ∷ ls) → IsWhole (frame (l ∷ ls))
unfolding sse_data_values splitlines
frame-IsWhole l ls h rest =
    let alone : sse_data_values (frame (l ∷ ls)) ≡ flush (gather [] (l ∷ ls)) [] =
      ap sse_data_values (sym (append-nil (frame (l ∷ ls)))) ∙ values_of-frame l ls [] h in
    values_of-frame l ls rest h
    ∙ (sym (flush-append (gather [] (l ∷ ls)) [] (sse_data_values rest))
        ∙ ap (λ vs. vs ++ sse_data_values rest) (sym alone))

pub emit-AreWhole :
    (pending events : List Text)
    → AreFields pending
    → All IsWhole events
    → All IsWhole (emit pending events)
emit-AreWhole [] events f h = h
emit-AreWhole (l ∷ ls) events f h = (frame-IsWhole l ls f, h)

events_from-AreWhole :
    (lines pending : List Text)
    → All IsLine lines
    → AreFields pending
    → All IsWhole (events_from lines pending)
unfolding events_from
events_from-AreWhole [] pending h f = emit-AreWhole pending [] f tt
events_from-AreWhole ([] ∷ lines) pending (a, b) f =
    emit-AreWhole pending (events_from lines []) f (events_from-AreWhole lines [] b tt)
events_from-AreWhole ((c ∷ cs) ∷ lines) pending (a, b) f =
    events_from-AreWhole lines (pending ++ (c ∷ cs) ∷ []) b (fields-snoc pending (c ∷ cs) f tt a)

pub iter_sse_events-AreWhole :
    (lines : List Text) → All IsLine lines → All IsWhole (iter_sse_events lines)
unfolding iter_sse_events
iter_sse_events-AreWhole lines h = events_from-AreWhole lines [] h tt

-- Events that are joined before others come are read as they are one by one.
pub read_joined :
    (es more : List Text)
    → All IsWhole (es ++ more)
    → sse_data_values (concat es) ++ read_each more ≡ read_each (es ++ more)
unfolding sse_data_values values_of splitlines
read_joined [] more h = refl
read_joined (e ∷ es) more (a, b) =
    ap (λ vs. vs ++ read_each more) (a (concat es))
    ∙ (append_assoc (sse_data_values e) (sse_data_values (concat es)) (read_each more)
        ∙ ap (λ vs. sse_data_values e ++ vs) (read_joined es more b))
