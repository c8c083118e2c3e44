-- ===== src/Gateway/Sse/RoundTrip.antt =====
-- What `_data_event` (gateway/app/adapters.py) writes and `_sse_data_values` (gateway/app/main.py) reads.
use polygate.Prelude.{
  ℕ, ◌≡◌, refl, ap, ◌∙◌, ◌⊎◌, inr, none, List, [], ◌∷◌, ◌++◌, map, append_assoc, All, Text, codes,
  is_line_break, IsLine, splitlines, splitlines-line, blank_lines, splitlines-break, strip,
  after_prefix,
}
use polygate.Gateway.Sse.{sse_data_values, values_of, data_event, data_value, concat}

-- A field with a text on one line, and what follows its event.
read_field :
    (s : Text) (more : List Text)
    → values_of ((codes "data: " ++ s) ∷ [] ∷ more) [] ≡ strip s ∷ values_of more []
unfolding values_of
read_field s more = refl

header-IsLine : (s : Text) → IsLine s → IsLine (codes "data: " ++ s)
unfolding is_line_break
header-IsLine s h = (refl, (refl, (refl, (refl, (refl, (refl, h))))))

lines_of_event :
    (s rest : Text)
    → IsLine s
    → splitlines (data_event s ++ rest) ≡ (codes "data: " ++ s) ∷ [] ∷ splitlines rest
lines_of_event s rest h =
    ap (λ t. splitlines (codes "data: " ++ t)) (append_assoc s (b'\n' ∷ b'\n' ∷ []) rest)
    ∙ splitlines-line (codes "data: " ++ s) (b'\n' ∷ b'\n' ∷ rest) ([] ∷ splitlines rest)
        (blank_lines rest) (header-IsLine s h)

-- Any texts without line breaks that are written as events, one after the other, are read again,
-- each once, in order, and without the spaces at its ends.
pub sse_data_values-data_event :
    (texts : List Text)
    → All IsLine texts
    → sse_data_values (concat (map data_event texts)) ≡ map strip texts
unfolding sse_data_values values_of splitlines
sse_data_values-data_event [] h = refl
sse_data_values-data_event (s ∷ texts) (a, b) =
    ap (λ ls. values_of ls []) (lines_of_event s (concat (map data_event texts)) a)
    ∙ (read_field s (splitlines (concat (map data_event texts)))
        ∙ ap (λ vs. strip s ∷ vs) (sse_data_values-data_event texts b))

-- A separator at which lines end, though JSON text may hold it as it is: U+0085, U+2028 and U+2029.
abbrev pub IsSeparator : ℕ → Type 0
IsSeparator c = (c ≡ 0x85) ⊎ (c ≡ 0x2028) ⊎ (c ≡ 0x2029)

-- What is read of an event whose text has a part behind a separator.
read_cut :
    (a b : Text)
    → after_prefix (codes "data:") b ≡ none
    → values_of ((codes "data: " ++ a) ∷ b ∷ [] ∷ []) [] ≡ strip a ∷ []
unfolding values_of data_value
read_cut a [] h = refl
read_cut a (c ∷ cs) h = rw (h, data_value) refl

-- When the serialised object holds one of the separators U+0085, U+2028 and U+2029, as it does when
-- an answer holds one, its event is read as the part before the separator alone, unless the part
-- behind it starts with "data:".
pub separator_cuts :
    (a b : Text) (c : ℕ)
    → IsLine a
    → IsLine b
    → IsSeparator c
    → after_prefix (codes "data:") b ≡ none
    → sse_data_values (data_event (a ++ c ∷ b)) ≡ strip a ∷ []
unfolding sse_data_values splitlines
separator_cuts a b c h g e n =
    ap (λ t. values_of (splitlines (codes "data: " ++ t)) [])
      (append_assoc a (c ∷ b) (b'\n' ∷ b'\n' ∷ []))
    ∙ (ap (λ ls. values_of ls [])
          (splitlines-line (codes "data: " ++ a) (c ∷ (b ++ b'\n' ∷ b'\n' ∷ [])) (b ∷ [] ∷ [])
            (splitlines-break c (b ++ b'\n' ∷ b'\n' ∷ []) (inr e)
              ∙ ap (λ ls. [] ∷ ls)
                  (splitlines-line b (b'\n' ∷ b'\n' ∷ []) ([] ∷ []) (blank_lines []) g))
            (header-IsLine a h))
        ∙ read_cut a b n)
