-- ===== src/Prelude/Texts.antt =====
-- Text as lists of code points, with the operations of Python's `str` that walk it.
use Prim.Native.Char.{code}
use Prim.Native.Nat.{ℕ}
use Prim.Native.String.{String}
use mathlib.Core.Path.{◌≡◌, refl, ap, ◌∙◌, subst}
use mathlib.Core.Logic.{◌⊎◌, ◌↔◌, inl}
use mathlib.Core.Bool.{Bool, true, false, ◌&&◌, ◌||◌}
use mathlib.Core.Option.{Option, none, some}
use mathlib.Core.List.{List, [], ◌∷◌, ◌++◌}
use native.Mathlib.Omega.{arith}
use polygate.Prelude.Tests.{leb, ◌==◌, if◌then◌else◌}
use polygate.Prelude.Lists.{All}

abbrev pub Text : Type 0
Text = List ℕ

abbrev pub codes : String → Text
codes String.[] = []
codes (String.◌∷◌ c s) = code c ∷ codes s

-- The code points at which `str.splitlines` ends a line.
unfoldable pub is_line_break : ℕ → Bool
is_line_break c =
    (leb 10 c && leb c 13) || (leb 28 c && leb c 30) || c == 0x85 || c == 0x2028 || c == 0x2029

-- A carriage return before a line feed, which together end one line.
abbrev is_crlf : ℕ → Text → Bool
is_crlf c [] = false
is_crlf c (d ∷ ds) = c == 13 && d == 10

abbrev pub push : ℕ → List Text → List Text
push c [] = (c ∷ []) ∷ []
push c (l ∷ ls) = (c ∷ l) ∷ ls

-- `s.splitlines()`
unfoldable pub splitlines : Text → List Text
unfolding is_line_break
splitlines [] = []
splitlines (c ∷ cs) =
    let rest = splitlines cs in
    if is_crlf c cs then rest else if is_line_break c then [] ∷ rest else push c rest

-- The code points that `str.strip` takes away.
unfoldable pub is_space : ℕ → Bool
is_space c =
    (leb 9 c && leb c 13)
    || (leb 28 c && leb c 32)
    || c == 0x85
    || c == 0xa0
    || c == 0x1680
    || (leb 0x2000 c && leb c 0x200a)
    || c == 0x2028
    || c == 0x2029
    || c == 0x202f
    || c == 0x205f
    || c == 0x3000

unfoldable pub lstrip : Text → Text
lstrip [] = []
lstrip (c ∷ cs) = let rest = lstrip cs in if is_space c then rest else c ∷ cs

abbrev add_unless_blank : ℕ → Text → Text
add_unless_blank c [] = if is_space c then [] else c ∷ []
add_unless_blank c (d ∷ ds) = c ∷ d ∷ ds

unfoldable pub rstrip : Text → Text
rstrip [] = []
rstrip (c ∷ cs) = add_unless_blank c (rstrip cs)

-- `s.strip()`
unfoldable pub strip : Text → Text
unfolding lstrip rstrip is_space
strip s = rstrip (lstrip s)

-- `"\n".join(lines)`
abbrev pub join_lines : List Text → Text
join_lines [] = []
join_lines (l ∷ []) = l
join_lines (l ∷ m ∷ ms) = l ++ b'\n' ∷ join_lines (m ∷ ms)

-- `s.startswith(prefix)`, with what follows.
abbrev pub after_prefix : Text → Text → Option Text
after_prefix [] s = some s
after_prefix (p ∷ ps) [] = none
after_prefix (p ∷ ps) (c ∷ cs) = if p == c then after_prefix ps cs else none

abbrev pub text_eq : Text → Text → Bool
text_eq [] [] = true
text_eq [] (c ∷ cs) = false
text_eq (b ∷ bs) [] = false
text_eq (b ∷ bs) (c ∷ cs) = b == c && text_eq bs cs

text_eq→eq : (s t : Text) → text_eq s t ≡ true → s ≡ t
text_eq→eq [] [] h = refl
text_eq→eq [] (c ∷ cs) h = cc
text_eq→eq (b ∷ bs) [] h = cc
text_eq→eq (b ∷ bs) (c ∷ cs) h = ground (arith, text_eq→eq bs cs)

text_eq_refl : (s : Text) → text_eq s s ≡ true
text_eq_refl [] = refl
text_eq_refl (c ∷ cs) = ground (arith, text_eq_refl cs)

pub text_eq_iff : (s t : Text) → (text_eq s t ≡ true) ↔ (s ≡ t)
text_eq_iff s t = (text_eq→eq s t, λ e. subst (λ x. text_eq s x ≡ true) e (text_eq_refl s))

-- A text without line breaks.
abbrev pub IsLine : Text → Type 0
IsLine = All (λ c. is_line_break c ≡ false)

pub splitlines-break :
    (c : ℕ) (rest : Text)
    → (c ≡ 10) ⊎ (c ≡ 0x85) ⊎ (c ≡ 0x2028) ⊎ (c ≡ 0x2029)
    → splitlines (c ∷ rest) ≡ [] ∷ splitlines rest
unfolding splitlines
splitlines-break c [] h = ground arith
splitlines-break c (d ∷ ds) h = ground arith

pub blank_lines : (rest : Text) → splitlines (b'\n' ∷ b'\n' ∷ rest) ≡ [] ∷ [] ∷ splitlines rest
blank_lines rest =
    splitlines-break b'\n' (b'\n' ∷ rest) (inl refl)
    ∙ ap (λ ls. [] ∷ ls) (splitlines-break b'\n' rest (inl refl))

not_cr : (c : ℕ) (cs : Text) → is_line_break c ≡ false → is_crlf c cs ≡ false
unfolding is_line_break
not_cr c [] h = refl
not_cr c (d ∷ ds) h = ground arith

pub splitlines-char :
    (c : ℕ) (cs : Text) → is_line_break c ≡ false → splitlines (c ∷ cs) ≡ push c (splitlines cs)
unfolding splitlines
splitlines-char c cs h = rw (not_cr c cs h) (rw h refl)

-- A line and its end are read as one line.
pub splitlines-line :
    (l rest : Text) (ls : List Text)
    → splitlines rest ≡ [] ∷ ls
    → IsLine l
    → splitlines (l ++ rest) ≡ l ∷ ls
splitlines-line [] rest ls e h = e
splitlines-line (c ∷ cs) rest ls e (a, b) =
    rw (splitlines-char c (cs ++ rest) a) (rw (splitlines-line cs rest ls e b) refl)
