-- ===== src/Gateway/CacheKey/Decimals.antt =====
-- The text of an integer (`str`) gives it back, and holds digits only.
use polygate.Prelude.{
  ℕ, zero, suc, ◌+◌, ◌-◌, ◌*◌, ◌/◌, ◌%◌, ◌<◌, ◌≡◌, ◌≢◌, refl, sym, ap, ◌∙◌, inl, inr, [], ◌∷◌, ◌++◌,
  All, Text, ltb, arith, Bool-cases,
}
use polygate.Gateway.CacheKey.{digits, show_nat}

abbrev read_from : ℕ → Text → ℕ
read_from n [] = n
read_from n (c ∷ cs) = read_from (10 * n + (c - 48)) cs

read_from-snoc :
    (n : ℕ) (s : Text) (c : ℕ) → read_from n (s ++ c ∷ []) ≡ 10 * read_from n s + (c - 48)
read_from-snoc n [] c = refl
read_from-snoc n (d ∷ ds) c = read_from-snoc (10 * n + (d - 48)) ds c

read_from-digits : (fuel n : ℕ) → n < fuel → read_from 0 (digits fuel n) ≡ n
unfolding digits
read_from-digits zero n h = absurd (omega arith)
read_from-digits (suc fuel) n h = elim (Bool-cases (ltb n 10)) [
  | inl y ↦ rw y (omega arith)
  | inr m ↦ rw m (
      read_from-snoc 0 (digits fuel (n / 10)) (48 + n % 10)
      ∙ (let small : n / 10 < fuel = ground arith in
          omega (arith, read_from-digits fuel (n / 10) small)))
]

pub show_nat-injective : (m n : ℕ) → show_nat m ≡ show_nat n → m ≡ n
unfolding show_nat
show_nat-injective m n h =
    sym (read_from-digits (suc m) m (omega arith))
    ∙ (ap (read_from 0) h ∙ read_from-digits (suc n) n (omega arith))

-- A text without the bar that separates the fields of a key.
abbrev pub HasNoBar : Text → Type 0
HasNoBar = All (λ c. c ≢ b'|')

HasNoBar-snoc : (s : Text) (c : ℕ) → HasNoBar s → c ≢ b'|' → HasNoBar (s ++ c ∷ [])
HasNoBar-snoc [] c h n = (n, tt)
HasNoBar-snoc (d ∷ ds) c (a, b) n = (a, HasNoBar-snoc ds c b n)

digits-HasNoBar : (fuel n : ℕ) → HasNoBar (digits fuel n)
unfolding digits
digits-HasNoBar zero n = tt
digits-HasNoBar (suc fuel) n = elim (Bool-cases (ltb n 10)) [
  | inl y ↦ rw y ((λ e. absurd (ground arith)), tt)
  | inr m ↦ rw m (
      HasNoBar-snoc (digits fuel (n / 10)) (48 + n % 10) (digits-HasNoBar fuel (n / 10))
        (λ e. absurd (omega arith)))
]

pub show_nat-HasNoBar : (n : ℕ) → HasNoBar (show_nat n)
unfolding show_nat
show_nat-HasNoBar n = digits-HasNoBar (suc n) n
