-- ===== src/Prelude/Lists.antt =====
-- Lists measured by native numbers, list comprehensions, and predicates over a list.
use Prim.Native.Nat.{ℕ, zero, suc, ◌≤◌, ◌<◌}
use mathlib.Core.Path.{◌≡◌, refl, sym, ap, subst}
use mathlib.Core.Logic.{◌⊎◌, inl, inr}
use mathlib.Core.List.{List, [], ◌∷◌, ◌++◌, map}
use mathlib.Core.Bool.{Bool, true, false, ◌||◌}
use mathlib.Core.Option.{Option, none, some}
use native.Mathlib.Omega.{arith}
use polygate.Prelude.Tests.{if◌then◌else◌}

module _ {ℓ} {A : Type ℓ} where
  abbrev pub length : List A → ℕ
  length [] = 0
  length (x ∷ xs) = suc (length xs)

  abbrev pub take : ℕ → List A → List A
  take zero xs = []
  take (suc n) [] = []
  take (suc n) (x ∷ xs) = x ∷ take n xs

  -- `[x for x in xs if p(x)]`
  abbrev pub keep : (A → Bool) → List A → List A
  keep p [] = []
  keep p (x ∷ xs) = if p x then x ∷ keep p xs else keep p xs

  -- `any(p(x) for x in xs)`
  abbrev pub any : (A → Bool) → List A → Bool
  any p [] = false
  any p (x ∷ xs) = p x || any p xs

  -- `next((x for x in xs if p(x)), None)`
  abbrev pub first : (A → Bool) → List A → Option A
  first p [] = none
  first p (x ∷ xs) = if p x then some x else first p xs

module _ {A : Type 0} where
  -- Membership.
  abbrev pub In : A → List A → Type 0
  In a [] = ⊥
  In a (x ∷ xs) = (a ≡ x) ⊎ In a xs

  -- What a comprehension keeps was there, and passes the test.
  pub In-keep : (p : A → Bool) (a : A) (xs : List A) → In a (keep p xs) → In a xs × (p a ≡ true)
  In-keep p a [] h = absurd h
  In-keep p a (x ∷ xs) h = ground (arith, In-keep p a xs)

  pub keep-In : (p : A → Bool) (a : A) (xs : List A) → In a xs → p a ≡ true → In a (keep p xs)
  keep-In p a [] h e = absurd h
  keep-In p a (x ∷ xs) h e = ground (arith, keep-In p a xs)

  pub In-first : (p : A → Bool) (a : A) (xs : List A) → first p xs ≡ some a → In a xs × (p a ≡ true)
  In-first p a [] h = cc
  In-first p a (x ∷ xs) h = ground (arith, In-first p a xs)

-- A predicate that holds of every item.
abbrev pub All {ℓ κ} : {A : Type ℓ} → (A → Type κ) → List A → Type κ
All P [] = Unit
All P (x ∷ xs) = P x × All P xs

pub keep-snoc {ℓ} :
    {A : Type ℓ} (p : A → Bool) (x : A) (xs : List A)
    → p x ≡ true
    → keep p (xs ++ x ∷ []) ≡ keep p xs ++ x ∷ []
keep-snoc p x [] h = ground arith
keep-snoc p x (y ∷ ys) h = ground (arith, keep-snoc p x ys h)

pub keep_cons {κ} :
    {A : Type 0} (P : A → Type κ) (p : A → Bool) (x : A) (ys : List A)
    → P x
    → All P ys
    → All P (if p x then x ∷ ys else ys)
keep_cons P p x ys a b = elim (p x) as (λ t. All P (if t then x ∷ ys else ys)) [
  | true ↦ (a, b)
  | false ↦ b
]

pub All-keep {κ} :
    {A : Type 0} (P : A → Type κ) (p : A → Bool) (xs : List A) → All P xs → All P (keep p xs)
All-keep P p [] h = tt
All-keep P p (x ∷ xs) (a, b) = keep_cons P p x (keep p xs) a (All-keep P p xs b)

pub length-snoc {ℓ} : {A : Type ℓ} (x : A) (xs : List A) → length (xs ++ x ∷ []) ≡ suc (length xs)
length-snoc x [] = refl
length-snoc x (y ∷ ys) = ap suc (length-snoc x ys)

pub In-All {κ} : {A : Type 0} (P : A → Type κ) (x : A) (xs : List A) → All P xs → In x xs → P x
In-All P x [] h i = absurd i
In-All P x (y ∷ ys) (a, b) (inl e) = subst P (sym e) a
In-All P x (y ∷ ys) (a, b) (inr i) = In-All P x ys b i

pub length-keep_le {ℓ} : {A : Type ℓ} (p : A → Bool) (xs : List A) → length (keep p xs) ≤ length xs
length-keep_le p [] = omega arith
length-keep_le p (x ∷ xs) = ground (arith, length-keep_le p xs)

pub length-keep_lt :
    {A : Type 0} (p : A → Bool) (a : A) (xs : List A)
    → In a xs
    → p a ≡ false
    → length (keep p xs) < length xs
length-keep_lt p a [] i h = absurd i
length-keep_lt p a (x ∷ xs) (inl e) h =
    subst (λ y. length (if p y then y ∷ keep p xs else keep p xs) < suc (length xs)) e
      (ground (arith, length-keep_le p xs))
length-keep_lt p a (x ∷ xs) (inr i) h = ground (arith, length-keep_lt p a xs i h)

pub length-map {ℓ κ} :
    {A : Type ℓ} {B : Type κ} (f : A → B) (xs : List A) → length (map f xs) ≡ length xs
length-map f [] = refl
length-map f (x ∷ xs) = ap suc (length-map f xs)

pub All-map {ℓ κ μ} :
    {A : Type ℓ} {B : Type κ} (P : B → Type μ) (f : A → B) (xs : List A)
    → ((x : A) → P (f x))
    → All P (map f xs)
All-map P f [] h = tt
All-map P f (x ∷ xs) h = (h x, All-map P f xs h)
