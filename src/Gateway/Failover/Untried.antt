-- ===== src/Gateway/Failover/Untried.antt =====
-- The providers that a request has not tried yet become fewer with each round.
use polygate.Prelude.{
  ◌≤◌, ◌<◌, ◌≡◌, subst, inl, inr, Bool, true, false, not, ◌||◌, List, [], ◌∷◌, ◌++◌, String, arith,
  length, keep, In, In-keep, str_eq, str_eq_refl, mem_text, if◌then◌else◌,
}
use polygate.Prelude.Floats.{Floats}
use polygate.Gateway.Router.{Provider}
use polygate.Gateway.Failover.{untried}

module _ {A : Type 0} (p q : A → Bool) (weaker : (x : A) → q x ≡ true → p x ≡ true) where
  length-keep_le : (xs : List A) → length (keep q xs) ≤ length (keep p xs)
  length-keep_le [] = omega arith
  length-keep_le (x ∷ xs) = ground (arith, length-keep_le xs, weaker x)

  length-keep_lt :
      (a : A) (xs : List A)
      → In a xs
      → p a ≡ true
      → q a ≡ false
      → length (keep q xs) < length (keep p xs)
  length-keep_lt a [] i h k = absurd i
  length-keep_lt a (x ∷ xs) (inl same) h k =
      subst
        (λ y.
          length (if q y then y ∷ keep q xs else keep q xs)
          < length (if p y then y ∷ keep p xs else keep p xs))
        same (ground (arith, length-keep_le xs))
  length-keep_lt a (x ∷ xs) (inr i) h k = ground (arith, length-keep_lt a xs i h k, weaker x)

keep_le {ℓ} : {A : Type ℓ} (p : A → Bool) (xs : List A) → length (keep p xs) ≤ length xs
keep_le p [] = omega arith
keep_le p (x ∷ xs) = ground (arith, keep_le p xs)

pub mem_text-snoc :
    (x y : String) (xs : List String) → mem_text x (xs ++ y ∷ []) ≡ (mem_text x xs || str_eq x y)
mem_text-snoc x y [] = ground arith
mem_text-snoc x y (z ∷ zs) = ground (arith, mem_text-snoc x y zs)

module _ (fl : Floats) (providers : List (Provider fl)) where
  pub untried-lt :
      (p : Provider fl) (tried : List String)
      → In p (untried fl providers tried)
      → length (untried fl providers (tried ++ p.name ∷ [])) < length (untried fl providers tried)
  untried-lt p tried i =
      let (j, h) = In-keep (λ (x : Provider fl). not (mem_text x.name tried)) p providers i in
      length-keep_lt (λ (x : Provider fl). not (mem_text x.name tried))
        (λ (x : Provider fl). not (mem_text x.name (tried ++ p.name ∷ [])))
        (λ x h. ground (arith, mem_text-snoc x.name p.name tried)) p providers j h
        (ground (arith, mem_text-snoc p.name p.name tried, str_eq_refl p.name))

  pub untried-le : (tried : List String) → length (untried fl providers tried) ≤ length providers
  untried-le tried = keep_le (λ (x : Provider fl). not (mem_text x.name tried)) providers
