-- ===== src/Automation/Spaces.antt =====
-- Key spaces in memory, which keep the laws that the store relies on.
use polygate.Prelude.{
  ℕ, ◌≡◌, refl, ap, ◌∙◌, Bool, false, ◌&&◌, ◌||◌, not, Option, none, some, List, [], ◌∷◌, String,
  Dict, lookup, insert, erase, lookup-insert, lookup-erase, str_eq, str_eq_iff, mem_text, leb, inl,
  inr, is_some, keep, arith, Bool-cases,
}
use polygate.Automation.Redis.{Strings, Sets, SortedSets}

abbrev pub text_space : (V : Type 0) → Strings V
text_space V = record {
  Space = Dict V;
  get = lookup;
  set = insert;
  del = erase;
  get_set = λ k j v s. lookup-insert k j v s;
  get_del = λ k j s. lookup-erase k j s;
}

abbrev pub without : String → List String → List String
without k xs = keep (λ x. not (str_eq k x)) xs

pub mem_text-without :
    (k j : String) (xs : List String)
    → mem_text j (without k xs) ≡ (not (str_eq k j) && mem_text j xs)
mem_text-without k j [] = ground arith
mem_text-without k j (x ∷ xs) =
    ground (arith, mem_text-without k j xs, str_eq_iff k x, str_eq_iff k j, str_eq_iff j x)

pub mem_text-cons :
    (k j : String) (xs : List String) → mem_text j (k ∷ xs) ≡ (str_eq k j || mem_text j xs)
mem_text-cons k j xs = ground (arith, str_eq_iff k j, str_eq_iff j k)

abbrev pub set_space : Sets
set_space = record {
  Space = List String;
  smembers = λ xs. xs;
  sadd = λ k xs. k ∷ xs;
  srem = without;
  smembers_sadd = mem_text-cons;
  smembers_srem = mem_text-without;
}

abbrev pub keys : Dict ℕ → List String
keys [] = []
keys ((k, n) ∷ d) = k ∷ keys d

-- `score <= n`
abbrev pub is_due : ℕ → Option ℕ → Bool
is_due n o = elim o [ none ↦ false | some t ↦ leb t n ]

pub mem_text-keys : (j : String) (d : Dict ℕ) → mem_text j (keys d) ≡ is_some (lookup j d)
unfolding lookup
mem_text-keys j [] = refl
mem_text-keys j ((k, n) ∷ d) = ground (arith, mem_text-keys j d, str_eq_iff k j, str_eq_iff j k)

mem_text-keep :
    (p : String → Bool) (j : String) (xs : List String)
    → mem_text j (keep p xs) ≡ (p j && mem_text j xs)
mem_text-keep p j [] = ground arith
mem_text-keep p j (x ∷ xs) = elim (Bool-cases (str_eq j x)) [
  | inl y ↦
      let same : j ≡ x = (str_eq_iff j x).0 y in
      let q : p j ≡ p x = ap p same in ground (arith, mem_text-keep p j xs)
  | inr n ↦ ground (arith, mem_text-keep p j xs)
]

pub due_keys :
    (n : ℕ) (j : String) (d : Dict ℕ)
    → mem_text j (keep (λ k. is_due n (lookup k d)) (keys d)) ≡ is_due n (lookup j d)
due_keys n j d =
    mem_text-keep (λ k. is_due n (lookup k d)) j (keys d)
    ∙ ap (λ b. is_due n (lookup j d) && b) (mem_text-keys j d)
    ∙ due_is_some n (lookup j d)
  where
    due_is_some : (n : ℕ) (o : Option ℕ) → (is_due n o && is_some o) ≡ is_due n o
    due_is_some n none = refl
    due_is_some n (some t) = ground arith

abbrev pub sorted_space : SortedSets
sorted_space = record {
  Space = Dict ℕ;
  zscore = lookup;
  zadd = insert;
  zrem = erase;
  zrangebyscore = λ n d. keep (λ k. is_due n (lookup k d)) (keys d);
  zrevrange = keys;
  zscore_zadd = λ k j n d. lookup-insert k j n d;
  zscore_zrem = λ k j d. lookup-erase k j d;
  zrangebyscore_lem = due_keys;
  zrevrange_lem = mem_text-keys;
}
