-- ===== src/Automation/PolicyApi/Access.antt =====
-- Who may change the policy (automation/app/policy_auth.py).
use polygate.Prelude.{
  ◌≡◌, ◌≢◌, sym, ap, ◌∙◌, ◌↔◌, inl, inr, true, ◌&&◌, Option, none, some, [], ◌∷◌, ◌++◌, Text, codes,
  text_eq, text_eq_iff, strip, ◌==◌, arith, Bool-cases,
}
use polygate.Automation.PolicyApi.{partition, supplied, require}

-- A text with a space is what is before its first one and what is behind it.
partition-parts :
    (s : Text) → (partition s).1 ≡ true → s ≡ (partition s).0 ++ b' ' ∷ (partition s).2
unfolding partition
partition-parts [] h = cc
partition-parts (c ∷ cs) h = elim (Bool-cases (c == b' ')) [
  | inl y ↦ rw y (let e : c ≡ b' ' = ground arith in ap (λ x. x ∷ cs) e)
  | inr n ↦ rw n (ap (λ t. c ∷ t) (partition-parts cs (rw n at h)))
]

supplied-Bearer :
    (a k : Text)
    → k ≢ []
    → supplied (some a) ≡ k
    → (c : Text) × (a ≡ codes "Bearer" ++ b' ' ∷ c) × (strip c ≡ k)
unfolding supplied
supplied-Bearer a k n h =
    elim (Bool-cases (text_eq (partition a).0 (codes "Bearer") && (partition a).1)) [
      | inl y ↦
          let found : (partition a).1 ≡ true = ground arith in
          let is_bearer : text_eq (partition a).0 (codes "Bearer") ≡ true = ground arith in
          let scheme = (text_eq_iff (partition a).0 (codes "Bearer")).0 is_bearer in
          (
            (partition a).2,
            partition-parts a found ∙ ap (λ s. s ++ b' ' ∷ (partition a).2) scheme,
            rw y at h,
          )
      | inr m ↦ let e : [] ≡ k = rw m at h in absurd (n (sym e))
    ]

-- An administrator's key, which is never empty, lets a request through exactly when the header is
-- the word Bearer, one space and the key, with or without spaces around the key.
pub require_iff :
    (key : Text) (authorization : Option Text)
    → key ≢ []
    → (require key authorization ≡ true)
      ↔ ((c : Text) × (authorization ≡ some (codes "Bearer" ++ b' ' ∷ c)) × (strip c ≡ key))
unfolding require supplied partition
require_iff key none n = (λ h. absurd (n (sym ((text_eq_iff [] key).0 h))), λ x. cc (x.1))
require_iff key (some a) n = (
  λ h.
      let (c, e, f) = supplied-Bearer a key n ((text_eq_iff (supplied (some a)) key).0 h) in
      (c, ap some e, f),
  λ x.
      let (c, e, f) = x in
      let same : a ≡ codes "Bearer" ++ b' ' ∷ c = cc in
      (text_eq_iff (supplied (some a)) key).1 (ap (λ t. supplied (some t)) same ∙ f),
)
