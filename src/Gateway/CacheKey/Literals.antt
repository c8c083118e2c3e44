-- ===== src/Gateway/CacheKey/Literals.antt =====
-- The JSON text of the messages (gateway/app/cache.py) gives them back, whatever follows it.
use polygate.Prelude.{
  ℕ, ◌+◌, ◌-◌, ◌*◌, ◌≡◌, ◌≢◌, refl, sym, ap, ◌∙◌, subst, Bool, true, false, List, [], ◌∷◌, ◌++◌,
  append_assoc, Text, codes, ◌==◌, ltb, if◌then◌else◌, arith,
}
use polygate.Gateway.Requests.{Role, system, developer, user, assistant, tool}
use polygate.Gateway.CacheKey.{escape, escape_all, role_text, dumps_item, dumps_tail, dumps}

abbrev unhex : ℕ → ℕ
unhex h = if ltb h 87 then h - 48 else h - 87

-- The character that an escape sequence starts with.
abbrev read_hex : Text → ℕ
read_hex [] = 0
read_hex (a ∷ []) = 0
read_hex (a ∷ b ∷ []) = 0
read_hex (a ∷ b ∷ c ∷ []) = 0
read_hex (a ∷ b ∷ c ∷ d ∷ rest) = 16 * unhex c + unhex d

abbrev read_short : Text → ℕ
read_short [] = 0
read_short (e ∷ rest) =
    if e == b'u'
    then read_hex rest
    else if e == b'n'
    then 10
    else if e == b'r'
    then 13
    else if e == b't'
    then 9
    else if e == b'b'
    then 8
    else if e == b'f'
    then 12
    else e

abbrev read_char : Text → ℕ
read_char [] = 0
read_char (b ∷ rest) = if b == b'\\' then read_short rest else b

read_char-escape : (c : ℕ) (rest : Text) → read_char (escape c ++ rest) ≡ c
unfolding escape
read_char-escape c rest = ground arith

abbrev is_quote : Text → Bool
is_quote [] = false
is_quote (b ∷ rest) = b == b'"'

is_quote-escape : (c : ℕ) (rest : Text) → is_quote (escape c ++ rest) ≡ false
unfolding escape
is_quote-escape c rest = ground arith

pub append_cancel : (s x y : Text) → s ++ x ≡ s ++ y → x ≡ y
append_cancel [] x y h = h
append_cancel (c ∷ cs) x y h = append_cancel cs x y (cc)

-- Two texts in quotes are the same if they begin alike, and so is what follows them.
escape_all-injective :
    (s t x y : Text) → escape_all s ++ b'"' ∷ x ≡ escape_all t ++ b'"' ∷ y → (s ≡ t) × (x ≡ y)
unfolding escape_all
escape_all-injective [] [] x y h = (refl, cc)
escape_all-injective [] (d ∷ ds) x y h =
    let e : true ≡ is_quote (escape d ++ (escape_all ds ++ b'"' ∷ y)) =
      ap is_quote (h ∙ append_assoc (escape d) (escape_all ds) (b'"' ∷ y)) in
    cc (is_quote-escape d (escape_all ds ++ b'"' ∷ y))
escape_all-injective (c ∷ cs) [] x y h =
    let e : is_quote (escape c ++ (escape_all cs ++ b'"' ∷ x)) ≡ true =
      ap is_quote (sym (append_assoc (escape c) (escape_all cs) (b'"' ∷ x)) ∙ h) in
    cc (is_quote-escape c (escape_all cs ++ b'"' ∷ x))
escape_all-injective (c ∷ cs) (d ∷ ds) x y h =
    let e : escape c ++ (escape_all cs ++ b'"' ∷ x) ≡ escape d ++ (escape_all ds ++ b'"' ∷ y) =
      sym (append_assoc (escape c) (escape_all cs) (b'"' ∷ x))
      ∙ (h ∙ append_assoc (escape d) (escape_all ds) (b'"' ∷ y)) in
    let same : c ≡ d =
      sym (read_char-escape c (escape_all cs ++ b'"' ∷ x))
      ∙ (ap read_char e ∙ read_char-escape d (escape_all ds ++ b'"' ∷ y)) in
    let rest : escape_all cs ++ b'"' ∷ x ≡ escape_all ds ++ b'"' ∷ y =
      append_cancel (escape c) _ _ (
        subst
          (λ k. escape c ++ (escape_all cs ++ b'"' ∷ x) ≡ escape k ++ (escape_all ds ++ b'"' ∷ y))
          (sym same) e) in
    let (a, b) = escape_all-injective cs ds x y rest in (cc, b)

differ : (c d : ℕ) (s t : Text) → c ∷ s ≡ d ∷ t → c ≢ d → ⊥
differ c d s t h n = n (cc)

abbrev read_role : Text → Role
read_role [] = user
read_role (b ∷ rest) =
    if b == b's'
    then system
    else if b == b'd'
    then developer
    else if b == b'a'
    then assistant
    else if b == b't'
    then tool
    else user

read_role-text : (r : Role) (rest : Text) → read_role (role_text r ++ rest) ≡ r
read_role-text system rest = refl
read_role-text developer rest = refl
read_role-text user rest = refl
read_role-text assistant rest = refl
read_role-text tool rest = refl

abbrev head_text : Text
head_text = codes "{\"role\": \""

abbrev middle_text : Text
middle_text = codes "\", \"content\": \""

-- An item, with what follows it, bracketed to the right.
item_assoc :
    (r : Role) (s x : Text)
    → dumps_item (r, s) ++ x
      ≡ head_text ++ (role_text r ++ (middle_text ++ (escape_all s ++ b'"' ∷ b'}' ∷ x)))
item_assoc r s x =
    ap (λ t. head_text ++ t)
      (append_assoc (role_text r) (middle_text ++ (escape_all s ++ codes "\"}")) x
        ∙ ap (λ t. role_text r ++ (middle_text ++ t)) (append_assoc (escape_all s) (codes "\"}") x))

item-injective :
    (a b : Role × Text) (x y : Text) → dumps_item a ++ x ≡ dumps_item b ++ y → (a ≡ b) × (x ≡ y)
item-injective (r, s) (q, t) x y h =
    let e : role_text r ++ (middle_text ++ (escape_all s ++ b'"' ∷ b'}' ∷ x))
        ≡ role_text q ++ (middle_text ++ (escape_all t ++ b'"' ∷ b'}' ∷ y)) =
      append_cancel head_text _ _ (sym (item_assoc r s x) ∙ (h ∙ item_assoc q t y)) in
    let same : r ≡ q =
      sym (read_role-text r (middle_text ++ (escape_all s ++ b'"' ∷ b'}' ∷ x)))
      ∙ (ap read_role e ∙ read_role-text q (middle_text ++ (escape_all t ++ b'"' ∷ b'}' ∷ y))) in
    let rest : escape_all s ++ b'"' ∷ b'}' ∷ x ≡ escape_all t ++ b'"' ∷ b'}' ∷ y =
      append_cancel middle_text _ _ (
        append_cancel (role_text r) _ _ (
          subst
            (λ k.
              role_text r ++ (middle_text ++ (escape_all s ++ b'"' ∷ b'}' ∷ x))
              ≡ role_text k ++ (middle_text ++ (escape_all t ++ b'"' ∷ b'}' ∷ y)))
            (sym same) e)) in
    let (u, v) = escape_all-injective s t (b'}' ∷ x) (b'}' ∷ y) rest in (cc, cc)

tail-injective :
    (ms ns : List (Role × Text)) (x y : Text)
    → dumps_tail ms ++ x ≡ dumps_tail ns ++ y
    → (ms ≡ ns) × (x ≡ y)
unfolding dumps_tail
tail-injective [] [] x y h = (refl, cc)
tail-injective [] (n ∷ ns) x y h = absurd (differ b']' b',' _ _ h (omega arith))
tail-injective (m ∷ ms) [] x y h = absurd (differ b',' b']' _ _ h (omega arith))
tail-injective (m ∷ ms) (n ∷ ns) x y h =
    let e : dumps_item m ++ (dumps_tail ms ++ x) ≡ dumps_item n ++ (dumps_tail ns ++ y) =
      sym (append_assoc (dumps_item m) (dumps_tail ms) x)
      ∙ (append_cancel (codes ", ") _ _ h ∙ append_assoc (dumps_item n) (dumps_tail ns) y) in
    let (a, b) = item-injective m n _ _ e in let (c, d) = tail-injective ms ns x y b in (cc, d)

-- The JSON text of the messages gives them back, and what follows it.
pub dumps-injective :
    (ms ns : List (Role × Text)) (x y : Text) → dumps ms ++ x ≡ dumps ns ++ y → (ms ≡ ns) × (x ≡ y)
unfolding dumps
dumps-injective [] [] x y h = (refl, cc)
dumps-injective [] (n ∷ ns) x y h =
    absurd (differ b']' b'{' _ _ (append_cancel (codes "[") _ _ h) (omega arith))
dumps-injective (m ∷ ms) [] x y h =
    absurd (differ b'{' b']' _ _ (append_cancel (codes "[") _ _ h) (omega arith))
dumps-injective (m ∷ ms) (n ∷ ns) x y h =
    let e : dumps_item m ++ (dumps_tail ms ++ x) ≡ dumps_item n ++ (dumps_tail ns ++ y) =
      sym (append_assoc (dumps_item m) (dumps_tail ms) x)
      ∙ (append_cancel (codes "[") _ _ h ∙ append_assoc (dumps_item n) (dumps_tail ns) y) in
    let (a, b) = item-injective m n _ _ e in let (c, d) = tail-injective ms ns x y b in (cc, d)
