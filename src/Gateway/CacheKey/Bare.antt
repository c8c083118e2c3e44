-- ===== src/Gateway/CacheKey/Bare.antt =====
-- Messages that hold a role and a text only, as those of requests that the cache may answer
-- (gateway/app/models.py).
use polygate.Prelude.{
  ◌≡◌, refl, Bool, true, false, not, ◌||◌, Option, none, some, List, [], ◌∷◌, map, Text, strip, any,
  is_some, arith,
}
use polygate.Gateway.Requests.{
  Role, Content, plain, blocks, Message, has_metadata, uses_tools, is_plain, is_empty,
}
use polygate.Gateway.CacheKey.{content_text, with_role, normalize}

pub none_of {ℓ} : {A : Type ℓ} (o : Option A) → is_some o ≡ false → o ≡ none
none_of none h = refl
none_of (some a) h = cc

pub both_false : (a b : Bool) → (a || b) ≡ false → (a ≡ false) × (b ≡ false)
both_false a b h = ground arith

pub some-injective : {A : Type 0} {a b : A} → some a ≡ some b → a ≡ b
some-injective h = cc

pub not-false : (b : Bool) → not b ≡ false → b ≡ true
not-false true h = refl
not-false false h = cc

-- The tests of `bypass_cache`, all false.
pub clear :
    (a b c d e f g : Bool)
    → (a || b || c || d || e || f || g) ≡ false
    → ((a ≡ false) × (b ≡ false) × (c ≡ false) × (e ≡ false)) × ((f ≡ false) × (g ≡ false))
clear a b c d e f g h = ground arith

pub clear_options :
    (a b c d e f g : Bool)
    → (a || b || c || d || e || f || g) ≡ false
    → (a ≡ false)
      × (b ≡ false)
      × (c ≡ false)
      × (d ≡ false)
      × (e ≡ false)
      × (f ≡ false)
      × (g ≡ false)
clear_options a b c d e f g h = ground arith

abbrev pub strip_content : Content → Content
strip_content (plain t) = plain (strip t)
strip_content (blocks bs) = blocks bs

abbrev pub strip_option : Option Content → Option Content
strip_option none = none
strip_option (some c) = some (strip_content c)

-- A message without the spaces at the ends of its content.
abbrev pub strip_message : Message → Message
strip_message m = record m { content = strip_option m.content }

-- A message with a role and a text only.
abbrev pub bare : Role × Text → Message
bare (role, t) = record {
  role = role;
  content = some (plain t);
  name = none;
  tool_calls = none;
  tool_call_id = none;
  extra = [];
}

pub content-IsPlain :
    (o : Option Content)
    → is_plain o ≡ true
    → (t : Text) × (content_text o ≡ some t) × (strip_option o ≡ some (plain t))
content-IsPlain none h = cc
content-IsPlain (some (plain t)) h = (strip t, refl, refl)
content-IsPlain (some (blocks bs)) h = cc

pub empty_of {ℓ} : {A : Type ℓ} (xs : List A) → is_empty xs ≡ true → xs ≡ []
empty_of [] h = refl
empty_of (x ∷ xs) h = cc

-- A message of a request that the cache may answer.
pub message-IsBare :
    (m : Message)
    → has_metadata m ≡ false
    → (uses_tools m || not (is_plain m.content)) ≡ false
    → (t : Text) × (content_text m.content ≡ some t) × (strip_message m ≡ bare (m.role, t))
message-IsBare m h g =
    let (uses, text) = both_false (uses_tools m) (not (is_plain m.content)) g in
    let is_text : is_plain m.content ≡ true = ground arith in
    let (t, e, f) = content-IsPlain m.content is_text in
    let no_name : m.name ≡ none = none_of m.name (ground arith) in
    let no_calls : m.tool_calls ≡ none = none_of m.tool_calls (ground arith) in
    let no_id : m.tool_call_id ≡ none = none_of m.tool_call_id (ground arith) in
    let no_extra : m.extra ≡ [] = empty_of m.extra (ground arith) in
    (
      t,
      e,
      λ i. record {
        role = m.role;
        content = f i;
        name = no_name i;
        tool_calls = no_calls i;
        tool_call_id = no_id i;
        extra = no_extra i;
      },
    )

pub normalize_some :
    (role : Role) (o : Option Text) (r : Option (List (Role × Text))) (t : Text)
    (ns : List (Role × Text))
    → o ≡ some t
    → r ≡ some ns
    → with_role role o r ≡ some ((role, t) ∷ ns)
normalize_some role o r t ns e f = rw (e, with_role) (rw (f, with_role) refl)

pub messages-AreBare :
    (ms : List Message)
    → any has_metadata ms ≡ false
    → any (λ (m : Message). uses_tools m || not (is_plain m.content)) ms ≡ false
    → (ns : List (Role × Text)) × (normalize ms ≡ some ns) × (map strip_message ms ≡ map bare ns)
unfolding normalize
messages-AreBare [] h g = ([], refl, refl)
messages-AreBare (m ∷ ms) h g =
    let (a, b) = both_false (has_metadata m) (any has_metadata ms) h in
    let (c, d) =
      both_false (uses_tools m || not (is_plain m.content))
        (any (λ (m : Message). uses_tools m || not (is_plain m.content)) ms) g in
    let (t, e, f) = message-IsBare m a c in
    let (ns, x, y) = messages-AreBare ms b d in
    (
      (m.role, t) ∷ ns,
      normalize_some m.role (content_text m.content) (normalize ms) t ns e x,
      λ i. f i ∷ y i,
    )
