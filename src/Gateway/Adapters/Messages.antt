-- ===== src/Gateway/Adapters/Messages.antt =====
-- The messages that are sent to a provider (gateway/app/adapters.py).
use polygate.Prelude.{
  ◌≡◌, ◌≢◌, ◌⊎◌, ◌++◌, String, Text, or_else, str_eq, str_eq_iff, refl, sym, subst, inl, inr, Bool,
  true, false, Option, none, some, List, [], ◌∷◌, All, Bool-cases,
}
use polygate.Gateway.Requests.{
  Role, system, developer, user, assistant, tool, Block, Content, plain, blocks, Message,
  has_other_blocks, is_text_type,
}
use polygate.Gateway.Adapters.{
  Target, accepts, sent_role, sent_content, with_content, sent_message, both, normalize_messages,
  message_text,
}

-- A message that the provider takes.
abbrev pub IsTaken : Target → Message → Type 0
IsTaken p m =
    (accepts p "developer_role" ≡ false → m.role ≡ developer → ⊥)
    × ((bs : List Block) → accepts p "content_blocks" ≡ false → m.content ≡ some (blocks bs) → ⊥)

-- A block that is text, by its type.
abbrev pub IsText : Block → Type 0
IsText b = (t : String) × (b.type ≡ some t) × ((t ≡ "text") ⊎ (t ≡ "input_text"))

-- The blocks are text, and their texts one after the other, a missing one as the empty text, are `t`.
abbrev pub Joins : List Block → Text → Type 0
Joins [] t = t ≡ []
Joins (b ∷ bs) t = IsText b × ((rest : Text) × Joins bs rest × (t ≡ or_else b.text [] ++ rest))

-- What a provider is sent for a content: blocks as they are, or as their text if it takes no blocks.
abbrev pub SendsContent : Bool → Option Content → Option Content → Type 0
SendsContent takes_blocks none d = d ≡ none
SendsContent takes_blocks (some (plain t)) d = d ≡ some (plain t)
SendsContent true (some (blocks bs)) d = d ≡ some (blocks bs)
SendsContent false (some (blocks bs)) d = (t : Text) × Joins bs t × (d ≡ some (plain t))

-- What a provider is sent for a message: its role, but `system` for a developer's if it takes none,
-- what it is sent for the content, and the other fields.
abbrev pub SendsMessage : Target → Message → Message → Type 0
SendsMessage p m n =
    (m.role ≡ developer → accepts p "developer_role" ≡ false → n.role ≡ system)
    × ((m.role ≢ developer) ⊎ (accepts p "developer_role" ≡ true) → n.role ≡ m.role)
    × SendsContent (accepts p "content_blocks") m.content n.content
    × (n.name ≡ m.name)
    × (n.tool_calls ≡ m.tool_calls)
    × (n.tool_call_id ≡ m.tool_call_id)
    × (n.extra ≡ m.extra)

-- The messages in their order, each as it is sent, and no others.
abbrev pub SendsAll : Target → List Message → List Message → Type 0
SendsAll p [] ns = ns ≡ []
SendsAll p (m ∷ ms) ns =
    (n : Message) × (rest : List Message) × (ns ≡ n ∷ rest)
    × SendsMessage p m n
    × SendsAll p ms rest

is_text_type-IsText : (b : Block) → is_text_type b.type ≡ true → IsText b
is_text_type-IsText b h = typed b.type refl h
  where
    typed : (o : Option String) → b.type ≡ o → is_text_type o ≡ true → IsText b
    typed none e h = cc
    typed (some t) e h = elim (Bool-cases (str_eq t "text")) [
      | inl y ↦ (t, e, inl ((str_eq_iff t "text").0 y))
      | inr n ↦
          let z : str_eq t "input_text" ≡ true = rw n at h in
          (t, e, inr ((str_eq_iff t "input_text").0 z))
    ]

message_text-Joins :
    (bs : List Block) → has_other_blocks (some (blocks bs)) ≡ false → Joins bs (message_text bs)
message_text-Joins [] h = refl
message_text-Joins (b ∷ bs) h = elim (Bool-cases (is_text_type b.type)) [
  | inr n ↦ let f : true ≡ false = rw n at h in cc
  | inl y ↦
      let more : has_other_blocks (some (blocks bs)) ≡ false = rw y at h in
      (is_text_type-IsText b y, (message_text bs, message_text-Joins bs more, rw y refl))
]

sent_content-SendsContent :
    (takes_blocks : Bool) (c d : Option Content)
    → sent_content takes_blocks c ≡ some d
    → SendsContent takes_blocks c d
sent_content-SendsContent takes_blocks none d h = cc
sent_content-SendsContent takes_blocks (some (plain t)) d h = cc
sent_content-SendsContent true (some (blocks bs)) d h = cc
sent_content-SendsContent false (some (blocks bs)) d h =
    elim (Bool-cases (has_other_blocks (some (blocks bs)))) [
      | inl y ↦ let f : none ≡ some d = rw y at h in cc
      | inr n ↦
          let f : some (some (plain (message_text bs))) ≡ some d = rw n at h in
          (message_text bs, message_text-Joins bs n, cc)
    ]

sent_role-developer :
    (b : Bool) (role : Role) → role ≡ developer → b ≡ false → sent_role b role ≡ system
sent_role-developer b role e h = rw e (rw h refl)

sent_role-same :
    (b : Bool) (role : Role) → (role ≢ developer) ⊎ (b ≡ true) → sent_role b role ≡ role
sent_role-same true role h = refl
sent_role-same false developer (inl n) = absurd (n refl)
sent_role-same false developer (inr e) = cc
sent_role-same false system h = refl
sent_role-same false user h = refl
sent_role-same false assistant h = refl
sent_role-same false tool h = refl

sent_message-SendsMessage :
    (p : Target) (m n : Message) → sent_message p m ≡ some n → SendsMessage p m n
unfolding sent_message
sent_message-SendsMessage p m n h = sent _ refl h
  where
    sent :
        (c : Option (Option Content))
        → sent_content (accepts p "content_blocks") m.content ≡ c
        → with_content m (sent_role (accepts p "developer_role") m.role) c ≡ some n
        → SendsMessage p m n
    sent none e h = cc
    sent (some d) e h =
        let same : record m { role = sent_role (accepts p "developer_role") m.role; content = d }
            ≡ n =
          cc in
        subst (SendsMessage p m) same (
          sent_role-developer (accepts p "developer_role") m.role,
          sent_role-same (accepts p "developer_role") m.role,
          sent_content-SendsContent (accepts p "content_blocks") m.content d e,
          refl,
          refl,
          refl,
          refl,
        )

pub sent_role-ne : (b : Bool) (role : Role) → b ≡ false → sent_role b role ≡ developer → ⊥
sent_role-ne true role h e = cc
sent_role-ne false developer h e = cc
sent_role-ne false system h e = cc
sent_role-ne false user h e = cc
sent_role-ne false assistant h e = cc
sent_role-ne false tool h e = cc

pub sent_content-ne :
    (b : Bool) (c d : Option Content) (bs : List Block)
    → b ≡ false
    → sent_content b c ≡ some d
    → d ≡ some (blocks bs)
    → ⊥
sent_content-ne true c d bs h e f = cc
sent_content-ne false none d bs h e f = cc
sent_content-ne false (some (plain t)) d bs h e f = cc
sent_content-ne false (some (blocks xs)) d bs h e f =
    elim (Bool-cases (has_other_blocks (some (blocks xs)))) [
      | inl y ↦ let g : none ≡ some d = rw y at e in cc
      | inr n ↦ let g : some (some (plain (message_text xs))) ≡ some d = rw n at e in cc
    ]

pub with_content-IsTaken :
    (p : Target) (m m' : Message) (c : Option (Option Content))
    → sent_content (accepts p "content_blocks") m.content ≡ c
    → with_content m (sent_role (accepts p "developer_role") m.role) c ≡ some m'
    → IsTaken p m'
with_content-IsTaken p m m' none e h = cc
with_content-IsTaken p m m' (some d) e h =
    let same : record m { role = sent_role (accepts p "developer_role") m.role; content = d } ≡ m' =
      some-eq h in
    subst (IsTaken p) same (
      λ n f. sent_role-ne (accepts p "developer_role") m.role n f,
      λ bs n f. sent_content-ne (accepts p "content_blocks") m.content d bs n e f,
    )
  where
    some-eq : {x y : Message} → some x ≡ some y → x ≡ y
    some-eq f = cc

pub both-some :
    (o : Option Message) (os : Option (List Message)) (ns : List Message)
    → both o os ≡ some ns
    → (m : Message) × (ms : List Message) × (o ≡ some m) × (os ≡ some ms) × (ns ≡ m ∷ ms)
both-some none os ns h = cc
both-some (some m) none ns h = cc
both-some (some m) (some ms) ns h = (m, ms, refl, refl, cc)

pub normalize_messages-IsTaken :
    (p : Target) (ms ns : List Message) → normalize_messages p ms ≡ some ns → All (IsTaken p) ns
unfolding normalize_messages
normalize_messages-IsTaken p [] ns h = let e : [] ≡ ns = some-eq h in subst (All (IsTaken p)) e tt
  where
    some-eq : {x y : List Message} → some x ≡ some y → x ≡ y
    some-eq f = cc
normalize_messages-IsTaken p (m ∷ ms) ns h =
    let (m', ms', a, b, c) = both-some (sent_message p m) (normalize_messages p ms) ns h in
    subst (All (IsTaken p)) (sym c) (taken m' a, normalize_messages-IsTaken p ms ms' b)
  where
    taken : (m' : Message) → sent_message p m ≡ some m' → IsTaken p m'
    taken m' e =
        with_content-IsTaken p m m' (sent_content (accepts p "content_blocks") m.content) refl
          (unfold sent_message in e)

-- What is sent for messages: each in its place, as the provider takes it.
pub normalize_messages-SendsAll :
    (p : Target) (ms ns : List Message) → normalize_messages p ms ≡ some ns → SendsAll p ms ns
unfolding normalize_messages
normalize_messages-SendsAll p [] ns h = cc
normalize_messages-SendsAll p (m ∷ ms) ns h =
    let (n, rest, a, b, c) = both-some (sent_message p m) (normalize_messages p ms) ns h in
    (n, rest, c, sent_message-SendsMessage p m n a, normalize_messages-SendsAll p ms rest b)
