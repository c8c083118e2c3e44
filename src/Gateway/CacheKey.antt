-- ===== src/Gateway/CacheKey.antt =====
-- The key under which an answer is cached: `normalize` and `cache_key` (gateway/app/cache.py). The text
-- of a float is an argument, and so is the hash; `json.dumps` and `str` of an integer are written out.
pub mod Literals
pub mod Decimals
pub mod Sound
pub mod Bare
pub mod Cacheable
use polygate.Prelude.{
  ℕ, zero, suc, ◌+◌, ◌/◌, ◌%◌, ◌≡◌, Bool, Option, none, some, List, [], ◌∷◌, ◌++◌, String, Text,
  codes, strip, ◌==◌, ltb, if◌then◌else◌,
}
use polygate.Prelude.Floats.{Floats}
use polygate.Gateway.Router.{Privacy, Quality, balanced, cheap, Constraints}
use polygate.Gateway.Requests.{
  Role, system, developer, user, assistant, tool, Content, plain, blocks, Message, GatewayRequest,
}

abbrev pub hex_digit : ℕ → ℕ
hex_digit d = if ltb d 10 then 48 + d else 87 + d

-- A character of a JSON text, as `json.dumps(…, ensure_ascii=False)` writes it.
unfoldable pub escape : ℕ → Text
escape c =
    if c == b'"'
    then b'\\' ∷ b'"' ∷ []
    else if c == b'\\'
    then b'\\' ∷ b'\\' ∷ []
    else if c == 10
    then b'\\' ∷ b'n' ∷ []
    else if c == 13
    then b'\\' ∷ b'r' ∷ []
    else if c == 9
    then b'\\' ∷ b't' ∷ []
    else if c == 8
    then b'\\' ∷ b'b' ∷ []
    else if c == 12
    then b'\\' ∷ b'f' ∷ []
    else if ltb c 32
    then b'\\' ∷ b'u' ∷ b'0' ∷ b'0' ∷ hex_digit (c / 16) ∷ hex_digit (c % 16) ∷ []
    else c ∷ []

-- The inside of a literal.
unfoldable pub escape_all : Text → Text
escape_all [] = []
escape_all (c ∷ cs) = escape c ++ escape_all cs

abbrev pub role_text : Role → Text
role_text system = codes "system"
role_text developer = codes "developer"
role_text user = codes "user"
role_text assistant = codes "assistant"
role_text tool = codes "tool"

-- `{"role": …, "content": …}`
abbrev pub dumps_item : Role × Text → Text
dumps_item (role, content) =
    codes "{\"role\": \""
    ++ (role_text role ++ (codes "\", \"content\": \"" ++ (escape_all content ++ codes "\"}")))

unfoldable pub dumps_tail : List (Role × Text) → Text
dumps_tail [] = codes "]"
dumps_tail (m ∷ ms) = codes ", " ++ (dumps_item m ++ dumps_tail ms)

-- `json.dumps(normalize(messages), ensure_ascii=False)`
unfoldable pub dumps : List (Role × Text) → Text
unfolding escape_all dumps_tail
dumps [] = codes "[]"
dumps (m ∷ ms) = codes "[" ++ (dumps_item m ++ dumps_tail ms)

-- `m["content"].strip()`, which raises where the content is no text.
abbrev pub content_text : Option Content → Option Text
content_text none = none
content_text (some (plain t)) = some (strip t)
content_text (some (blocks bs)) = none

abbrev pub with_role :
    Role → Option Text → Option (List (Role × Text)) → Option (List (Role × Text))
with_role role none rest = none
with_role role (some t) none = none
with_role role (some t) (some rest) = some ((role, t) ∷ rest)

-- `normalize`
unfoldable pub normalize : List Message → Option (List (Role × Text))
normalize [] = some []
normalize (m ∷ ms) = with_role m.role (content_text m.content) (normalize ms)

-- `str(n)`, with fuel that the number itself is enough for.
unfoldable pub digits : ℕ → ℕ → Text
digits zero n = []
digits (suc fuel) n =
    let rest = digits fuel (n / 10) in
    if ltb n 10 then (48 + n) ∷ [] else rest ++ (48 + n % 10) ∷ []

unfoldable pub show_nat : ℕ → Text
unfolding digits
show_nat n = digits (suc n) n

abbrev pub privacy_text : Privacy → Text
privacy_text Privacy.standard = codes "standard"
privacy_text Privacy.high = codes "high"

abbrev pub quality_text : Quality → Text
quality_text balanced = codes "balanced"
quality_text Quality.high = codes "high"
quality_text cheap = codes "cheap"

-- `s + "|" + t`
abbrev pub bar : Text → Text → Text
bar s t = s ++ b'|' ∷ t

module _ (fl : Floats) where
  -- The arguments of `cache_key`, with the normalised messages.
  pub record KeyInput : Type 0 where
    pub messages : List (Role × Text)
    pub privacy : Privacy
    pub scope : Text
    pub quality : Quality
    pub max_cost_usd : fl.Float
    pub latency_target_ms : ℕ
    pub policy_version : ℕ

  -- The input of the key of a request, in a scope and under a version of the policy.
  abbrev pub key_input : List (Role × Text) → GatewayRequest fl → Text → ℕ → KeyInput
  key_input messages r scope version = record {
    messages = messages;
    privacy = r.polygate.routing.privacy;
    scope = scope;
    quality = r.polygate.routing.quality;
    max_cost_usd = r.polygate.routing.max_cost_usd;
    latency_target_ms = r.polygate.routing.latency_target_ms;
    policy_version = version;
  }

  module _ (show_float : fl.Float → Text) where
    -- The text that is hashed.
    unfoldable pub key_text : KeyInput → Text
    unfolding dumps show_nat
    key_text k =
        dumps k.messages
        ++ (b'|'
            ∷ (privacy_text k.privacy
                ++ (b'|'
                    ∷ bar
                        (bar
                          (bar (bar k.scope (quality_text k.quality)) (show_float k.max_cost_usd))
                          (show_nat k.latency_target_ms))
                        (show_nat k.policy_version))))

    -- `cache_key`
    unfoldable pub cache_key :
        {Key : Type 0} → (Text → Key) → GatewayRequest fl → Text → ℕ → Option Key
    unfolding key_text normalize
    cache_key hash r scope version = elim (normalize r.messages) [
      | none ↦ none
      | some messages ↦ some (hash (key_text (key_input messages r scope version)))
    ]
