-- ===== src/Gateway/Adapters.antt =====
-- What is sent to a provider: `_message_text`, `_normalize_messages` and `build_provider_payload`
-- (gateway/app/adapters.py). A payload is a dict whose values are what the code tells apart.
pub mod Messages
pub mod Payload
mod Tests
use polygate.Prelude.{
  ℕ, Bool, true, false, not, ◌&&◌, ◌||◌, Option, none, some, List, [], ◌∷◌, ◌++◌, String, Dict,
  Text, lookup, insert, erase, any, if◌then◌else◌, or_else, is_some,
}
use polygate.Gateway.Requests.{
  Raw, Role, system, developer, user, assistant, tool, Block, Content, plain, blocks, Message,
  is_text_type, has_other_blocks,
}

-- A value of a payload: text, a Boolean, messages, a dict of options, or any other JSON value.
pub data Field : Type 0 where
  text : String → Field
  flag : Bool → Field
  messages : List Message → Field
  options : Dict Raw → Field
  raw : Raw → Field

abbrev pub Body : Type 0
Body = Dict Field

-- `request_defaults` of a provider: missing or empty, a dict, or something else.
pub data Defaults : Type 0 where
  no_defaults bad_defaults : Defaults
  defaults : Body → Defaults

-- A provider, as far as adapting reads it.
pub record Target : Type 0 where
  pub model : Option String
  pub request_defaults : Defaults
  pub capabilities : Dict Bool

-- `capabilities.get(name) is True`
abbrev pub accepts : Target → String → Bool
accepts p name = or_else (lookup name p.capabilities) false

abbrev pub block_text : Block → Text
block_text b = if is_text_type b.type then or_else b.text [] else []

-- `_message_text` of a list of blocks.
abbrev pub message_text : List Block → Text
message_text [] = []
message_text (b ∷ bs) = block_text b ++ message_text bs

-- The role and the content that are sent; `none` is `ProviderPayloadError`.
abbrev pub sent_role : Bool → Role → Role
sent_role true role = role
sent_role false developer = system
sent_role false system = system
sent_role false user = user
sent_role false assistant = assistant
sent_role false tool = tool

abbrev pub sent_content : Bool → Option Content → Option (Option Content)
sent_content takes_blocks none = some none
sent_content takes_blocks (some (plain t)) = some (some (plain t))
sent_content true (some (blocks bs)) = some (some (blocks bs))
sent_content false (some (blocks bs)) =
    if has_other_blocks (some (blocks bs)) then none else some (some (plain (message_text bs)))

abbrev pub with_content : Message → Role → Option (Option Content) → Option Message
with_content m role none = none
with_content m role (some c) = some (record m { role = role; content = c })

unfoldable pub sent_message : Target → Message → Option Message
sent_message p m =
    with_content m (sent_role (accepts p "developer_role") m.role)
      (sent_content (accepts p "content_blocks") m.content)

abbrev pub both : Option Message → Option (List Message) → Option (List Message)
both none ms = none
both (some m) none = none
both (some m) (some ms) = some (m ∷ ms)

-- `_normalize_messages`
unfoldable pub normalize_messages : Target → List Message → Option (List Message)
unfolding sent_message
normalize_messages p [] = some []
normalize_messages p (m ∷ ms) = both (sent_message p m) (normalize_messages p ms)

-- `body.update(payload)`
unfoldable pub update : Body → Body → Body
update body [] = body
update body ((k, v) ∷ payload) = update (insert k v body) payload

abbrev pub messages_in : Option Field → List Message
messages_in (some (messages ms)) = ms
messages_in (some (text s)) = []
messages_in (some (flag b)) = []
messages_in (some (options o)) = []
messages_in (some (raw r)) = []
messages_in none = []

abbrev pub is_set : Option Field → Bool
is_set (some (flag b)) = b
is_set (some (messages ms)) = false
is_set (some (text s)) = false
is_set (some (options o)) = false
is_set (some (raw r)) = false
is_set none = false

abbrev pub options_in : Option Field → Dict Raw
options_in (some (options o)) = o
options_in (some (messages ms)) = []
options_in (some (text s)) = []
options_in (some (flag b)) = []
options_in (some (raw r)) = []
options_in none = []

-- The defaults under the client's payload, with the model of the provider.
unfoldable pub base : Target → Body → Body → Body
unfolding update
base p under payload =
    insert "model" (text (or_else p.model "default")) (erase "polygate" (update under payload))

-- `store`: refused if it is asked for and not supported, left out if it is not supported.
unfoldable pub adapt_store : Target → Body → Option Body
adapt_store p body =
    if is_some (lookup "store" body) && not (accepts p "store")
    then (if is_set (lookup "store" body) then none else some (erase "store" body))
    else some body

-- The usage is asked for in every stream.
unfoldable pub adapt_stream : Body → Body
adapt_stream body =
    if is_set (lookup "stream" body)
    then insert "stream_options"
        (options (insert "include_usage" "true" (options_in (lookup "stream_options" body)))) body
    else body

abbrev pub with_messages : Target → Body → Option (List Message) → Option Body
with_messages p body none = none
with_messages p body (some ms) = elim (adapt_store p (insert "messages" (messages ms) body)) [
  | none ↦ none
  | some b ↦ some (adapt_stream b)
]

abbrev pub adapt : Target → Body → Option Body
adapt p body = with_messages p body (normalize_messages p (messages_in (lookup "messages" body)))

-- `build_provider_payload`; `none` is `ProviderPayloadError`.
unfoldable pub build_provider_payload : Target → Body → Option Body
unfolding base normalize_messages adapt_store adapt_stream
build_provider_payload p payload = elim p.request_defaults [
  | no_defaults ↦ adapt p (base p [] payload)
  | bad_defaults ↦ none
  | defaults under ↦ adapt p (base p under payload)
]
