-- ===== src/Gateway/Requests.antt =====
-- Chat requests: `Message`, `PolygateConstraints` and `GatewayRequest` (gateway/app/models.py), with
-- their validators, the capabilities that they require and whether they bypass the cache. A JSON value
-- that the gateway does not look into is its text.
use polygate.Prelude.{
  ℕ, Bool, true, false, not, ◌&&◌, ◌||◌, Option, none, some, List, [], ◌∷◌, ◌++◌, String, Dict,
  Text, any, str_eq, if◌then◌else◌, is_some,
}
use polygate.Prelude.Floats.{Floats}
use polygate.Gateway.Router.{Constraints}

abbrev pub Raw : Type 0
Raw = String

pub data Role : Type 0 where
  system developer user assistant tool : Role

-- A content block: its `type` and its `text`, if these are texts, and the whole block.
pub record Block : Type 0 where
  pub type : Option String
  pub text : Option Text
  pub raw : Raw

pub data Content : Type 0 where
  plain : Text → Content
  blocks : List Block → Content

-- `Message`; `extra` holds the fields that the model does not name and that are not null.
pub record Message : Type 0 where
  pub role : Role
  pub content : Option Content
  pub name : Option String
  pub tool_calls : Option (List Raw)
  pub tool_call_id : Option String
  pub extra : Dict Raw

-- `bool(xs)` of a list that may be missing, and of a text.
abbrev pub is_filled : Option (List Raw) → Bool
is_filled none = false
is_filled (some []) = false
is_filled (some (x ∷ xs)) = true

abbrev pub is_nonempty : Option String → Bool
is_nonempty none = false
is_nonempty (some s) = not (str_eq s "")

abbrev pub is_tool : Role → Bool
is_tool tool = true
is_tool system = false
is_tool developer = false
is_tool user = false
is_tool assistant = false

abbrev pub is_assistant : Role → Bool
is_assistant assistant = true
is_assistant tool = false
is_assistant system = false
is_assistant developer = false
is_assistant user = false

-- The errors of the validators.
pub data Invalid : Type 0 where
  no_tool_call_id no_content no_answer : Invalid
  not_streaming bad_include_usage no_logprobs : Invalid

-- `validate_role_fields`
unfoldable pub validate_role_fields : Message → Option Invalid
validate_role_fields m =
    if is_tool m.role && not (is_nonempty m.tool_call_id)
    then some no_tool_call_id
    else if not (is_assistant m.role) && not (is_some m.content)
    then some no_content
    else if is_assistant m.role && not (is_some m.content) && not (is_filled m.tool_calls)
    then some no_answer
    else none

pub data CacheControl : Type 0 where
  auto no_store : CacheControl

-- `stream_options`: its `include_usage`, missing or null, a Boolean or something else.
pub data IncludeUsage : Type 0 where
  unset not_boolean : IncludeUsage
  included : Bool → IncludeUsage

abbrev pub is_true : Option Bool → Bool
is_true none = false
is_true (some b) = b

abbrev pub is_bad : Option IncludeUsage → Bool
is_bad none = false
is_bad (some unset) = false
is_bad (some not_boolean) = true
is_bad (some (included b)) = false

abbrev pub uses_tools : Message → Bool
uses_tools m = is_tool m.role || is_filled m.tool_calls

abbrev pub is_text_type : Option String → Bool
is_text_type none = false
is_text_type (some t) = str_eq t "text" || str_eq t "input_text"

abbrev pub has_other_blocks : Option Content → Bool
has_other_blocks none = false
has_other_blocks (some (plain t)) = false
has_other_blocks (some (blocks bs)) = any (λ (b : Block). not (is_text_type b.type)) bs

abbrev pub only_if : Bool → String → List String
only_if true s = s ∷ []
only_if false s = []

abbrev pub is_empty {ℓ} : {A : Type ℓ} → List A → Bool
is_empty [] = true
is_empty (x ∷ xs) = false

-- A message has fields beside its role and its content.
abbrev pub has_metadata : Message → Bool
has_metadata m =
    is_some m.name || is_some m.tool_calls || is_some m.tool_call_id || not (is_empty m.extra)

abbrev pub is_plain : Option Content → Bool
is_plain none = false
is_plain (some (plain t)) = true
is_plain (some (blocks bs)) = false

abbrev pub is_no_store : CacheControl → Bool
is_no_store auto = false
is_no_store no_store = true

module _ (fl : Floats) where
  -- `PolygateConstraints`: what routing reads, and what the cache does.
  pub record PolygateConstraints : Type 0 where
    pub routing : Constraints fl
    pub cache_control : CacheControl
    pub session_id : Option String

  -- `GatewayRequest`; `options` holds the generation options that are not null and that nothing here
  -- looks into, from `tool_choice` to `reasoning_effort`.
  pub record GatewayRequest : Type 0 where
    pub model : String
    pub messages : List Message
    pub tools : Option (List Raw)
    pub parallel_tool_calls : Option Bool
    pub stream : Bool
    pub stream_options : Option IncludeUsage
    pub logprobs : Option Bool
    pub top_logprobs : Option ℕ
    pub store : Option Bool
    pub options : Dict Raw
    pub polygate : PolygateConstraints

  -- `validate_stream_options`
  unfoldable pub validate_stream_options : GatewayRequest → Option Invalid
  validate_stream_options r =
      if is_some r.stream_options && not r.stream
      then some not_streaming
      else if is_bad r.stream_options
      then some bad_include_usage
      else if is_some r.top_logprobs && not (is_true r.logprobs)
      then some no_logprobs
      else none

  -- `required_capabilities`
  unfoldable pub required_capabilities : GatewayRequest → List String
  required_capabilities r =
      only_if r.stream "streaming"
      ++ (only_if (is_filled r.tools || any uses_tools r.messages) "tools"
          ++ (only_if (is_true r.parallel_tool_calls) "parallel_tool_calls"
              ++ (only_if (is_true r.store) "store"
                  ++ only_if (any (λ (m : Message). has_other_blocks m.content) r.messages)
                      "vision")))

  -- `payload_fields - {"model", "messages", "stream"}` is not empty.
  abbrev pub has_generation_options : GatewayRequest → Bool
  has_generation_options r =
      is_some r.tools
      || is_some r.parallel_tool_calls
      || is_some r.stream_options
      || is_some r.logprobs
      || is_some r.top_logprobs
      || is_some r.store
      || not (is_empty r.options)

  -- `bypass_cache`
  unfoldable pub bypass_cache : GatewayRequest → Bool
  bypass_cache r =
      is_no_store r.polygate.cache_control
      || is_some r.polygate.session_id
      || r.stream
      || is_filled r.tools
      || has_generation_options r
      || any has_metadata r.messages
      || any (λ (m : Message). uses_tools m || not (is_plain m.content)) r.messages
