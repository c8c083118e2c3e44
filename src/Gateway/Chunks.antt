-- ===== src/Gateway/Chunks.antt =====
-- The chunks of a stream: what `_StreamObservation.consume` and `_is_usage_only_event`
-- (gateway/app/main.py) and `_is_completion_event` (gateway/app/adapters.py) read in an event. The
-- JSON parser is an argument; it answers what the code looks at.
use polygate.Prelude.{
  ℕ, Bool, true, false, not, ◌&&◌, Option, none, some, List, [], ◌∷◌, String, Text, codes, text_eq,
  strip, if◌then◌else◌,
}
use polygate.Gateway.Sse.{sse_data_values, event_data}

-- A count in `usage`, which `int` takes or not.
pub data Count : Type 0 where
  absent not_a_number : Count
  count : ℕ → Count

-- The field `usage`: missing or null; a dictionary, where an empty value of any type has no counts; or
-- something else.
pub data Usage : Type 0 where
  no_usage not_usage : Usage
  usage : Count → Count → Usage

-- An item of `choices`, with its `finish_reason`.
pub data Choice : Type 0 where
  choice : Option String → Choice
  not_a_choice : Choice

-- The field `choices`: missing or empty, a list with an item, or something else.
pub data Choices : Type 0 where
  no_choices not_choices : Choices
  choices : Choice → List Choice → Choices

pub record Chunk : Type 0 where
  pub has_error : Bool
  pub usage : Usage
  pub choices : Choices

-- What `json.loads` makes of a text.
pub data Json : Type 0 where
  malformed not_object : Json
  object : Chunk → Json

-- `_StreamObservation`
pub record Observation : Type 0 where
  pub input_tokens : ℕ
  pub output_tokens : ℕ
  pub finish_reason : Option String
  pub saw_done : Bool

abbrev pub new_observation : Observation
new_observation = record {
  input_tokens = 0;
  output_tokens = 0;
  finish_reason = none;
  saw_done = false;
}

-- An observation after a step, which went on or raised; what was written before stays.
pub data Observed : Type 0 where
  went_on : Observation → Observed
  broke : Observation → Observed

abbrev pub observation_of : Observed → Observation
observation_of (went_on o) = o
observation_of (broke o) = o

abbrev pub and_observe : Observed → (Observation → Observed) → Observed
and_observe (went_on o) next = next o
and_observe (broke o) next = broke o

abbrev pub set_input : Count → Observation → Observed
set_input absent o = went_on o
set_input not_a_number o = broke o
set_input (count n) o = went_on (record o { input_tokens = n })

abbrev pub set_output : Count → Observation → Observed
set_output absent o = went_on o
set_output not_a_number o = broke o
set_output (count n) o = went_on (record o { output_tokens = n })

abbrev pub read_usage : Usage → Observation → Observed
read_usage no_usage o = went_on o
read_usage not_usage o = broke o
read_usage (usage prompt completion) o = and_observe (set_input prompt o) (set_output completion)

abbrev pub finish : Option String → Observation → Observation
finish none o = o
finish (some reason) o = record o { finish_reason = some reason }

unfoldable pub read_choices : List Choice → Observation → Observed
read_choices [] o = went_on o
read_choices (not_a_choice ∷ cs) o = broke o
read_choices (choice reason ∷ cs) o = read_choices cs (finish reason o)

abbrev pub choice_list : Choices → Observation → Observed
choice_list no_choices o = went_on o
choice_list not_choices o = broke o
choice_list (choices c cs) o = read_choices (c ∷ cs) o

-- A chunk with an error is refused before anything is read.
unfoldable pub consume_json : Json → Observation → Observed
unfolding read_choices
consume_json malformed o = broke o
consume_json not_object o = broke o
consume_json (object chunk) o =
    if chunk.has_error
    then broke o
    else and_observe (read_usage chunk.usage o) (choice_list chunk.choices)

abbrev pub done : Text
done = codes "[DONE]"

-- What `_is_completion_event` answers, `invalid` for its `ProviderProtocolError`s.
pub data Completion : Type 0 where
  prelude completion invalid : Completion

module _ (parse : Text → Json) where
  abbrev pub consume_value : Text → Observation → Observed
  consume_value value o =
      if text_eq value done
      then went_on (record o { saw_done = true })
      else consume_json (parse value) o

  unfoldable pub consume_values : List Text → Observation → Observed
  unfolding consume_json
  consume_values [] o = went_on o
  consume_values (v ∷ vs) o = and_observe (consume_value v o) (λ o'. consume_values vs o')

  -- `_StreamObservation.consume`
  unfoldable pub consume : Text → Observation → Observed
  unfolding consume_values
  consume event o = consume_values (sse_data_values event) o

  -- `not chunk.get("choices") and chunk.get("usage") is not None`
  abbrev pub only_usage : Usage → Choices → Bool
  only_usage no_usage cs = false
  only_usage not_usage no_choices = true
  only_usage not_usage not_choices = false
  only_usage not_usage (choices c cs) = false
  only_usage (usage p q) no_choices = true
  only_usage (usage p q) not_choices = false
  only_usage (usage p q) (choices c cs) = false

  abbrev pub is_usage_json : Json → Bool
  is_usage_json malformed = false
  is_usage_json not_object = false
  is_usage_json (object chunk) = only_usage chunk.usage chunk.choices

  -- False for an empty value and for the end mark, as for any chunk that has more than usage.
  abbrev pub is_usage_value : Text → Bool
  is_usage_value [] = false
  is_usage_value (c ∷ cs) = not (text_eq (c ∷ cs) done) && is_usage_json (parse (c ∷ cs))

  unfoldable pub all_usage : List Text → Bool
  all_usage [] = true
  all_usage (v ∷ vs) = is_usage_value v && all_usage vs

  abbrev pub some_usage : List Text → Bool
  some_usage [] = false
  some_usage (v ∷ vs) = all_usage (v ∷ vs)

  -- `_is_usage_only_event`
  unfoldable pub is_usage_only_event : Text → Bool
  unfolding all_usage
  is_usage_only_event event = some_usage (sse_data_values event)

  abbrev pub has_choices : Choices → Completion
  has_choices no_choices = invalid
  has_choices not_choices = invalid
  has_choices (choices c cs) = completion

  abbrev pub completion_json : Json → Completion
  completion_json malformed = invalid
  completion_json not_object = invalid
  completion_json (object chunk) = if chunk.has_error then invalid else has_choices chunk.choices

  abbrev pub completion_data : Option Text → Completion
  completion_data none = prelude
  completion_data (some data_text) =
      if text_eq (strip data_text) done then invalid else completion_json (parse data_text)

  -- `_is_completion_event`
  unfoldable pub is_completion_event : Text → Completion
  is_completion_event event = completion_data (event_data event)
