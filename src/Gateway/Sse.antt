-- ===== src/Gateway/Sse.antt =====
-- Server-sent events as the gateway writes and reads them: `_data_event`, `_iter_sse_events` and
-- `_event_data` (gateway/app/adapters.py), `_sse_data_values` (gateway/app/main.py). An event is the
-- text that its bytes encode.
pub mod RoundTrip
pub mod Framing
mod Tests
use polygate.Prelude.{
  ℕ, Option, none, some, List, [], ◌∷◌, ◌++◌, Text, codes, splitlines, strip, join_lines,
  after_prefix, ◌==◌, if◌then◌else◌,
}

-- `if value.startswith(" "): value = value[1:]`
abbrev pub drop_space : Text → Text
drop_space [] = []
drop_space (c ∷ cs) = if c == b' ' then cs else c ∷ cs

-- The value of a line that starts with "data:".
unfoldable pub data_value : Text → Option Text
data_value line = elim (after_prefix (codes "data:") line) [
  | none ↦ none
  | some v ↦ some (drop_space v)
]

abbrev pub append_value : List Text → Option Text → List Text
append_value data_lines none = data_lines
append_value data_lines (some v) = data_lines ++ v ∷ []

-- The end of an event: what was gathered is one value, stripped.
abbrev pub flush : List Text → List Text → List Text
flush [] values = values
flush (d ∷ ds) values = strip (join_lines (d ∷ ds)) ∷ values

-- The loop of `_sse_data_values`, with the data lines of the event that is read.
unfoldable pub values_of : List Text → List Text → List Text
unfolding data_value
values_of [] data_lines = flush data_lines []
values_of ([] ∷ lines) data_lines = flush data_lines (values_of lines [])
values_of ((c ∷ cs) ∷ lines) data_lines =
    values_of lines (append_value data_lines (data_value (c ∷ cs)))

-- `_sse_data_values`
unfoldable pub sse_data_values : Text → List Text
unfolding values_of
sse_data_values event = values_of (splitlines event) []

abbrev pub values_in : List Text → List Text
values_in [] = []
values_in (line ∷ lines) = append_value [] (data_value line) ++ values_in lines

abbrev pub joined : List Text → Option Text
joined [] = none
joined (d ∷ ds) = some (join_lines (d ∷ ds))

-- `_event_data`
unfoldable pub event_data : Text → Option Text
unfolding data_value
event_data event = joined (values_in (splitlines event))

-- `_data_event` of a serialised object.
abbrev pub data_event : Text → Text
data_event json = codes "data: " ++ (json ++ b'\n' ∷ b'\n' ∷ [])

-- The bytes of one event: `("\n".join(lines) + "\n\n")`
abbrev pub frame : List Text → Text
frame lines = join_lines lines ++ b'\n' ∷ b'\n' ∷ []

abbrev pub emit : List Text → List Text → List Text
emit [] events = events
emit (l ∷ ls) events = frame (l ∷ ls) ∷ events

-- The loop of `_iter_sse_events`, with the lines of the event that is read.
unfoldable pub events_from : List Text → List Text → List Text
events_from [] pending = emit pending []
events_from ([] ∷ lines) pending = emit pending (events_from lines [])
events_from ((c ∷ cs) ∷ lines) pending = events_from lines (pending ++ (c ∷ cs) ∷ [])

-- `_iter_sse_events`
unfoldable pub iter_sse_events : List Text → List Text
unfolding events_from
iter_sse_events lines = events_from lines []

-- `b"".join(events)`
abbrev pub concat : List Text → Text
concat [] = []
concat (e ∷ es) = e ++ concat es
