-- ===== src/Gateway/Sse/Tests.antt =====
-- Events at concrete texts (gateway/app/adapters.py, gateway/app/main.py).
use polygate.Prelude.{
  ◌≡◌, refl, inl, inr, List, [], ◌∷◌, ◌++◌, map, All, IsLine, Text, codes, strip, splitlines,
  is_line_break,
}
use polygate.Gateway.Sse.{sse_data_values, data_event, concat, iter_sse_events}
use polygate.Gateway.Sse.RoundTrip.{sse_data_values-data_event, separator_cuts}

abbrev texts : List Text
texts = codes "{}" ∷ codes "[DONE]" ∷ []

texts-AreLines : All IsLine texts
unfolding is_line_break
texts-AreLines = ((refl, (refl, tt)), ((refl, (refl, (refl, (refl, (refl, (refl, tt)))))), tt))

sse_data_values-data_event_example :
    sse_data_values (concat (map data_event texts)) ≡ map strip texts
sse_data_values-data_event_example = sse_data_values-data_event texts texts-AreLines

separator_cuts_example :
    sse_data_values (data_event (codes "{\"a" ++ 0x2028 ∷ codes "b\"}")) ≡ strip (codes "{\"a") ∷ []
unfolding is_line_break
separator_cuts_example =
    separator_cuts (codes "{\"a") (codes "b\"}") 0x2028 (refl, (refl, (refl, tt)))
      (refl, (refl, (refl, tt))) (inr (inl refl)) refl

-- Comments and other fields are skipped, and the data lines of one event are joined.
reads :
    sse_data_values (codes ": hello\ndata: a\ndata:b\n\nevent: x\n\ndata: c\n")
    ≡ codes "a\nb" ∷ codes "c" ∷ []
unfolding sse_data_values splitlines strip
reads = refl

frames :
    iter_sse_events (codes "data: a" ∷ [] ∷ [] ∷ codes "data: b" ∷ [])
    ≡ codes "data: a\n\n" ∷ codes "data: b\n\n" ∷ []
unfolding iter_sse_events
frames = refl
