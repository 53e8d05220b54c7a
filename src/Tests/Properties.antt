-- ===== src/Tests/Properties.antt =====
-- Reading and updating the text of a node's properties.
use tsurugi_graph.Base.{
  ◌≡◌, refl, true, false, List, [], ◌∷◌, some, bytes, eq_bytes, All, find_byte, has_prefix, span,
}
use tsurugi_graph.Json.Render.{quoted, render, value_text}
use tsurugi_graph.Json.Value.{
  find_text, skip_value, replace_value, get_json_value, update_json_property,
}
use tsurugi_graph.Json.RoundTrip.{Entry, texts}
use tsurugi_graph.Json.Lookup.{answer, get_json_value-render}
use tsurugi_graph.Json.Segments.{IsPlain}

-- `{"a": "b", "c": 1}`
abbrev pub two : List Entry
two = (bytes "a", true, bytes "b") ∷ (bytes "c", false, bytes "1") ∷ []

pub two-IsPlain : All IsPlain two
two-IsPlain = (
  (((refl, tt), (refl, tt)), (refl, tt), (refl, tt)),
  ((((refl, tt), (refl, (refl, tt))), (refl, tt), (refl, tt)), tt),
)

-- No entry has the key `b`, but a value is `b`.
get_json_value-render_example :
    get_json_value (render (texts two)) (bytes "b") ≡ answer (bytes "b") two
get_json_value-render_example = get_json_value-render (bytes "b") two (refl, tt) two-IsPlain

answer_b : answer (bytes "b") two ≡ bytes "1"
unfolding eq_bytes
answer_b = refl

-- `{"x": "a", "b": 1}`: an update of `a`, which is only a value, changes `b`.
abbrev valued : List Entry
valued = (bytes "x", true, bytes "a") ∷ (bytes "b", false, bytes "1") ∷ []

update_json_property-valued :
    update_json_property (render (texts valued)) (bytes "a") (bytes "2") false
    ≡ some (bytes "{\"x\": \"a\", \"b\": 2}")
unfolding update_json_property replace_value skip_value find_text find_byte has_prefix span quoted
    value_text render
update_json_property-valued = refl
