-- ===== src/Json/ReadBack.antt =====
-- Reading a property with `get_json_value` after `update_json_property`.
use tsurugi_graph.Base.{◌≡◌, false, ◌&&◌, Bytes, eq_bytes}
use tsurugi_graph.Json.RoundTrip.{Entry}

-- A text that is no string value of the entries, and no key that was looked for.
abbrev pub IsNoValue : Bytes → Entry → Type 0
IsNoValue key e = (e.1 && eq_bytes key e.2) ≡ false
