-- ===== src/Json.antt =====
-- The JSON texts in which nodes keep their properties: how the storage layer reads all of them
-- (`parse_json_properties` of graph-service/src/tateyama/framework/graph/storage.cpp), and how the
-- executor writes them, reads one and updates one (`evaluate_properties`, `get_json_value` and
-- `update_json_property` of graph-service/src/tateyama/framework/graph/core/executor.cpp). A
-- position in a text is the rest of the text from there: every loop only moves forward.
pub mod Parse
pub mod Render
pub mod Value
pub mod RoundTrip
pub mod Segments
pub mod Lookup
pub mod Search
pub mod Updates
pub mod ReadBack
