-- ===== src/Lexer.antt =====
-- The lexer, graph-service/src/tateyama/framework/graph/core/parser.cpp lines 8 to 146. The state
-- of the lexer is the position and the rest of the input from there.
mod Scan
mod Total
unfoldable pub use Scan.*
pub use Total.{EndsAt, tokenize_total}
