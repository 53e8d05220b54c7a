-- ===== src/Parser.antt =====
-- The recursive-descent parser, graph-service/src/tateyama/framework/graph/core/parser.cpp lines
-- 148 to 452. The state of the parser is the tokens that are left; an exception is `failed` with
-- its message. What a call leaves is not a part of its input that a recursion could follow, so each
-- round of a loop and each nested expression costs a unit of fuel.
pub mod Monad
pub mod Expressions
pub mod Patterns
pub mod Clauses
mod Ends
mod ExpressionsEnd
mod PatternsEnd
mod ClausesEnd
pub mod Answers
pub mod Print
