-- ===== src/Lib.antt =====
-- The graph service of tsurugi-graph: a property graph with Cypher-like queries over a transactional
-- key-value store. A query text goes through the lexer and the parser to a syntax tree; the cache
-- keeps trees of earlier queries, and templates replace the literals of a tree; the executor runs the
-- clauses over a symbol table and calls the storage layer, which writes nodes, edges and three kinds
-- of index entries to the tables of the store. The resource opens these tables at its start, and the
-- service answers a request in a transaction, which it tries again when the store asks for it.
--
-- The files, with the code they model. Paths begin at graph-service/src/tateyama/framework/graph or,
-- for headers, graph-service/include/tateyama/framework/graph.
--
-- Base: lists, byte strings, association lists and tests that the parts share.
-- Keys (storage.cpp): ids as keys, to_key and from_key, and sortable doubles. A double is its 64 bits.
-- Records (storage.cpp, storage.h): the edge record of create_edge and get_edge, and the packed id
-- lists of the property index, unpack_ids and remove_packed_id.
-- Json (storage.cpp, core/executor.cpp): parse_json_properties, the text that evaluate_properties
-- writes, get_json_value and update_json_property. Segments, Lookup, Search, Updates and ReadBack are
-- about the last two on texts that the executor writes, as a list of entries: answer and changed are
-- what a lookup and an update mean on that list.
-- Kvs: the store is not part of the repository. It is a record of operations with its documented
-- laws, each a named hypothesis, and Kvs/InMemory is a store that keeps all of them.
-- Storage (storage.cpp, storage.h): class storage as functions from a world, the object's members with
-- the database, to a result and a world. An update that fails in the store changes nothing there; the
-- methods' early returns are kept. std::stod is a parameter. A range scan is compared with a test of
-- every entry of the table (Index/Ranges, RangeEnds, RangeScan).
-- Ast (core/ast.h), Lexer, Parser (core/parser.cpp, core/parser.h): the parser is a monad on the
-- tokens that are left. parse has three units of fuel for each token and three more; an expression
-- takes two units for each token, and every round of a loop takes a token at least. Running out of
-- fuel is a result of its own. Parser/Print writes a statement as tokens, and says which statements the
-- grammar has.
-- QueryCache, Template (core/query_cache.h): the cache with numbered list nodes in the place of
-- iterators, and the list of entries by their last use that it stands for; normalize_query,
-- extract_literals, bind_literals, ast_cache_key, deep_copy_statement.
-- Executor (core/executor.cpp, core/executor.h): the symbol table with the world, and a function for
-- each clause: Create, Match with the fused MATCH and WHERE, Hops for relationships, Where, Update for
-- DELETE and SET, Return, and Run for execute and execute_unwind. A method ends with a result, with
-- false, or with an exception.
-- Service (service.cpp): Guard is tx_guard with the calls that it makes on the store; Attempt is one
-- attempt at a Cypher request with the cache, the parser, the executor and the commit; Retry is the
-- loop over the outcomes of attempts, and Request the loop over the attempts themselves, at most
-- MAX_RETRIES of them; Reads has the requests for a node and an edge; Lifecycle is setup, start and
-- shutdown, with the tables that a long transaction reserves, and Operate is operator() on one request
-- and on a sequence of them.
-- Resource (resource.cpp): setup, start and shutdown, with the calls on the transaction.
-- Tests: the theorems below and small runs on concrete inputs, with the store in memory.
--
-- What is not in the repository is a parameter: the store (Kvs), its catalog of tables
-- (Storage.Init.Catalog), what it answers to a begin and a commit and what an abort leaves of the
-- database (rollback), the number of hardware threads, and the order in which an unordered_map is
-- iterated.
--
-- Loops are structural recursion or recursion on fuel. The lexer's fuel is one more than the length
-- of the input, since each round takes a byte; the fuel of the JSON scan is found in the same way.
-- Numbers are unbounded, and where the code's width matters the wrap-around is written out.
--
-- The scan of a label and the full scan of WHERE have as many rounds as there are entries or ids, and
-- a batch of RETURN takes a row at least, so that these counts are their fuel.
--
-- Not modelled: the encoding of the protocol messages, logging, and the mutex of the cache, under which
-- its methods run one by one. The joined threads of WHERE are their slices in
-- order. Undefined behaviour of the code has no result. A read of an edge behind
-- the end of its value, in a MATCH, a DELETE or a RETURN, and a push to the vector that a loop goes
-- through mark the world (Storage/State), and what the model computes behind the mark says nothing
-- about the code; serve then gives no result (Service/Request), as a request for such an edge gives
-- none. The store keeps what a put that succeeds wrote, for tables and for sequences alike; which
-- sequence a second start finds is the catalog's answer, and no theorem is about ids across a start.
pub mod Base
pub mod Keys
pub mod Records
pub mod Json
pub mod Kvs
pub mod Storage
pub mod Ast
pub mod Lexer
pub mod Parser
pub mod QueryCache
pub mod Template
pub mod Executor
pub mod Service
pub mod Resource
mod Tests
