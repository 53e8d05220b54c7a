-- ===== src/Ast.antt =====
-- The syntax tree, graph-service/include/tateyama/framework/graph/core/ast.h. A shared pointer to
-- an expression is the expression; `std::map` is its entries in the order of their keys.
use tsurugi_graph.Base.{Bool, Option, none, some, List, Bytes, if◌then◌else◌, eq_bytes, lt_bytes}

mutual
  pub data Expression : Type 0 where
    variable : Bytes → Expression
    -- the text, and whether it is a string (or a number)
    literal : Bytes → Bool → Expression
    -- the variable and the property
    property_access : Bytes → Bytes → Expression
    -- left, operator, right
    binary : Expression → Bytes → Expression → Expression
    list_literal : Elements → Expression
    map_literal : Entries → Expression

  pub data Elements : Type 0 where
    no_elements : Elements
    element : Expression → Elements → Elements

  pub data Entries : Type 0 where
    no_entries : Entries
    entry : Bytes → Expression → Entries → Entries

-- `map[key] = value`
unfoldable pub set_entry : Bytes → Expression → Entries → Entries
set_entry k e no_entries = entry k e no_entries
set_entry k e (entry j d rest) =
    let later = entry j d (set_entry k e rest) in
    if eq_bytes j k
    then entry k e rest
    else if lt_bytes k j
    then entry k e (entry j d rest)
    else later

pub record PatternNode : Type 0 where
  pub variable : Bytes
  pub label : Bytes
  pub properties : Entries

pub record PatternRelationship : Type 0 where
  pub variable : Bytes
  pub type : Bytes
  pub direction : Bytes
  pub properties : Entries

pub record PatternElement : Type 0 where
  pub node : PatternNode
  pub relationship : Option PatternRelationship

abbrev pub PatternPath : Type 0
PatternPath = List PatternElement

pub record ReturnItem : Type 0 where
  pub expr : Expression
  pub alias : Bytes

pub record Assignment : Type 0 where
  pub variable : Bytes
  pub property : Bytes
  pub value : Expression

-- The legacy `value` of a WHERE clause: a null pointer, the same object as the right operand of
-- the condition, or an object of its own.
pub data LegacyValue : Type 0 where
  absent right_operand : LegacyValue
  own : Expression → LegacyValue

pub record WhereClause : Type 0 where
  pub condition : Expression
  pub variable : Bytes
  pub property : Bytes
  pub op : Bytes
  pub value : LegacyValue

pub data Clause : Type 0 where
  create : List PatternPath → Clause
  match : List PatternPath → Clause
  return_clause : List ReturnItem → Clause
  where_clause : WhereClause → Clause
  -- the variables, and `detach`
  delete_clause : List Bytes → Bool → Clause
  set_clause : List Assignment → Clause
  -- the list, and the alias
  unwind : Expression → Bytes → Clause

abbrev pub Statement : Type 0
Statement = List Clause

-- What the legacy `value` points to.
unfoldable pub legacy_value : WhereClause → Option Expression
legacy_value w = elim w.value [
  | absent ↦ none
  | own e ↦ some e
  | right_operand ↦ elim w.condition [ binary l o r ↦ some r | _ ↦ none ]
]
