-- ===== src/Sparql/State.antt =====
-- `SPARQLQuery` and the members of `SelectAskQueryVisitor`.
use tentris.Base.{
  ℕ, ◌+◌, ◌%◌, Bool, false, Option, none, some, List, [], ◌∷◌, Result, ok, fail, empty_vector, find,
  assign,
}
use tentris.Sparql.Syntax.{
  Variable, Variable-discrete, Node, null_node, variable, TriplePattern, TriplesBlockContext,
  GroupGraphPatternContext,
}
use tentris.Sparql.Graph.{GraphOps}

-- The prefixes are a table of rdf4cpp, which the terms reach through their parameter.
pub record Query (G : Type 0) : Type 0 where
  pub odg : G
  pub projected_variables : List Variable
  pub var_to_id : List (Variable × ℕ)
  pub triple_patterns : List TriplePattern
  pub distinct : Bool
  pub ask : Bool
  pub project_all_variables : Bool

-- A stack has its top first; the vectors on it have their first element first.
pub record Visitor (G : Type 0) : Type 0 where
  pub query : Query G
  pub open query use *
  pub active_subject : Node
  pub active_predicate : Node
  pub var_id : ℕ
  pub group_patterns : List (List ℕ)
  pub opt_operands : List (List ℕ)
  pub union_operands : List (List ℕ)
  pub triples_blocks : List (List TriplesBlockContext)
  pub optional_blocks : List (List GroupGraphPatternContext)

abbrev pub empty_query : {G : Type 0} → GraphOps G → Query G
empty_query ops = record {
  odg = ops.empty;
  projected_variables = [];
  var_to_id = [];
  triple_patterns = [];
  distinct = false;
  ask = false;
  project_all_variables = false;
}

-- `explicit SelectAskQueryVisitor(SPARQLQuery *q)`, with `char var_id = 'a'`.
abbrev pub visitor : {G : Type 0} → Query G → Visitor G
visitor q = record {
  query = q;
  active_subject = null_node;
  active_predicate = null_node;
  var_id = b'a';
  group_patterns = [];
  opt_operands = [];
  union_operands = [];
  triples_blocks = [];
  optional_blocks = [];
}

-- `back()`, `pop_back()` and a change of `back()`: undefined on an empty vector.
module _ {A : Type 0} where
  abbrev pub top : List A → Result A
  top [] = fail empty_vector
  top (x ∷ xs) = ok x

  abbrev pub pop : List A → Result (List A)
  pop [] = fail empty_vector
  pop (x ∷ xs) = ok xs

  abbrev pub change_top : (A → A) → List A → Result (List A)
  change_top f [] = fail empty_vector
  change_top f (x ∷ xs) = ok (f x ∷ xs)

abbrev pub as_variable : Node → Option Variable
as_variable (variable v) = some v
as_variable _ = none

-- Ids are of type `char`, which wraps.
unfoldable pub register_var : {G : Type 0} → Visitor G → Variable → Visitor G
register_var s v = elim (find Variable-discrete v s.var_to_id) [
  | some id ↦ s
  | none ↦ record s {
    query = record s.query { var_to_id = assign Variable-discrete v s.var_id s.var_to_id };
    var_id = (s.var_id + 1) % 256;
  }
]

abbrev pub register_node : {G : Type 0} → Visitor G → Node → Visitor G
register_node s n = elim (as_variable n) [ some v ↦ register_var s v | none ↦ s ]
