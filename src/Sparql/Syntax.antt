-- ===== src/Sparql/Syntax.antt =====
-- The parse tree that `SelectAskQueryVisitor` walks (the context classes are generated from the
-- grammar of the package sparql-parser). A context is the data that the visitor reads from it: an
-- accessor that may return a null pointer is an `Option` or a choice of constructors, and a token
-- is its text, as a list of bytes. RDF terms have a constructor for each factory call of rdf4cpp.
use tentris.Base.{ℕ, Bool, Option, List, ℕ_discrete}

abbrev pub Text : Type 0
Text = List ℕ

unfoldable pub Text-discrete : Discrete Text
unfolding ℕ_discrete
Text-discrete = hlevel ℕ_discrete

pub record Variable : Type 0 where
  pub name : Text
  pub is_anonymous : Bool

unfoldable pub Variable-discrete : Discrete Variable
unfolding ℕ_discrete
Variable-discrete = hlevel ℕ_discrete

pub data Literal : Type 0 where
  simple : Text → Literal
  typed : Text → Text → Literal
  lang_tagged : Text → Text → Literal
  boolean : Bool → Literal

-- `null_node` is the default-constructed `Node`.
pub data Node : Type 0 where
  null_node : Node
  variable : Variable → Node
  iri : Text → Node
  literal : Literal → Node

pub record TriplePattern : Type 0 where
  pub subject : Node
  pub predicate : Node
  pub object : Node

pub data IriContext : Type 0 where
  iriref : Text → IriContext
  pname_ln : Text → IriContext
  pname_ns : Text → IriContext

pub data BlankNodeContext : Type 0 where
  blank_node_label : Text → BlankNodeContext
  anon : BlankNodeContext

-- STRING_LITERAL1 and 2 are `short_string`, STRING_LITERAL_LONG1 and 2 are `long_string`.
pub data StringContext : Type 0 where
  short_string : Text → StringContext
  long_string : Text → StringContext

pub record RdfLiteralContext : Type 0 where
  pub string : StringContext
  pub datatype : Option IriContext
  pub langtag : Option Text

-- The kind of a number token, whatever its sign.
pub data NumericKind : Type 0 where
  decimal_number double_number integer_number : NumericKind

pub record NumericLiteralContext : Type 0 where
  pub text : Text
  pub kind : NumericKind

pub data GraphTermContext : Type 0 where
  iri_term : IriContext → GraphTermContext
  blank_term : BlankNodeContext → GraphTermContext
  rdf_literal : RdfLiteralContext → GraphTermContext
  boolean_literal : Bool → GraphTermContext
  numeric_literal : NumericLiteralContext → GraphTermContext
  nil_term : GraphTermContext

pub data VarOrTermContext : Type 0 where
  var : Text → VarOrTermContext
  term : GraphTermContext → VarOrTermContext

-- `path_elt inverse mod primary`: a path with its `^` and its `?`, `*` or `+`.
mutual
  pub data PathContext : Type 0 where
    alternatives : PathAlternatives → PathContext
    no_alternative : PathContext

  pub data PathAlternatives : Type 0 where
    no_sequences : PathAlternatives
    path_sequence : PathElements → PathAlternatives → PathAlternatives

  pub data PathElements : Type 0 where
    no_elements : PathElements
    path_elt : Bool → Bool → PathPrimaryContext → PathElements → PathElements

  pub data PathPrimaryContext : Type 0 where
    path_iri : IriContext → PathPrimaryContext
    path_a : PathPrimaryContext
    path_negation : PathPrimaryContext
    path_nested : PathContext → PathPrimaryContext

pub data VerbContext : Type 0 where
  verb_path : PathContext → VerbContext
  verb_simple : Text → VerbContext

-- An object is `none` where its graph node is a collection or a blank node property list.
abbrev pub ObjectContext : Type 0
ObjectContext = Option VarOrTermContext

pub record PropertyContext : Type 0 where
  pub verb : VerbContext
  pub object_list : Option (List ObjectContext)

-- `propertyListPathNotEmpty`: the first verb with its objects, and the further ones.
pub record PropertyListContext : Type 0 where
  pub first : PropertyContext
  pub further : List PropertyContext

pub record TriplesSameSubjectContext : Type 0 where
  pub var_or_term : Option VarOrTermContext
  pub property_list : Option PropertyListContext

abbrev pub TriplesBlockContext : Type 0
TriplesBlockContext = List TriplesSameSubjectContext

-- In `sub_list`, `no_pattern` is an entry with no `graphPatternNotTriples` (a FILTER), and `other`
-- one that is neither a group or union nor an OPTIONAL (MINUS, BIND, VALUES, ...).
mutual
  pub data GroupGraphPatternContext : Type 0 where
    sub_select : GroupGraphPatternContext
    pattern_sub : GroupGraphPatternSubContext → GroupGraphPatternContext
    neither : GroupGraphPatternContext

  pub data GroupGraphPatternSubContext : Type 0 where
    group_sub : Option TriplesBlockContext → SubListContext → GroupGraphPatternSubContext

  pub data SubListContext : Type 0 where
    end_list : SubListContext
    sub_list : NotTriplesContext → Option TriplesBlockContext → SubListContext → SubListContext

  pub data NotTriplesContext : Type 0 where
    no_pattern : NotTriplesContext
    group_or_union : GroupOrUnionContext → NotTriplesContext
    optional_pattern : GroupGraphPatternContext → NotTriplesContext
    other : NotTriplesContext

  pub data GroupOrUnionContext : Type 0 where
    end_union : GroupOrUnionContext
    alternative : GroupGraphPatternContext → GroupOrUnionContext → GroupOrUnionContext

pub data SelectVariableContext : Type 0 where
  select_var : Text → SelectVariableContext
  select_expression : SelectVariableContext

pub data SelectListContext : Type 0 where
  asterisk : SelectListContext
  select_variables : List SelectVariableContext → SelectListContext

pub record SelectClauseContext : Type 0 where
  pub modifier_distinct : Bool
  pub selection : SelectListContext
