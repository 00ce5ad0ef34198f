-- ===== src/Sparql/Terms.antt =====
-- The visits of `SelectAskQueryVisitor` that only build terms.
pub mod Faults
use tentris.Base.{
  ℕ, suc, ◌+◌, ◌-◌, ◌%◌, ◌^◌, Bool, true, false, Option, none, some, [], ◌∷◌, ◌++◌, Result, ok,
  fail, runtime_error, out_of_range, null_pointer, ◌>>=◌, ltb, ◌==◌, if◌then◌else◌, length, take,
  drop,
}
use tentris.Sparql.Syntax.{
  Text, Variable, Literal, simple, typed, lang_tagged, boolean, Node, variable, iri, literal,
  IriContext, iriref, pname_ln, pname_ns, BlankNodeContext, blank_node_label, anon, StringContext,
  short_string, long_string, RdfLiteralContext, NumericLiteralContext, NumericKind, decimal_number,
  double_number, integer_number, GraphTermContext, iri_term, blank_term, rdf_literal,
  boolean_literal, numeric_literal, nil_term, VarOrTermContext, var, term, PathContext,
  alternatives, no_alternative, PathAlternatives, no_sequences, path_sequence, PathElements,
  no_elements, path_elt, PathPrimaryContext, path_iri, path_a, path_negation, path_nested,
}
use Prim.Native.String.{String}
use Prim.Native.Char.{code}

-- What the visitor asks of rdf4cpp: the lookup of `IRIFactory`, and whether `make_typed` accepts a
-- lexical form for a datatype (it throws otherwise).
pub record Rdf : Type 0 where
  pub from_prefix : Text → Text → Option Text
  pub accepts : Text → Text → Bool

-- The bytes of an ASCII text.
abbrev pub bytes : String → Text
bytes String.[] = []
bytes (String.◌∷◌ c s) = code c ∷ bytes s

-- `std::string::substr(pos, n)`, with its exception.
abbrev pub substr : ℕ → ℕ → Text → Result Text
substr pos n s = if ltb (length s) pos then fail out_of_range else ok (take n (drop pos s))

-- `s.size() - k` on a 64-bit `size_t`.
abbrev pub size_minus : Text → ℕ → ℕ
size_minus s k = (length s + 2 ^ 64 - k) % 2 ^ 64

-- `find(':')`.
abbrev pub find_colon : Text → Option ℕ
find_colon [] = none
find_colon (c ∷ s) =
    if c == b':' then some 0 else elim (find_colon s) [ none ↦ none | some i ↦ some (suc i) ]

unfoldable pub visit_var : Text → Result Variable
visit_var text = do
  name ← substr 1 (2 ^ 64 - 1) text
  ok (record { name = name; is_anonymous = false })

-- With no colon `find` returns `npos`: `substr(0, npos)` is the whole text, and `npos + 1` is 0.
unfoldable pub split_prefix : Text → Text × Text
split_prefix s = elim (find_colon s) [ none ↦ (s, s) | some i ↦ (take i s, drop (suc i) s) ]

unfoldable pub visit_iri : Rdf → IriContext → Result Text
visit_iri rdf (iriref text) = substr 1 (size_minus text 2) text
visit_iri rdf (pname_ns text) = fail null_pointer
visit_iri rdf (pname_ln text) =
    let (prefix, local) = split_prefix text in
    elim (rdf.from_prefix prefix local) [
      | none ↦ fail (runtime_error "Invalid prefixed IRI")
      | some found ↦ ok found
    ]

unfoldable pub visit_blank_node : BlankNodeContext → Result Variable
visit_blank_node anon = fail (runtime_error "BlankNode ANON not supported.")
visit_blank_node (blank_node_label text) = do
  name ← substr 2 (2 ^ 64 - 1) text
  ok (record { name = name; is_anonymous = true })

unfoldable pub visit_string : StringContext → Result Text
visit_string (short_string text) = substr 1 (size_minus text 2) text
visit_string (long_string text) = substr 3 (size_minus text 6) text

unfoldable pub make_typed : Rdf → Text → Text → Result Literal
make_typed rdf value datatype =
    if rdf.accepts value datatype
    then ok (typed value datatype)
    else fail (runtime_error "make_typed")

unfoldable pub visit_rdf_literal : Rdf → RdfLiteralContext → Result Literal
visit_rdf_literal rdf ctx = visit_string ctx.string >>= λ value. elim ctx.datatype [
  | some iri_ctx ↦ (do datatype ← visit_iri rdf iri_ctx; make_typed rdf value datatype)
  | none ↦ elim ctx.langtag [
    | some tag ↦ (do lang ← substr 1 (2 ^ 64 - 1) tag; ok (lang_tagged value lang))
    | none ↦ ok (simple value)
  ]
]

abbrev pub xsd : String → Text
xsd name = bytes "http://www.w3.org/2001/XMLSchema#" ++ bytes name

-- Signed or not, the returns of the source differ in the datatype by the kind of the token alone.
abbrev pub numeric_datatype : NumericKind → Text
numeric_datatype decimal_number = xsd "decimal"
numeric_datatype double_number = xsd "double"
numeric_datatype integer_number = xsd "integer"

unfoldable pub visit_numeric_literal : Rdf → NumericLiteralContext → Result Literal
visit_numeric_literal rdf ctx = make_typed rdf ctx.text (numeric_datatype ctx.kind)

abbrev pub visit_boolean_literal : Bool → Literal
visit_boolean_literal b = boolean b

unfoldable pub visit_graph_term : Rdf → GraphTermContext → Result Node
visit_graph_term rdf (iri_term ctx) = do i ← visit_iri rdf ctx; ok (iri i)
visit_graph_term rdf (blank_term ctx) = do v ← visit_blank_node ctx; ok (variable v)
visit_graph_term rdf (rdf_literal ctx) = do l ← visit_rdf_literal rdf ctx; ok (literal l)
visit_graph_term rdf (boolean_literal b) = ok (literal (visit_boolean_literal b))
visit_graph_term rdf (numeric_literal ctx) = do l ← visit_numeric_literal rdf ctx; ok (literal l)
visit_graph_term rdf nil_term = fail (runtime_error "RDF collections are not supported yet.")

unfoldable pub visit_var_or_term : Rdf → VarOrTermContext → Result Node
visit_var_or_term rdf (var text) = do v ← visit_var text; ok (variable v)
visit_var_or_term rdf (term ctx) = visit_graph_term rdf ctx

abbrev pub rdf_type : Text
rdf_type = bytes "http://www.w3.org/1999/02/22-rdf-syntax-ns#type"

abbrev pub no_property_paths : {A : Type 0} → Result A
no_property_paths = fail (runtime_error "Property paths are not supported yet")

-- `visitPathElt` does not read the modifier of the element.
unfoldable mutual
  pub visit_path : Rdf → PathContext → Result Node
  visit_path rdf no_alternative = fail (runtime_error "Malformed query.")
  visit_path rdf (alternatives ps) = visit_path_alternative rdf ps

  pub visit_path_alternative : Rdf → PathAlternatives → Result Node
  visit_path_alternative rdf no_sequences = fail null_pointer
  visit_path_alternative rdf (path_sequence es no_sequences) = visit_path_sequence rdf es
  visit_path_alternative rdf (path_sequence es (path_sequence fs ps)) = no_property_paths

  pub visit_path_sequence : Rdf → PathElements → Result Node
  visit_path_sequence rdf no_elements = fail null_pointer
  visit_path_sequence rdf (path_elt true quantified p no_elements) = no_property_paths
  visit_path_sequence rdf (path_elt false quantified p no_elements) = visit_path_primary rdf p
  visit_path_sequence rdf (path_elt inv quantified p (path_elt inv' quantified' p' es)) =
      no_property_paths

  pub visit_path_primary : Rdf → PathPrimaryContext → Result Node
  visit_path_primary rdf (path_iri ctx) = do i ← visit_iri rdf ctx; ok (iri i)
  visit_path_primary rdf path_a = ok (iri rdf_type)
  visit_path_primary rdf path_negation = no_property_paths
  visit_path_primary rdf (path_nested path) = visit_path rdf path
