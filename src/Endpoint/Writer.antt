-- ===== src/Endpoint/Writer.antt =====
-- `SparqlJsonResultSAXWriter`, over the writer of rapidjson as a parameter.
use tentris.Base.{
  ℕ, zero, suc, ◌+◌, ◌%◌, ◌^◌, Bool, List, [], ◌∷◌, ◌++◌, Result, ok, fail, runtime_error, ◌>>=◌,
  ltb, length, ite, map,
}
use tentris.Sparql.Syntax.{Text, Text-discrete, Node, Variable}
use tentris.Sparql.Terms.{bytes}
use tentris.TripleStore.Store.{Entry}
use tentris.Endpoint.Json.{Event, start_object, end_object, start_array, end_array, key, string}

-- What rdf4cpp says of a node.
pub data Term : Type 0 where
  null : Term
  iri_term : Text → Term
  literal_term : (lexical_form datatype language_tag : Text) → Term
  blank_node_term : Text → Term
  other_term : Term

-- `rapidjson::Writer`: an event leads to a new state and to bytes.
pub record RapidJson (W : Type 0) : Type 0 where
  pub start : W
  pub write : Event → W → W × Text

pub record SaxWriter (W : Type 0) : Type 0 where
  pub number_of_solutions_ : ℕ
  pub number_of_bindings_ : ℕ
  pub buffer_size : ℕ
  pub buffer : Text
  pub writer : W
  pub variables_ : List Text

abbrev pub xsd_str : Text
xsd_str = bytes "http://www.w3.org/2001/XMLSchema#string"

abbrev pub lang_events : (datatype lang : Text) → List Event
lang_events datatype [] = key (bytes "datatype") ∷ string datatype ∷ []
lang_events datatype (c ∷ lang) = key (bytes "xml:lang") ∷ string (c ∷ lang) ∷ []

-- What stands between the type and the value of a literal.
abbrev pub literal_events : (datatype lang : Text) → List Event
literal_events datatype lang = ite (Text-discrete datatype xsd_str) [] (lang_events datatype lang)

-- The binding of a variable, and nothing for a null term.
unfoldable pub binding_events : Term → Result (List Event)
binding_events null = ok []
binding_events (iri_term identifier) =
    ok (string (bytes "uri") ∷ key (bytes "value") ∷ string identifier ∷ [])
binding_events (literal_term lexical_form datatype lang) = ok (
    string (bytes "literal")
    ∷ (literal_events datatype lang ++ key (bytes "value") ∷ string lexical_form ∷ []))
binding_events (blank_node_term identifier) =
    ok (string (bytes "bnode") ∷ key (bytes "value") ∷ string identifier ∷ [])
binding_events other_term =
    fail (runtime_error "Node with incorrect type (none of Literal, BNode, URI) detected.")

module _ {W : Type 0} (json : RapidJson W) (term_of : Node → Term) where
  -- The bytes of events.
  unfoldable pub render : List Event → W → W × Text
  render [] w = (w, [])
  render (e ∷ es) w =
      let (w1, out) = json.write e w in let (w2, outs) = render es w1 in (w2, out ++ outs)

  unfoldable pub emit : List Event → SaxWriter W → SaxWriter W
  emit es s = let (w, out) = render es s.writer in record s { writer = w; buffer = s.buffer ++ out }

  abbrev pub add_term : Text → Term → SaxWriter W → Result (SaxWriter W)
  add_term var term s = binding_events term >>= λ es.
      let s1 = emit (key var ∷ start_object ∷ key (bytes "type") ∷ (es ++ end_object ∷ [])) s in
      ok (record s1 { number_of_bindings_ = (s1.number_of_bindings_ + 1) % 2 ^ 64 })

  -- The body of the loop: a null term is passed over.
  abbrev pub add_binding : Text → Term → SaxWriter W → Result (SaxWriter W)
  add_binding var null s = ok s
  add_binding var term s = add_term var term s

  -- The loop over `zip(entry.key(), variables_)`.
  unfoldable pub add_bindings : List Node → List Text → SaxWriter W → Result (SaxWriter W)
  add_bindings [] vars s = ok s
  add_bindings (n ∷ ns) [] s = ok s
  add_bindings (n ∷ ns) (var ∷ vars) s = add_binding var (term_of n) s >>= add_bindings ns vars

  -- The loop over the occurrences of a solution.
  unfoldable pub add_solutions : ℕ → List Node → SaxWriter W → Result (SaxWriter W)
  add_solutions zero ns s = ok s
  add_solutions (suc n) ns s = do
    s1 ← add_bindings ns s.variables_ (emit (start_object ∷ []) s)
    add_solutions n ns (emit (end_object ∷ []) s1)

  unfoldable pub add : Entry → SaxWriter W → Result (SaxWriter W)
  add e s = do
    s1 ← add_solutions e.value e.key s
    ok (record s1 { number_of_solutions_ = (s1.number_of_solutions_ + e.value) % 2 ^ 64 })

  -- The constructor.
  unfoldable pub sax_writer : List Variable → ℕ → SaxWriter W
  sax_writer variables buffer_size =
      let names = map (λ (v : Variable). v.name) variables in
      emit
        (start_object
          ∷ key (bytes "head")
          ∷ start_object
          ∷ key (bytes "vars")
          ∷ start_array
          ∷ (map string names
              ++ end_array
                ∷ end_object
                ∷ key (bytes "results")
                ∷ start_object
                ∷ key (bytes "bindings")
                ∷ start_array
                ∷ []))
        (record {
          number_of_solutions_ = 0;
          number_of_bindings_ = 0;
          buffer_size = buffer_size;
          buffer = [];
          writer = json.start;
          variables_ = names;
        })

  unfoldable pub close : SaxWriter W → SaxWriter W
  close s = emit (end_array ∷ end_object ∷ end_object ∷ []) s

abbrev pub full : {W : Type 0} → SaxWriter W → Bool
full s = ltb s.buffer_size (length s.buffer)

-- `string_view`: the writer has no output of its own to flush.
abbrev pub string_view : {W : Type 0} → SaxWriter W → Text
string_view s = s.buffer

abbrev pub clear : {W : Type 0} → SaxWriter W → SaxWriter W
clear s = record s { buffer = [] }
