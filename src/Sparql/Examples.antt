-- ===== src/Sparql/Examples.antt =====
-- Runs of the visitor on small queries, over a graph that is a list of edges, and the theorems at
-- these inputs.
pub mod Unions
pub mod Extremes
use tentris.Sparql.Pattern.Weight.{weight_of}
use tentris.Sparql.Pattern.Safety.{SameStacks, visit_where_clause-Safe}
use tentris.Sparql.Projection.{project-asterisk}
use tentris.Base.{
  NoDuplicates, Ensures, Safe, ℕ, zero, suc, ◌≡◌, ◌↔◌, ◌⊎◌, inl, inr, refl, ap, true, false, Option,
  none, some, List, [], ◌∷◌, ◌++◌, ok, arith, In, All, length, find, assign, ℕ_discrete, String,
}
use tentris.Sparql.Syntax.{
  asterisk, Text-discrete, Variable, Variable-discrete, variable, iri, TriplePattern, iriref, var,
  alternatives, path_sequence, no_sequences, path_elt, no_elements, path_iri, verb_path,
  TriplesSameSubjectContext, TriplesBlockContext, GroupGraphPatternContext, pattern_sub, group_sub,
  end_list, sub_list, optional_pattern, select_variables, select_var,
}
use tentris.Sparql.Graph.{GraphOps, GraphLaws}
use tentris.Sparql.Terms.{
  Rdf, bytes, visit_var, visit_iri, visit_string, visit_path, visit_var_or_term, visit_graph_term,
}
use tentris.Sparql.State.{Visitor, Query, visitor, empty_query, register_var}
use tentris.Sparql.Triples.{
  id_of, node_ids, match_var, match_vars, connect, connect_all, add_tp, visit_object,
  visit_object_list, visit_verb, visit_property, visit_properties, visit_property_list,
  visit_same_subject, visit_triples_block, nodes_of,
}
use tentris.Sparql.Pattern.{
  store_pattern, store_list, label_edges, pair_dependencies, group_dependencies,
  optional_connections, capture_group, visit_blocks, visit_optionals, visit_conjunction,
  visit_union, visit_rewritten, visit_well_designed, visit_group_graph_pattern, visit_where_clause,
}
use tentris.Sparql.Select.{
  all_nodes, project_nodes, project_list, project, visit_select_clause, QueryContext, select_query,
  visit_ask_query, visit_select_query, parse, get_slice_keys,
}
use tentris.Sparql.Ids.{HasId}
use tentris.Sparql.Invariant.{Known}
use tentris.Sparql.Edges.Post.{Between}
use tentris.Sparql.Edges.Group.{Label}
use tentris.Sparql.Edges.Drawn.{Drawing, add_tp-edges}
use tentris.Sparql.Operands.{OperandLaws, pattern_ids}
use tentris.Sparql.Operands.Aligned.{parse-operands}
use tentris.Sparql.Parsed.{parse-HasId, parse-injective}

program : Unit {0}
unfolding Text-discrete Variable-discrete visit_var visit_iri visit_string visit_path
    visit_graph_term visit_var_or_term register_var id_of node_ids match_var match_vars connect
    connect_all add_tp visit_object visit_object_list visit_verb visit_property visit_properties
    visit_property_list visit_same_subject visit_triples_block store_pattern store_list label_edges
    pair_dependencies group_dependencies optional_connections capture_group visit_blocks
    visit_optionals visit_conjunction visit_union visit_rewritten visit_well_designed
    visit_group_graph_pattern visit_where_clause project_nodes project_list project
    visit_select_clause visit_ask_query visit_select_query parse get_slice_keys find assign
    ℕ_discrete
program = tt

pub record ListGraph : Type 0 where
  pub operands : List (List ℕ)
  pub edges : List (ℕ × ℕ × Option ℕ)
  pub connections : List (ℕ × ℕ)

abbrev nth : List (List ℕ) → ℕ → List ℕ
nth [] i = []
nth (x ∷ xs) zero = x
nth (x ∷ xs) (suc i) = nth xs i

abbrev pub ops : GraphOps ListGraph
ops = record {
  empty = record { operands = []; edges = []; connections = [] };
  add_operand = λ g vs. (length g.operands, record g { operands = g.operands ++ vs ∷ [] });
  operand_var_ids = λ g i. nth g.operands i;
  add_dependency = λ g a b l. record g { edges = (a, b, l) ∷ g.edges };
  add_connection = λ g a b. record g { connections = (a, b) ∷ g.connections };
}

abbrev pub rdf : Rdf
rdf = record { from_prefix = λ p l. some (p ++ l); accepts = λ value datatype. true }

abbrev pub triple : String → String → String → TriplesSameSubjectContext
triple s p o = record {
  var_or_term = some (var (bytes s));
  property_list = some (record {
    first = record {
      verb = verb_path (
          alternatives (
            path_sequence (path_elt false false (path_iri (iriref (bytes p))) no_elements)
              no_sequences));
      object_list = some (some (var (bytes o)) ∷ []);
    };
    further = [];
  });
}

abbrev pub block : List TriplesSameSubjectContext → Option TriplesBlockContext
block ts = some ts

-- SELECT ?x WHERE { ?x <p> ?y . OPTIONAL { ?y <q> ?z } }
abbrev where_clause : GroupGraphPatternContext
where_clause = pattern_sub (
    group_sub (block (triple "?x" "<p>" "?y" ∷ [])) (
      sub_list
        (optional_pattern (pattern_sub (group_sub (block (triple "?y" "<q>" "?z" ∷ [])) end_list)))
        none end_list))

abbrev pub query : QueryContext
query =
    select_query
      (record {
        modifier_distinct = false;
        selection = select_variables (select_var (bytes "?x") ∷ []);
      })
      (some where_clause)

abbrev v : String → Variable
v name = record { name = bytes name; is_anonymous = false }

abbrev pub parsed : Query ListGraph
parsed = record {
  odg = record {
    operands = (97 ∷ 98 ∷ []) ∷ (98 ∷ 99 ∷ []) ∷ [];
    edges = (0, 1, some 98) ∷ [];
    connections = [];
  };
  projected_variables = v "x" ∷ [];
  var_to_id = (v "x", 97) ∷ (v "y", 98) ∷ (v "z", 99) ∷ [];
  triple_patterns =
      record { subject = variable (v "x"); predicate = iri (bytes "p"); object = variable (v "y") }
      ∷ record {
        subject = variable (v "y");
        predicate = iri (bytes "q");
        object = variable (v "z");
      }
      ∷ [];
  distinct = false;
  ask = false;
  project_all_variables = false;
}

pub parse-query : parse ops rdf 10 query ≡ ok parsed
unfolding program
parse-query = refl

abbrev HasListEdge : ListGraph → ℕ → ℕ → Option ℕ → Type 0
HasListEdge g a b l = In (a, b, l) g.edges

add_dependency-edges :
    (g : ListGraph) (a b : ℕ) (l : Option ℕ) (c d : ℕ) (m : Option ℕ)
    → HasListEdge (ops.add_dependency g a b l) c d m
      ↔ (HasListEdge g c d m ⊎ ((c ≡ a) × (d ≡ b) × (m ≡ l)))
add_dependency-edges g a b l c d m = (
  elim [
    | inl e ↦ inr (
      ap (λ (t : ℕ × ℕ × Option ℕ). t.0) e,
      ap (λ (t : ℕ × ℕ × Option ℕ). t.1) e,
      ap (λ (t : ℕ × ℕ × Option ℕ). t.2) e,
    )
    | inr i ↦ inl i
  ],
  elim [ inl i ↦ inr i | inr (p, q, r) ↦ inl (λ i. (p i, q i, r i)) ],
)

list_laws : GraphLaws ops
list_laws = record {
  HasEdge = HasListEdge;
  add_dependency-edges = add_dependency-edges;
  add_dependency-vars = λ g a b l c. refl;
  add_operand-edges = λ g vs c d m. ((λ e. e), (λ e. e));
}

parse-HasId_example :
    All (HasId parsed.var_to_id) parsed.projected_variables
    × All (λ tp. All (Known parsed.var_to_id) (nodes_of tp)) parsed.triple_patterns
parse-HasId_example = parse-HasId ops rdf 10 query parsed parse-query

parse-injective_example : v "y" ≡ v "y"
unfolding find Variable-discrete ℕ_discrete
parse-injective_example =
    parse-injective ops rdf 10 query parsed parse-query (v "y") (v "y") 98 (omega arith) refl refl

abbrev tp : TriplePattern
tp = record { subject = variable (v "y"); predicate = iri (bytes "q"); object = variable (v "z") }

abbrev in_group : Visitor ListGraph
in_group = record (visitor parsed) { group_patterns = (0 ∷ []) ∷ [] }

add_tp-edges_example :
    (s' : Visitor ListGraph) × (add_tp ops tp in_group ≡ ok s')
    × (s'.group_patterns ≡ (0 ∷ 2 ∷ []) ∷ [])
    × Drawing ops 2
        (98 ∷ 99 ∷ [])
        (nth ((97 ∷ 98 ∷ []) ∷ (98 ∷ 99 ∷ []) ∷ (98 ∷ 99 ∷ []) ∷ []))
        (0 ∷ [])
        (ops.add_operand parsed.odg (98 ∷ 99 ∷ [])).1
        s'.odg
    × ((c d : ℕ) (m : Option ℕ)
        → HasListEdge s'.odg c d m ↔ (
            HasListEdge parsed.odg c d m
            ⊎ ((u : ℕ) × In u (0 ∷ [])
                × Between u 2 c d
                × Label
                    (98 ∷ 99 ∷ [])
                    (nth ((97 ∷ 98 ∷ []) ∷ (98 ∷ 99 ∷ []) ∷ (98 ∷ 99 ∷ []) ∷ []) u)
                    m)))
unfolding program list_laws
add_tp-edges_example = add_tp-edges ops list_laws tp in_group (0 ∷ []) [] refl

abbrev pub fresh : Visitor ListGraph
fresh = visitor (empty_query ops)

visit_where_clause-Safe_example :
    Ensures (SameStacks ops rdf fresh) Safe (visit_where_clause ops rdf 2 where_clause fresh)
unfolding weight_of
visit_where_clause-Safe_example =
    visit_where_clause-Safe ops rdf 2 where_clause fresh (omega arith) refl refl

-- The patterns of `parsed`, with nothing projected yet.
abbrev unprojected : Visitor ListGraph
unprojected = visitor (record parsed { projected_variables = [] })

project-asterisk_example :
    (s' : Visitor ListGraph) × (project asterisk unprojected ≡ ok s')
    × NoDuplicates s'.projected_variables
    × ((u : Variable)
        → In u s'.projected_variables
          ↔ ((u.is_anonymous ≡ false) × In (variable u) (all_nodes parsed.triple_patterns)))
project-asterisk_example = project-asterisk unprojected refl

pub operand_laws : OperandLaws ops
operand_laws = record {
  operands = λ g. g.operands;
  operands-empty = refl;
  operands-add_operand = λ g vs. refl;
  operands-add_dependency = λ g a b l. refl;
  operands-add_connection = λ g a b. refl;
}

parse-operands_example :
    operand_laws.operands parsed.odg ≡ pattern_ids parsed.var_to_id parsed.triple_patterns
parse-operands_example = parse-operands ops operand_laws rdf 10 query parsed parse-query
