-- ===== src/Sparql/Select.antt =====
-- The SELECT clause, the whole query (`SPARQLQuery::parse`, from its parse tree on), and the slice
-- keys of the triple patterns (`SPARQLQuery::get_slice_keys`).
use tentris.Base.{
  ℕ, Bool, true, false, Option, none, some, List, [], ◌∷◌, ◌++◌, map, Result, ok, fail,
  runtime_error, ◌>>=◌, if◌then◌else◌, ite,
}
use tentris.Sparql.Syntax.{
  Variable, Variable-discrete, Node, TriplePattern, GroupGraphPatternContext, SelectVariableContext,
  select_var, select_expression, SelectListContext, asterisk, select_variables, SelectClauseContext,
}
use tentris.Sparql.Terms.{Rdf, visit_var}
use tentris.Sparql.Graph.{GraphOps}
use tentris.Sparql.State.{Query, Visitor, empty_query, visitor, as_variable, register_var}
use tentris.Sparql.Triples.{nodes_of}
use tentris.Sparql.Pattern.{visit_where_clause}

abbrev pub is_seen : Variable → List Variable → Bool
is_seen v [] = false
is_seen v (w ∷ ws) = ite (Variable-discrete w v) true (is_seen v ws)

-- The loop of `SELECT *`, over the nodes of all patterns. `seen_vars` holds the variables that
-- the loop has projected.
unfoldable pub project_nodes : List Node → List Variable → List Variable → List Variable
project_nodes [] seen projected = projected
project_nodes (n ∷ ns) seen projected = elim (as_variable n) [
  | none ↦ project_nodes ns seen projected
  | some v ↦
      let new = project_nodes ns (v ∷ seen) (projected ++ v ∷ []) in
      let old = project_nodes ns seen projected in
      if v.is_anonymous then old else (if is_seen v seen then old else new)
]

abbrev pub all_nodes : List TriplePattern → List Node
all_nodes [] = []
all_nodes (tp ∷ tps) = nodes_of tp ++ all_nodes tps

module _ {G : Type 0} where
  unfoldable pub project_list : List SelectVariableContext → Visitor G → Result (Visitor G)
  project_list [] s = ok s
  project_list (select_expression ∷ cs) s =
      fail (runtime_error "Expressions in SELECT clause are not supported yet.")
  project_list (select_var text ∷ cs) s = do
    v ← visit_var text
    let s1 = register_var s v
    project_list cs (record s1 {
      query = record s1.query { projected_variables = s1.projected_variables ++ v ∷ [] };
    })

  unfoldable pub project : SelectListContext → Visitor G → Result (Visitor G)
  project (select_variables cs) s = project_list cs s
  project asterisk s = ok (record s {
    query = record s.query {
      project_all_variables = true;
      projected_variables = project_nodes (all_nodes s.triple_patterns) [] s.projected_variables;
    };
  })

  abbrev pub require_projection : Visitor G → Result (Visitor G)
  require_projection s = elim s.projected_variables [
    | [] ↦ fail (runtime_error "At least one variable should be projected.")
    | _ ∷ _ ↦ ok s
  ]

  unfoldable pub visit_select_clause : SelectClauseContext → Visitor G → Result (Visitor G)
  visit_select_clause ctx s =
      let s1 : Visitor G =
        if ctx.modifier_distinct
        then record s { query = record s.query { distinct = true } }
        else s in
      project ctx.selection s1 >>= require_projection

-- `query()`: the alternatives that `parse` tells apart, with their `whereClause()`.
pub data QueryContext : Type 0 where
  select_query : SelectClauseContext → Option GroupGraphPatternContext → QueryContext
  ask_query : Option GroupGraphPatternContext → QueryContext
  other_query : QueryContext

module _ {G : Type 0} (ops : GraphOps G) (rdf : Rdf) (fuel : ℕ) where
  abbrev pub visit_where : Option GroupGraphPatternContext → Visitor G → Result (Visitor G)
  visit_where none s = fail (runtime_error "Query does not contain a WHERE clause")
  visit_where (some ctx) s = visit_where_clause ops rdf fuel ctx s

  unfoldable pub visit_ask_query : Option GroupGraphPatternContext → Visitor G → Result (Visitor G)
  visit_ask_query where_clause s = visit_where where_clause s

  unfoldable pub visit_select_query :
      SelectClauseContext → Option GroupGraphPatternContext → Visitor G → Result (Visitor G)
  visit_select_query clause where_clause s =
      visit_where where_clause s >>= visit_select_clause clause

  -- `parse`, with the prologue in the parameter `rdf`.
  unfoldable pub parse : QueryContext → Result (Query G)
  parse other_query = fail (runtime_error "Only SELECT & ASK queries are supported currently.")
  parse (select_query clause where_clause) = do
    s ← visit_select_query clause where_clause (visitor (empty_query ops))
    ok s.query
  parse (ask_query where_clause) = do
    s ← visit_ask_query where_clause (visitor (empty_query ops))
    ok s.query

abbrev pub slice_part : Node → Option Node
slice_part n = elim (as_variable n) [ some _ ↦ none | none ↦ some n ]

-- A key has a hole for each variable.
unfoldable pub get_slice_keys : List TriplePattern → List (List (Option Node))
get_slice_keys tps = map (λ tp. map slice_part (nodes_of tp)) tps
