-- ===== src/Sparql/Reference.antt =====
-- `SPARQLQuery::parse` as a whole: what it visits.
use tentris.Base.{
  ℕ, ◌≤◌, ◌≡◌, refl, ◌∙◌, Bool-cases, List-cases, inl, inr, Option, none, some, List, [], ◌∷◌,
  Ensures, returns, throws, Ensures-bind, Ensures-map, Safe, arith,
}
use tentris.Sparql.Syntax.{
  Variable, TriplesBlockContext, GroupGraphPatternContext, SelectVariableContext, select_var,
  select_expression, asterisk, select_variables, SelectListContext, SelectClauseContext,
}
use tentris.Sparql.Terms.{Rdf}
use tentris.Sparql.Terms.Faults.{visit_var-Safe}
use tentris.Sparql.Graph.{GraphOps}
use tentris.Sparql.State.{Query, Visitor, visitor, empty_query, register_var}
use tentris.Sparql.Select.{
  project_list, project, require_projection, visit_select_clause, QueryContext, select_query,
  ask_query, other_query, visit_where, visit_ask_query, visit_select_query, parse,
}
use tentris.Sparql.Pattern.Weight.{weight_of}
use tentris.Sparql.Pattern.Order.{visited}
use tentris.Sparql.Pattern.Runs.{Runs}
use tentris.Sparql.Pattern.Unions.{visit_where_clause-Runs}

abbrev pub where_of : QueryContext → Option GroupGraphPatternContext
where_of (select_query clause w) = w
where_of (ask_query w) = w
where_of other_query = none

abbrev where_weight : Option GroupGraphPatternContext → ℕ
where_weight none = 0
where_weight (some ctx) = weight_of ctx

abbrev where_blocks : Option GroupGraphPatternContext → List TriplesBlockContext
where_blocks none = []
where_blocks (some ctx) = visited ctx

-- The fuel that a query takes, and the blocks that the reference visits for it.
abbrev pub query_weight : QueryContext → ℕ
query_weight ctx = where_weight (where_of ctx)

abbrev pub query_blocks : QueryContext → List TriplesBlockContext
query_blocks ctx = where_blocks (where_of ctx)

module _ {G : Type 0} where
  abbrev SamePatterns : Visitor G → Visitor G → Type 0
  SamePatterns s t = t.triple_patterns ≡ s.triple_patterns

  register_var-triple_patterns : (s : Visitor G) (v : Variable) → SamePatterns s (register_var s v)
  unfolding register_var
  register_var-triple_patterns s v = ground arith

  project_list-SamePatterns :
      (cs : List SelectVariableContext) (s : Visitor G)
      → Ensures (SamePatterns s) Safe (project_list cs s)
  unfolding project_list
  project_list-SamePatterns [] s = returns refl
  project_list-SamePatterns (select_expression ∷ cs) s = throws tt
  project_list-SamePatterns (select_var text ∷ cs) s = Ensures-bind (visit_var-Safe text) (λ v _.
      Ensures-map (λ t e. e ∙ register_var-triple_patterns s v) (project_list-SamePatterns cs _))

  project-SamePatterns :
      (ctx : SelectListContext) (s : Visitor G) → Ensures (SamePatterns s) Safe (project ctx s)
  unfolding project
  project-SamePatterns (select_variables cs) s = project_list-SamePatterns cs s
  project-SamePatterns asterisk s = returns refl

  require_projection-SamePatterns :
      (s t : Visitor G) → SamePatterns s t → Ensures (SamePatterns s) Safe (require_projection t)
  require_projection-SamePatterns s t e = elim (List-cases t.projected_variables) [
    | inl h ↦ rw h (throws tt)
    | inr (v, vs, h) ↦ rw h (returns e)
  ]

  visit_select_clause-SamePatterns :
      (ctx : SelectClauseContext) (s : Visitor G)
      → Ensures (SamePatterns s) Safe (visit_select_clause ctx s)
  unfolding visit_select_clause
  visit_select_clause-SamePatterns ctx s = elim (Bool-cases ctx.modifier_distinct) [
    | inl e ↦
        rw e
          (Ensures-bind (project-SamePatterns ctx.selection _) (require_projection-SamePatterns s))
    | inr e ↦
        rw e
          (Ensures-bind (project-SamePatterns ctx.selection s) (require_projection-SamePatterns s))
  ]

module _ {G : Type 0} (ops : GraphOps G) (rdf : Rdf) where
  abbrev start : Visitor G
  start = visitor (empty_query ops)

  visit_where-Runs :
      (fuel : ℕ) (w : Option GroupGraphPatternContext)
      → where_weight w ≤ fuel
      → Ensures (Runs ops rdf (where_blocks w) start) Safe (visit_where ops rdf fuel w start)
  visit_where-Runs fuel none fits = throws tt
  visit_where-Runs fuel (some ctx) fits =
      visit_where_clause-Runs ops rdf fuel ctx start fits refl refl

  -- The triple patterns of the query are those of a run that visits the blocks.
  abbrev pub VisitedPatterns : List TriplesBlockContext → Query G → Type 0
  VisitedPatterns blocks q =
      (t : Visitor G) × Runs ops rdf blocks start t × (q.triple_patterns ≡ t.triple_patterns)

  -- With fuel for each group pattern, a parse ends, reads no empty vector, and when it returns, the
  -- triple patterns of the query are what the visits of the triples blocks of the reference, in its
  -- order and from the start of the visitor, have added.
  pub parse-VisitedPatterns :
      (fuel : ℕ) (ctx : QueryContext)
      → query_weight ctx ≤ fuel
      → Ensures (VisitedPatterns (query_blocks ctx)) Safe (parse ops rdf fuel ctx)
  unfolding parse visit_select_query visit_ask_query
  parse-VisitedPatterns fuel other_query fits = throws tt
  parse-VisitedPatterns fuel (ask_query w) fits =
      Ensures-bind (visit_where-Runs fuel w fits) (λ t ran. returns (t, ran, refl))
  parse-VisitedPatterns fuel (select_query clause w) fits =
      Ensures-bind
        (Ensures-bind (visit_where-Runs fuel w fits) (λ t ran.
          Ensures-map
            {Q = λ u. (t : Visitor G) × Runs ops rdf (where_blocks w) start t × SamePatterns t u}
            (λ u e. (t, ran, e)) (visit_select_clause-SamePatterns clause t)))
        (λ u h. returns h)
