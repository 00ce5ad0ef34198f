-- ===== src/Sparql/Parsed.antt =====
-- What holds of every query that `SPARQLQuery::parse` returns.
use tentris.Base.{
  ℕ, ◌+◌, ◌%◌, ◌≡◌, ◌≤◌, refl, false, Option, none, some, List, [], ◌∷◌, ◌++◌, ok, Ensures, returns,
  throws, Ensures-bind, Ensures-Anything, Ensures-ok, Anything, length, arith, inl, inr, List-cases,
  Bool-cases, All, All-append,
}
use tentris.Sparql.Syntax.{
  Variable, Node, null_node, variable, iri, literal, TriplePattern, GroupGraphPatternContext,
  SelectVariableContext, select_var, select_expression, SelectListContext, asterisk,
  select_variables, SelectClauseContext,
}
use tentris.Sparql.Graph.{GraphOps}
use tentris.Sparql.Terms.{Rdf, visit_var}
use tentris.Sparql.State.{Visitor, Query, register_var, visitor, empty_query}
use tentris.Sparql.Triples.{nodes_of}
use tentris.Sparql.Select.{
  project_nodes, all_nodes, project_list, project, visit_select_clause, QueryContext, select_query,
  ask_query, other_query, visit_ask_query, visit_select_query, parse, require_projection,
  visit_where,
}
use tentris.Sparql.Ids.{Ids, id?, HasId, id?-injective}
use tentris.Sparql.Invariant.{Known, IsValid, Valid, register_var-Valid}
use tentris.Sparql.Invariant.Visits.{IsStable, Sound}
use tentris.Sparql.Invariant.Patterns.{IgnoresEdges, nothing-IsStable, visit_where_clause-Sound}

visitor-Valid : {G : Type 0} (ops : GraphOps G) → Valid (visitor (empty_query ops))
visitor-Valid ops = record {
  numbered = tt;
  counted = refl;
  patterns = tt;
  known_subject = tt;
  known_predicate = tt;
  projections = tt;
  not_ask = refl;
}

all_nodes-Known :
    (m : Ids) (tps : List TriplePattern)
    → All (λ tp. All (Known m) (nodes_of tp)) tps
    → All (Known m) (all_nodes tps)
all_nodes-Known m [] h = tt
all_nodes-Known m (tp ∷ tps) h =
    All-append (Known m) (nodes_of tp) (all_nodes tps) h.0 (all_nodes-Known m tps h.1)

project_nodes-HasId :
    (m : Ids) (ns : List Node) (seen projected : List Variable)
    → All (Known m) ns
    → All (HasId m) projected
    → All (HasId m) (project_nodes ns seen projected)
unfolding project_nodes
project_nodes-HasId m [] seen projected k h = h
project_nodes-HasId m (variable v ∷ ns) seen projected k h = ground (
  arith,
  project_nodes-HasId m ns seen projected k.1 h,
  project_nodes-HasId m ns (v ∷ seen) (projected ++ v ∷ []) k.1
      (All-append (HasId m) projected (v ∷ []) h (k.0, tt)),
)
project_nodes-HasId m (null_node ∷ ns) seen projected k h =
    project_nodes-HasId m ns seen projected k.1 h
project_nodes-HasId m (iri t ∷ ns) seen projected k h =
    project_nodes-HasId m ns seen projected k.1 h
project_nodes-HasId m (literal l ∷ ns) seen projected k h =
    project_nodes-HasId m ns seen projected k.1 h

-- A property of the operands, the ids and the triple patterns of a query.
abbrev pub OnCore : Type 0 → Type 1
OnCore G = G → Ids → List TriplePattern → Type 0

abbrev pub OfQuery : {G : Type 0} → OnCore G → Query G → Type 0
OfQuery R q = R q.odg q.var_to_id q.triple_patterns

module _ {G : Type 0} (ops : GraphOps G) (R : OnCore G) (stable : IsStable ops (OfQuery R))
    (rdf : Rdf) where
  abbrev SoundCore : Visitor G → Type 0
  SoundCore = Sound ops (OfQuery R) stable rdf

  project_list-Sound :
      (cs : List SelectVariableContext) (s : Visitor G)
      → SoundCore s
      → Ensures SoundCore Anything (project_list cs s)
  unfolding project_list
  project_list-Sound [] s h = returns h
  project_list-Sound (select_expression ∷ cs) s h = throws tt
  project_list-Sound (select_var text ∷ cs) s (h, q) =
      Ensures-bind (Ensures-Anything (visit_var text)) (λ v _.
        let (r, known) = register_var-Valid s v h in
        project_list-Sound cs _ (
          record {
            numbered = r.numbered;
            counted = r.counted;
            patterns = r.patterns;
            known_subject = r.known_subject;
            known_predicate = r.known_predicate;
            projections =
                All-append (HasId (register_var s v).var_to_id)
                  (register_var s v).projected_variables (v ∷ []) r.projections (known, tt);
            not_ask = r.not_ask;
          },
          stable.registered s v h q,
        ))

  project-Sound :
      (l : SelectListContext) (s : Visitor G)
      → SoundCore s
      → Ensures SoundCore Anything (project l s)
  unfolding project
  project-Sound (select_variables cs) s h = project_list-Sound cs s h
  project-Sound asterisk s (h, q) = returns (
    record {
      numbered = h.numbered;
      counted = h.counted;
      patterns = h.patterns;
      known_subject = h.known_subject;
      known_predicate = h.known_predicate;
      projections =
          project_nodes-HasId s.var_to_id (all_nodes s.triple_patterns) [] s.projected_variables
            (all_nodes-Known s.var_to_id s.triple_patterns h.patterns) h.projections;
      not_ask = h.not_ask;
    },
    q,
  )

  require_projection-Sound :
      (s : Visitor G) → SoundCore s → Ensures SoundCore Anything (require_projection s)
  require_projection-Sound s h = elim (List-cases s.projected_variables) [
    | inl e ↦ rw e (throws tt)
    | inr (v, vs, e) ↦ rw e (returns (rw e at h.0, h.1))
  ]

  visit_select_clause-Sound :
      (ctx : SelectClauseContext) (s : Visitor G)
      → SoundCore s
      → Ensures SoundCore Anything (visit_select_clause ctx s)
  unfolding visit_select_clause
  visit_select_clause-Sound ctx s h = elim (Bool-cases ctx.modifier_distinct) [
    | inl e ↦ rw e (Ensures-bind (project-Sound ctx.selection _ h) require_projection-Sound)
    | inr e ↦ rw e (Ensures-bind (project-Sound ctx.selection s h) require_projection-Sound)
  ]

-- The invariant of the visitor, read off the query.
abbrev QueryValid : {G : Type 0} → Query G → Type 0
QueryValid q =
    IsValid q.var_to_id ((b'a' + length q.var_to_id) % 256) q.triple_patterns null_node null_node
      q.projected_variables q.ask

query-Valid : {G : Type 0} (s : Visitor G) → Valid s → QueryValid s.query
query-Valid s h = record {
  numbered = h.numbered;
  counted = refl;
  patterns = h.patterns;
  known_subject = tt;
  known_predicate = tt;
  projections = h.projections;
  not_ask = h.not_ask;
}

-- What holds of a new query.
pub record IsCore {G : Type 0} (ops : GraphOps G) (R : OnCore G) : Type 0 where
  pub begins : R ops.empty [] []
  pub stable : IsStable ops (OfQuery R)
  pub edges : IgnoresEdges ops (OfQuery R)

module _ {G : Type 0} (ops : GraphOps G) (R : OnCore G) (kept : IsCore ops R) (rdf : Rdf)
    (fuel : ℕ) where
  visit_where-Sound :
      (w : Option GroupGraphPatternContext)
      → Ensures
          (SoundCore ops R kept.stable rdf)
          Anything
          (visit_where ops rdf fuel w (visitor (empty_query ops)))
  visit_where-Sound none = throws tt
  visit_where-Sound (some ctx) =
      visit_where_clause-Sound ops (OfQuery R) kept.stable kept.edges rdf fuel ctx _
        (visitor-Valid ops, kept.begins)

  abbrev ParsedCore : Query G → Type 0
  ParsedCore q = QueryValid q × OfQuery R q

  pub parse-ParsedCore : (ctx : QueryContext) → Ensures ParsedCore Anything (parse ops rdf fuel ctx)
  unfolding parse visit_select_query visit_ask_query
  parse-ParsedCore other_query = throws tt
  parse-ParsedCore (ask_query w) =
      Ensures-bind (visit_where-Sound w) (λ s (h, r). returns (query-Valid s h, r))
  parse-ParsedCore (select_query clause w) =
      Ensures-bind
        (Ensures-bind (visit_where-Sound w)
          (visit_select_clause-Sound ops R kept.stable rdf clause))
        (λ s (h, r). returns (query-Valid s h, r))

nothing_kept : {G : Type 0} (ops : GraphOps G) → IsCore ops (λ g m tps. Unit)
nothing_kept ops = record {
  begins = tt;
  stable = nothing-IsStable ops;
  edges = λ q prev cur opts unions r. r;
}

module _ {G : Type 0} (ops : GraphOps G) (rdf : Rdf) (fuel : ℕ) (ctx : QueryContext) (q : Query G)
    (parsed : parse ops rdf fuel ctx ≡ ok q) where
  valid : QueryValid q
  valid =
      (Ensures-ok (parse-ParsedCore ops (λ g m tps. Unit) (nothing_kept ops) rdf fuel ctx) parsed).0

  -- Each variable of a parsed query, in its triple patterns or in its projection, has an id: the
  -- evaluation of a SELECT (`var_to_id_.at`) meets no missing key.
  pub parse-HasId :
      All (HasId q.var_to_id) q.projected_variables
      × All (λ tp. All (Known q.var_to_id) (nodes_of tp)) q.triple_patterns
  parse-HasId = (valid.projections, valid.patterns)

  -- In a parsed query with at most 256 variables, two variables with the same id are one.
  pub parse-injective :
      (v w : Variable) (id : ℕ)
      → length q.var_to_id ≤ 256
      → id? v q.var_to_id ≡ some id
      → id? w q.var_to_id ≡ some id
      → v ≡ w
  parse-injective v w id size p r = id?-injective q.var_to_id v w id valid.numbered size p r

  -- No parsed query is marked as an ASK query, also where the text asks: `ask_` is never written.
  pub parse-ask : q.ask ≡ false
  parse-ask = valid.not_ask
