-- ===== src/Sparql/Invariant/Patterns.antt =====
-- The traversal of the patterns keeps the invariant, with a property of the query that the visits of
-- triples keep.
use tentris.Base.{ℕ, List, Ensures, Ensures-Anything, Anything}
use tentris.Sparql.Syntax.{GroupGraphPatternContext}
use tentris.Sparql.Graph.{GraphOps}
use tentris.Sparql.Terms.{Rdf}
use tentris.Sparql.State.{Query, Visitor}
use tentris.Sparql.Pattern.{visit_where_clause, optional_connections, group_dependencies}
use tentris.Sparql.Invariant.{IsValid}
use tentris.Sparql.Invariant.Visits.{IsStable, Sound, visit_triples_block-Sound}
use tentris.Sparql.Invariant.Traversal.{OnQuery, visit_where_clause-Kept}

module _ {G : Type 0} (ops : GraphOps G) where
  -- The edges between groups do not touch the property.
  abbrev pub IgnoresEdges : (Query G → Type 0) → Type 0
  IgnoresEdges R =
      (q : Query G) (prev cur opts unions : List ℕ)
      → R q
      → R (record q {
        odg = optional_connections ops cur opts unions (group_dependencies ops prev cur q.odg);
      })

  module _ (R : Query G → Type 0) (stable : IsStable ops R) (edges : IgnoresEdges R)
      (rdf : Rdf) where
    abbrev SoundOn : OnQuery G
    SoundOn q subject predicate var_id =
        IsValid q.var_to_id var_id q.triple_patterns subject predicate q.projected_variables q.ask
        × R q

    pub visit_where_clause-Sound :
        (fuel : ℕ) (ctx : GroupGraphPatternContext) (s : Visitor G)
        → Sound ops R stable rdf s
        → Ensures (Sound ops R stable rdf) Anything (visit_where_clause ops rdf fuel ctx s)
    visit_where_clause-Sound fuel ctx s h =
        visit_where_clause-Kept ops rdf SoundOn
          (λ q subject predicate var_id prev cur opts unions (valid, r).
            (valid, edges q prev cur opts unions r))
          (visit_triples_block-Sound ops R stable rdf) fuel ctx s h

  pub nothing-IsStable : IsStable ops (λ q. Unit {0})
  nothing-IsStable = record {
    registered = λ s v h r. tt;
    added = λ s tp h known r. Ensures-Anything _;
  }
