-- ===== src/Sparql/Pattern/Unions.antt =====
-- The whole visit of a WHERE clause against the reference order: joins over unions are distributed.
use tentris.Base.{
  ℕ, ◌≤◌, ◌≡◌, refl, subst, [], Ensures, returns, throws, Ensures-bind, Safe, length, arith,
}
use tentris.Sparql.Syntax.{GroupGraphPatternContext, sub_select, pattern_sub, neither}
use tentris.Sparql.Terms.{Rdf}
use tentris.Sparql.Graph.{GraphOps}
use tentris.Sparql.State.{Visitor}
use tentris.Sparql.Pattern.{enter, visit_group_graph_pattern, visit_where_clause}
use tentris.Sparql.Pattern.Weight.{weight, weight_of}
use tentris.Sparql.Pattern.Order.{visited, flatten, conjunctions}
use tentris.Sparql.Pattern.Runs.{Runs, after_same, then_same}
use tentris.Sparql.Pattern.Distributed.{spread-alone}
use tentris.Sparql.Pattern.Safety.{visit_well_designed-Safe}

module _ {G : Type 0} (ops : GraphOps G) (rdf : Rdf) where
  -- With fuel for each group pattern of the WHERE clause, and as many vectors of operands as open
  -- groups, a visit of the clause that returns has visited the triples blocks of the reference, in
  -- its order: for each choice of one branch of every union, the blocks of the conjunction and then
  -- those of its OPTIONALs. Nothing but these visits has changed the triple patterns, the variables with
  -- their ids, the active subject and predicate and the flags of the query.
  pub visit_where_clause-Runs :
      (fuel : ℕ) (ctx : GroupGraphPatternContext) (s : Visitor G)
      → weight_of ctx ≤ fuel
      → length s.opt_operands ≡ length s.group_patterns
      → length s.union_operands ≡ length s.group_patterns
      → Ensures (Runs ops rdf (visited ctx) s) Safe (visit_where_clause ops rdf fuel ctx s)
  unfolding visit_where_clause visit_group_graph_pattern weight visited
  visit_where_clause-Runs fuel sub_select s fits h h' = throws tt
  visit_where_clause-Runs fuel neither s fits h h' = throws tt
  visit_where_clause-Runs fuel (pattern_sub ctx) s fits h h' =
      Ensures-bind
        (visit_well_designed-Safe ops rdf fuel s.triples_blocks s.optional_blocks s.group_patterns
          (length s.group_patterns) ctx [] [] [] (enter s) refl (omega arith)
          (record {
            at_triples = refl;
            at_optionals = refl;
            at_groups = ([], refl);
            at_opts = h;
            at_unions = h';
          }))
        (λ s1 ((tbs1, os1, x, y, h1), ran).
          rw (h1.at_optionals, h1.at_triples, h1.at_groups.1)
            (returns (
              then_same ops rdf (flatten (conjunctions ctx)) s s1 _
                (after_same ops rdf (flatten (conjunctions ctx)) s (enter s) s1 refl
                  (subst (λ tbs. Runs ops rdf tbs (enter s) s1) (spread-alone ctx) ran))
                refl)))
