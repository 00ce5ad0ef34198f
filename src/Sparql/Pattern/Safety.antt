-- ===== src/Sparql/Pattern/Safety.antt =====
-- The traversal ends within fuel `weight`, reads no empty vector, and leaves the stacks as they
-- were, whatever the pattern; and it visits the triples blocks in the order of the reference.
use tentris.Base.{
  Ensures-map, ℕ, zero, suc, ◌+◌, ◌≤◌, ◌≡◌, refl, sym, ap, ◌∙◌, subst, List, [], ◌∷◌, ◌++◌, Ensures,
  returns, throws, Ensures-bind, Safe, length, arith, Extends-trans, take-Extends,
}
use tentris.Sparql.Syntax.{
  TriplesBlockContext, GroupGraphPatternContext, sub_select, pattern_sub, neither, group_sub,
  GroupOrUnionContext, end_union, alternative,
}
use tentris.Sparql.Terms.{Rdf}
use tentris.Sparql.Graph.{GraphOps}
use tentris.Sparql.State.{Visitor}
use tentris.Sparql.Pattern.{
  enter, Visit, visit_union, visit_rewritten, visit_well_designed, visit_group_graph_pattern,
  visit_where_clause,
}
use tentris.Sparql.Pattern.Stacks.{Stacked}
use tentris.Sparql.Pattern.Weight.{weight, weight_of, weight_union, sum_unions, sum_optionals}
use tentris.Sparql.Pattern.Order.{block_of, own_blocks, conjunctions, union_alternatives}
use tentris.Sparql.Pattern.Runs.{Runs, ends, after_same, Runs-append}
use tentris.Sparql.Pattern.Storing.{
  own_contexts, weight-stored, push_optional_block-Stored, store_list-Stored,
}
use tentris.Sparql.Pattern.Distributed.{
  spread, spread_unions, spread-append, spread_unions-none, spread-stored,
}
use tentris.Sparql.Pattern.Groups.{Ensures-top, Ensures-change_top, Ran}
use tentris.Sparql.Pattern.Conjunction.{VisitSafe, visit_conjunction-Safe}

module _ {G : Type 0} (ops : GraphOps G) (rdf : Rdf) where
  visit_union-Safe :
      (bound : ℕ) (visit : Visit ops rdf)
      → VisitSafe ops rdf bound visit
      → (tbs : List TriplesBlockContext) (tbss : List (List TriplesBlockContext))
        (os : List GroupGraphPatternContext) (oss : List (List GroupGraphPatternContext))
        (gpss : List (List ℕ)) (n : ℕ) (gous : List GroupOrUnionContext) (u : GroupOrUnionContext)
        (s : Visitor G)
      → length gpss ≡ n
      → weight_union u + sum_unions gous + sum_optionals os ≤ bound
      → Stacked tbs tbss os oss gpss n s
      → Ensures
          (Ran ops rdf tbs tbss os oss gpss n (spread tbs os (union_alternatives u) gous) s)
          Safe
          (visit_union ops rdf visit (length tbs) (length os) gous u s)
  unfolding visit_union weight conjunctions
  visit_union-Safe bound visit ih tbs tbss os oss gpss n gous end_union s size fits h =
      returns (h, ends s s refl)
  visit_union-Safe bound visit ih tbs tbss os oss gpss n gous (alternative sub_select rest) s size
        fits h =
      throws tt
  visit_union-Safe bound visit ih tbs tbss os oss gpss n gous (alternative neither rest) s size fits
        h =
      throws tt
  visit_union-Safe bound visit ih tbs tbss os oss gpss n gous (alternative (pattern_sub ctx) rest) s
        size fits h =
      Ensures-bind (ih tbss oss gpss n ctx gous tbs os s size (omega arith) h)
        (λ s1 ((tbs1, os1, x, y, h1), ran). Ensures-change_top _ _ h1.at_triples (
          Ensures-change_top _ _ h1.at_optionals (
            Ensures-map
              (λ t (h2, later). (
                h2,
                subst (λ blocks. Runs ops rdf blocks s t)
                    (sym (spread-append tbs os (conjunctions ctx) (union_alternatives rest) gous))
                    (Runs-append ops rdf (spread tbs os (conjunctions ctx) gous)
                      (spread tbs os (union_alternatives rest) gous) s s1 t ran
                      (after_same ops rdf (spread tbs os (union_alternatives rest) gous) s1 _ t refl
                        later)),
              ))
              (visit_union-Safe bound visit ih tbs tbss os oss gpss n gous rest _ size (omega arith)
                (record {
                  at_triples = ap (λ z. z ∷ tbss) (take-Extends tbs tbs1 x);
                  at_optionals = ap (λ z. z ∷ oss) (take-Extends os os1 y);
                  at_groups = h1.at_groups;
                  at_opts = h1.at_opts;
                  at_unions = h1.at_unions;
                })))))

  visit_rewritten-Safe :
      (bound : ℕ) (visit : Visit ops rdf)
      → VisitSafe ops rdf bound visit
      → (tbs : List TriplesBlockContext) (tbss : List (List TriplesBlockContext))
        (os : List GroupGraphPatternContext) (oss : List (List GroupGraphPatternContext))
        (gpss : List (List ℕ)) (n : ℕ) (gous : List GroupOrUnionContext) (s : Visitor G)
      → length gpss ≡ n
      → sum_unions gous + sum_optionals os ≤ bound
      → Stacked tbs tbss os oss gpss n s
      → Ensures
          (Ran ops rdf tbs tbss os oss gpss n (spread_unions tbs os gous) s)
          Safe
          (visit_rewritten ops rdf visit (gous, s))
  unfolding visit_rewritten
  visit_rewritten-Safe bound visit ih tbs tbss os oss gpss n [] s size fits h =
      Ensures-map
        (λ t (h', ran).
          (h', subst (λ blocks. Runs ops rdf blocks s t) (spread_unions-none tbs os) ran))
        (visit_conjunction-Safe ops rdf bound visit ih tbs tbss os oss gpss n s size (omega arith)
          h)
  visit_rewritten-Safe bound visit ih tbs tbss os oss gpss n (u ∷ gous) s size fits h =
      Ensures-top _ h.at_triples (
        Ensures-top _ h.at_optionals
          (visit_union-Safe bound visit ih tbs tbss os oss gpss n gous u s size (omega arith) h))

  pub visit_well_designed-Safe :
      (fuel : ℕ) → VisitSafe ops rdf fuel (visit_well_designed ops rdf fuel)
  unfolding visit_well_designed weight
  visit_well_designed-Safe zero tbss oss gpss n (group_sub tb subs) gous tbs os s size fits h =
      absurd (omega arith)
  visit_well_designed-Safe (suc fuel) tbss oss gpss n (group_sub tb subs) gous tbs os s size fits
        h =
      Ensures-bind (push_optional_block-Stored tbss oss gpss n tb tbs os s h) (λ s1 (h1, same1).
        Ensures-bind (store_list-Stored tbss oss gpss n subs gous (tbs ++ block_of tb) os s1 h1)
          (λ (gous2, s2) (same, (h2, same2)).
            let tbs2 = (tbs ++ block_of tb) ++ own_blocks subs in
            let os2 = os ++ own_contexts subs in
            Ensures-map
              (λ s3 (h3, ran). (
                (
                  tbs2,
                  os2,
                  Extends-trans tbs (tbs ++ block_of tb) tbs2 (block_of tb, refl)
                      (own_blocks subs, refl),
                  (own_contexts subs, refl),
                  h3,
                ),
                after_same ops rdf (spread tbs os (conjunctions (group_sub tb subs)) gous) s s2 s3
                    (same2 ∙ same1)
                    (subst (λ blocks. Runs ops rdf blocks s2 s3)
                      (ap (spread_unions tbs2 os2) same ∙ spread-stored tb subs tbs os gous) ran),
              ))
              (visit_rewritten-Safe fuel (visit_well_designed ops rdf fuel)
                (visit_well_designed-Safe fuel) tbs2 tbss os2 oss gpss n gous2 s2 size
                (omega (arith, ap sum_unions same, weight-stored subs gous os)) h2)))

  -- The stacks of the visitor are those of `s`.
  abbrev pub SameStacks : Visitor G → Visitor G → Type 0
  SameStacks s s' =
      (s'.triples_blocks ≡ s.triples_blocks)
      × (s'.optional_blocks ≡ s.optional_blocks)
      × (s'.group_patterns ≡ s.group_patterns)
      × (length s'.opt_operands ≡ length s.opt_operands)
      × (length s'.union_operands ≡ length s.union_operands)

  -- With fuel for each group pattern of the WHERE clause, and as many vectors of operands as open
  -- groups, a visit of the clause reads no empty vector, does not run out of fuel, and when it
  -- returns leaves the vectors of blocks and groups as they were and as many vectors of operands.
  pub visit_where_clause-Safe :
      (fuel : ℕ) (ctx : GroupGraphPatternContext) (s : Visitor G)
      → weight_of ctx ≤ fuel
      → length s.opt_operands ≡ length s.group_patterns
      → length s.union_operands ≡ length s.group_patterns
      → Ensures (SameStacks s) Safe (visit_where_clause ops rdf fuel ctx s)
  unfolding visit_where_clause visit_group_graph_pattern weight
  visit_where_clause-Safe fuel sub_select s fits h h' = throws tt
  visit_where_clause-Safe fuel neither s fits h h' = throws tt
  visit_where_clause-Safe fuel (pattern_sub ctx) s fits h h' =
      Ensures-bind
        (visit_well_designed-Safe fuel s.triples_blocks s.optional_blocks s.group_patterns
          (length s.group_patterns) ctx [] [] [] (enter s) refl (omega arith)
          (record {
            at_triples = refl;
            at_optionals = refl;
            at_groups = ([], refl);
            at_opts = h;
            at_unions = h';
          }))
        (λ s1 ((tbs1, os1, x, y, h1), ran).
          rw (h1.at_optionals, h1.at_triples, h1.at_groups.1)
            (returns (refl, refl, refl, h1.at_opts ∙ sym h, h1.at_unions ∙ sym h')))
