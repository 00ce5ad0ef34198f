-- ===== src/Sparql/Pattern/Conjunction.antt =====
-- One conjunction of `visitWellDesignedPattern` with its optional patterns, and the blocks that are
-- visited.
use tentris.Base.{
  ℕ, suc, ◌+◌, ◌≤◌, ◌≡◌, refl, sym, ap, ◌∙◌, subst, List, [], ◌∷◌, ◌++◌, Ensures, returns, throws,
  Ensures-bind, Ensures-map, Safe, length, inl, inr, arith, List-cases,
}
use tentris.Sparql.Syntax.{
  TriplesBlockContext, GroupGraphPatternContext, sub_select, pattern_sub, neither,
  GroupGraphPatternSubContext, GroupOrUnionContext,
}
use tentris.Sparql.Terms.{Rdf}
use tentris.Sparql.Graph.{GraphOps}
use tentris.Sparql.State.{Visitor}
use tentris.Sparql.Pattern.{enter, open_operands, Visit, visit_optionals, visit_conjunction}
use tentris.Sparql.Pattern.Stacks.{Stacked}
use tentris.Sparql.Pattern.Weight.{weight, sum_unions, sum_optionals}
use tentris.Sparql.Pattern.Order.{flatten, conjunctions, visited}
use tentris.Sparql.Pattern.Runs.{outcome, Runs, ends, after_same, Runs-append, then_same}
use tentris.Sparql.Pattern.Storing.{Grown, all_visited}
use tentris.Sparql.Pattern.Distributed.{spread, spread-alone}
use tentris.Sparql.Pattern.Groups.{
  Ensures-top, capture_group-Safe, close_operands-Safe, Ran, visit_blocks-Safe,
}

module _ {G : Type 0} (ops : GraphOps G) (rdf : Rdf) where
  -- Within the fuel `bound` a visit is safe, visits the blocks of the pattern spread over the tops
  -- and the unions left, and leaves the stacks as they were, but for what it appends to the tops.
  abbrev pub VisitSafe : ℕ → Visit ops rdf → Type 0
  VisitSafe bound visit =
      (tbss : List (List TriplesBlockContext)) (oss : List (List GroupGraphPatternContext))
      (gpss : List (List ℕ)) (n : ℕ) (ctx : GroupGraphPatternSubContext)
      (gous : List GroupOrUnionContext) (tbs : List TriplesBlockContext)
      (os : List GroupGraphPatternContext) (s : Visitor G)
      → length gpss ≡ n
      → weight ctx + sum_unions gous + sum_optionals os ≤ bound
      → Stacked tbs tbss os oss gpss n s
      → Ensures
          (λ t.
            Grown tbss oss gpss n tbs os t
            × Runs ops rdf (spread tbs os (conjunctions ctx) gous) s t)
          Safe (visit ctx gous s)

  -- The visit of one OPTIONAL, and those after it.
  visited_optional :
      (ctx : GroupGraphPatternSubContext) (left : List GroupGraphPatternContext)
      (s s1 s2 t : Visitor G)
      → Runs ops rdf (spread [] [] (conjunctions ctx) []) (enter s) s1
      → outcome s2 ≡ outcome s1
      → Runs ops rdf (all_visited left) s2 t
      → Runs ops rdf (all_visited (pattern_sub ctx ∷ left)) s t
  unfolding visited
  visited_optional ctx left s s1 s2 t ran same later =
      Runs-append ops rdf (flatten (conjunctions ctx)) (all_visited left) s s1 t
        (after_same ops rdf (flatten (conjunctions ctx)) s (enter s) s1 refl
          (subst (λ tbs. Runs ops rdf tbs (enter s) s1) (spread-alone ctx) ran))
        (after_same ops rdf (all_visited left) s1 s2 t same later)

  visit_optionals-Safe :
      (bound : ℕ) (visit : Visit ops rdf)
      → VisitSafe bound visit
      → (tbs : List TriplesBlockContext) (tbss : List (List TriplesBlockContext))
        (os : List GroupGraphPatternContext) (oss : List (List GroupGraphPatternContext))
        (gpss : List (List ℕ)) (n : ℕ) (left : List GroupGraphPatternContext) (s : Visitor G)
      → length gpss ≡ n
      → sum_optionals left ≤ bound
      → Stacked tbs tbss os oss gpss (suc n) s
      → Ensures
          (Ran ops rdf tbs tbss os oss gpss (suc n) (all_visited left) s)
          Safe
          (visit_optionals ops rdf visit left s)
  unfolding visit_optionals weight
  visit_optionals-Safe bound visit ih tbs tbss os oss gpss n [] s size fits h =
      returns (h, ends s s refl)
  visit_optionals-Safe bound visit ih tbs tbss os oss gpss n (sub_select ∷ left) s size fits h =
      throws tt
  visit_optionals-Safe bound visit ih tbs tbss os oss gpss n (neither ∷ left) s size fits h =
      throws tt
  visit_optionals-Safe bound visit ih tbs tbss os oss gpss n (pattern_sub ctx ∷ left) s size fits
        h =
      let (gp, eg) = h.at_groups in
      let entered : Stacked [] (tbs ∷ tbss) [] (os ∷ oss) (gp ∷ gpss) (suc n) (enter s) = record {
        at_triples = ap (◌∷◌ []) h.at_triples;
        at_optionals = ap (◌∷◌ []) h.at_optionals;
        at_groups = ([], ap (◌∷◌ []) eg);
        at_opts = h.at_opts;
        at_unions = h.at_unions;
      } in
      Ensures-bind
        (ih (tbs ∷ tbss) (os ∷ oss) (gp ∷ gpss) (suc n) ctx [] [] [] (enter s) (omega arith)
          (omega arith) entered)
        (λ s1 ((tbs1, os1, x, y, h1), ran). elim (List-cases s1.union_operands) [
          | inl e ↦ absurd (omega (arith, ap length e, h1.at_unions))
          | inr (u, us, e) ↦
              rw (e, h1.at_optionals, h1.at_triples, h1.at_groups.1)
                (Ensures-map
                  (λ t (h2, later). (h2, visited_optional ctx left s s1 _ t ran refl later))
                  (visit_optionals-Safe bound visit ih tbs tbss os oss gpss n left _ size
                    (omega arith)
                    (record {
                      at_triples = refl;
                      at_optionals = refl;
                      at_groups = (gp, refl);
                      at_opts = h1.at_opts;
                      at_unions = sym (ap length e) ∙ h1.at_unions;
                    })))
        ])

  pub visit_conjunction-Safe :
      (bound : ℕ) (visit : Visit ops rdf)
      → VisitSafe bound visit
      → (tbs : List TriplesBlockContext) (tbss : List (List TriplesBlockContext))
        (os : List GroupGraphPatternContext) (oss : List (List GroupGraphPatternContext))
        (gpss : List (List ℕ)) (n : ℕ) (s : Visitor G)
      → length gpss ≡ n
      → sum_optionals os ≤ bound
      → Stacked tbs tbss os oss gpss n s
      → Ensures
          (Ran ops rdf tbs tbss os oss gpss n (tbs ++ all_visited os) s)
          Safe
          (visit_conjunction ops rdf visit s)
  unfolding visit_conjunction
  visit_conjunction-Safe bound visit ih tbs tbss os oss gpss n s size fits h =
      Ensures-top _ h.at_triples (
        Ensures-bind (visit_blocks-Safe ops rdf tbs tbss os oss gpss n tbs s h) (λ s1 (h1, ran).
          Ensures-bind (capture_group-Safe ops tbs tbss os oss gpss n s1 size h1) (λ s2 (h2, same).
            Ensures-top _ h2.at_optionals (
              Ensures-bind
                (visit_optionals-Safe bound visit ih tbs tbss os oss gpss n os (open_operands s2)
                  size fits
                  (record {
                    at_triples = h2.at_triples;
                    at_optionals = h2.at_optionals;
                    at_groups = h2.at_groups;
                    at_opts = ap suc h2.at_opts;
                    at_unions = ap suc h2.at_unions;
                  }))
                (λ s3 (h3, later).
                  Ensures-map
                    (λ t (h4, same'). (
                      h4,
                      then_same ops rdf (tbs ++ all_visited os) s s3 t
                          (Runs-append ops rdf tbs (all_visited os) s s1 s3 ran (
                            after_same ops rdf (all_visited os) s1 (open_operands s2) s3 same
                              later))
                          same',
                    ))
                    (close_operands-Safe ops tbs tbss os oss gpss n s3 h3))))))
