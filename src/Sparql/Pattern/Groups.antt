-- ===== src/Sparql/Pattern/Groups.antt =====
-- The steps of one conjunction before its OPTIONALs: `visit_blocks`, the capture of a group inside an
-- OPTIONAL, and the stacks of operands.
use tentris.Base.{
  Fault, ◌>>=◌, ℕ, suc, ◌≡◌, refl, sym, ap, ◌∙◌, List, [], ◌∷◌, Result, Ensures, returns,
  Ensures-bind, Ensures-map, Safe, length, inl, inr, arith, List-cases,
}
use tentris.Sparql.Syntax.{TriplesBlockContext, GroupGraphPatternContext}
use tentris.Sparql.Terms.{Rdf}
use tentris.Sparql.Graph.{GraphOps}
use tentris.Sparql.State.{Visitor, top, change_top}
use tentris.Sparql.Pattern.{close_operands, capture_group, visit_blocks}
use tentris.Sparql.Pattern.Stacks.{Stacked, visit_triples_block-Stacked}
use tentris.Sparql.Pattern.Runs.{Runs, ends, visits, Ensures-equation}
use tentris.Sparql.Pattern.Storing.{Stored}

module _ {A B : Type 0} {P : B → Type 0} {F : Fault → Type 0} {x : A} {xs st : List A} where
  pub Ensures-top :
      (f : A → Result B) → st ≡ x ∷ xs → Ensures P F (f x) → Ensures P F (top st >>= f)
  Ensures-top f e h = rw e h

  pub Ensures-change_top :
      (g : A → A) (f : List A → Result B)
      → st ≡ x ∷ xs
      → Ensures P F (f (g x ∷ xs))
      → Ensures P F (change_top g st >>= f)
  Ensures-change_top g f e h = rw e h

module _ {G : Type 0} (ops : GraphOps G) where
  -- The group below the top is there whenever it is read.
  pub capture_group-Safe :
      (tbs : List TriplesBlockContext) (tbss : List (List TriplesBlockContext))
      (os : List GroupGraphPatternContext) (oss : List (List GroupGraphPatternContext))
      (gpss : List (List ℕ)) (n : ℕ) (s : Visitor G)
      → length gpss ≡ n
      → Stacked tbs tbss os oss gpss n s
      → Ensures (Stored tbss oss gpss n s tbs os) Safe (capture_group ops s)
  unfolding capture_group
  capture_group-Safe tbs tbss os oss [] n s size h = elim (List-cases s.opt_operands) [
    | inl e ↦ rw e (
        returns (
          record {
            at_triples = h.at_triples;
            at_optionals = h.at_optionals;
            at_groups = h.at_groups;
            at_opts = sym (ap length e) ∙ h.at_opts;
            at_unions = h.at_unions;
          },
          refl,
        ))
    | inr (opts, below, e) ↦ absurd (omega (arith, ap length e, h.at_opts))
  ]
  capture_group-Safe tbs tbss os oss (prev ∷ prevs) n s size h = elim (List-cases s.opt_operands) [
    | inl e ↦ rw e (
        returns (
          record {
            at_triples = h.at_triples;
            at_optionals = h.at_optionals;
            at_groups = h.at_groups;
            at_opts = sym (ap length e) ∙ h.at_opts;
            at_unions = h.at_unions;
          },
          refl,
        ))
    | inr (opts, below, e) ↦ elim (List-cases s.union_operands) [
      | inl e' ↦ absurd (omega (arith, ap length e', h.at_unions))
      | inr (unions, unions_below, e') ↦
          let (gp, eg) = h.at_groups in
          rw (e, eg, e')
            (returns (
              record {
                at_triples = h.at_triples;
                at_optionals = h.at_optionals;
                at_groups = (gp, refl);
                at_opts = sym (ap length e) ∙ h.at_opts;
                at_unions = sym (ap length e') ∙ h.at_unions;
              },
              refl,
            ))
    ]
  ]

  pub close_operands-Safe :
      (tbs : List TriplesBlockContext) (tbss : List (List TriplesBlockContext))
      (os : List GroupGraphPatternContext) (oss : List (List GroupGraphPatternContext))
      (gpss : List (List ℕ)) (n : ℕ) (s : Visitor G)
      → Stacked tbs tbss os oss gpss (suc n) s
      → Ensures (Stored tbss oss gpss n s tbs os) Safe (close_operands s)
  close_operands-Safe tbs tbss os oss gpss n s h = elim (List-cases s.union_operands) [
    | inl e ↦ absurd (omega (arith, ap length e, h.at_unions))
    | inr (unions, unions_below, e) ↦ elim (List-cases s.opt_operands) [
      | inl e' ↦ absurd (omega (arith, ap length e', h.at_opts))
      | inr (opts, opts_below, e') ↦
          let (gp, eg) = h.at_groups in
          rw (e, e', eg)
            (returns (
              record {
                at_triples = h.at_triples;
                at_optionals = h.at_optionals;
                at_groups = ([], refl);
                at_opts = omega (arith, ap length e', h.at_opts);
                at_unions = omega (arith, ap length e, h.at_unions);
              },
              refl,
            ))
    ]
  ]

  module _ (rdf : Rdf) where
    -- The stacks are as given, and the blocks have been visited.
    abbrev pub Ran :
        List TriplesBlockContext
        → List (List TriplesBlockContext)
        → List GroupGraphPatternContext
        → List (List GroupGraphPatternContext)
        → List (List ℕ)
        → ℕ
        → List TriplesBlockContext
        → Visitor G
        → Visitor G
        → Type 0
    Ran tbs tbss os oss gpss n blocks s t =
        Stacked tbs tbss os oss gpss n t × Runs ops rdf blocks s t

    pub visit_blocks-Safe :
        (tbs : List TriplesBlockContext) (tbss : List (List TriplesBlockContext))
        (os : List GroupGraphPatternContext) (oss : List (List GroupGraphPatternContext))
        (gpss : List (List ℕ)) (n : ℕ) (blocks : List TriplesBlockContext) (s : Visitor G)
        → Stacked tbs tbss os oss gpss n s
        → Ensures (Ran tbs tbss os oss gpss n blocks s) Safe (visit_blocks ops rdf blocks s)
    unfolding visit_blocks
    visit_blocks-Safe tbs tbss os oss gpss n [] s h = returns (h, ends s s refl)
    visit_blocks-Safe tbs tbss os oss gpss n (tb ∷ blocks) s h =
        Ensures-bind
          (Ensures-equation (visit_triples_block-Stacked tbs tbss os oss gpss n ops rdf tb s h))
          (λ s1 (h1, visit).
            Ensures-map (λ t (h2, ran). (h2, visits tb blocks s s s1 t refl visit ran))
              (visit_blocks-Safe tbs tbss os oss gpss n blocks s1 h1))
