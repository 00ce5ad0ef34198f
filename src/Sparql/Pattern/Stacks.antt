-- ===== src/Sparql/Pattern/Stacks.antt =====
-- The five stacks of the visitor while the triples of a group are visited: only the top group
-- changes, and no vector that is read is empty.
use tentris.Base.{
  ℕ, ◌≡◌, refl, List, [], ◌∷◌, none, some, Result, Ensures, returns, throws, Ensures-bind, Safe,
  length, Option-cases, inl, inr,
}
use tentris.Sparql.Syntax.{
  Variable, Node, variable, TriplesBlockContext, GroupGraphPatternContext, TriplePattern,
  ObjectContext, PropertyContext, VerbContext, verb_path, verb_simple, TriplesSameSubjectContext,
}
use tentris.Sparql.Terms.{Rdf}
use tentris.Sparql.Terms.Faults.{visit_var-Safe, visit_var_or_term-Safe, visit_path-Safe}
use tentris.Sparql.Graph.{GraphOps}
use tentris.Sparql.State.{Visitor, register_var, register_node}
use tentris.Sparql.Triples.{
  add_tp, visit_object, visit_object_list, visit_verb, visit_property, visit_properties,
  visit_property_list, visit_same_subject, visit_triples_block,
}
use tentris.Sparql.Ids.{id?}

-- The stacks: the top `tbs` over `tbss` of triples blocks, `os` over `oss` of optional blocks, some
-- group over `gpss`, and `n` vectors of operands on each of the last two.
pub record IsStacked (tbs : List TriplesBlockContext) (tbss : List (List TriplesBlockContext))
    (os : List GroupGraphPatternContext) (oss : List (List GroupGraphPatternContext))
    (gpss : List (List ℕ)) (n : ℕ) (triples : List (List TriplesBlockContext))
    (optionals : List (List GroupGraphPatternContext)) (groups opts unions : List (List ℕ))
    : Type 0 where
  pub at_triples : triples ≡ tbs ∷ tbss
  pub at_optionals : optionals ≡ os ∷ oss
  pub at_groups : (gp : List ℕ) × (groups ≡ gp ∷ gpss)
  pub at_opts : length opts ≡ n
  pub at_unions : length unions ≡ n

module _ {G : Type 0} (tbs : List TriplesBlockContext) (tbss : List (List TriplesBlockContext))
    (os : List GroupGraphPatternContext) (oss : List (List GroupGraphPatternContext))
    (gpss : List (List ℕ)) (n : ℕ) where
  abbrev pub Stacked : Visitor G → Type 0
  Stacked s =
      IsStacked tbs tbss os oss gpss n s.triples_blocks s.optional_blocks s.group_patterns
        s.opt_operands s.union_operands

  register_var-Stacked : (s : Visitor G) (v : Variable) → Stacked s → Stacked (register_var s v)
  unfolding register_var
  register_var-Stacked s v h = elim (Option-cases (id? v s.var_to_id)) [
    | inr (id, e) ↦ rw (e, register_var) h
    | inl e ↦ rw (e, register_var) h
  ]

  register_node-Stacked : (s : Visitor G) (o : Node) → Stacked s → Stacked (register_node s o)
  register_node-Stacked s (variable v) h = register_var-Stacked s v h
  register_node-Stacked s _ h = h

  module _ (ops : GraphOps G) where
    abbrev pub KeepsStacks : (Visitor G → Result (Visitor G)) → Type 0
    KeepsStacks f = (s : Visitor G) → Stacked s → Ensures Stacked Safe (f s)

    add_tp-Stacked : (tp : TriplePattern) → KeepsStacks (add_tp ops tp)
    unfolding add_tp
    add_tp-Stacked tp s h =
        let (gp, e) = h.at_groups in
        rw e (
          returns (record {
            at_triples = h.at_triples;
            at_optionals = h.at_optionals;
            at_groups = (_, refl);
            at_opts = h.at_opts;
            at_unions = h.at_unions;
          }))

    module _ (rdf : Rdf) where
      visit_object-Stacked : (o : ObjectContext) → KeepsStacks (visit_object ops rdf o)
      unfolding visit_object
      visit_object-Stacked none s h = throws tt
      visit_object-Stacked (some ctx) s h =
          Ensures-bind (visit_var_or_term-Safe rdf ctx)
            (λ obj _. add_tp-Stacked _ _ (register_node-Stacked s obj h))

      visit_object_list-Stacked :
          (objects : List ObjectContext) → KeepsStacks (visit_object_list ops rdf objects)
      unfolding visit_object_list
      visit_object_list-Stacked [] s h = returns h
      visit_object_list-Stacked (o ∷ objects) s h =
          Ensures-bind (visit_object-Stacked o s h) (visit_object_list-Stacked objects)

      visit_verb-Stacked : (v : VerbContext) → KeepsStacks (visit_verb ops rdf v)
      unfolding visit_verb
      visit_verb-Stacked (verb_path path) s h =
          Ensures-bind (visit_path-Safe rdf path) (λ p _. returns h)
      visit_verb-Stacked (verb_simple text) s h =
          Ensures-bind (visit_var-Safe text) (λ v _. returns (register_var-Stacked s v h))

      visit_property-Stacked : (p : PropertyContext) → KeepsStacks (visit_property ops rdf p)
      unfolding visit_property
      visit_property-Stacked p s h = Ensures-bind (visit_verb-Stacked p.verb s h) (λ s1 h1.
          elim (Option-cases p.object_list) [
            | inl e ↦ rw e (throws tt)
            | inr (objects, e) ↦ rw e (visit_object_list-Stacked objects s1 h1)
          ])

      visit_properties-Stacked :
          (ps : List PropertyContext) → KeepsStacks (visit_properties ops rdf ps)
      unfolding visit_properties
      visit_properties-Stacked [] s h = returns h
      visit_properties-Stacked (p ∷ ps) s h =
          Ensures-bind (visit_property-Stacked p s h) (visit_properties-Stacked ps)

      visit_same_subject-Stacked :
          (t : TriplesSameSubjectContext) → KeepsStacks (visit_same_subject ops rdf t)
      unfolding visit_same_subject visit_property_list
      visit_same_subject-Stacked t s h = elim (Option-cases t.var_or_term) [
        | inl e ↦ rw e (returns h)
        | inr (ctx, e) ↦ rw e (elim (Option-cases t.property_list) [
          | inl e' ↦ rw e' (returns h)
          | inr (ps, e') ↦ rw e' (
              Ensures-bind (visit_var_or_term-Safe rdf ctx) (λ node _.
                Ensures-bind
                  (visit_property-Stacked ps.first _
                    (register_node-Stacked (record s { active_subject = node }) node h))
                  (visit_properties-Stacked ps.further)))
        ])
      ]

      pub visit_triples_block-Stacked :
          (tb : TriplesBlockContext) → KeepsStacks (visit_triples_block ops rdf tb)
      unfolding visit_triples_block
      visit_triples_block-Stacked [] s h = returns h
      visit_triples_block-Stacked (t ∷ ts) s h =
          Ensures-bind (visit_same_subject-Stacked t s h) (visit_triples_block-Stacked ts)
