-- ===== src/Sparql/Operands/Aligned.antt =====
-- A parsed query has an operand for each triple pattern.
use tentris.Base.{
  ℕ, ◌+◌, ◌%◌, Option, none, some, List, [], ◌∷◌, ◌++◌, ok, Ensures, Ensures-ok, returns, throws,
  Anything, All, assign, List-cases, Option-cases, inl, inr, ◌≡◌, refl, sym, ap, ◌∙◌, subst,
}
use mathlib.Core.List.{reverse}
use tentris.Sparql.Syntax.{Variable, Variable-discrete, TriplePattern}
use tentris.Sparql.Graph.{GraphOps}
use tentris.Sparql.Terms.{Rdf}
use tentris.Sparql.State.{Query, Visitor, register_var}
use tentris.Sparql.Triples.{node_ids, nodes_of, connect_all, add_tp}
use tentris.Sparql.Pattern.{group_dependencies}
use tentris.Sparql.Select.{QueryContext, parse}
use tentris.Sparql.Ids.{Ids, id?}
use tentris.Sparql.Invariant.{Known, Valid}
use tentris.Sparql.Invariant.Visits.{node_ids-Known}
use tentris.Sparql.Parsed.{OnCore, IsCore, OfQuery, parse-ParsedCore}
use tentris.Sparql.Operands.{
  OperandLaws, ids_among, node_ids-ids_among, pattern_ids, pattern_ids-assign_new,
}
use tentris.Sparql.Operands.Edges.{
  operands-connect_all, operands-optional_connections, operands-group_dependencies,
}

module _ {G : Type 0} (ops : GraphOps G) (laws : OperandLaws ops) where
  open laws use {
    operands, operands-empty, operands-add_operand, operands-add_dependency,
    operands-add_connection,
  }

  -- One operand for each triple pattern, with the ids of its variables.
  abbrev pub Aligned : OnCore G
  Aligned g m tps = operands g ≡ pattern_ids m tps

  register_var-Aligned :
      (s : Visitor G) (v : Variable)
      → Valid s
      → OfQuery Aligned s.query
      → OfQuery Aligned (register_var s v).query
  unfolding register_var
  register_var-Aligned s v h aligned =
      let new : Visitor G = record s {
        query = record s.query { var_to_id = assign Variable-discrete v s.var_id s.var_to_id };
        var_id = (s.var_id + 1) % 256;
      } in
      let chosen : Option ℕ → Visitor G = λ o. elim o [ some id ↦ s | none ↦ new ] in
      elim (Option-cases (id? v s.var_to_id)) [
        | inr (id, e) ↦
            subst (λ (t : Visitor G). OfQuery Aligned t.query) (sym (ap chosen e)) aligned
        | inl e ↦
            subst (λ (t : Visitor G). OfQuery Aligned t.query) (sym (ap chosen e))
              (aligned
                ∙ sym
                    (pattern_ids-assign_new s.triple_patterns s.var_to_id v s.var_id e h.patterns))
      ]

  pattern_ids-snoc :
      (tps : List TriplePattern) (tp : TriplePattern) (m : Ids)
      → pattern_ids m (tps ++ tp ∷ []) ≡ pattern_ids m tps ++ ids_among m (nodes_of tp) ∷ []
  pattern_ids-snoc [] tp m = refl
  pattern_ids-snoc (t ∷ tps) tp m = ap (◌∷◌ (ids_among m (nodes_of t))) (pattern_ids-snoc tps tp m)

  -- The graph and the ids after `add_tp`.
  added-Aligned :
      (us : List ℕ) (tp : TriplePattern) (m : Ids) (tps : List TriplePattern) (g : G)
      → All (Known m) (nodes_of tp)
      → Aligned g m tps
      → let vars = (node_ids (nodes_of tp) m).0 in
        let (v, g1) = ops.add_operand g vars in
        Aligned (connect_all ops us v vars g1) (node_ids (nodes_of tp) m).1 (tps ++ tp ∷ [])
  added-Aligned us tp m tps g known aligned =
      let vars = (node_ids (nodes_of tp) m).0 in
      let (v, g1) = ops.add_operand g vars in
      operands-connect_all ops laws us v vars g1
      ∙ operands-add_operand g vars
      ∙ ap (λ xs. xs ++ vars ∷ []) aligned
      ∙ ap (λ xs. pattern_ids m tps ++ xs ∷ []) (node_ids-ids_among (nodes_of tp) m known)
      ∙ sym (pattern_ids-snoc tps tp m)
      ∙ ap (λ n. pattern_ids n (tps ++ tp ∷ [])) (sym (node_ids-Known (nodes_of tp) m known))

  add_tp-Aligned :
      (s : Visitor G) (tp : TriplePattern)
      → Valid s
      → All (Known s.var_to_id) (nodes_of tp)
      → OfQuery Aligned s.query
      → Ensures
          (λ (t : Visitor G). OfQuery Aligned t.query)
          Anything
          (add_tp ops tp (record s {
            query = record s.query { triple_patterns = s.triple_patterns ++ tp ∷ [] };
          }))
  unfolding add_tp
  add_tp-Aligned s tp h known aligned = elim (List-cases s.group_patterns) [
    | inl e ↦ rw e (throws tt)
    | inr (us, gs, e) ↦
        rw e (
          returns (added-Aligned (reverse us) tp s.var_to_id s.triple_patterns s.odg known aligned))
  ]

  Aligned-IsCore : IsCore ops Aligned
  Aligned-IsCore = record {
    begins = operands-empty;
    stable = record { registered = register_var-Aligned; added = add_tp-Aligned };
    edges = λ q prev cur opts unions aligned.
        operands-optional_connections ops laws cur opts unions
          (group_dependencies ops prev cur q.odg)
        ∙ operands-group_dependencies ops laws prev cur q.odg
        ∙ aligned;
  }

  -- The graph of a parsed query has an operand for each triple pattern, in their order, with the ids of
  -- the variables of the pattern in the order in which they stand.
  pub parse-operands :
      (rdf : Rdf) (fuel : ℕ) (ctx : QueryContext) (q : Query G)
      → parse ops rdf fuel ctx ≡ ok q
      → operands q.odg ≡ pattern_ids q.var_to_id q.triple_patterns
  parse-operands rdf fuel ctx q parsed =
      (Ensures-ok (parse-ParsedCore ops Aligned Aligned-IsCore rdf fuel ctx) parsed).1
