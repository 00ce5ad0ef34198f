-- ===== src/Sparql/Invariant/Traversal.antt =====
-- The traversal of the patterns keeps what the visits of triples keep, whatever its fuel: a property of
-- the state that does not depend on the stacks.
use tentris.Base.{
  ℕ, zero, suc, Option, none, some, List, [], ◌∷◌, ◌++◌, Ensures, returns, throws, Ensures-bind,
  Ensures-Anything, Anything, length, take, inl, inr, List-cases,
}
use tentris.Sparql.Syntax.{
  Node, TriplesBlockContext, GroupGraphPatternContext, sub_select, pattern_sub, neither,
  GroupGraphPatternSubContext, group_sub, SubListContext, end_list, sub_list, NotTriplesContext,
  no_pattern, group_or_union, optional_pattern, other, GroupOrUnionContext, end_union, alternative,
}
use tentris.Sparql.Graph.{GraphOps}
use tentris.Sparql.Terms.{Rdf}
use tentris.Sparql.State.{Query, Visitor, change_top, top, pop}
use tentris.Sparql.Triples.{visit_triples_block}
use tentris.Sparql.Pattern.{
  sub_of, push_optional_block, store_pattern, store_list, enter, leave, open_operands,
  close_operands, capture_group, visit_blocks, Visit, visit_optionals, visit_conjunction,
  visit_union, visit_rewritten, visit_well_designed, visit_group_graph_pattern, visit_where_clause,
  optional_connections, group_dependencies,
}

-- A property of what the traversal does not keep on its stacks.
abbrev pub OnQuery : Type 0 → Type 1
OnQuery G = Query G → (subject predicate : Node) → (var_id : ℕ) → Type 0

abbrev pub Holds : {G : Type 0} → OnQuery G → Visitor G → Type 0
Holds P s = P s.query s.active_subject s.active_predicate s.var_id

module _ {G : Type 0} (ops : GraphOps G) (rdf : Rdf) (P : OnQuery G)
    (captured : (q : Query G) (subject predicate : Node) (var_id : ℕ)
        (prev cur opts unions : List ℕ)
      → P q subject predicate var_id
      → P
          (record q {
            odg = optional_connections ops cur opts unions (group_dependencies ops prev cur q.odg);
          })
          subject
          predicate
          var_id)
    (triples : (tb : TriplesBlockContext) (s : Visitor G)
      → Holds P s
      → Ensures (Holds P) Anything (visit_triples_block ops rdf tb s)) where
  push_optional_block-Kept :
      (tb : Option TriplesBlockContext) (s : Visitor G)
      → Holds P s
      → Ensures (Holds P) Anything (push_optional_block tb s)
  push_optional_block-Kept none s h = returns h
  push_optional_block-Kept (some tb) s h =
      Ensures-bind (Ensures-Anything (change_top (λ tbs. tbs ++ tb ∷ []) s.triples_blocks))
        (λ blocks _. returns h)

  abbrev StoredKept : List GroupOrUnionContext × Visitor G → Type 0
  StoredKept r = Holds P r.1

  store_pattern-Kept :
      (p : NotTriplesContext) (gous : List GroupOrUnionContext) (s : Visitor G)
      → Holds P s
      → Ensures StoredKept Anything (store_pattern p gous s)
  unfolding store_pattern
  store_pattern-Kept no_pattern gous s h = returns h
  store_pattern-Kept other gous s h = returns h
  store_pattern-Kept (group_or_union u) gous s h = returns h
  store_pattern-Kept (optional_pattern o) gous s h =
      Ensures-bind (Ensures-Anything (change_top (λ os. os ++ o ∷ []) s.optional_blocks))
        (λ optionals _. returns h)

  store_list-Kept :
      (l : SubListContext) (gous : List GroupOrUnionContext) (s : Visitor G)
      → Holds P s
      → Ensures StoredKept Anything (store_list l gous s)
  unfolding store_list
  store_list-Kept end_list gous s h = returns h
  store_list-Kept (sub_list p tb rest) gous s h =
      Ensures-bind (store_pattern-Kept p gous s h) (λ (gous', s1) h1.
        Ensures-bind (push_optional_block-Kept tb s1 h1)
          (λ s2 h2. store_list-Kept rest gous' s2 h2))

  leave-Kept : (s : Visitor G) → Holds P s → Ensures (Holds P) Anything (leave s)
  leave-Kept s h = Ensures-bind (Ensures-Anything (pop s.optional_blocks)) (λ optionals _.
      Ensures-bind (Ensures-Anything (pop s.triples_blocks)) (λ blocks _.
        Ensures-bind (Ensures-Anything (pop s.group_patterns)) (λ groups _. returns h)))

  close_operands-Kept : (s : Visitor G) → Holds P s → Ensures (Holds P) Anything (close_operands s)
  close_operands-Kept s h = Ensures-bind (Ensures-Anything (pop s.union_operands)) (λ unions _.
      Ensures-bind (Ensures-Anything (pop s.opt_operands)) (λ opts _.
        Ensures-bind (Ensures-Anything (change_top (λ _. []) s.group_patterns))
          (λ groups _. returns h)))

  capture_group-Kept :
      (s : Visitor G) → Holds P s → Ensures (Holds P) Anything (capture_group ops s)
  unfolding capture_group
  capture_group-Kept s h = elim (List-cases s.opt_operands) [
    | inl e ↦ rw e (returns h)
    | inr (opts, below, e) ↦ rw e (
        Ensures-bind (Ensures-Anything (top s.group_patterns)) (λ cur _.
          Ensures-bind (Ensures-Anything (pop s.group_patterns)) (λ prevs _.
            Ensures-bind (Ensures-Anything (top prevs)) (λ prev _.
              Ensures-bind (Ensures-Anything (top s.union_operands)) (λ unions _.
                Ensures-bind (Ensures-Anything (change_top (λ us. us ++ cur) s.union_operands))
                  (λ unions' _. returns (captured s.query _ _ _ _ _ _ _ h)))))))
  ]

  visit_blocks-Kept :
      (tbs : List TriplesBlockContext) (s : Visitor G)
      → Holds P s
      → Ensures (Holds P) Anything (visit_blocks ops rdf tbs s)
  unfolding visit_blocks
  visit_blocks-Kept [] s h = returns h
  visit_blocks-Kept (tb ∷ tbs) s h = Ensures-bind (triples tb s h) (visit_blocks-Kept tbs)

  abbrev VisitKept : Visit ops rdf → Type 0
  VisitKept visit =
      (ctx : GroupGraphPatternSubContext) (gous : List GroupOrUnionContext) (s : Visitor G)
      → Holds P s
      → Ensures (Holds P) Anything (visit ctx gous s)

  visit_optionals-Kept :
      (visit : Visit ops rdf)
      → VisitKept visit
      → (os : List GroupGraphPatternContext) (s : Visitor G) → Holds P s
      → Ensures (Holds P) Anything (visit_optionals ops rdf visit os s)
  unfolding visit_optionals
  visit_optionals-Kept visit ih [] s h = returns h
  visit_optionals-Kept visit ih (o ∷ os) s h = Ensures-bind (Ensures-Anything (sub_of o)) (λ ctx _.
      Ensures-bind (ih ctx [] (enter s) h) (λ s1 h1.
        Ensures-bind (Ensures-Anything (change_top (λ _. []) s1.union_operands)) (λ unions _.
          Ensures-bind (leave-Kept (record s1 { union_operands = unions }) h1)
            (λ s2 h2. visit_optionals-Kept visit ih os s2 h2))))

  visit_conjunction-Kept :
      (visit : Visit ops rdf)
      → VisitKept visit
      → (s : Visitor G) → Holds P s
      → Ensures (Holds P) Anything (visit_conjunction ops rdf visit s)
  unfolding visit_conjunction
  visit_conjunction-Kept visit ih s h =
      Ensures-bind (Ensures-Anything (top s.triples_blocks)) (λ tbs _.
        Ensures-bind (visit_blocks-Kept tbs s h) (λ s1 h1.
          Ensures-bind (capture_group-Kept s1 h1) (λ s2 h2.
            Ensures-bind (Ensures-Anything (top s2.optional_blocks)) (λ os _.
              Ensures-bind (visit_optionals-Kept visit ih os (open_operands s2) h2)
                (λ s3 h3. close_operands-Kept s3 h3)))))

  visit_union-Kept :
      (visit : Visit ops rdf)
      → VisitKept visit
      → (tbs opts : ℕ) (gous : List GroupOrUnionContext) (u : GroupOrUnionContext) (s : Visitor G)
      → Holds P s
      → Ensures (Holds P) Anything (visit_union ops rdf visit tbs opts gous u s)
  unfolding visit_union
  visit_union-Kept visit ih tbs opts gous end_union s h = returns h
  visit_union-Kept visit ih tbs opts gous (alternative grp rest) s h =
      Ensures-bind (Ensures-Anything (sub_of grp)) (λ ctx _.
        Ensures-bind (ih ctx gous s h) (λ s1 h1.
          Ensures-bind (Ensures-Anything (change_top (take tbs) s1.triples_blocks)) (λ blocks _.
            Ensures-bind (Ensures-Anything (change_top (take opts) s1.optional_blocks))
              (λ optionals _. visit_union-Kept visit ih tbs opts gous rest _ h1))))

  visit_rewritten-Kept :
      (visit : Visit ops rdf)
      → VisitKept visit
      → (gous : List GroupOrUnionContext) (s : Visitor G) → Holds P s
      → Ensures (Holds P) Anything (visit_rewritten ops rdf visit (gous, s))
  unfolding visit_rewritten
  visit_rewritten-Kept visit ih [] s h = visit_conjunction-Kept visit ih s h
  visit_rewritten-Kept visit ih (gou ∷ gous) s h =
      Ensures-bind (Ensures-Anything (top s.triples_blocks)) (λ tbs _.
        Ensures-bind (Ensures-Anything (top s.optional_blocks))
          (λ opts _. visit_union-Kept visit ih (length tbs) (length opts) gous gou s h))

  visit_well_designed-Kept : (fuel : ℕ) → VisitKept (visit_well_designed ops rdf fuel)
  unfolding visit_well_designed
  visit_well_designed-Kept zero ctx gous s h = throws tt
  visit_well_designed-Kept (suc fuel) (group_sub tb subs) gous s h =
      Ensures-bind (push_optional_block-Kept tb s h) (λ s1 h1.
        Ensures-bind (store_list-Kept subs gous s1 h1)
          (λ (gous', s2) h2. visit_rewritten-Kept _ (visit_well_designed-Kept fuel) gous' s2 h2))

  pub visit_where_clause-Kept :
      (fuel : ℕ) (ctx : GroupGraphPatternContext) (s : Visitor G)
      → Holds P s
      → Ensures (Holds P) Anything (visit_where_clause ops rdf fuel ctx s)
  unfolding visit_where_clause visit_group_graph_pattern
  visit_where_clause-Kept fuel sub_select s h = throws tt
  visit_where_clause-Kept fuel neither s h = throws tt
  visit_where_clause-Kept fuel (pattern_sub ctx) s h =
      Ensures-bind (visit_well_designed-Kept fuel ctx [] (enter s) h) leave-Kept
