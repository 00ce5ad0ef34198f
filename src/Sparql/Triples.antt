-- ===== src/Sparql/Triples.antt =====
-- The visits of triples: each object makes a triple pattern, and an operand of the graph that
-- depends on the operands of its group (`add_tp`).
use tentris.Base.{
  ℕ, ◌%◌, Bool, true, false, ◌||◌, Option, none, some, List, [], ◌∷◌, ◌++◌, Result, ok, fail,
  runtime_error, ◌>>=◌, ◌==◌, if◌then◌else◌, find, assign,
}
use mathlib.Core.List.{reverse}
use tentris.Sparql.Syntax.{
  Variable, Variable-discrete, Node, variable, TriplePattern, VerbContext, verb_path, verb_simple,
  ObjectContext, PropertyContext, PropertyListContext, TriplesSameSubjectContext,
  TriplesBlockContext,
}
use tentris.Sparql.Terms.{Rdf, visit_var, visit_var_or_term, visit_path}
use tentris.Sparql.Graph.{GraphOps}
use tentris.Sparql.State.{Visitor, top, change_top, as_variable, register_var, register_node}

abbrev pub contains : ℕ → List ℕ → Bool
contains v [] = false
contains v (x ∷ xs) = (x == v) || contains v xs

-- `var_to_id_[v]`: a missing key is inserted with the id 0.
unfoldable pub id_of : Variable → List (Variable × ℕ) → ℕ × List (Variable × ℕ)
id_of v m = elim (find Variable-discrete v m) [
  | some id ↦ (id, m)
  | none ↦ (0, assign Variable-discrete v 0 m)
]

-- The ids of the variables among the nodes of a triple pattern, in order.
unfoldable pub node_ids : List Node → List (Variable × ℕ) → List ℕ × List (Variable × ℕ)
node_ids [] m = ([], m)
node_ids (n ∷ ns) m = elim (as_variable n) [
  | none ↦ node_ids ns m
  | some v ↦ let (id, m') = id_of v m in let (ids, m'') = node_ids ns m' in (id ∷ ids, m'')
]

abbrev pub nodes_of : TriplePattern → List Node
nodes_of tp = tp.subject ∷ tp.predicate ∷ tp.object ∷ []

module _ {G : Type 0} (ops : GraphOps G) where
  -- An edge in each direction.
  abbrev pub link : ℕ → ℕ → Option ℕ → G → G
  link a b l g = ops.add_dependency (ops.add_dependency g a b l) b a l

  -- The loop over `tp_vars`, with its variables: the graph, `done` and `cart`.
  unfoldable pub match_var : ℕ → ℕ → ℕ → List ℕ → G × List ℕ × Bool → G × List ℕ × Bool
  match_var u v var [] st = st
  match_var u v var (t ∷ ts) (g, done, cart) = match_var u v var ts (
      if var == t
      then (if contains var done
          then (g, done, false)
          else (link u v (some var) g, var ∷ done, false))
      else (g, done, cart))

  -- The loop over `var_ids`.
  unfoldable pub match_vars : ℕ → ℕ → List ℕ → List ℕ → G × List ℕ × Bool → G × List ℕ × Bool
  match_vars u v [] ts st = st
  match_vars u v (var ∷ vars) ts st = match_vars u v vars ts (match_var u v var ts st)

  -- The body of the loop over the group: the edges between the new operand and `u`.
  unfoldable pub connect : ℕ → ℕ → List ℕ → G → G
  connect u v vars g =
      let (g', done, cart) = match_vars u v vars (ops.operand_var_ids g u) (g, [], true) in
      if cart then link u v none g' else g'

  unfoldable pub connect_all : List ℕ → ℕ → List ℕ → G → G
  connect_all [] v vars g = g
  connect_all (u ∷ us) v vars g = connect_all us v vars (connect u v vars g)

  -- A group holds operands as `uint8_t`.
  unfoldable pub add_tp : TriplePattern → Visitor G → Result (Visitor G)
  add_tp tp s =
      let (vars, ids) = node_ids (nodes_of tp) s.var_to_id in
      let (v, g) = ops.add_operand s.odg vars in
      do
        gp ← top s.group_patterns
        groups ← change_top (λ us. us ++ (v % 256) ∷ []) s.group_patterns
        ok (record s {
          query = record s.query { var_to_id = ids; odg = connect_all (reverse gp) v vars g };
          group_patterns = groups;
        })

  module _ (rdf : Rdf) where
    -- `visitObjectPath` and `visitObject`, which do the same.
    unfoldable pub visit_object : ObjectContext → Visitor G → Result (Visitor G)
    visit_object none s = fail (runtime_error "not supported")
    visit_object (some ctx) s = do
      obj ← visit_var_or_term rdf ctx
      let s1 = register_node s obj
      let tp : TriplePattern = record {
        subject = s1.active_subject;
        predicate = s1.active_predicate;
        object = obj;
      }
      add_tp tp (record s1 {
        query = record s1.query { triple_patterns = s1.triple_patterns ++ tp ∷ [] };
      })

    unfoldable pub visit_object_list : List ObjectContext → Visitor G → Result (Visitor G)
    visit_object_list [] s = ok s
    visit_object_list (o ∷ os) s = visit_object o s >>= visit_object_list os

    unfoldable pub visit_verb : VerbContext → Visitor G → Result (Visitor G)
    visit_verb (verb_path path) s = do
      predicate ← visit_path rdf path
      ok (record s { active_predicate = predicate })
    visit_verb (verb_simple text) s = do
      v ← visit_var text
      ok (record (register_var s v) { active_predicate = variable v })

    unfoldable pub visit_property : PropertyContext → Visitor G → Result (Visitor G)
    visit_property p s = visit_verb p.verb s >>= λ s1. elim p.object_list [
      | none ↦ fail (runtime_error "Triple requires at least one object")
      | some os ↦ visit_object_list os s1
    ]

    unfoldable pub visit_properties : List PropertyContext → Visitor G → Result (Visitor G)
    visit_properties [] s = ok s
    visit_properties (p ∷ ps) s = visit_property p s >>= visit_properties ps

    unfoldable pub visit_property_list : PropertyListContext → Visitor G → Result (Visitor G)
    visit_property_list ctx s = visit_property ctx.first s >>= visit_properties ctx.further

    -- Where one of the two is missing the source returns and adds nothing.
    unfoldable pub visit_same_subject : TriplesSameSubjectContext → Visitor G → Result (Visitor G)
    visit_same_subject ctx s = elim ctx.var_or_term [
      | none ↦ ok s
      | some subject_ctx ↦ elim ctx.property_list [
        | none ↦ ok s
        | some properties ↦ visit_var_or_term rdf subject_ctx >>= λ subject.
            visit_property_list properties
              (register_node (record s { active_subject = subject }) subject)
      ]
    ]

    unfoldable pub visit_triples_block : TriplesBlockContext → Visitor G → Result (Visitor G)
    visit_triples_block [] s = ok s
    visit_triples_block (t ∷ ts) s = visit_same_subject t s >>= visit_triples_block ts
