-- ===== src/Sparql/Operands.antt =====
-- The operands of the graph belong to the triple patterns of the query, one to each: the ids of a
-- pattern, and what the package query documents.
pub mod Edges
pub mod Aligned
use tentris.Base.{
  ℕ, Option, none, some, List, [], ◌∷◌, ◌++◌, map, All, assign, find-assign, ◌≡◌, refl, sym, ap,
  ◌∙◌, if_neg,
}
use tentris.Sparql.Syntax.{
  Variable, Variable-discrete, Node, null_node, variable, iri, literal, TriplePattern,
}
use tentris.Sparql.Graph.{GraphOps}
use tentris.Sparql.Triples.{id_of, node_ids, nodes_of}
use tentris.Sparql.Ids.{Ids, id?}
use tentris.Sparql.Invariant.{Known}

-- What the package query documents of the operands: they are numbered in the order in which they are
-- added, and edges do not change them.
pub record OperandLaws {G : Type 0} (ops : GraphOps G) : Type 0 where
  pub operands : G → List (List ℕ)
  pub operands-empty : operands ops.empty ≡ []
  pub operands-add_operand :
      (g : G) (vs : List ℕ) → operands (ops.add_operand g vs).1 ≡ operands g ++ vs ∷ []
  pub operands-add_dependency :
      (g : G) (a b : ℕ) (l : Option ℕ) → operands (ops.add_dependency g a b l) ≡ operands g
  pub operands-add_connection : (g : G) (a b : ℕ) → operands (ops.add_connection g a b) ≡ operands g

abbrev pub with_id : Option ℕ → List ℕ → List ℕ
with_id none ids = ids
with_id (some id) ids = id ∷ ids

-- The ids of the variables among some nodes, in their order.
abbrev pub ids_among : Ids → List Node → List ℕ
ids_among m [] = []
ids_among m (variable v ∷ ns) = with_id (id? v m) (ids_among m ns)
ids_among m (n ∷ ns) = ids_among m ns

pub node_ids-ids_among :
    (ns : List Node) (m : Ids) → All (Known m) ns → (node_ids ns m).0 ≡ ids_among m ns
unfolding node_ids id_of
node_ids-ids_among [] m h = refl
node_ids-ids_among (variable v ∷ ns) m ((id, e), h) =
    rw (e, node_ids, id_of) (ap (◌∷◌ id) (node_ids-ids_among ns m h))
node_ids-ids_among (null_node ∷ ns) m h = node_ids-ids_among ns m h.1
node_ids-ids_among (iri t ∷ ns) m h = node_ids-ids_among ns m h.1
node_ids-ids_among (literal l ∷ ns) m h = node_ids-ids_among ns m h.1

-- A new variable does not change the ids of the others.
id?-assign_new :
    (m : Ids) (v w : Variable) (i id : ℕ)
    → id? v m ≡ none
    → id? w m ≡ some id
    → id? w (assign Variable-discrete v i m) ≡ some id
id?-assign_new m v w i id new old = elim (Variable-discrete v w) [
  | yes p ↦ cc (new, old, ap (λ u. id? u m) p)
  | no p ↦ rw (find-assign Variable-discrete v w i m, if_neg _ p) old
]

ids_among-assign_new :
    (ns : List Node) (m : Ids) (v : Variable) (i : ℕ)
    → id? v m ≡ none
    → All (Known m) ns
    → ids_among (assign Variable-discrete v i m) ns ≡ ids_among m ns
ids_among-assign_new [] m v i new h = refl
ids_among-assign_new (variable w ∷ ns) m v i new ((id, e), h) =
    ap (λ o. with_id o (ids_among (assign Variable-discrete v i m) ns))
      (id?-assign_new m v w i id new e)
    ∙ ap (◌∷◌ id) (ids_among-assign_new ns m v i new h)
    ∙ sym (ap (λ o. with_id o (ids_among m ns)) e)
ids_among-assign_new (null_node ∷ ns) m v i new h = ids_among-assign_new ns m v i new h.1
ids_among-assign_new (iri t ∷ ns) m v i new h = ids_among-assign_new ns m v i new h.1
ids_among-assign_new (literal l ∷ ns) m v i new h = ids_among-assign_new ns m v i new h.1

abbrev pub pattern_ids : Ids → List TriplePattern → List (List ℕ)
pattern_ids m tps = map (λ tp. ids_among m (nodes_of tp)) tps

pub pattern_ids-assign_new :
    (tps : List TriplePattern) (m : Ids) (v : Variable) (i : ℕ)
    → id? v m ≡ none
    → All (λ tp. All (Known m) (nodes_of tp)) tps
    → pattern_ids (assign Variable-discrete v i m) tps ≡ pattern_ids m tps
pattern_ids-assign_new [] m v i new h = refl
pattern_ids-assign_new (tp ∷ tps) m v i new h =
    ap (λ ids. ids ∷ pattern_ids (assign Variable-discrete v i m) tps)
      (ids_among-assign_new (nodes_of tp) m v i new h.0)
    ∙ ap (◌∷◌ (ids_among m (nodes_of tp))) (pattern_ids-assign_new tps m v i new h.1)
