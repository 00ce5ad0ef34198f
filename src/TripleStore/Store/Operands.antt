-- ===== src/TripleStore/Store/Operands.antt =====
-- The operands that a parsed query is evaluated on.
use tentris.Base.{
  ℕ, suc, ◌+◌, Bool, true, false, Bool-cases, none, some, List, [], ◌∷◌, map, length, In, All, ok,
  ◌==◌, ==_iff, if◌then◌else◌, inl, inr, ◌↔◌, ◌≡◌, refl, sym, ap, ◌∙◌, subst, arith,
}
use tentris.Sparql.Syntax.{Node, null_node, variable, iri, literal, TriplePattern}
use tentris.Sparql.Terms.{Rdf}
use tentris.Sparql.Graph.{GraphOps}
use tentris.Sparql.State.{Query}
use tentris.Sparql.Triples.{nodes_of}
use tentris.Sparql.Select.{QueryContext, parse, slice_part, get_slice_keys}
use tentris.Sparql.Ids.{Ids}
use tentris.Sparql.Invariant.{Known}
use tentris.Sparql.Parsed.{parse-HasId}
use tentris.Sparql.Operands.{OperandLaws, with_id, ids_among, pattern_ids}
use tentris.Sparql.Operands.Aligned.{parse-operands}
use tentris.TripleStore.Hypertrie.{SliceKey, HypertrieOps, HypertrieLaws, free, fill}
use tentris.TripleStore.Store.{fixed_parts, fixed_depth, generate_operand, generate_operands}

-- What hypertrie documents of the access by a full key and of hypertries of depth 0.
pub record AccessLaws {H : Type 0} (ops : HypertrieOps H) : Type 0 where
  pub get-entries : (k : List Node) (h : H) → (ops.get k h ≡ true) ↔ In k (ops.entries h)
  pub entries-depth_0 : ops.entries ops.depth_0 ≡ []
  pub entries-set_true : ops.entries (ops.set_true ops.depth_0) ≡ [] ∷ []

free_fixed : (key : SliceKey) → free key + fixed_depth key ≡ length key
free_fixed [] = refl
free_fixed (none ∷ key) = omega (arith, free_fixed key)
free_fixed (some n ∷ key) = omega (arith, free_fixed key)

fill-fixed_parts : (key : SliceKey) → free key ≡ 0 → fill key [] ≡ fixed_parts key
fill-fixed_parts [] e = refl
fill-fixed_parts (none ∷ key) e = absurd (omega (arith, e))
fill-fixed_parts (some n ∷ key) e = ap (◌∷◌ n) (fill-fixed_parts key e)

-- The nodes of a pattern with its variables replaced, in their order.
abbrev pub instantiate : List Node → List Node → List Node
instantiate [] k = k
instantiate (variable v ∷ ns) [] = []
instantiate (variable v ∷ ns) (x ∷ k) = x ∷ instantiate ns k
instantiate (n ∷ ns) k = n ∷ instantiate ns k

pub fill-instantiate : (ns k : List Node) → fill (map slice_part ns) k ≡ instantiate ns k
fill-instantiate [] k = refl
fill-instantiate (variable v ∷ ns) [] = refl
fill-instantiate (variable v ∷ ns) (x ∷ k) = ap (◌∷◌ x) (fill-instantiate ns k)
fill-instantiate (null_node ∷ ns) k = ap (◌∷◌ null_node) (fill-instantiate ns k)
fill-instantiate (iri t ∷ ns) k = ap (◌∷◌ (iri t)) (fill-instantiate ns k)
fill-instantiate (literal l ∷ ns) k = ap (◌∷◌ (literal l)) (fill-instantiate ns k)

free-ids_among :
    (m : Ids) (ns : List Node)
    → All (Known m) ns
    → free (map slice_part ns) ≡ length (ids_among m ns)
free-ids_among m [] known = refl
free-ids_among m (variable v ∷ ns) ((id, e), known) =
    ap suc (free-ids_among m ns known) ∙ sym (ap (λ o. length (with_id o (ids_among m ns))) e)
free-ids_among m (null_node ∷ ns) known = free-ids_among m ns known.1
free-ids_among m (iri t ∷ ns) known = free-ids_among m ns known.1
free-ids_among m (literal l ∷ ns) known = free-ids_among m ns known.1

module _ {H : Type 0} (ops : HypertrieOps H) (laws : HypertrieLaws ops) (access : AccessLaws ops)
    (h : H) where
  -- The entry fits the free positions of the key, and filled in it is an entry of the store.
  abbrev pub Fits : SliceKey → List Node → Type 0
  Fits key k = (length k ≡ free key) × In (fill key k) (ops.entries h)

  -- A key with no free position.
  full_key :
      (key : SliceKey) (k : List Node) (found : Bool)
      → free key ≡ 0
      → ops.get (fixed_parts key) h ≡ found
      → In k (ops.entries (if found then ops.set_true ops.depth_0 else ops.depth_0)) ↔ Fits key k
  full_key key [] true e g = (
    (λ m. (
      sym e,
      subst (λ x. In x (ops.entries h)) (sym (fill-fixed_parts key e))
          ((access.get-entries (fixed_parts key) h).0 g),
    )),
    (λ f. subst (In []) (sym access.entries-set_true) (inl refl)),
  )
  full_key key (n ∷ k) true e g = (
    (λ m. elim (subst (In (n ∷ k)) access.entries-set_true m) [
      | inl q ↦ absurd (omega (arith, ap length q))
      | inr m' ↦ absurd (m' tt)
    ]),
    (λ f. absurd (omega (arith, f.0, e))),
  )
  full_key key [] false e g = (
    (λ m. absurd (subst (In []) access.entries-depth_0 m tt)),
    (λ f.
        let here =
          (access.get-entries (fixed_parts key) h).1
            (subst (λ x. In x (ops.entries h)) (fill-fixed_parts key e) f.1) in
        cc (here, g)),
  )
  full_key key (n ∷ k) false e g = (
    (λ m. absurd (subst (In (n ∷ k)) access.entries-depth_0 m tt)),
    (λ f. absurd (omega (arith, f.0, e))),
  )

  pub generate_operand-Fits :
      (key : SliceKey) (k : List Node)
      → length key ≡ 3
      → In k (ops.entries (generate_operand ops h key)) ↔ Fits key k
  unfolding generate_operand
  generate_operand-Fits key k three = elim (Bool-cases (fixed_depth key == 3)) [
    | inl e ↦
        let fixed = (==_iff (fixed_depth key) 3).0 e in
        let no_free : free key ≡ 0 = omega (arith, free_fixed key, fixed, three) in
        subst
          (λ b.
            In k (
              ops.entries (
                if b
                then (if ops.get (fixed_parts key) h then ops.set_true ops.depth_0 else ops.depth_0)
                else ops.slice key h))
            ↔ Fits key k)
          (sym e) (full_key key k (ops.get (fixed_parts key) h) no_free refl)
    | inr e ↦
        subst
          (λ b.
            In k (
              ops.entries (
                if b
                then (if ops.get (fixed_parts key) h then ops.set_true ops.depth_0 else ops.depth_0)
                else ops.slice key h))
            ↔ Fits key k)
          (sym e) (laws.entries-slice key h k)
  ]

  -- Operands, the variable ids of the operands of a graph, and triple patterns, one by one: an operand
  -- has an entry exactly if it has a node for each id and completes the pattern to a triple of the store.
  abbrev pub Matches : List H → List (List ℕ) → List TriplePattern → Type 0
  Matches [] [] [] = Unit
  Matches (o ∷ os) (ids ∷ idss) (tp ∷ tps) =
      ((k : List Node)
        → In k (ops.entries o)
          ↔ ((length k ≡ length ids) × In (instantiate (nodes_of tp) k) (ops.entries h)))
      × Matches os idss tps
  Matches _ _ _ = ⊥

  generate_operands-Matches :
      (m : Ids) (tps : List TriplePattern)
      → All (λ tp. All (Known m) (nodes_of tp)) tps
      → Matches (generate_operands ops h (get_slice_keys tps)) (pattern_ids m tps) tps
  unfolding generate_operands get_slice_keys
  generate_operands-Matches m [] known = tt
  generate_operands-Matches m (tp ∷ tps) (here, known) = (
    (λ k.
        let key = map slice_part (nodes_of tp) in
        let (forth, back) = generate_operand-Fits key k refl in
        let depth = free-ids_among m (nodes_of tp) here in
        (
          (λ i.
              let (l, f) = forth i in
              (l ∙ depth, subst (λ x. In x (ops.entries h)) (fill-instantiate (nodes_of tp) k) f)),
          (λ (l, f). back (
            l ∙ sym depth,
            subst (λ x. In x (ops.entries h)) (sym (fill-instantiate (nodes_of tp) k)) f,
          )),
        )),
    generate_operands-Matches m tps known,
  )

  module _ {G : Type 0} (graph : GraphOps G) (graph_laws : OperandLaws graph) (rdf : Rdf) where
    -- Of a parsed query, the operands of the evaluation, the operands of the graph and the triple patterns
    -- belong together one by one: an operand has exactly the entries that complete its pattern to a triple
    -- of the store, with a node for each variable id that the graph has for it.
    pub generate_operands-parse :
        (fuel : ℕ) (ctx : QueryContext) (q : Query G)
        → parse graph rdf fuel ctx ≡ ok q
        → Matches
            (generate_operands ops h (get_slice_keys q.triple_patterns))
            (graph_laws.operands q.odg)
            q.triple_patterns
    generate_operands-parse fuel ctx q parsed =
        subst
          (λ idss.
            Matches (generate_operands ops h (get_slice_keys q.triple_patterns)) idss
              q.triple_patterns)
          (sym (parse-operands graph graph_laws rdf fuel ctx q parsed))
          (generate_operands-Matches q.var_to_id q.triple_patterns
            (parse-HasId graph rdf fuel ctx q parsed).1)
