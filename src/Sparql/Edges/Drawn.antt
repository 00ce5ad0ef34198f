-- ===== src/Sparql/Edges/Drawn.antt =====
-- The edges that `add_tp` draws, one by one, and `add_tp` itself.
use tentris.Base.{
  ap, map, NoDuplicates, ℕ, ◌%◌, ◌≡◌, refl, subst, ◌∙◌, ◌↔◌, ◌⊎◌, inl, inr, Bool, true, false,
  Option, none, some, List, [], ◌∷◌, ◌++◌, ok, In, Bool-cases,
}
use mathlib.Core.List.{reverse}
use tentris.Sparql.Syntax.{TriplePattern}
use tentris.Sparql.Graph.{GraphOps, GraphLaws}
use tentris.Sparql.State.{Visitor}
use tentris.Sparql.Triples.{link, match_vars, connect, connect_all, add_tp, node_ids, nodes_of}
use tentris.Sparql.Edges.Post.{Between, link_labels, Post}
use tentris.Sparql.Edges.Loops.{match_vars-Post}
use tentris.Sparql.Edges.Group.{Label, connect-vars, connect_all-edges, In-reverse, In-of_reverse}

In-map-some : (x : ℕ) (xs : List ℕ) → In (some x) (map some xs) ↔ In x xs
In-map-some x [] = ((λ i. i), (λ i. i))
In-map-some x (y ∷ ys) = (
  elim [ inl e ↦ inl (cc e) | inr i ↦ inr ((In-map-some x ys).0 i) ],
  elim [ inl e ↦ inl (ap some e) | inr i ↦ inr ((In-map-some x ys).1 i) ],
)

In-map-some_none : (xs : List ℕ) → In none (map some xs) → ⊥
In-map-some_none [] i = i tt
In-map-some_none (x ∷ xs) (inl e) = cc e
In-map-some_none (x ∷ xs) (inr i) = In-map-some_none xs i

NoDuplicates-map-some : (xs : List ℕ) → NoDuplicates xs → NoDuplicates (map some xs)
NoDuplicates-map-some [] d = tt
NoDuplicates-map-some (x ∷ xs) (n, d) =
    ((λ i. n ((In-map-some x xs).0 i)), NoDuplicates-map-some xs d)

module _ {G : Type 0} (ops : GraphOps G) where
  -- For each operand of the list in turn, the two edges for each of its labels, each label once. The
  -- variable ids of the operands are given.
  pub data Drawing (v : ℕ) (vars : List ℕ) (ids : ℕ → List ℕ) : List ℕ → G → G → Type 0 where
    nobody : (g : G) → Drawing v vars ids [] g g
    draw :
        (u : ℕ) (us : List ℕ) (ls : List (Option ℕ)) (g r : G)
        → NoDuplicates ls
        → ((l : Option ℕ) → In l ls ↔ Label vars (ids u) l)
        → Drawing v vars ids us (link_labels ops u v ls g) r
        → Drawing v vars ids (u ∷ us) g r

module _ {G : Type 0} (ops : GraphOps G) (laws : GraphLaws ops) where
  open laws use {add_operand-edges, HasEdge}

  -- What one round draws.
  abbrev Round : ℕ → ℕ → List ℕ → List ℕ → G → G → Type 0
  Round u v vars ts g r =
      (ls : List (Option ℕ)) × NoDuplicates ls
      × ((l : Option ℕ) → In l ls ↔ Label vars ts l)
      × (r ≡ link_labels ops u v ls g)

  module _ (u v : ℕ) (vars ts : List ℕ) (g : G) (r : G × List ℕ × Bool)
      (p : Post ops laws u v (λ x. In x vars × In x ts) g [] true r) where
    shared : (x : ℕ) → In (some x) (map some r.1) ↔ Label vars ts (some x)
    shared x = (
      (λ i. elim ((p.seen x).0 ((In-map-some x r.1).0 i)) [ inl j ↦ absurd (j tt) | inr n ↦ n ]),
      (λ n. (In-map-some x r.1).1 ((p.seen x).1 (inr n))),
    )

    with_cart : r.2 ≡ true → Round u v vars ts g (link ops u v none r.0)
    with_cart t = (
      none ∷ map some r.1,
      (In-map-some_none r.1, NoDuplicates-map-some r.1 (p.distinct tt)),
      same,
      ap (link ops u v none) (p.drawn g refl),
    )
      where
        same : (l : Option ℕ) → In l (none ∷ map some r.1) ↔ Label vars ts l
        same (some x) =
            (elim [ inl e ↦ absurd (cc e) | inr i ↦ (shared x).0 i ], λ n. inr ((shared x).1 n))
        same none =
            ((λ i x a b. let f : r.2 ≡ false = p.cleared x (a, b) in absurd (cc)), λ n. inl refl)

    without_cart : r.2 ≡ false → Round u v vars ts g r.0
    without_cart f = (map some r.1, NoDuplicates-map-some r.1 (p.distinct tt), same, p.drawn g refl)
      where
        same : (l : Option ℕ) → In l (map some r.1) ↔ Label vars ts l
        same (some x) = shared x
        same none = (
          (λ i. absurd (In-map-some_none r.1 i)),
          (λ n. let e : r.2 ≡ true = p.unchanged (λ x m. n x m.0 m.1) in absurd (cc)),
        )

  connect-Round :
      (u v : ℕ) (vars : List ℕ) (g : G)
      → Round u v vars (ops.operand_var_ids g u) g (connect ops u v vars g)
  unfolding connect
  connect-Round u v vars g =
      let ts = ops.operand_var_ids g u in
      let r = match_vars ops u v vars ts (g, [], true) in
      let p = match_vars-Post ops laws u v vars ts g [] true (λ x c d i b. absurd (i tt)) in
      elim (Bool-cases r.2) [
        | inl e ↦ rw e (with_cart u v vars ts g r p e)
        | inr e ↦ rw e (without_cart u v vars ts g r p e)
      ]

  connect_all-Drawing :
      (v : ℕ) (vars : List ℕ) (ids : ℕ → List ℕ) (us : List ℕ) (g : G)
      → ((w : ℕ) → ops.operand_var_ids g w ≡ ids w)
      → Drawing ops v vars ids us g (connect_all ops us v vars g)
  unfolding connect_all
  connect_all-Drawing v vars ids [] g same = nobody g
  connect_all-Drawing v vars ids (u ∷ us) g same =
      let (ls, d, members, e) = connect-Round u v vars g in
      let r = connect_all ops us v vars (connect ops u v vars g) in
      draw u us ls g r d (λ l. subst (λ ts. In l ls ↔ Label vars ts l) (same u) (members l))
        (subst (λ g'. Drawing ops v vars ids us g' r) e
          (connect_all-Drawing v vars ids us (connect ops u v vars g)
            (λ w. connect-vars ops laws u v vars g w ∙ same w)))

  -- A triple pattern becomes an operand of the top group. With each operand of that group it is linked
  -- both ways, once for each variable that the two share, and once with no label if they share none; no
  -- other edge is drawn, and all edges from before stay.
  pub add_tp-edges :
      (tp : TriplePattern) (s : Visitor G) (gp : List ℕ) (gps : List (List ℕ))
      → s.group_patterns ≡ gp ∷ gps
      → let vars = (node_ids (nodes_of tp) s.var_to_id).0 in
        let v = (ops.add_operand s.odg vars).0 in
        let g = (ops.add_operand s.odg vars).1 in
        (s' : Visitor G) × (add_tp ops tp s ≡ ok s')
        × (s'.group_patterns ≡ (gp ++ (v % 256) ∷ []) ∷ gps)
        × Drawing ops v vars (ops.operand_var_ids g) (reverse gp) g s'.odg
        × ((c d : ℕ) (m : Option ℕ)
            → HasEdge s'.odg c d m ↔ (
                HasEdge s.odg c d m
                ⊎ ((u : ℕ) × In u gp × Between u v c d × Label vars (ops.operand_var_ids g u) m)))
  unfolding add_tp
  add_tp-edges tp s gp gps e =
      let (vars, ids) = node_ids (nodes_of tp) s.var_to_id in
      let (v, g) = ops.add_operand s.odg vars in
      let s' : Visitor G = record s {
        query = record s.query { var_to_id = ids; odg = connect_all ops (reverse gp) v vars g };
        group_patterns = (gp ++ (v % 256) ∷ []) ∷ gps;
      } in
      (
        s',
        rw e refl,
        refl,
        connect_all-Drawing v vars (ops.operand_var_ids g) (reverse gp) g (λ w. refl),
        λ c d m.
            let all = connect_all-edges ops laws (reverse gp) v vars g c d m in
            let before = add_operand-edges s.odg vars c d m in
            (
              (λ x. elim (all.0 x) [
                | inl old ↦ inl (before.0 old)
                | inr (u, i, b, l) ↦ inr (u, In-of_reverse u gp i, b, l)
              ]),
              elim [
                | inl old ↦ all.1 (inl (before.1 old))
                | inr (u, i, b, l) ↦ all.1 (inr (u, In-reverse u gp i, b, l))
              ],
            ),
      )
