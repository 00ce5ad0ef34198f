-- ===== src/Sparql/Edges/Group.antt =====
-- The loop of `add_tp` over the operands of the group: which edges the graph has after it.
use tentris.Base.{
  ℕ, ◌≡◌, refl, sym, subst, ◌∙◌, ◌↔◌, ◌⊎◌, inl, inr, Bool, true, false, Option, none, some, List,
  [], ◌∷◌, arith, In, In-append_left, In-append_right, Bool-cases,
}
use mathlib.Core.List.{reverse, reverse-cons, reverse-reverse}
use tentris.Sparql.Graph.{GraphOps, GraphLaws}
use tentris.Sparql.Triples.{link, match_var, match_vars, connect, connect_all}
use tentris.Sparql.Edges.Post.{Between, link-edges, Post}
use tentris.Sparql.Edges.Loops.{match_vars-Post}

-- The labels between two operands: the ids that they share, or none if they share no id.
abbrev pub Label : List ℕ → List ℕ → Option ℕ → Type 0
Label vars ts (some x) = In x vars × In x ts
Label vars ts none = (x : ℕ) → In x vars → In x ts → ⊥

pub In-reverse : (u : ℕ) (us : List ℕ) → In u us → In u (reverse us)
In-reverse u [] i = i
In-reverse u (x ∷ us) (inl e) =
    rw (reverse-cons x us) (In-append_right u (reverse us) (x ∷ []) (inl e))
In-reverse u (x ∷ us) (inr i) =
    rw (reverse-cons x us) (In-append_left u (reverse us) (x ∷ []) (In-reverse u us i))

pub In-of_reverse : (u : ℕ) (us : List ℕ) → In u (reverse us) → In u us
In-of_reverse u us i = rw (reverse-reverse us) at (In-reverse u (reverse us) i)

module _ {G : Type 0} (ops : GraphOps G) (laws : GraphLaws ops) where
  open laws use {HasEdge, add_dependency-vars, add_operand-edges}

  module _ (u v : ℕ) (vars ts : List ℕ) (g : G) (r : G × List ℕ × Bool)
      (p : Post ops laws u v (λ x. In x vars × In x ts) g [] true r) where
    Drawn : Option ℕ → ℕ → ℕ → Type 0
    Drawn m c d = HasEdge g c d m ⊎ (Between u v c d × Label vars ts m)

    HasEdge-Drawn : (c d : ℕ) (m : Option ℕ) → HasEdge r.0 c d m → Drawn m c d
    unfolding Drawn
    HasEdge-Drawn c d m e = elim (p.forth c d m e) [
      | inl old ↦ inl old
      | inr (x, l, n, b) ↦ inr (b, rw l n)
    ]

    with_cart :
        r.2 ≡ true → (c d : ℕ) (m : Option ℕ) → HasEdge (link ops u v none r.0) c d m ↔ Drawn m c d
    unfolding Drawn
    with_cart t c d m = (forth, back m)
      where
        forth : HasEdge (link ops u v none r.0) c d m → Drawn m c d
        forth e = elim ((link-edges ops laws u v none r.0 c d m).0 e) [
          | inl e' ↦ HasEdge-Drawn c d m e'
          | inr (b, l) ↦ inr (b, rw l (λ x i j. let f : r.2 ≡ false = p.cleared x (i, j) in cc))
        ]

        back : (m : Option ℕ) → Drawn m c d → HasEdge (link ops u v none r.0) c d m
        back m (inl old) = (link-edges ops laws u v none r.0 c d m).1 (inl (p.old c d m old))
        back none (inr (b, l)) = (link-edges ops laws u v none r.0 c d none).1 (inr (b, refl))
        back (some x) (inr (b, l)) =
            (link-edges ops laws u v none r.0 c d (some x)).1 (inl (p.new c d x l b))

    without_cart : r.2 ≡ false → (c d : ℕ) (m : Option ℕ) → HasEdge r.0 c d m ↔ Drawn m c d
    unfolding Drawn
    without_cart t c d m = (HasEdge-Drawn c d m, back m)
      where
        back : (m : Option ℕ) → Drawn m c d → HasEdge r.0 c d m
        back m (inl old) = p.old c d m old
        back (some x) (inr (b, l)) = p.new c d x l b
        back none (inr (b, l)) =
            let e : r.2 ≡ true = p.unchanged (λ x n. l x n.0 n.1) in absurd (cc)

  -- The edges that one round of the outer loop draws.
  connect-edges :
      (u v : ℕ) (vars : List ℕ) (g : G) (c d : ℕ) (m : Option ℕ)
      → HasEdge (connect ops u v vars g) c d m
        ↔ (HasEdge g c d m ⊎ (Between u v c d × Label vars (ops.operand_var_ids g u) m))
  unfolding connect Drawn
  connect-edges u v vars g c d m =
      let ts = ops.operand_var_ids g u in
      let r = match_vars ops u v vars ts (g, [], true) in
      let p = match_vars-Post ops laws u v vars ts g [] true (λ x c d i b. absurd (i tt)) in
      elim (Bool-cases r.2) [
        | inl e ↦ rw e (with_cart u v vars ts g r p e c d m)
        | inr e ↦ rw e (without_cart u v vars ts g r p e c d m)
      ]

  link-vars :
      (u v : ℕ) (l : Option ℕ) (g : G) (w : ℕ)
      → ops.operand_var_ids (link ops u v l g) w ≡ ops.operand_var_ids g w
  link-vars u v l g w =
      add_dependency-vars (ops.add_dependency g u v l) v u l w ∙ add_dependency-vars g u v l w

  match_var-vars :
      (u v var : ℕ) (ts : List ℕ) (g : G) (done : List ℕ) (cart : Bool) (w : ℕ)
      → ops.operand_var_ids (match_var ops u v var ts (g, done, cart)).0 w ≡ ops.operand_var_ids g w
  unfolding match_var
  match_var-vars u v var [] g done cart w = refl
  match_var-vars u v var (t ∷ ts) g done cart w = ground (
    arith,
    match_var-vars u v var ts g done cart w,
    match_var-vars u v var ts g done false w,
    match_var-vars u v var ts (link ops u v (some var) g) (var ∷ done) false w,
    link-vars u v (some var) g w,
  )

  match_vars-vars :
      (u v : ℕ) (vars ts : List ℕ) (g : G) (done : List ℕ) (cart : Bool) (w : ℕ)
      → ops.operand_var_ids (match_vars ops u v vars ts (g, done, cart)).0 w
        ≡ ops.operand_var_ids g w
  unfolding match_vars
  match_vars-vars u v [] ts g done cart w = refl
  match_vars-vars u v (var ∷ vars) ts g done cart w =
      let r = match_var ops u v var ts (g, done, cart) in
      match_vars-vars u v vars ts r.0 r.1 r.2 w ∙ match_var-vars u v var ts g done cart w

  -- A new edge changes the ids of no operand.
  pub connect-vars :
      (u v : ℕ) (vars : List ℕ) (g : G) (w : ℕ)
      → ops.operand_var_ids (connect ops u v vars g) w ≡ ops.operand_var_ids g w
  unfolding connect
  connect-vars u v vars g w =
      let ts = ops.operand_var_ids g u in
      let r = match_vars ops u v vars ts (g, [], true) in
      let same = match_vars-vars u v vars ts g [] true w in
      elim (Bool-cases r.2) [ inl e ↦ rw e (link-vars u v none r.0 w ∙ same) | inr e ↦ rw e same ]

  abbrev pub GroupEdge : List ℕ → ℕ → List ℕ → G → ℕ → ℕ → Option ℕ → Type 0
  GroupEdge us v vars g c d m =
      HasEdge g c d m
      ⊎ ((u : ℕ) × In u us × Between u v c d × Label vars (ops.operand_var_ids g u) m)

  module _ (u : ℕ) (us : List ℕ) (v : ℕ) (vars : List ℕ) (g : G) (c d : ℕ) (m : Option ℕ)
      (E : Type 0) (rest : E ↔ GroupEdge us v vars (connect ops u v vars g) c d m) where
    round_forth : E → GroupEdge (u ∷ us) v vars g c d m
    round_forth e = elim (rest.0 e) [
      | inr (w, i, b, l) ↦
          inr (w, inr i, b, subst (λ ts. Label vars ts m) (connect-vars u v vars g w) l)
      | inl e' ↦ elim ((connect-edges u v vars g c d m).0 e') [
        | inl old ↦ inl old
        | inr (b, l) ↦ inr (u, inl refl, b, l)
      ]
    ]

    round_back : GroupEdge (u ∷ us) v vars g c d m → E
    round_back (inl old) = rest.1 (inl ((connect-edges u v vars g c d m).1 (inl old)))
    round_back (inr (w, inl e, b, l)) = rest.1 (
        inl (
          (connect-edges u v vars g c d m).1 (
            inr (
              subst (λ w'. Between w' v c d) e b,
              subst (λ w'. Label vars (ops.operand_var_ids g w') m) e l,
            ))))
    round_back (inr (w, inr i, b, l)) =
        rest.1 (inr (w, i, b, subst (λ ts. Label vars ts m) (sym (connect-vars u v vars g w)) l))

  -- The edges that the outer loop draws.
  pub connect_all-edges :
      (us : List ℕ) (v : ℕ) (vars : List ℕ) (g : G) (c d : ℕ) (m : Option ℕ)
      → HasEdge (connect_all ops us v vars g) c d m ↔ GroupEdge us v vars g c d m
  unfolding connect_all
  connect_all-edges [] v vars g c d m =
      ((λ e. inl e), elim [ inl e ↦ e | inr (u, i, b, l) ↦ absurd (i tt) ])
  connect_all-edges (u ∷ us) v vars g c d m =
      let rest = connect_all-edges us v vars (connect ops u v vars g) c d m in
      (round_forth u us v vars g c d m _ rest, round_back u us v vars g c d m _ rest)
