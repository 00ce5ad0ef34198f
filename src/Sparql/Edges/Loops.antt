-- ===== src/Sparql/Edges/Loops.antt =====
-- The loops over the variable ids of two operands (`match_var`, `match_vars`): what they add to the
-- graph, edge by edge, and what they leave in `done` and `cart`.
use tentris.Base.{
  ℕ, ◌≡◌, refl, inl, inr, Bool, true, false, some, List, [], ◌∷◌, arith, In, ◌==◌, ==_iff,
  if◌then◌else◌, Bool-cases, sym, ap,
}
use tentris.Sparql.Graph.{GraphOps, GraphLaws}
use tentris.Sparql.Triples.{link, match_var, match_vars, contains}
use tentris.Sparql.Edges.Post.{link-edges, Done, Post, Post-then}

In-contains : (x : ℕ) (xs : List ℕ) → In x xs → contains x xs ≡ true
In-contains x [] i = absurd (i tt)
In-contains x (y ∷ ys) (inl e) = let h : (y == x) ≡ true = (==_iff y x).1 (sym e) in rw h refl
In-contains x (y ∷ ys) (inr i) = let h = In-contains x ys i in ground arith

pub contains-In : (x : ℕ) (xs : List ℕ) → contains x xs ≡ true → In x xs
contains-In x [] h = cc
contains-In x (y ∷ ys) h = elim (Bool-cases (y == x)) [
  | inl e ↦ inl (sym ((==_iff y x).0 e))
  | inr e ↦ inr (contains-In x ys (ground arith))
]

module _ {G : Type 0} (ops : GraphOps G) (laws : GraphLaws ops) where
  open laws use {HasEdge}

  module _ (u v : ℕ) where
    -- One round of the inner loop.
    abbrev step : ℕ → ℕ → G → List ℕ → Bool → G × List ℕ × Bool
    step var t g done cart =
        if var == t
        then (if contains var done
            then (g, done, false)
            else (link ops u v (some var) g, var ∷ done, false))
        else (g, done, cart)

    abbrev Round : ℕ → ℕ → ℕ → Type 0
    Round var t x = (x ≡ var) × (var ≡ t)

    step_again :
        (var t : ℕ) (g : G) (done : List ℕ) (cart : Bool)
        → var ≡ t
        → In var done
        → Done ops laws u v g done
        → Post ops laws u v (Round var t) g done cart (g, done, false)
    step_again var t g done cart same seen h = record {
      forth = λ c d m e. inl e;
      old = λ c d m e. e;
      new = λ c d x (p, q) b. rw p (h var c d seen b);
      kept = h;
      cleared = λ x n. refl;
      still_cleared = λ e. refl;
      unchanged = λ none_new. absurd (none_new var (refl, same));
      seen = λ x. (inl, elim [ inl i ↦ i | inr (p, q) ↦ rw p seen ]);
      distinct = λ d. d;
      drawn = λ g0 e. e;
    }

    step_first :
        (var t : ℕ) (g : G) (done : List ℕ) (cart : Bool)
        → var ≡ t
        → contains var done ≡ false
        → Done ops laws u v g done
        → Post ops laws u v (Round var t) g done cart (link ops u v (some var) g, var ∷ done, false)
    step_first var t g done cart same new h = record {
      forth = λ c d m e. elim ((link-edges ops laws u v (some var) g c d m).0 e) [
        | inl e' ↦ inl e'
        | inr (b, l) ↦ inr (var, l, (refl, same), b)
      ];
      old = λ c d m e. (link-edges ops laws u v (some var) g c d m).1 (inl e);
      new = λ c d x (p, q) b.
          (link-edges ops laws u v (some var) g c d (some x)).1 (inr (b, ap some p));
      kept = λ x c d i b.
          (link-edges ops laws u v (some var) g c d (some x)).1
            (elim i [ inl p ↦ inr (b, ap some p) | inr i' ↦ inl (h x c d i' b) ]);
      cleared = λ x n. refl;
      still_cleared = λ e. refl;
      unchanged = λ none_new. absurd (none_new var (refl, same));
      seen = λ x. (
        elim [ inl p ↦ inr (p, same) | inr i ↦ inl i ],
        elim [ inl i ↦ inr i | inr (p, q) ↦ inl p ],
      );
      distinct = λ d. ((λ i. let e = In-contains var done i in absurd (cc)), d);
      drawn = λ g0 e. ap (link ops u v (some var)) e;
    }

    step_other :
        (var t : ℕ) (g : G) (done : List ℕ) (cart : Bool)
        → (var ≡ t → ⊥)
        → Done ops laws u v g done
        → Post ops laws u v (Round var t) g done cart (g, done, cart)
    step_other var t g done cart differ h = record {
      forth = λ c d m e. inl e;
      old = λ c d m e. e;
      new = λ c d x (p, q) b. absurd (differ q);
      kept = h;
      cleared = λ x (p, q). absurd (differ q);
      still_cleared = λ e. e;
      unchanged = λ none_new. refl;
      seen = λ x. (inl, elim [ inl i ↦ i | inr (p, q) ↦ absurd (differ q) ]);
      distinct = λ d. d;
      drawn = λ g0 e. e;
    }

    step-Post :
        (var t : ℕ) (g : G) (done : List ℕ) (cart : Bool)
        → Done ops laws u v g done
        → Post ops laws u v (Round var t) g done cart (step var t g done cart)
    step-Post var t g done cart h = elim (Bool-cases (var == t)) [
      | inr e ↦ rw e (step_other var t g done cart (λ p. absurd (ground arith)) h)
      | inl e ↦ rw e (elim (Bool-cases (contains var done)) [
        | inl seen ↦
            rw seen
              (step_again var t g done cart ((==_iff var t).0 e) (contains-In var done seen) h)
        | inr first ↦ rw first (step_first var t g done cart ((==_iff var t).0 e) first h)
      ])
    ]

    nothing_new :
        (g : G) (done : List ℕ) (cart : Bool) (New : ℕ → Type 0)
        → ((x : ℕ) → New x → ⊥)
        → Done ops laws u v g done
        → Post ops laws u v New g done cart (g, done, cart)
    nothing_new g done cart New no_new h = record {
      forth = λ c d m e. inl e;
      old = λ c d m e. e;
      new = λ c d x n b. absurd (no_new x n);
      kept = h;
      cleared = λ x n. absurd (no_new x n);
      still_cleared = λ e. e;
      unchanged = λ _. refl;
      seen = λ x. (inl, elim [ inl i ↦ i | inr n ↦ absurd (no_new x n) ]);
      distinct = λ d. d;
      drawn = λ g0 e. e;
    }

    -- The inner loop adds the label of its variable, if the other operand has it.
    match_var-Post :
        (var : ℕ) (ts : List ℕ) (g : G) (done : List ℕ) (cart : Bool)
        → Done ops laws u v g done
        → Post ops laws u v
            (λ x. (x ≡ var) × In var ts)
            g
            done
            cart
            (match_var ops u v var ts (g, done, cart))
    unfolding match_var
    match_var-Post var [] g done cart h = nothing_new g done cart _ (λ x n. n.1 tt) h
    match_var-Post var (t ∷ ts) g done cart h =
        let r = step var t g done cart in
        let p = step-Post var t g done cart h in
        Post-then ops laws u v g done cart r (match_var ops u v var ts r)
          (λ x (e, i). elim i [ inl q ↦ inl (e, q) | inr i' ↦ inr (e, i') ])
          (λ x (e, q). (e, inl q)) (λ x (e, i). (e, inr i)) p
          (match_var-Post var ts r.0 r.1 r.2 p.kept)

    -- The outer loop adds the labels that the two operands share.
    pub match_vars-Post :
        (vars ts : List ℕ) (g : G) (done : List ℕ) (cart : Bool)
        → Done ops laws u v g done
        → Post ops laws u v
            (λ x. In x vars × In x ts)
            g
            done
            cart
            (match_vars ops u v vars ts (g, done, cart))
    unfolding match_vars
    match_vars-Post [] ts g done cart h = nothing_new g done cart _ (λ x n. n.0 tt) h
    match_vars-Post (var ∷ vars) ts g done cart h =
        let r = match_var ops u v var ts (g, done, cart) in
        let p = match_var-Post var ts g done cart h in
        Post-then ops laws u v g done cart r (match_vars ops u v vars ts r)
          (λ x (i, j). elim i [ inl e ↦ inl (e, rw (← e) j) | inr i' ↦ inr (i', j) ])
          (λ x (e, i). (inl e, rw e i)) (λ x (i, j). (inr i, j)) p
          (match_vars-Post vars ts r.0 r.1 r.2 p.kept)
