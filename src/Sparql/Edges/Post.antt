-- ===== src/Sparql/Edges/Post.antt =====
-- What the loops over the variable ids of two operands leave: the edges of the graph, `done` and `cart`.
use tentris.Base.{
  ℕ, ◌≡◌, ◌↔◌, ◌⊎◌, inl, inr, Bool, false, Option, some, List, [], ◌∷◌, In, map, NoDuplicates, ◌∙◌,
}
use tentris.Sparql.Graph.{GraphOps, GraphLaws}
use tentris.Sparql.Triples.{link}

-- An edge between `u` and `v`, in one direction or the other.
abbrev pub Between : ℕ → ℕ → ℕ → ℕ → Type 0
Between u v c d = ((c ≡ u) × (d ≡ v)) ⊎ ((c ≡ v) × (d ≡ u))

-- The two edges for each label, the last label first.
abbrev pub link_labels : {G : Type 0} → GraphOps G → ℕ → ℕ → List (Option ℕ) → G → G
link_labels ops u v [] g = g
link_labels ops u v (l ∷ ls) g = link ops u v l (link_labels ops u v ls g)

module _ {G : Type 0} (ops : GraphOps G) (laws : GraphLaws ops) where
  open laws use {HasEdge, add_dependency-edges}

  pub link-edges :
      (u v : ℕ) (l : Option ℕ) (g : G) (c d : ℕ) (m : Option ℕ)
      → HasEdge (link ops u v l g) c d m ↔ (HasEdge g c d m ⊎ (Between u v c d × (m ≡ l)))
  link-edges u v l g c d m = (forth, back)
    where
      first :
          HasEdge (ops.add_dependency g u v l) c d m
          ↔ (HasEdge g c d m ⊎ ((c ≡ u) × (d ≡ v) × (m ≡ l)))
      first = add_dependency-edges g u v l c d m

      second :
          HasEdge (link ops u v l g) c d m
          ↔ (HasEdge (ops.add_dependency g u v l) c d m ⊎ ((c ≡ v) × (d ≡ u) × (m ≡ l)))
      second = add_dependency-edges (ops.add_dependency g u v l) v u l c d m

      forth : HasEdge (link ops u v l g) c d m → HasEdge g c d m ⊎ (Between u v c d × (m ≡ l))
      forth e = elim (second.0 e) [
        | inr (p, q, r) ↦ inr (inr (p, q), r)
        | inl e' ↦ elim (first.0 e') [ inl old ↦ inl old | inr (p, q, r) ↦ inr (inl (p, q), r) ]
      ]

      back : HasEdge g c d m ⊎ (Between u v c d × (m ≡ l)) → HasEdge (link ops u v l g) c d m
      back (inl old) = second.1 (inl (first.1 (inl old)))
      back (inr (inl (p, q), r)) = second.1 (inl (first.1 (inr (p, q, r))))
      back (inr (inr (p, q), r)) = second.1 (inr (p, q, r))

  module _ (u v : ℕ) where
    -- The labels in `done` have their edges.
    abbrev pub Done : G → List ℕ → Type 0
    Done g done = (x c d : ℕ) → In x done → Between u v c d → HasEdge g c d (some x)

    -- From the loop variables `g`, `done` and `cart` to `r`, with the labels `New` seen.
    pub record Post (New : ℕ → Type 0) (g : G) (done : List ℕ) (cart : Bool) (r : G × List ℕ × Bool)
        : Type 0 where
      pub forth :
          (c d : ℕ) (m : Option ℕ)
          → HasEdge r.0 c d m
          → HasEdge g c d m ⊎ ((x : ℕ) × (m ≡ some x) × New x × Between u v c d)
      pub old : (c d : ℕ) (m : Option ℕ) → HasEdge g c d m → HasEdge r.0 c d m
      pub new : (c d x : ℕ) → New x → Between u v c d → HasEdge r.0 c d (some x)
      pub kept : Done r.0 r.1
      pub cleared : (x : ℕ) → New x → r.2 ≡ false
      pub still_cleared : cart ≡ false → r.2 ≡ false
      pub unchanged : ((x : ℕ) → New x → ⊥) → r.2 ≡ cart
      pub seen : (x : ℕ) → In x r.1 ↔ (In x done ⊎ New x)
      pub distinct : NoDuplicates done → NoDuplicates r.1
      pub drawn :
          (g0 : G)
          → g ≡ link_labels ops u v (map some done) g0
          → r.0 ≡ link_labels ops u v (map some r.1) g0

    pub Post-then :
        {New₁ New₂ New : ℕ → Type 0} (g : G) (done : List ℕ) (cart : Bool)
        (r r' : G × List ℕ × Bool)
        → ((x : ℕ) → New x → New₁ x ⊎ New₂ x)
        → ((x : ℕ) → New₁ x → New x)
        → ((x : ℕ) → New₂ x → New x)
        → Post New₁ g done cart r
        → Post New₂ r.0 r.1 r.2 r'
        → Post New g done cart r'
    Post-then g done cart r r' split left right p q = record {
      forth = λ c d m e. elim (q.forth c d m e) [
        | inr (x, l, n, b) ↦ inr (x, l, right x n, b)
        | inl e' ↦ elim (p.forth c d m e') [
          | inl e'' ↦ inl e''
          | inr (x, l, n, b) ↦ inr (x, l, left x n, b)
        ]
      ];
      old = λ c d m e. q.old c d m (p.old c d m e);
      new = λ c d x n b. elim (split x n) [
        | inl n₁ ↦ q.old c d (some x) (p.new c d x n₁ b)
        | inr n₂ ↦ q.new c d x n₂ b
      ];
      kept = q.kept;
      cleared = λ x n. elim (split x n) [
        | inl n₁ ↦ q.still_cleared (p.cleared x n₁)
        | inr n₂ ↦ q.cleared x n₂
      ];
      still_cleared = λ e. q.still_cleared (p.still_cleared e);
      unchanged = λ none_new.
          q.unchanged (λ x n. none_new x (right x n)) ∙ p.unchanged (λ x n. none_new x (left x n));
      seen = λ x. (
        (λ i. elim ((q.seen x).0 i) [
          | inr n ↦ inr (right x n)
          | inl j ↦ elim ((p.seen x).0 j) [ inl k ↦ inl k | inr n ↦ inr (left x n) ]
        ]),
        elim [
          | inl i ↦ (q.seen x).1 (inl ((p.seen x).1 (inl i)))
          | inr n ↦ elim (split x n) [
            | inl n₁ ↦ (q.seen x).1 (inl ((p.seen x).1 (inr n₁)))
            | inr n₂ ↦ (q.seen x).1 (inr n₂)
          ]
        ],
      );
      distinct = λ d. q.distinct (p.distinct d);
      drawn = λ g0 e. q.drawn g0 (p.drawn g0 e);
    }
