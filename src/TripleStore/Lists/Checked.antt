-- ===== src/TripleStore/Lists/Checked.antt =====
-- What `is_rdf_list` tests of the triples.
use tentris.Base.{
  NoDuplicates, ℕ, Bool, true, false, not, none, some, List, [], ◌∷◌, Bool-cases, inl, inr, ◌⊎◌,
  ◌↔◌, length, In, ◌≡◌, ◌≢◌, refl, sym, ap, ◌∙◌, subst, arith, if◌then◌else◌, ite, ◌==◌,
}
use tentris.Sparql.Syntax.{Node}
use tentris.TripleStore.Hypertrie.{Node-discrete, HypertrieOps, HypertrieLaws}
use tentris.TripleStore.Lists.{rdf_nil, rdf_first, rdf_rest, is_rdf_list}

length-one :
    {A : Type 0} (xs : List A)
    → NoDuplicates xs
    → length xs ≡ 1
    → (x : A) × In x xs × ((y : A) → In y xs → y ≡ x)
length-one [] d e = absurd (omega (arith, e))
length-one (x ∷ []) d e = (x, inl refl, λ y. elim [ inl q ↦ q | inr q ↦ absurd (q tt) ])
length-one (x ∷ y ∷ xs) d e = absurd (omega (arith, e))

pub one-list :
    {A : Type 0} (xs : List A) (x : A)
    → NoDuplicates xs
    → In x xs
    → ((y : A) → In y xs → y ≡ x)
    → xs ≡ x ∷ []
one-list [] x d m only = absurd (m tt)
one-list (y ∷ []) x d m only = ap (λ z. z ∷ []) (only y (inl refl))
one-list (y ∷ z ∷ xs) x (d, _) m only =
    absurd (d (inl (only y (inl refl) ∙ sym (only z (inr (inl refl))))))

pub singleton : (k : List Node) → length k ≡ 1 → (o : Node) × (k ≡ o ∷ [])
singleton [] e = absurd (omega (arith, e))
singleton (o ∷ []) e = (o, refl)
singleton (o ∷ p ∷ k) e = absurd (omega (arith, e))

In-length : {A : Type 0} (x : A) (xs : List A) → In x xs → length xs ≢ 0
In-length x [] m e = m tt
In-length x (y ∷ xs) m e = omega (arith, e)

-- The tests of `is_rdf_list`.
tests_iff :
    {P : Type 0} (d : Dec P) (b : Bool) (m n : ℕ)
    → (ite d true (
          if b
          then false
          else (if not (m == 1) then false else (if not (n == 1) then false else true)))
        ≡ true)
      ↔ (P ⊎ ((b ≡ false) × (m ≡ 1) × (n ≡ 1)))
tests_iff d b m n = ground arith

module _ {H : Type 0} (ops : HypertrieOps H) where
  abbrev pub HasTriple : H → Node → Node → Node → Type 0
  HasTriple h s p o = In (s ∷ p ∷ o ∷ []) (ops.entries h)

  -- Exactly one object.
  abbrev pub ExactlyOne : H → Node → Node → Type 0
  ExactlyOne h s p = (o : Node) × HasTriple h s p o × ((o' : Node) → HasTriple h s p o' → o' ≡ o)

  module _ (laws : HypertrieLaws ops) where
    abbrev of_subject : Node → H → H
    of_subject s h = ops.slice (some s ∷ none ∷ none ∷ []) h

    abbrev objects : Node → Node → H → H
    objects s p h = ops.slice (some p ∷ none ∷ []) (of_subject s h)

    object-HasTriple :
        (h : H) (s p o : Node) → In (o ∷ []) (ops.entries (objects s p h)) ↔ HasTriple h s p o
    object-HasTriple h s p o =
        let outer = laws.entries-slice (some p ∷ none ∷ []) (of_subject s h) (o ∷ []) in
        let inner = laws.entries-slice (some s ∷ none ∷ none ∷ []) h (p ∷ o ∷ []) in
        ((λ m. (inner.0 (outer.0 m).1).1), (λ m. outer.1 (refl, inner.1 (refl, m))))

    size-ExactlyOne : (h : H) (s p : Node) → ops.size (objects s p h) ≡ 1 → ExactlyOne h s p
    size-ExactlyOne h s p e =
        let (k, m, only) =
          length-one _ (laws.entries-NoDuplicates (objects s p h))
            (sym (laws.size-entries _) ∙ e) in
        let (o, q) =
          singleton k ((laws.entries-slice (some p ∷ none ∷ []) (of_subject s h) k).0 m).0 in
        (
          o,
          (object-HasTriple h s p o).0 (subst (λ x. In x (ops.entries (objects s p h))) q m),
          λ o' m'. cc (only (o' ∷ []) ((object-HasTriple h s p o').1 m'), q),
        )

    ExactlyOne-size : (h : H) (s p : Node) → ExactlyOne h s p → ops.size (objects s p h) ≡ 1
    ExactlyOne-size h s p (o, m, only) =
        laws.size-entries _
        ∙ ap length (
            one-list _ (o ∷ []) (laws.entries-NoDuplicates (objects s p h))
              ((object-HasTriple h s p o).1 m)
              (λ k m'.
                let (o', q) =
                  singleton k
                    ((laws.entries-slice (some p ∷ none ∷ []) (of_subject s h) k).0 m').0 in
                q
                ∙ ap (λ x. x ∷ [])
                    (only o' (
                      (object-HasTriple h s p o').0
                        (subst (λ x. In x (ops.entries (objects s p h))) q m')))))

    nonempty : (h : H) (s p : Node) → ExactlyOne h s p → ops.empty (of_subject s h) ≡ false
    nonempty h s p (o, m, only) = elim (Bool-cases (ops.empty (of_subject s h))) [
      | inr e ↦ e
      | inl e ↦ absurd (
          In-length (p ∷ o ∷ []) _
            ((laws.entries-slice (some s ∷ none ∷ none ∷ []) h (p ∷ o ∷ [])).1 (refl, m))
            (sym (laws.size-entries _) ∙ (laws.empty-size _).0 e))
    ]

    -- A node is an RDF list if and only if it is `rdf:nil` or has exactly one `rdf:first` and exactly
    -- one `rdf:rest`.
    pub is_rdf_list_iff :
        (list : Node) (h : H)
        → (is_rdf_list ops list h ≡ true)
          ↔ ((list ≡ rdf_nil) ⊎ (ExactlyOne h list rdf_first × ExactlyOne h list rdf_rest))
    unfolding is_rdf_list
    is_rdf_list_iff list h =
        let tests =
          tests_iff (Node-discrete list rdf_nil) (ops.empty (of_subject list h))
            (ops.size (objects list rdf_first h)) (ops.size (objects list rdf_rest h)) in
        (
          (λ e. elim (tests.0 e) [
            | inl q ↦ inl q
            | inr (b, m, n) ↦
                inr (size-ExactlyOne h list rdf_first m, size-ExactlyOne h list rdf_rest n)
          ]),
          (λ x. tests.1 (elim x [
            | inl q ↦ inl q
            | inr (f, r) ↦ inr (
              nonempty h list rdf_first f,
              ExactlyOne-size h list rdf_first f,
              ExactlyOne-size h list rdf_rest r,
            )
          ])),
        )
