-- ===== src/TripleStore/Store/Loading.antt =====
-- What `load_ttl` loads.
use tentris.Base.{ℕ, some, List, [], ◌∷◌, ◌++◌, ok, ◌⊎◌, inl, inr, ◌↔◌, In, ◌≡◌, sym, ap, ◌∙◌}
use mathlib.Core.List.{append-nil, append_assoc}
use tentris.Sparql.Syntax.{Node, TriplePattern}
use tentris.TripleStore.Hypertrie.{HypertrieOps}
use tentris.TripleStore.Store.{InserterOps, load_loop, load_ttl}

-- What hypertrie documents of the inserter: `Pending` are the entries of the hypertrie and of the
-- buffer together.
pub record InserterLaws {H I : Type 0} (ops : HypertrieOps H) (inserter : InserterOps H I)
    : Type 1 where
  pub Pending : I → List Node → Type 0
  pub start-Pending :
      (h : H) (bulk_size : ℕ) (k : List Node)
      → Pending (inserter.start h bulk_size) k ↔ In k (ops.entries h)
  pub add-Pending :
      (i : I) (k j : List Node) → Pending (inserter.add k i) j ↔ (Pending i j ⊎ (j ≡ k))
  pub finish-Pending :
      (i : I) (k : List Node) → In k (ops.entries (inserter.finish i)) ↔ Pending i k

module _ {E : Type 0} where
  -- The triples of a file, and its errors.
  abbrev pub triples_of : List (E ⊎ TriplePattern) → List (List Node)
  triples_of [] = []
  triples_of (inl e ∷ rest) = triples_of rest
  triples_of (inr t ∷ rest) = (t.subject ∷ t.predicate ∷ t.object ∷ []) ∷ triples_of rest

  abbrev pub errors_of : List (E ⊎ TriplePattern) → List E
  errors_of [] = []
  errors_of (inl e ∷ rest) = e ∷ errors_of rest
  errors_of (inr t ∷ rest) = errors_of rest

  module _ {H I : Type 0} (ops : HypertrieOps H) (inserter : InserterOps H I)
      (laws : InserterLaws ops inserter) where
    load_loop-errors :
        (parsed : List (E ⊎ TriplePattern)) (i : I) (errors : List E)
        → (load_loop inserter parsed i errors).1 ≡ errors ++ errors_of parsed
    unfolding load_loop
    load_loop-errors [] i errors = sym (append-nil errors)
    load_loop-errors (inl e ∷ rest) i errors =
        load_loop-errors rest i (errors ++ e ∷ []) ∙ append_assoc errors (e ∷ []) (errors_of rest)
    load_loop-errors (inr t ∷ rest) i errors = load_loop-errors rest _ errors

    load_loop-Pending :
        (parsed : List (E ⊎ TriplePattern)) (i : I) (errors : List E) (k : List Node)
        → laws.Pending (load_loop inserter parsed i errors).0 k
          ↔ (laws.Pending i k ⊎ In k (triples_of parsed))
    unfolding load_loop
    load_loop-Pending [] i errors k = ((λ p. inl p), elim [ inl p ↦ p | inr m ↦ absurd (m tt) ])
    load_loop-Pending (inl e ∷ rest) i errors k = load_loop-Pending rest i _ k
    load_loop-Pending (inr t ∷ rest) i errors k =
        let step = laws.add-Pending i (t.subject ∷ t.predicate ∷ t.object ∷ []) k in
        let later =
          load_loop-Pending rest (inserter.add (t.subject ∷ t.predicate ∷ t.object ∷ []) i) errors
            k in
        (
          (λ p. elim (later.0 p) [
            | inl q ↦ elim (step.0 q) [ inl r ↦ inl r | inr e ↦ inr (inl e) ]
            | inr m ↦ inr (inr m)
          ]),
          (λ x. later.1 (elim x [
            | inl q ↦ inl (step.1 (inl q))
            | inr m ↦ elim m [ inl e ↦ inl (step.1 (inr e)) | inr m' ↦ inr m' ]
          ])),
        )

    -- Loading a file that opens returns a hypertrie with the entries of the old one and the triples of
    -- the file and no others, and calls the error callback with the errors of the file in order.
    pub load_ttl-In :
        (parsed : List (E ⊎ TriplePattern)) (bulk_size : ℕ) (h : H)
        → (h' : H) × (load_ttl inserter (some parsed) bulk_size h ≡ ok (h', errors_of parsed))
          × ((k : List Node)
              → In k (ops.entries h') ↔ (In k (ops.entries h) ⊎ In k (triples_of parsed)))
    unfolding load_ttl
    load_ttl-In parsed bulk_size h =
        let i = inserter.start h bulk_size in
        let i' = (load_loop inserter parsed i []).0 in
        (
          inserter.finish i',
          ap (λ es. ok (inserter.finish i', es)) (load_loop-errors parsed i []),
          (λ k.
              let end = laws.finish-Pending i' k in
              let loop = load_loop-Pending parsed i [] k in
              let begin = laws.start-Pending h bulk_size k in
              (
                (λ m. elim (loop.0 (end.0 m)) [ inl p ↦ inl (begin.0 p) | inr q ↦ inr q ]),
                (λ x. end.1 (loop.1 (elim x [ inl m ↦ inl (begin.1 m) | inr q ↦ inr q ]))),
              )),
        )
