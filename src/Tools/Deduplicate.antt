-- ===== src/Tools/Deduplicate.antt =====
-- The loop of the tool deduplicated-nt over the quads of a file: `deduplication` holds hashes.
use tentris.Base.{
  ℕ, suc, ◌+◌, ◌%◌, ◌^◌, ◌<◌, ◌≤◌, Bool, true, false, Bool-cases, List, [], ◌∷◌, map, length, In,
  NoDuplicates, if◌then◌else◌, ltb, ◌⊎◌, inl, inr, ◌≡◌, ◌≢◌, refl, sym, ap, ◌∙◌, arith, subst,
}
use tentris.Sparql.Syntax.{TriplePattern}
use tentris.Sparql.Triples.{contains}

abbrev pub write_first : {A : Type 0} → A → List A × Bool → List A × Bool
write_first t (written, ended) = (t ∷ written, ended)

-- `terminate_at_limit` and the test before it, with what each leads to.
abbrev pub branch : {A : Type 0} → (known over : Bool) → A → A → A → A
branch known over skipped ended written =
    if known then skipped else (if over then ended else written)

pub branch-cases :
    {A : Type 0} (known over : Bool) (skipped ended written : A)
    → ((known ≡ true) × (branch known over skipped ended written ≡ skipped))
      ⊎ (((known ≡ false) × (over ≡ true) × (branch known over skipped ended written ≡ ended))
          ⊎ ((known ≡ false)
              × (over ≡ false)
              × (branch known over skipped ended written ≡ written)))
branch-cases true over skipped ended written = inl (refl, refl)
branch-cases false true skipped ended written = inr (inl (refl, refl, refl))
branch-cases false false skipped ended written = inr (inr (refl, refl, refl))

contains-cons :
    (h k : ℕ) (ks : List ℕ) → contains h (k ∷ ks) ≡ false → (h ≢ k) × (contains h ks ≡ false)
contains-cons h k ks e = ground arith

cons-contains :
    (h k : ℕ) (ks : List ℕ) → contains h (k ∷ ks) ≡ true → (h ≡ k) ⊎ (contains h ks ≡ true)
cons-contains h k ks e = ground arith

over_limit :
    (limit count next : ℕ)
    → next ≡ suc count
    → ltb limit next ≡ true
    → count ≤ limit
    → count + 0 ≡ limit
over_limit limit count next e over low = ground arith

pub not_over : (a b : ℕ) → ltb a b ≡ false → b ≤ a
not_over a b e = ground arith

-- `hash` is that of the ids of the three nodes (packages rdf4cpp and dice-hash). The result is what is
-- written, and whether the limit ends the program.
module _ {E : Type 0} (hash : TriplePattern → ℕ) (limit : ℕ) where
  unfoldable pub deduplicate : List (E ⊎ TriplePattern) → ℕ → List ℕ → List TriplePattern × Bool
  deduplicate [] count seen = ([], false)
  deduplicate (inl error ∷ rest) count seen = deduplicate rest count seen
  deduplicate (inr t ∷ rest) count seen =
      let count' = (count + 1) % 2 ^ 64 in
      branch (contains (hash t) seen) (ltb limit count') (deduplicate rest count seen) ([], true)
        (write_first t (deduplicate rest count' (hash t ∷ seen)))

  -- What is written: no hash twice and none seen before, only triples of the file, at most as many as
  -- the limit leaves, and a triple for each hash unless the limit is reached and one is left over.
  pub record IsDeduplicated (parsed : List (E ⊎ TriplePattern)) (count : ℕ) (seen : List ℕ)
      (r : List TriplePattern × Bool) : Type 0 where
    pub distinct : NoDuplicates (map hash r.0)
    pub unseen : (h : ℕ) → In h (map hash r.0) → contains h seen ≡ false
    pub from_file : (t : TriplePattern) → In t r.0 → In (inr t) parsed
    pub within : count + length r.0 ≤ limit
    pub complete :
        r.1 ≡ false
        → (t : TriplePattern) → In (inr t) parsed
        → (contains (hash t) seen ≡ true) ⊎ In (hash t) (map hash r.0)
    pub at_limit :
        r.1 ≡ true
        → (count + length r.0 ≡ limit)
          × ((t : TriplePattern) × In (inr t) parsed
              × (contains (hash t) seen ≡ false)
              × (In (hash t) (map hash r.0) → ⊥))

  skip-IsDeduplicated :
      (t : TriplePattern) (parsed : List (E ⊎ TriplePattern)) (count : ℕ) (seen : List ℕ)
      (r : List TriplePattern × Bool)
      → contains (hash t) seen ≡ true
      → IsDeduplicated parsed count seen r
      → IsDeduplicated (inr t ∷ parsed) count seen r
  skip-IsDeduplicated t parsed count seen r e h = record {
    distinct = h.distinct;
    unseen = h.unseen;
    from_file = λ u m. inr (h.from_file u m);
    within = h.within;
    complete = λ f u m. elim m [
      | inl q ↦ inl (ap (λ k. contains k seen) (ap hash (cc q)) ∙ e)
      | inr m' ↦ h.complete f u m'
    ];
    at_limit = λ f. let (n, (u, m, c, i)) = h.at_limit f in (n, (u, inr m, c, i));
  }

  write-IsDeduplicated :
      (t : TriplePattern) (parsed : List (E ⊎ TriplePattern)) (count : ℕ) (seen : List ℕ)
      (r : List TriplePattern × Bool)
      → contains (hash t) seen ≡ false
      → IsDeduplicated parsed (suc count) (hash t ∷ seen) r
      → IsDeduplicated (inr t ∷ parsed) count seen (write_first t r)
  write-IsDeduplicated t parsed count seen r e h = record {
    distinct =
        ((λ m. (contains-cons (hash t) (hash t) seen (h.unseen (hash t) m)).0 refl), h.distinct);
    unseen = λ k m. elim m [
      | inl q ↦ ap (λ j. contains j seen) q ∙ e
      | inr m' ↦ (contains-cons k (hash t) seen (h.unseen k m')).1
    ];
    from_file = λ u m. elim m [ inl q ↦ inl (ap inr q) | inr m' ↦ inr (h.from_file u m') ];
    within = omega (arith, h.within);
    complete = λ f u m. elim m [
      | inl q ↦ inr (inl (ap hash (cc q)))
      | inr m' ↦ elim (h.complete f u m') [
        | inl c ↦ elim (cons-contains (hash u) (hash t) seen c) [
          | inl q ↦ inr (inl q)
          | inr c' ↦ inl c'
        ]
        | inr i ↦ inr (inr i)
      ]
    ];
    at_limit = λ f.
        let (n, (u, m, c, i)) = h.at_limit f in
        let (differs, c') = contains-cons (hash u) (hash t) seen c in
        (omega (arith, n), (u, inr m, c', elim [ inl q ↦ differs q | inr i' ↦ i i' ]));
  }

  deduplicate-IsDeduplicated :
      (parsed : List (E ⊎ TriplePattern)) (count : ℕ) (seen : List ℕ)
      → count + length parsed < 2 ^ 64
      → count ≤ limit
      → IsDeduplicated parsed count seen (deduplicate parsed count seen)
  unfolding deduplicate
  deduplicate-IsDeduplicated [] count seen small low = record {
    distinct = tt;
    unseen = λ h m. absurd (m tt);
    from_file = λ t m. absurd (m tt);
    within = omega arith;
    complete = λ f t m. absurd (m tt);
    at_limit = λ f. cc f;
  }
  deduplicate-IsDeduplicated (inl error ∷ rest) count seen small low =
      let h = deduplicate-IsDeduplicated rest count seen (omega arith) low in
      record {
        distinct = h.distinct;
        unseen = h.unseen;
        from_file = λ t m. inr (h.from_file t m);
        within = h.within;
        complete = λ f t m. elim m [ inl q ↦ absurd (cc q) | inr m' ↦ h.complete f t m' ];
        at_limit = λ f. let (n, (u, m, c, i)) = h.at_limit f in (n, (u, inr m, c, i));
      }
  deduplicate-IsDeduplicated (inr t ∷ rest) count seen small low =
      let count' = (count + 1) % 2 ^ 64 in
      let next : count' ≡ suc count = omega arith in
      elim (branch-cases (contains (hash t) seen) (ltb limit count') (deduplicate rest count seen)
        ([], true) (write_first t (deduplicate rest count' (hash t ∷ seen)))) [
          | inl (known, e) ↦ subst (IsDeduplicated (inr t ∷ rest) count seen) (sym e) (
              skip-IsDeduplicated t rest count seen _ known
                (deduplicate-IsDeduplicated rest count seen (omega arith) low))
          | inr (inl (new, over, e)) ↦
              subst (IsDeduplicated (inr t ∷ rest) count seen) (sym e) (record {
                distinct = tt;
                unseen = λ h m. absurd (m tt);
                from_file = λ u m. absurd (m tt);
                within = omega arith;
                complete = λ f u m. cc f;
                at_limit = λ f.
                    (over_limit limit count count' next over low, (t, inl refl, new, λ m. m tt));
              })
          | inr (inr (new, under, e)) ↦
              let fits = not_over limit count' under in
              subst (IsDeduplicated (inr t ∷ rest) count seen) (sym e) (
                write-IsDeduplicated t rest count seen _ new (
                  subst
                    (λ c.
                      IsDeduplicated rest c (hash t ∷ seen)
                        (deduplicate rest count' (hash t ∷ seen)))
                    next
                    (deduplicate-IsDeduplicated rest count' (hash t ∷ seen) (omega arith) fits)))
        ]

  -- What the tool writes of a file with fewer quads than a `size_t` counts has no hash twice, stands in
  -- the file and has at most as many triples as the limit. Either it has a triple with the hash of each
  -- triple of the file, or the limit has ended the program: then it has as many triples as the limit,
  -- and there is a triple in the file whose hash it does not have.
  pub deduplicate_correct :
      (parsed : List (E ⊎ TriplePattern))
      → length parsed < 2 ^ 64
      → let r = deduplicate parsed 0 [] in
        NoDuplicates (map hash r.0)
        × (length r.0 ≤ limit)
        × ((t : TriplePattern) → In t r.0 → In (inr t) parsed)
        × (((r.1 ≡ false) × ((t : TriplePattern) → In (inr t) parsed → In (hash t) (map hash r.0)))
            ⊎ ((r.1 ≡ true)
                × (length r.0 ≡ limit)
                × ((t : TriplePattern) × In (inr t) parsed × (In (hash t) (map hash r.0) → ⊥))))
  deduplicate_correct parsed small =
      let h = deduplicate-IsDeduplicated parsed 0 [] (omega arith) (omega arith) in
      (
        h.distinct,
        omega (arith, h.within),
        h.from_file,
        elim (Bool-cases (deduplicate parsed 0 []).1) [
          | inl e ↦ let (n, (t, m, c, i)) = h.at_limit e in inr (e, omega (arith, n), (t, m, i))
          | inr e ↦ inl (e, λ t m. elim (h.complete e t m) [ inl c ↦ absurd (cc c) | inr i ↦ i ])
        ],
      )
