-- ===== src/Tools/Ids.antt =====
-- The loop of the tool rdf2ids (RDF2IDs.cpp) over the quads of a file.
use tentris.Base.{
  ℕ, zero, suc, ◌+◌, ◌-◌, ◌%◌, ◌^◌, ◌<◌, ◌≤◌, Bool, true, false, Bool-cases, List, [], ◌∷◌, map,
  length, take, ltb→lt, if◌then◌else◌, ltb, ◌⊎◌, inl, inr, ◌≡◌, refl, sym, ap, ◌∙◌, arith,
}
use tentris.Sparql.Syntax.{TriplePattern}
use tentris.Sparql.Triples.{contains}
use tentris.Tools.Deduplicate.{write_first, branch, not_over, deduplicate}

-- The ids of the nodes of a triple.
abbrev pub IdTriple : Type 0
IdTriple = ℕ × ℕ × ℕ

-- `terminate_at_limit` alone.
abbrev pub unless_over : {A : Type 0} → ℕ → ℕ → List A × Bool → List A × Bool
unless_over limit count written = if ltb limit count then ([], true) else written

unless_over-cases :
    {A : Type 0} (limit count : ℕ) (written : List A × Bool)
    → ((limit < count) × (unless_over limit count written ≡ ([], true)))
      ⊎ ((count ≤ limit) × (unless_over limit count written ≡ written))
unless_over-cases limit count written = elim (Bool-cases (ltb limit count)) [
  | inl e ↦ inl (ltb→lt limit count e, ap (λ b. if b then ([], true) else written) e)
  | inr e ↦ inr (not_over limit count e, ap (λ b. if b then ([], true) else written) e)
]

ltb_zero : (a : ℕ) → ltb a 0 ≡ false
ltb_zero a = ground arith

zero_ltb : (a : ℕ) → ltb 0 (suc a) ≡ true
zero_ltb a = ground arith

ltb-suc : (a b : ℕ) → ltb (suc a) (suc b) ≡ ltb a b
ltb-suc a b = ground arith

module _ (id_triple : TriplePattern → IdTriple) where
  abbrev as_ids : List TriplePattern × Bool → List IdTriple × Bool
  as_ids (written, ended) = (map id_triple written, ended)

  as_ids-branch :
      (known over : Bool) (skipped ended written : List TriplePattern × Bool)
      → branch known over (as_ids skipped) (as_ids ended) (as_ids written)
        ≡ as_ids (branch known over skipped ended written)
  as_ids-branch true over skipped ended written = refl
  as_ids-branch false true skipped ended written = refl
  as_ids-branch false false skipped ended written = refl

  -- The first `n` of the triples, and whether there are more.
  abbrev pub first_ids : ℕ → List TriplePattern → List IdTriple × Bool
  first_ids n ts = (map id_triple (take n ts), ltb n (length ts))

  first_ids-nil : (n : ℕ) → first_ids n [] ≡ ([], false)
  first_ids-nil zero = refl
  first_ids-nil (suc n) = ap (λ b. ([], b)) (ltb_zero (suc n))

  first_ids-none : (t : TriplePattern) (ts : List TriplePattern) → first_ids 0 (t ∷ ts) ≡ ([], true)
  first_ids-none t ts = ap (λ b. ([], b)) (zero_ltb (length ts))

  first_ids-cons :
      (n : ℕ) (t : TriplePattern) (ts : List TriplePattern)
      → first_ids (suc n) (t ∷ ts) ≡ write_first (id_triple t) (first_ids n ts)
  first_ids-cons n t ts =
      ap (λ b. (id_triple t ∷ map id_triple (take n ts), b)) (ltb-suc n (length ts))

-- `id_triple` reads the ids off the handles of rdf4cpp, and `hash` is that of dice-hash. The result is
-- what is written, and whether the limit ends the program.
module _ {E : Type 0} (id_triple : TriplePattern → IdTriple) (hash : IdTriple → ℕ) (limit : ℕ) where
  unfoldable pub write_ids : Bool → List (E ⊎ TriplePattern) → ℕ → List ℕ → List IdTriple × Bool
  write_ids distinct [] count seen = ([], false)
  write_ids distinct (inl error ∷ rest) count seen = write_ids distinct rest count seen
  write_ids true (inr t ∷ rest) count seen =
      let ids = id_triple t in
      let count' = (count + 1) % 2 ^ 64 in
      branch (contains (hash ids) seen) (ltb limit count') (write_ids true rest count seen)
        ([], true) (write_first ids (write_ids true rest count' (hash ids ∷ seen)))
  write_ids false (inr t ∷ rest) count seen =
      let count' = (count + 1) % 2 ^ 64 in
      unless_over limit count' (write_first (id_triple t) (write_ids false rest count' seen))

  distinct_loop :
      (parsed : List (E ⊎ TriplePattern)) (count : ℕ) (seen : List ℕ)
      → write_ids true parsed count seen
        ≡ as_ids id_triple (deduplicate (λ t. hash (id_triple t)) limit parsed count seen)
  unfolding write_ids deduplicate
  distinct_loop [] count seen = refl
  distinct_loop (inl error ∷ rest) count seen = distinct_loop rest count seen
  distinct_loop (inr t ∷ rest) count seen =
      let count' = (count + 1) % 2 ^ 64 in
      let h = hash (id_triple t) in
      ap
        (λ (r : List IdTriple × Bool).
          branch (contains h seen) (ltb limit count') r ([], true)
            (write_first (id_triple t) (write_ids true rest count' (h ∷ seen))))
        (distinct_loop rest count seen)
      ∙ ap
          (λ (r : List IdTriple × Bool).
            branch (contains h seen) (ltb limit count')
              (as_ids id_triple (deduplicate (λ u. hash (id_triple u)) limit rest count seen))
              ([], true) (write_first (id_triple t) r))
          (distinct_loop rest count' (h ∷ seen))
      ∙ as_ids-branch id_triple (contains h seen) (ltb limit count') _ ([], true) _

  -- With --distinct, rdf2ids writes the ids of exactly the triples that deduplicated-nt writes of the file
  -- with the same limit, in their order, and the limit ends both or neither.
  pub write_ids-deduplicate :
      (parsed : List (E ⊎ TriplePattern))
      → let r = deduplicate (λ t. hash (id_triple t)) limit parsed 0 [] in
        write_ids true parsed 0 [] ≡ (map id_triple r.0, r.1)
  write_ids-deduplicate parsed = distinct_loop parsed 0 []

  -- The triples of a file.
  abbrev pub triples_in : List (E ⊎ TriplePattern) → List TriplePattern
  triples_in [] = []
  triples_in (inl error ∷ rest) = triples_in rest
  triples_in (inr t ∷ rest) = t ∷ triples_in rest

  length-triples_in :
      (parsed : List (E ⊎ TriplePattern)) → length (triples_in parsed) ≤ length parsed
  length-triples_in [] = omega arith
  length-triples_in (inl error ∷ rest) = omega (arith, length-triples_in rest)
  length-triples_in (inr t ∷ rest) = omega (arith, length-triples_in rest)

  plain_loop :
      (parsed : List (E ⊎ TriplePattern)) (count : ℕ) (seen : List ℕ)
      → count + length parsed < 2 ^ 64
      → count ≤ limit
      → write_ids false parsed count seen ≡ first_ids id_triple (limit - count) (triples_in parsed)
  unfolding write_ids
  plain_loop [] count seen small low = sym (first_ids-nil id_triple (limit - count))
  plain_loop (inl error ∷ rest) count seen small low = plain_loop rest count seen (omega arith) low
  plain_loop (inr t ∷ rest) count seen small low =
      let count' = (count + 1) % 2 ^ 64 in
      let next : count' ≡ suc count = omega arith in
      elim (unless_over-cases limit count'
        (write_first (id_triple t) (write_ids false rest count' seen))) [
          | inl (over, e) ↦
              let none_left : limit - count ≡ 0 = omega arith in
              e
              ∙ sym (
                  ap (λ n. first_ids id_triple n (t ∷ triples_in rest)) none_left
                  ∙ first_ids-none id_triple t (triples_in rest))
          | inr (under, e) ↦
              let left : limit - count ≡ suc (limit - count') = omega arith in
              e
              ∙ ap (write_first (id_triple t)) (plain_loop rest count' seen (omega arith) under)
              ∙ sym (
                  ap (λ n. first_ids id_triple n (t ∷ triples_in rest)) left
                  ∙ first_ids-cons id_triple (limit - count') t (triples_in rest))
        ]

  -- Without --distinct, rdf2ids writes the ids of the triples of the file up to the limit, in their
  -- order, and the limit ends it exactly if there are more; the file has fewer quads than a `size_t`
  -- counts.
  pub write_ids-first_ids :
      (parsed : List (E ⊎ TriplePattern))
      → length parsed < 2 ^ 64
      → write_ids false parsed 0 [] ≡ first_ids id_triple limit (triples_in parsed)
  write_ids-first_ids parsed small =
      let all : limit - 0 ≡ limit = omega arith in
      plain_loop parsed 0 [] (omega arith) (omega arith)
      ∙ ap (λ n. first_ids id_triple n (triples_in parsed)) all
