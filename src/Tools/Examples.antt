-- ===== src/Tools/Examples.antt =====
-- The tool on a file that repeats a triple, and each theorem at a concrete input.
use tentris.Base.{
  ℕ, false, some, refl, true, List, [], ◌∷◌, map, length, In, NoDuplicates, ◌≤◌, ◌⊎◌, inl, inr, ◌≡◌,
  arith,
}
use tentris.Sparql.Syntax.{TriplePattern, iri, null_node}
use tentris.Tools.Ids.{IdTriple, write_ids, first_ids, triples_in, write_ids-first_ids}
use tentris.Tools.Main.{
  ToolArgs, deduplicated_nt_main, rdf2ids_main, with_ids, rdf2ids_main-distinct,
}
use tentris.Tools.Deduplicate.{deduplicate, deduplicate_correct}

abbrev triple : ℕ → TriplePattern
triple n = record { subject = iri (n ∷ []); predicate = null_node; object = null_node }

abbrev hash : TriplePattern → ℕ
hash t = elim t.subject [ iri (n ∷ _) ↦ n | _ ↦ 0 ]

abbrev file : List (ℕ ⊎ TriplePattern)
file = inr (triple 7) ∷ inl 1 ∷ inr (triple 7) ∷ inr (triple 8) ∷ []

deduplicate_correct_example :
    NoDuplicates (map hash (deduplicate hash 1 file 0 []).0)
    × (length (deduplicate hash 1 file 0 []).0 ≤ 1)
    × ((t : TriplePattern) → In t (deduplicate hash 1 file 0 []).0 → In (inr t) file)
    × ((((deduplicate hash 1 file 0 []).1 ≡ false)
          × ((t : TriplePattern)
              → In (inr t) file
              → In (hash t) (map hash (deduplicate hash 1 file 0 []).0)))
        ⊎ (((deduplicate hash 1 file 0 []).1 ≡ true)
            × (length (deduplicate hash 1 file 0 []).0 ≡ 1)
            × ((t : TriplePattern) × In (inr t) file
                × (In (hash t) (map hash (deduplicate hash 1 file 0 []).0) → ⊥))))
deduplicate_correct_example = deduplicate_correct hash 1 file (omega arith)

abbrev id_triple : TriplePattern → IdTriple
id_triple t = (hash t, 0, 0)

abbrev hash_ids : IdTriple → ℕ
hash_ids ids = ids.0

write_ids-first_ids_example :
    write_ids id_triple hash_ids 2 false file 0 []
    ≡ first_ids id_triple 2 (triples_in id_triple hash_ids 2 file)
write_ids-first_ids_example = write_ids-first_ids id_triple hash_ids 2 file (omega arith)

abbrev args : ToolArgs
args = record { help = false; version = false; file = 102 ∷ []; limit = 5; distinct = true }

rdf2ids_main-distinct_example :
    rdf2ids_main id_triple hash_ids (λ path. some file) args
    ≡ with_ids id_triple hash_ids
        (λ path. some file)
        (deduplicated_nt_main id_triple hash_ids (λ path. some file) args)
rdf2ids_main-distinct_example =
    rdf2ids_main-distinct id_triple hash_ids (λ path. some file) args refl
