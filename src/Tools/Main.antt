-- ===== src/Tools/Main.antt =====
-- `main` of both tools after their options are read, without the messages of the log and the errors of
-- the parser, which go to the standard error.
use tentris.Base.{
  ℕ, Bool, true, false, Option, none, some, List, [], map, ◌⊎◌, Result, ok, fail, runtime_error,
  if◌then◌else◌, ◌≡◌, refl, ap, ◌∙◌,
}
use tentris.Sparql.Syntax.{Text, TriplePattern}
use tentris.Tools.Deduplicate.{deduplicate}
use tentris.Tools.Ids.{IdTriple, write_ids, write_ids-deduplicate}

-- `distinct` is an option of rdf2ids alone.
pub record ToolArgs : Type 0 where
  pub help : Bool
  pub version : Bool
  pub file : Text
  pub limit : ℕ
  pub distinct : Bool

-- How a tool ends, and what it has written.
pub record ToolRun (A : Type 0) : Type 0 where
  pub ended : Result ℕ
  pub written : List A

abbrev pub nothing_written : {A : Type 0} → Result ℕ → ToolRun A
nothing_written r = record { ended = r; written = [] }

-- Both at the end of the file and at the limit the program exits with EXIT_SUCCESS.
abbrev pub read_quads :
    {A E : Type 0}
    → (List (E ⊎ TriplePattern) → List A × Bool)
    → Option (List (E ⊎ TriplePattern))
    → ToolRun A
read_quads loop none = nothing_written (fail (runtime_error "unable to open provided file "))
read_quads loop (some parsed) = record { ended = ok 0; written = (loop parsed).0 }

module _ {E : Type 0} (id_triple : TriplePattern → IdTriple) (hash : IdTriple → ℕ)
    (read_file : Text → Option (List (E ⊎ TriplePattern))) where
  unfoldable pub deduplicated_nt_main : ToolArgs → ToolRun TriplePattern
  deduplicated_nt_main args =
      if args.help
      then nothing_written (ok 0)
      else if args.version
      then nothing_written (ok 0)
      else read_quads (λ parsed. deduplicate (λ t. hash (id_triple t)) args.limit parsed 0 [])
          (read_file args.file)

  unfoldable pub rdf2ids_main : ToolArgs → ToolRun IdTriple
  rdf2ids_main args =
      if args.help
      then nothing_written (ok 0)
      else if args.version
      then nothing_written (ok 0)
      else read_quads (λ parsed. write_ids id_triple hash args.limit args.distinct parsed 0 [])
          (read_file args.file)

  abbrev pub with_ids : ToolRun TriplePattern → ToolRun IdTriple
  with_ids run = record { ended = run.ended; written = map id_triple run.written }

  read_quads-with_ids :
      (limit : ℕ) (read : Option (List (E ⊎ TriplePattern)))
      → read_quads (λ parsed. write_ids id_triple hash limit true parsed 0 []) read
        ≡ with_ids
            (read_quads (λ parsed. deduplicate (λ t. hash (id_triple t)) limit parsed 0 []) read)
  read_quads-with_ids limit none = refl
  read_quads-with_ids limit (some parsed) =
      ap
        (λ (r : List IdTriple × Bool).
          read_quads (λ (p : List (E ⊎ TriplePattern)). r) (some parsed))
        (write_ids-deduplicate id_triple hash limit parsed)

  chosen-with_ids :
      (help version : Bool) (r : ToolRun IdTriple) (s : ToolRun TriplePattern)
      → r ≡ with_ids s
      → (if help then nothing_written (ok 0) else if version then nothing_written (ok 0) else r)
        ≡ with_ids
            (if help then nothing_written (ok 0) else if version then nothing_written (ok 0) else s)
  chosen-with_ids true version r s e = refl
  chosen-with_ids false true r s e = refl
  chosen-with_ids false false r s e = e

  -- With --distinct, rdf2ids ends as deduplicated-nt does with the same options on the same file, and
  -- writes the ids of exactly the triples that it writes, in their order.
  pub rdf2ids_main-distinct :
      (args : ToolArgs)
      → args.distinct ≡ true
      → rdf2ids_main args ≡ with_ids (deduplicated_nt_main args)
  unfolding rdf2ids_main deduplicated_nt_main
  rdf2ids_main-distinct args distinct =
      ap
        (λ b.
          if args.help
          then nothing_written (ok 0)
          else if args.version
          then nothing_written (ok 0)
          else read_quads (λ parsed. write_ids id_triple hash args.limit b parsed 0 [])
              (read_file args.file))
        distinct
      ∙ chosen-with_ids args.help args.version _ _
          (read_quads-with_ids args.limit (read_file args.file))
