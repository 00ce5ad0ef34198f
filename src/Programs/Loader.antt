-- ===== src/Programs/Loader.antt =====
-- tentris-loader (TentrisLoader.cpp): `main`. The messages of the log are left out.
use tentris.Base.{
  ℕ, Bool, Option, none, some, List, [], ◌⊎◌, Result, ok, fail, ◌>>=◌, if◌then◌else◌,
}
use tentris.Sparql.Syntax.{Text, TriplePattern}
use tentris.NodeStore.Impl.{Ids, new_impl}
use tentris.TripleStore.Store.{InserterOps, load_ttl}
use tentris.Programs.Options.{LogOptions, Sink, log_sinks, storage_path, snapshot_path, absolute}
use tentris.Programs.Metall.{MetallOps, node_store_in, context_in, tensor_in}

-- The options that cxxopts has read. A flag says that an option was given.
pub record LoaderArgs : Type 0 where
  pub help : Bool
  pub version : Bool
  pub storage : Text
  pub file : Option Text
  pub bulksize : ℕ
  pub log : LogOptions

-- How the program ends, with the disk it leaves, and what it logged of the file and where. An uncaught
-- exception ends it with its data stores open.
pub record LoaderRun (D E : Type 0) : Type 0 where
  pub ended : Result ℕ
  pub disk : D
  pub sinks : List Sink
  pub warnings : List E

module _ {D M H I E : Type 0} (metall : MetallOps D M H) (ids : Ids) (inserter : InserterOps H I)
    (current_path : Text) where
  abbrev pub exit_loader : D → LoaderRun D E
  exit_loader d = record { ended = ok 0; disk = d; sinks = []; warnings = [] }

  -- The block that loads: `read` is what the parser reads of the file, where it opens.
  unfoldable pub load_block : Option (List (E ⊎ TriplePattern)) → ℕ → M → Result (M × List E)
  load_block read bulksize m =
      let (tensor, m1) =
        tensor_in metall (context_in metall (node_store_in metall (new_impl ids) m)) in
      load_ttl inserter read bulksize tensor >>= λ (loaded, errors).
      ok (metall.write_tensor loaded m1, errors)

  -- The end of that block, and the block that creates the snapshot.
  abbrev pub snapshot_block : LoaderArgs → Text → D → Result (M × List E) → LoaderRun D E
  snapshot_block args path d (fail f) = record {
    ended = fail f;
    disk = d;
    sinks = log_sinks args.log;
    warnings = [];
  }
  snapshot_block args path d (ok (m, errors)) =
      let closed = metall.destroy path m d in
      record {
        ended = ok 0;
        disk =
            metall.snapshot (absolute current_path (snapshot_path path))
              (metall.open_read_only path closed) closed;
        sinks = log_sinks args.log;
        warnings = errors;
      }

  abbrev pub load_at : LoaderArgs → Option (List (E ⊎ TriplePattern)) → Text → M × D → LoaderRun D E
  load_at args read path (m, d) = snapshot_block args path d (load_block read args.bulksize m)

  -- `main` of the loader after its options are read.
  unfoldable pub loader_main :
      LoaderArgs → (Text → Option (List (E ⊎ TriplePattern))) → D → LoaderRun D E
  loader_main args read_file d =
      if args.help then exit_loader d else if args.version then exit_loader d else elim args.file [
        | none ↦ exit_loader d
        | some file ↦
            let path = storage_path current_path args.storage in
            if metall.exists path d
            then exit_loader d
            else load_at args (read_file file) path
                (metall.open_only path (metall.create_only path d))
      ]
