-- ===== src/Programs/Handover.antt =====
-- tentris-loader and then tentris-server on one storage path.
use tentris.Base.{
  true, false, Option, none, some, List, [], ◌⊎◌, inl, inr, ok, fail, runtime_error, ◌≡◌, ◌≢◌, sym,
  ap, ◌∙◌, subst,
}
use tentris.Sparql.Syntax.{Text, TriplePattern}
use tentris.NodeStore.Impl.{Ids}
use tentris.TripleStore.Hypertrie.{HypertrieOps}
use tentris.TripleStore.Store.{InserterOps}
use tentris.TripleStore.Store.Loading.{InserterLaws}
use tentris.Programs.Options.{starts_with_slash, storage_path, snapshot_path}
use tentris.Programs.Metall.{MetallOps, MetallLaws}
use tentris.Programs.Stores.{Survives, opened, opened-unavailable}
use tentris.Programs.Loader.{LoaderArgs, loader_main}
use tentris.Programs.Server.{ServerArgs, endpoint_cfg, server_main}
use tentris.Programs.Loaded.{
  Holds, loader_main-Stored, loader_main-existing, loader_main-unreadable,
}
use tentris.Programs.Served.{Available, Serves, server_main-Serves, server_main-unavailable}

module _ {D M H I E : Type 0} (metall : MetallOps D M H) (laws : MetallLaws metall) (ids : Ids)
    (ops : HypertrieOps H) (inserter : InserterOps H I) (inserter_laws : InserterLaws ops inserter)
    (empty : ops.entries metall.new_tensor ≡ []) (current_path : Text)
    (rooted : starts_with_slash current_path ≡ true) where
  -- The loader on a file that opens, at a storage path with nothing there and no snapshot, ends well. A
  -- server with a timeout that then starts on the storage path, also if the data store has been lost and
  -- the snapshot not, serves a hypertrie with exactly the triples of the file, and leaves it in the data
  -- store.
  pub loader_main-server_main :
      (args : LoaderArgs) (read_file : Text → Option (List (E ⊎ TriplePattern))) (d d' : D)
      (file : Text) (read : List (E ⊎ TriplePattern)) (later : ServerArgs)
      → args.help ≡ false
      → args.version ≡ false
      → args.file ≡ some file
      → read_file file ≡ some read
      → metall.exists (storage_path current_path args.storage) d ≡ false
      → metall.exists (snapshot_path (storage_path current_path args.storage)) d ≡ false
      → later.help ≡ false
      → later.version ≡ false
      → later.timeout ≢ 0
      → later.storage ≡ args.storage
      → let run = loader_main metall ids inserter current_path args read_file d in
        Survives metall laws (storage_path current_path args.storage) run.disk d'
        → (run.ended ≡ ok 0)
          × (h : H) × Holds metall laws ids ops inserter inserter_laws empty current_path rooted
              read h
          × Serves metall laws ids current_path
              (storage_path current_path later.storage)
              (endpoint_cfg later)
              h
              (server_main metall ids current_path later d')
  loader_main-server_main args read_file d d' file read later help version given opens fresh
        no_snapshot later_help later_version timed same survives =
      let (h, holds, (at_path, at_snapshot), ended, warned) =
        loader_main-Stored metall laws ids ops inserter inserter_laws empty current_path rooted args
          read_file d file read help version given opens fresh no_snapshot in
      let path = storage_path current_path args.storage in
      let available : Available metall laws ids current_path path h d' = elim survives [
        | inl kept ↦ inl (kept ∙ at_path)
        | inr (lost, nothing, kept) ↦ inr (lost, nothing, kept ∙ at_snapshot)
      ] in
      (
        ended,
        h,
        holds,
        server_main-Serves metall laws ids current_path later d' h later_help later_version timed (
            subst (λ s. Available metall laws ids current_path (storage_path current_path s) h d')
              (sym same) available),
      )

  -- The loader on a file that does not open, at a storage path with nothing there and no snapshot, ends in
  -- an exception. From then on it changes nothing at that storage path, also with a file that opens, and
  -- a server there serves nothing and changes nothing.
  pub loader_main-blocked :
      (args again : LoaderArgs) (read_file later_file : Text → Option (List (E ⊎ TriplePattern)))
      (d : D) (file : Text) (later : ServerArgs)
      → args.help ≡ false
      → args.version ≡ false
      → args.file ≡ some file
      → read_file file ≡ none
      → metall.exists (storage_path current_path args.storage) d ≡ false
      → metall.exists (snapshot_path (storage_path current_path args.storage)) d ≡ false
      → again.storage ≡ args.storage
      → later.storage ≡ args.storage
      → let run = loader_main metall ids inserter current_path args read_file d in
        (run.ended ≡ fail (runtime_error "unable to open provided file "))
        × ((loader_main metall ids inserter current_path again later_file run.disk).disk ≡ run.disk)
        × ((server_main metall ids current_path later run.disk).served ≡ none)
        × ((server_main metall ids current_path later run.disk).disk ≡ run.disk)
  loader_main-blocked args again read_file later_file d file later help version given unread fresh
        no_snapshot again_same later_same =
      let path = storage_path current_path args.storage in
      let (ended, disk) =
        loader_main-unreadable metall laws ids ops inserter inserter_laws empty current_path rooted
          args read_file d file help version given unread fresh in
      let (there, no_store, no_data) = opened-unavailable metall laws path d fresh no_snapshot in
      let left = (opened metall laws path d).1 in
      let path_of = storage_path current_path in
      let unserved =
        server_main-unavailable metall laws ids current_path later left
          (ap (λ s. laws.tensor_at (path_of s) left) later_same ∙ no_store)
          (ap (λ s. laws.tensor_at (snapshot_path (path_of s)) left) later_same ∙ no_data) in
      let untouched =
        loader_main-existing metall laws ids ops inserter inserter_laws empty current_path rooted
          again later_file left (ap (λ s. metall.exists (path_of s) left) again_same ∙ there) in
      (
        ended,
        subst
            (λ (x : D). (loader_main metall ids inserter current_path again later_file x).disk ≡ x)
            (sym disk) untouched,
        subst (λ (x : D). (server_main metall ids current_path later x).served ≡ none) (sym disk)
            unserved.0,
        subst (λ (x : D). (server_main metall ids current_path later x).disk ≡ x) (sym disk)
            unserved.1,
      )
