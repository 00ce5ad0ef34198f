-- ===== src/Programs/Loaded.antt =====
-- What tentris-loader leaves on the disk.
use tentris.Base.{
  ℕ, true, false, Option, none, some, List, [], In, ◌⊎◌, inl, inr, ◌↔◌, Result, ok, fail,
  runtime_error, ◌>>=◌, ◌≡◌, sym, ap, ◌∙◌, subst, arith,
}
use tentris.Sparql.Syntax.{Text, Node, TriplePattern}
use tentris.NodeStore.Impl.{Ids, new_impl}
use tentris.TripleStore.Hypertrie.{HypertrieOps}
use tentris.TripleStore.Store.{InserterOps, load_ttl}
use tentris.TripleStore.Store.Loading.{InserterLaws, triples_of, errors_of, load_ttl-In}
use tentris.Programs.Options.{starts_with_slash, storage_path, snapshot_path}
use tentris.Programs.Options.Paths.{absolute-snapshot_path}
use tentris.Programs.Metall.{MetallOps, MetallLaws, node_store_in, context_in}
use tentris.Programs.Stores.{
  find_tensor-node_store_in, find_tensor-context_in, tensor_in-new, Stored, snapshot-Stored, opened,
  opened-fresh,
}
use tentris.Programs.Loader.{
  LoaderArgs, LoaderRun, load_block, snapshot_block, load_at, loader_main,
}

module _ {D M H I E : Type 0} (metall : MetallOps D M H) (laws : MetallLaws metall) (ids : Ids)
    (ops : HypertrieOps H) (inserter : InserterOps H I) (inserter_laws : InserterLaws ops inserter)
    (empty : ops.entries metall.new_tensor ≡ []) (current_path : Text)
    (rooted : starts_with_slash current_path ≡ true) where
  -- A hypertrie with the triples that were read, and no others.
  abbrev pub Holds : List (E ⊎ TriplePattern) → H → Type 0
  Holds read h = (k : List Node) → In k (ops.entries h) ↔ In k (triples_of read)

  -- The block that loads, on a data store with no hypertrie.
  load_block-new :
      (read : List (E ⊎ TriplePattern)) (bulksize : ℕ) (m : M)
      → metall.find_tensor m ≡ none
      → (h : H) × (m' : M) × Holds read h
        × (metall.find_tensor m' ≡ some h)
        × (load_block metall ids inserter current_path (some read) bulksize m
            ≡ ok (m', errors_of read))
  unfolding load_block
  load_block-new read bulksize m e =
      let m0 = context_in metall (node_store_in metall (new_impl ids) m) in
      let m1 = metall.write_tensor metall.new_tensor m0 in
      let (h, loaded, entries) =
        load_ttl-In ops inserter inserter_laws read bulksize metall.new_tensor in
      (
        h,
        metall.write_tensor h m1,
        (λ k. (
          (λ i. elim ((entries k).0 i) [
            | inl old ↦ absurd (subst (In k) empty old tt)
            | inr new ↦ new
          ]),
          (λ new. (entries k).1 (inr new)),
        )),
        laws.find_tensor-write_tensor h m1,
        ap
              (λ ((t, m2) : H × M).
                load_ttl inserter (some read) bulksize t >>= λ ((l, errors) : H × List E).
                ok (metall.write_tensor l m2, errors))
              (tensor_in-new metall laws m0 (
                find_tensor-context_in metall laws _
                ∙ find_tensor-node_store_in metall laws (new_impl ids) m
                ∙ e))
            ∙ ap
                (λ (r : Result (H × List E)).
                  r >>= λ ((l, errors) : H × List E). ok (metall.write_tensor l m1, errors))
                loaded,
      )

  loader_main-load_at :
      (args : LoaderArgs) (read_file : Text → Option (List (E ⊎ TriplePattern))) (d : D)
      (file : Text)
      → args.help ≡ false
      → args.version ≡ false
      → args.file ≡ some file
      → metall.exists (storage_path current_path args.storage) d ≡ false
      → loader_main metall ids inserter current_path args read_file d
        ≡ load_at metall ids inserter current_path args
            (read_file file)
            (storage_path current_path args.storage)
            (opened metall laws (storage_path current_path args.storage) d)
  unfolding loader_main
  loader_main-load_at args read_file d file help version given fresh =
      simp (help, version, given, fresh)

  -- The loader, on a file that opens and a path with nothing at it or at the path of its snapshot.
  pub loader_main-Stored :
      (args : LoaderArgs) (read_file : Text → Option (List (E ⊎ TriplePattern))) (d : D)
      (file : Text) (read : List (E ⊎ TriplePattern))
      → args.help ≡ false
      → args.version ≡ false
      → args.file ≡ some file
      → read_file file ≡ some read
      → let path = storage_path current_path args.storage in
        metall.exists path d ≡ false
        → metall.exists (snapshot_path path) d ≡ false
        → let run = loader_main metall ids inserter current_path args read_file d in
          (h : H) × Holds read h
          × Stored metall laws path h run.disk
          × (run.ended ≡ ok 0)
          × (run.warnings ≡ errors_of read)
  loader_main-Stored args read_file d file read help version given opens fresh no_snapshot =
      let path = storage_path current_path args.storage in
      let (m, d2) = opened metall laws path d in
      let (no_tensor, made, still) = opened-fresh metall laws path d fresh no_snapshot in
      let (h, m', holds, found, loaded) = load_block-new read args.bulksize m no_tensor in
      let run : LoaderRun D E =
        snapshot_block metall ids inserter current_path args path d2 (ok (m', errors_of read)) in
      let same : loader_main metall ids inserter current_path args read_file d ≡ run =
        loader_main-load_at args read_file d file help version given fresh
        ∙ ap
            (λ r.
              snapshot_block metall ids inserter current_path args path d2
                (load_block metall ids inserter current_path r args.bulksize m))
            opens
        ∙ ap (snapshot_block metall ids inserter current_path args path d2) loaded in
      (
        h,
        holds,
        subst (λ (r : LoaderRun D E). Stored metall laws path h r.disk) (sym same)
            (snapshot-Stored metall laws path _ d2 m' h
              (absolute-snapshot_path current_path rooted args.storage) made still found),
        ap (λ (r : LoaderRun D E). r.ended) same,
        ap (λ (r : LoaderRun D E). r.warnings) same,
      )

  -- A path that exists is left alone, whatever the other options are.
  pub loader_main-existing :
      (args : LoaderArgs) (read_file : Text → Option (List (E ⊎ TriplePattern))) (d : D)
      → metall.exists (storage_path current_path args.storage) d ≡ true
      → (loader_main metall ids inserter current_path args read_file d).disk ≡ d
  unfolding loader_main
  loader_main-existing args read_file d there = ground (arith, there)

  -- A file that does not open: the data store has been created, and stays open.
  pub loader_main-unreadable :
      (args : LoaderArgs) (read_file : Text → Option (List (E ⊎ TriplePattern))) (d : D)
      (file : Text)
      → args.help ≡ false
      → args.version ≡ false
      → args.file ≡ some file
      → read_file file ≡ none
      → let path = storage_path current_path args.storage in
        metall.exists path d ≡ false
        → let run = loader_main metall ids inserter current_path args read_file d in
          (run.ended ≡ fail (runtime_error "unable to open provided file "))
          × (run.disk ≡ (opened metall laws path d).1)
  unfolding load_block load_ttl
  loader_main-unreadable args read_file d file help version given unread fresh =
      let path = storage_path current_path args.storage in
      let (m, d2) = opened metall laws path d in
      let same =
        loader_main-load_at args read_file d file help version given fresh
        ∙ ap
            (λ r.
              snapshot_block metall ids inserter current_path args path d2
                (load_block metall ids inserter current_path r args.bulksize m))
            unread in
      (ap (λ (r : LoaderRun D E). r.ended) same, ap (λ (r : LoaderRun D E). r.disk) same)
