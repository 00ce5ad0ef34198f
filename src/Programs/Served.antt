-- ===== src/Programs/Served.antt =====
-- What tentris-server serves.
use tentris.Base.{
  ℕ, ◌*◌, true, false, Option, none, some, ◌⊎◌, inl, inr, ok, fail, bad_optional_access, ◌==◌,
  if◌then◌else◌, ◌≡◌, ◌≢◌, refl, sym, ap, ◌∙◌, subst, if_pos, if_neg, arith,
}
use tentris.Sparql.Syntax.{Text, Text-discrete}
use tentris.NodeStore.Impl.{Ids, new_impl}
use tentris.Endpoint.Requests.{EndpointCfg}
use tentris.Programs.Options.{storage_path, snapshot_path, log_sinks}
use tentris.Programs.Options.Paths.{snapshot_path-other}
use tentris.Programs.Metall.{MetallOps, MetallLaws, node_store_in}
use tentris.Programs.Stores.{find_tensor-node_store_in}
use tentris.Programs.Server.{
  ServerArgs, ServerRun, endpoint_cfg, exit_server, serve, setup, reconstruct, server_main,
}

==_false : (a b : ℕ) → a ≢ b → (a == b) ≡ false
==_false a b h = ground arith

==_true : (a b : ℕ) → a ≡ b → (a == b) ≡ true
==_true a b h = ground arith

module _ {D M H : Type 0} (metall : MetallOps D M H) (laws : MetallLaws metall) (ids : Ids)
    (current_path : Text) where
  -- The hypertrie is in a consistent data store at the path, or nothing is there and it is in the
  -- snapshot.
  abbrev pub Available : Text → H → D → Type 0
  Available path h d =
      (laws.tensor_at path d ≡ some (some h))
      ⊎ ((laws.tensor_at path d ≡ none)
          × (metall.exists path d ≡ false)
          × (laws.tensor_at (snapshot_path path) d ≡ some (some h)))

  -- The server has served the hypertrie, and leaves it at the path.
  abbrev pub Serves : Text → EndpointCfg → H → ServerRun D H → Type 0
  Serves path cfg h run =
      (run.ended ≡ ok 0)
      × (run.served ≡ some (cfg, h))
      × (laws.tensor_at path run.disk ≡ some (some h))

  abbrev start : ServerArgs → D → ServerRun D H
  start args d =
      let path = storage_path current_path args.storage in
      setup metall ids current_path (log_sinks args.log) (endpoint_cfg args) path
        (metall.open_only path d)

  has_timeout :
      (args : ServerArgs)
      → (args.timeout == 0) ≡ false
      → (endpoint_cfg args).opt_timeout_duration ≡ some (args.timeout * 1000000000)
  unfolding endpoint_cfg
  has_timeout args e = ap (λ b. if b then none else some (args.timeout * 1000000000)) e

  -- The manager of the path, with its node store.
  abbrev manager : ServerArgs → D → M
  manager args d =
      node_store_in metall (new_impl ids)
        (metall.open_only (storage_path current_path args.storage) d).0

  found_at_start :
      (args : ServerArgs) (d : D) (h : H)
      → laws.tensor_at (storage_path current_path args.storage) d ≡ some (some h)
      → metall.find_tensor (manager args d) ≡ some h
  found_at_start args d h stored =
      find_tensor-node_store_in metall laws (new_impl ids) _
      ∙ laws.find_tensor-open_only _ d (some h) stored

  start-found :
      (args : ServerArgs) (d : D) (h : H)
      → let path = storage_path current_path args.storage in
        laws.tensor_at path d ≡ some (some h)
        → start args d
          ≡ serve metall ids current_path
              (log_sinks args.log)
              (endpoint_cfg args)
              path
              h
              (manager args d, (metall.open_only path d).1)
  start-found args d h stored =
      let path = storage_path current_path args.storage in
      let d1 = (metall.open_only path d).1 in
      ap
        (λ (o : Option H). elim o [
          | none ↦ exit_server metall ids current_path (log_sinks args.log) d1
          | some tensor ↦
              serve metall ids current_path (log_sinks args.log) (endpoint_cfg args) path tensor
                (manager args d, d1)
        ])
        (found_at_start args d h stored)

  start-Serves :
      (args : ServerArgs) (d : D) (h : H)
      → (args.timeout == 0) ≡ false
      → let path = storage_path current_path args.storage in
        laws.tensor_at path d ≡ some (some h) → Serves path (endpoint_cfg args) h (start args d)
  start-Serves args d h timed stored =
      let path = storage_path current_path args.storage in
      let sinks = log_sinks args.log in
      let cfg = endpoint_cfg args in
      let (m, d1) = metall.open_only path d in
      let m1 = node_store_in metall (new_impl ids) m in
      let run : ServerRun D H = record {
        ended = ok 0;
        served = some (cfg, h);
        disk = metall.destroy path m1 d1;
        sinks = sinks;
      } in
      let timeout_read : Option ℕ → ServerRun D H = λ o. elim o [
        | none ↦ record {
          ended = fail bad_optional_access;
          served = none;
          disk = d1;
          sinks = sinks;
        }
        | some duration ↦ run
      ] in
      let same : start args d ≡ run =
        start-found args d h stored ∙ ap timeout_read (has_timeout args timed) in
      subst (Serves path cfg h) (sym same) (
        refl,
        refl,
        laws.tensor_at-destroy path path m1 d1
            ∙ if_pos (Text-discrete path path) refl _ _
            ∙ ap some (found_at_start args d h stored),
      )

  no_timeout :
      (args : ServerArgs)
      → (args.timeout == 0) ≡ true
      → (endpoint_cfg args).opt_timeout_duration ≡ none
  unfolding endpoint_cfg
  no_timeout args e = ap (λ b. if b then none else some (args.timeout * 1000000000)) e

  -- The server has served nothing, and leaves the data store at the path unusable.
  abbrev pub Breaks : Text → ServerRun D H → Type 0
  Breaks path run =
      (run.ended ≡ fail bad_optional_access)
      × (run.served ≡ none)
      × (laws.tensor_at path run.disk ≡ none)

  start-Breaks :
      (args : ServerArgs) (d : D) (h : H)
      → (args.timeout == 0) ≡ true
      → let path = storage_path current_path args.storage in
        laws.tensor_at path d ≡ some (some h) → Breaks path (start args d)
  start-Breaks args d h untimed stored =
      let path = storage_path current_path args.storage in
      let sinks = log_sinks args.log in
      let (m, d1) = metall.open_only path d in
      let m1 = node_store_in metall (new_impl ids) m in
      let run : ServerRun D H = record {
        ended = fail bad_optional_access;
        served = none;
        disk = d1;
        sinks = sinks;
      } in
      let timeout_read : Option ℕ → ServerRun D H = λ o. elim o [
        | none ↦ run
        | some duration ↦ record {
          ended = ok 0;
          served = some (endpoint_cfg args, h);
          disk = metall.destroy path m1 d1;
          sinks = sinks;
        }
      ] in
      let same : start args d ≡ run =
        start-found args d h stored ∙ ap timeout_read (no_timeout args untimed) in
      subst (Breaks path) (sym same) (
        refl,
        refl,
        laws.tensor_at-open_only path path d ∙ if_pos (Text-discrete path path) refl _ _,
      )

  reconstruct-stored :
      (path : Text) (d : D) (h : H)
      → metall.exists path d ≡ false
      → laws.tensor_at (snapshot_path path) d ≡ some (some h)
      → laws.tensor_at path
          (reconstruct metall ids current_path path (metall.open_only (snapshot_path path) d))
        ≡ some (some h)
  reconstruct-stored path d h lost kept =
      let (m, d1) = metall.open_only (snapshot_path path) d in
      laws.tensor_at-destroy (snapshot_path path) path m (metall.snapshot path m d1)
      ∙ if_neg (Text-discrete (snapshot_path path) path) (snapshot_path-other path) _ _
      ∙ laws.tensor_at-snapshot path m d1 (
          laws.exists-open_only (snapshot_path path) path d
            (laws.exists-some (snapshot_path path) d (some h) kept)
          ∙ lost)
      ∙ ap some (laws.find_tensor-open_only (snapshot_path path) d (some h) kept)

  -- What holds of every start on a data store with the hypertrie holds of a run.
  server_main-start :
      (args : ServerArgs) (d : D) (h : H) (P : ServerRun D H → Type 0)
      → args.help ≡ false
      → args.version ≡ false
      → let path = storage_path current_path args.storage in
        ((d1 : D) → laws.tensor_at path d1 ≡ some (some h) → P (start args d1))
        → Available path h d
        → P (server_main metall ids current_path args d)
  unfolding server_main
  server_main-start args d h P help version each (inl stored) =
      let path = storage_path current_path args.storage in
      let consistent = laws.consistent-some path d (some h) stored in
      let same : server_main metall ids current_path args d ≡ start args d =
        simp (help, version, consistent) in
      subst P (sym same) (each d stored)
  server_main-start args d h P help version each (inr (lost, nothing, kept)) =
      let path = storage_path current_path args.storage in
      let inconsistent = laws.consistent-none path d lost in
      let found = laws.consistent-some (snapshot_path path) d (some h) kept in
      let d1 = reconstruct metall ids current_path path (metall.open_only (snapshot_path path) d) in
      let same : server_main metall ids current_path args d ≡ start args d1 =
        simp (help, version, inconsistent, found) in
      subst P (sym same) (each d1 (reconstruct-stored path d h nothing kept))

  -- A server with a timeout serves the hypertrie of the data store, or where that is lost of its
  -- snapshot, until it is shut down, and leaves the hypertrie in the data store.
  pub server_main-Serves :
      (args : ServerArgs) (d : D) (h : H)
      → args.help ≡ false
      → args.version ≡ false
      → args.timeout ≢ 0
      → let path = storage_path current_path args.storage in
        Available path h d
        → Serves path (endpoint_cfg args) h (server_main metall ids current_path args d)
  server_main-Serves args d h help version timed available =
      server_main-start args d h
        (Serves (storage_path current_path args.storage) (endpoint_cfg args) h) help version
        (λ d1 stored. start-Serves args d1 h (==_false _ _ timed) stored) available

  -- A server with the timeout 0, for none, ends in an exception before it serves the hypertrie that it has
  -- found, and leaves the data store unusable.
  pub server_main-Breaks :
      (args : ServerArgs) (d : D) (h : H)
      → args.help ≡ false
      → args.version ≡ false
      → args.timeout ≡ 0
      → let path = storage_path current_path args.storage in
        Available path h d → Breaks path (server_main metall ids current_path args d)
  server_main-Breaks args d h help version untimed available =
      server_main-start args d h (Breaks (storage_path current_path args.storage)) help version
        (λ d1 stored. start-Breaks args d1 h (==_true _ _ untimed) stored) available

  -- With neither a data store nor a snapshot nothing is served and nothing changes.
  pub server_main-unavailable :
      (args : ServerArgs) (d : D)
      → let path = storage_path current_path args.storage in
        laws.tensor_at path d ≡ none
        → laws.tensor_at (snapshot_path path) d ≡ none
        → let run = server_main metall ids current_path args d in
          (run.served ≡ none) × (run.disk ≡ d)
  unfolding server_main
  server_main-unavailable args d no_store no_snapshot =
      let path = storage_path current_path args.storage in
      let inconsistent = laws.consistent-none path d no_store in
      let none_found = laws.consistent-none (snapshot_path path) d no_snapshot in
      simp (inconsistent, none_found) (ground arith)
