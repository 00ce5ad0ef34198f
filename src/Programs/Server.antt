-- ===== src/Programs/Server.antt =====
-- tentris-server (TentrisServer.cpp): `main`. The messages of the log are left out.
use tentris.Base.{
  ℕ, ◌*◌, Bool, Option, none, some, List, [], Result, ok, fail, bad_optional_access, ◌==◌,
  if◌then◌else◌,
}
use tentris.Sparql.Syntax.{Text}
use tentris.NodeStore.Impl.{Ids, new_impl}
use tentris.Endpoint.Requests.{EndpointCfg}
use tentris.Programs.Options.{LogOptions, Sink, log_sinks, storage_path, snapshot_path}
use tentris.Programs.Metall.{MetallOps, node_store_in}

pub record ServerArgs : Type 0 where
  pub help : Bool
  pub version : Bool
  pub storage : Text
  pub timeout : ℕ
  pub threads : ℕ
  pub port : ℕ
  pub log : LogOptions

-- How the program ends, what its HTTP server served until a signal came, and the disk it leaves.
pub record ServerRun (D H : Type 0) : Type 0 where
  pub ended : Result ℕ
  pub served : Option (EndpointCfg × H)
  pub disk : D
  pub sinks : List Sink

unfoldable pub endpoint_cfg : ServerArgs → EndpointCfg
endpoint_cfg args = record {
  port = args.port;
  threads = args.threads;
  opt_timeout_duration = if args.timeout == 0 then none else some (args.timeout * 1000000000);
}

module _ {D M H : Type 0} (metall : MetallOps D M H) (ids : Ids) (current_path : Text) where
  abbrev pub exit_server : List Sink → D → ServerRun D H
  exit_server sinks d = record { ended = ok 0; served = none; disk = d; sinks = sinks }

  -- The message before the start of the HTTP server reads the value of the timeout.
  abbrev pub serve : List Sink → EndpointCfg → Text → H → M × D → ServerRun D H
  serve sinks cfg path tensor (m, d) = elim cfg.opt_timeout_duration [
    | none ↦ record { ended = fail bad_optional_access; served = none; disk = d; sinks = sinks }
    | some duration ↦ record {
      ended = ok 0;
      served = some (cfg, tensor);
      disk = metall.destroy path m d;
      sinks = sinks;
    }
  ]

  -- `exit` does not run the destructor of the manager.
  abbrev pub setup : List Sink → EndpointCfg → Text → M × D → ServerRun D H
  setup sinks cfg path (m, d) =
      let m1 = node_store_in metall (new_impl ids) m in
      elim (metall.find_tensor m1) [
        | none ↦ exit_server sinks d
        | some tensor ↦ serve sinks cfg path tensor (m1, d)
      ]

  -- The storage path from the snapshot.
  abbrev pub reconstruct : Text → M × D → D
  reconstruct path (m, d) = metall.destroy (snapshot_path path) m (metall.snapshot path m d)

  -- `main` of the server after its options are read.
  unfoldable pub server_main : ServerArgs → D → ServerRun D H
  server_main args d =
      let path = storage_path current_path args.storage in
      let sinks = log_sinks args.log in
      let start = λ (d1 : D). setup sinks (endpoint_cfg args) path (metall.open_only path d1) in
      if args.help
      then exit_server [] d
      else if args.version
      then exit_server [] d
      else if metall.consistent path d
      then start d
      else if metall.consistent (snapshot_path path) d
      then start (reconstruct path (metall.open_only (snapshot_path path) d))
      else exit_server sinks d
