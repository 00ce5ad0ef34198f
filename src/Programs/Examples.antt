-- ===== src/Programs/Examples.antt =====
-- Both programs on a small disk, and each theorem at a concrete input.
use tentris.Base.{
  ℕ, true, false, none, some, List, [], ◌∷◌, ◌⊎◌, inl, inr, ok, fail, runtime_error, ◌≡◌, refl,
  arith,
}
use tentris.Sparql.Syntax.{Text, TriplePattern, iri, null_node}
use tentris.Sparql.Terms.{bytes}
use tentris.NodeStore.Examples.{ids}
use tentris.TripleStore.Instance.{Entries, ops, inserter, inserter_laws}
use tentris.Programs.Options.{LogOptions, storage_path}
use tentris.Programs.Disk.{Disk, metall, metall-laws, tensor_at-closed}
use tentris.Programs.Loader.{LoaderArgs, LoaderRun, loader_main}
use tentris.Programs.Server.{ServerArgs, endpoint_cfg, server_main}
use tentris.Programs.Loaded.{Holds}
use tentris.Programs.Served.{Serves, Breaks, server_main-Breaks}
use tentris.Programs.Handover.{loader_main-server_main, loader_main-blocked}

abbrev no_triples : Entries
no_triples = ([], tt)

abbrev empty_disk : Disk Entries
empty_disk path = none

abbrev home : Text
home = bytes "/h"

abbrev log : LogOptions
log = record { loglevel = 2; logfile = true; logstdout = false; logfiledir = home }

abbrev load : LoaderArgs
load = record {
  help = false;
  version = false;
  storage = bytes "db";
  file = some (bytes "f.nt");
  bulksize = 1000000;
  log = log;
}

abbrev start : ℕ → ServerArgs
start timeout = record {
  help = false;
  version = false;
  storage = bytes "db";
  timeout = timeout;
  threads = 4;
  port = 9080;
  log = log;
}

abbrev triples : List (Text ⊎ TriplePattern)
triples =
    inl (bytes "error")
    ∷ inr (record { subject = iri (bytes "a"); predicate = iri (bytes "b"); object = null_node })
    ∷ []

abbrev path : Text
path = storage_path home (bytes "db")

path_of_storage : path ≡ bytes "/h/db/tentris_data"
unfolding storage_path
path_of_storage = refl

abbrev loaded : LoaderRun (Disk Entries) Text
loaded = loader_main (metall no_triples) ids inserter home load (λ file. some triples) empty_disk

loader_main-server_main_example :
    (loaded.ended ≡ ok 0)
    × (h : Entries) × Holds
        (metall no_triples)
        (metall-laws no_triples)
        ids
        ops
        inserter
        inserter_laws
        refl
        home
        refl
        triples
        h
    × Serves
        (metall no_triples)
        (metall-laws no_triples)
        ids
        home
        path
        (endpoint_cfg (start 180))
        h
        (server_main (metall no_triples) ids home (start 180) loaded.disk)
loader_main-server_main_example =
    loader_main-server_main (metall no_triples) (metall-laws no_triples) ids ops inserter
      inserter_laws refl home refl load (λ file. some triples) empty_disk loaded.disk (bytes "f.nt")
      triples (start 180) refl refl refl refl refl refl refl refl (omega arith) refl (inl refl)

abbrev blocked : LoaderRun (Disk Entries) Text
blocked = loader_main (metall no_triples) ids inserter home load (λ file. none) empty_disk

loader_main-blocked_example :
    (blocked.ended ≡ fail (runtime_error "unable to open provided file "))
    × ((loader_main
          (metall no_triples)
          ids
          inserter
          home
          load
          (λ file. some triples)
          blocked.disk).disk
        ≡ blocked.disk)
    × ((server_main (metall no_triples) ids home (start 180) blocked.disk).served ≡ none)
    × ((server_main (metall no_triples) ids home (start 180) blocked.disk).disk ≡ blocked.disk)
loader_main-blocked_example =
    loader_main-blocked (metall no_triples) (metall-laws no_triples) ids ops inserter inserter_laws
      refl home refl load load (λ file. none) (λ file. some triples) empty_disk (bytes "f.nt")
      (start 180) refl refl refl refl refl refl refl refl

-- A data store with the hypertrie of no triples.
abbrev stored : Disk Entries
stored p = some (some (record { node_store = none; context = true; tensor = some no_triples }))

server_main-Breaks_example :
    Breaks
      (metall no_triples)
      (metall-laws no_triples)
      ids
      home
      path
      (server_main (metall no_triples) ids home (start 0) stored)
server_main-Breaks_example =
    server_main-Breaks (metall no_triples) (metall-laws no_triples) ids home (start 0) stored
      no_triples refl refl refl (inl (tensor_at-closed no_triples path stored _ refl))
