-- ===== src/Programs/Options.antt =====
-- What both programs derive from their command line: paths and log sinks.
pub mod Paths
use tentris.Base.{ℕ, Bool, true, false, List, [], ◌∷◌, ◌++◌, ◌==◌, if◌then◌else◌}
use tentris.Sparql.Syntax.{Text}
use tentris.Sparql.Terms.{bytes}

abbrev pub starts_with_slash : Text → Bool
starts_with_slash [] = false
starts_with_slash (c ∷ p) = c == b'/'

-- Whether `path::has_filename` holds: a path that is not empty and does not end in a separator.
abbrev pub has_filename : Text → Bool
has_filename [] = false
has_filename (c ∷ []) = if c == b'/' then false else true
has_filename (c ∷ p) = has_filename p

-- `path::append` of a relative path.
abbrev pub append : Text → Text → Text
append p q = if has_filename p then p ++ (b'/' ∷ q) else p ++ q

-- `fs::absolute`
abbrev pub absolute : (current_path : Text) → Text → Text
absolute current_path p = if starts_with_slash p then p else append current_path p

-- `storage_path` of both programs, and the path of its snapshot.
unfoldable pub storage_path : (current_path : Text) → Text → Text
storage_path current_path storage = append (absolute current_path storage) (bytes "tentris_data")

abbrev pub snapshot_path : Text → Text
snapshot_path path = path ++ bytes "_snapshot"

-- The options on logging. `log_level` is what spdlog makes of the text.
pub record LogOptions : Type 0 where
  pub loglevel : ℕ
  pub logfile : Bool
  pub logstdout : Bool
  pub logfiledir : Text

pub data Sink : Type 0 where
  rotating_file_sink : (path : Text) → (max_size max_files level : ℕ) → Sink
  stdout_color_sink : (level : ℕ) → Sink

unfoldable pub log_sinks : LogOptions → List Sink
log_sinks o =
    (if o.logfile
      then rotating_file_sink (o.logfiledir ++ bytes "/tentris.log") 5242880 10 o.loglevel ∷ []
      else [])
    ++ (if o.logstdout then stdout_color_sink o.loglevel ∷ [] else [])
