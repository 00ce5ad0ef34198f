-- ===== src/Programs/Options/Paths.antt =====
-- The paths of both programs: absolute, and different from those of their snapshots.
use tentris.Base.{
  Bool, true, false, [], ◌∷◌, ◌++◌, length, length-append, if◌then◌else◌, ◌≡◌, ◌≢◌, ap, ◌∙◌,
  Bool-cases, inl, inr, arith,
}
use tentris.Sparql.Syntax.{Text}
use tentris.Sparql.Terms.{bytes}
use tentris.Programs.Options.{
  starts_with_slash, append, absolute, storage_path, snapshot_path, has_filename,
}

starts_with_slash-concat :
    (p q : Text) → starts_with_slash p ≡ true → starts_with_slash (p ++ q) ≡ true
starts_with_slash-concat [] q e = cc
starts_with_slash-concat (c ∷ p) q e = e

append-starts_with_slash :
    (p q : Text) → starts_with_slash p ≡ true → starts_with_slash (append p q) ≡ true
append-starts_with_slash p q e = by_name (has_filename p)
  where
    by_name : (b : Bool) → starts_with_slash (if b then p ++ (b'/' ∷ q) else p ++ q) ≡ true
    by_name true = starts_with_slash-concat p (b'/' ∷ q) e
    by_name false = starts_with_slash-concat p q e

module _ (current_path : Text) (rooted : starts_with_slash current_path ≡ true) where
  absolute-starts_with_slash : (p : Text) → starts_with_slash (absolute current_path p) ≡ true
  absolute-starts_with_slash p = elim (Bool-cases (starts_with_slash p)) [
    | inl e ↦ ap (λ b. starts_with_slash (if b then p else append current_path p)) e ∙ e
    | inr e ↦
        ap (λ b. starts_with_slash (if b then p else append current_path p)) e
        ∙ append-starts_with_slash current_path p rooted
  ]

  -- The path of the snapshot is absolute already.
  pub absolute-snapshot_path :
      (storage : Text)
      → let path = snapshot_path (storage_path current_path storage) in
        absolute current_path path ≡ path
  unfolding storage_path
  absolute-snapshot_path storage =
      let stored = append (absolute current_path storage) (bytes "tentris_data") in
      let path = snapshot_path stored in
      ap (λ b. if b then path else append current_path path)
        (starts_with_slash-concat stored (bytes "_snapshot") (
          append-starts_with_slash (absolute current_path storage) (bytes "tentris_data")
            (absolute-starts_with_slash storage)))

pub snapshot_path-other : (p : Text) → snapshot_path p ≢ p
snapshot_path-other p e = omega (arith, ap length e, length-append p (bytes "_snapshot"))
