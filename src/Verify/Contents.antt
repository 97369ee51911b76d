-- ===== src/Verify/Contents.antt =====
-- crates/runvault/src/verify.rs: the digests that a run directory has recorded of its own files.
-- What the operating system finds under a path, and the digests, are parameters.
pub mod Sealed
pub mod Tests
use rs_runvault.Base.{
  ℕ, Bool, true, false, not, ◌||◌, List, [], ◌∷◌, ◌++◌, Option, none, some, Text, codes, ◌==◌,
  nat_eq, list_eq, contains, length, map, if◌then◌else◌,
}
use rs_runvault.Base.Decimal.{decimal}
use rs_runvault.Error.{
  Result, ok, err, verify, outside_run, missing_file, unknown_algorithm, bytes_differ,
  digest_differs, unrecorded_file, refuse_if, ◌>>=◌, ◌>>◌,
}
use rs_runvault.Pointer.{split}
use rs_runvault.Meta.{Algorithm, blake3, sha256, Lock, Code}
use rs_runvault.Status.{State, finished, failed}
use rs_runvault.Verify.{starts_with}
use rs_runvault.Verify.Tables.{CsvTable, column}

-- The files of a run directory: the bytes of the file at a path, and what the walks of its two
-- recorded directories list.
pub record RunFiles : Type 0 where
  pub content : Text → Option Text
  pub artifacts : Result (List Text)
  pub logs : Result (List Text)

-- `Algorithm::parse`
unfoldable pub parse_algorithm : Text → Option Algorithm
parse_algorithm name =
    if name == codes "blake3"
    then some blake3
    else if name == codes "sha256"
    then some sha256
    else none

unfoldable pub inside_run : Text → Result (Unit {0})
inside_run rel =
    refuse_if (starts_with rel (b'/' ∷ []) || contains (split b'/' rel) (codes ".."))
      (verify outside_run)

module _ (digest_as : Algorithm → Text → Text) where
  module _ (content : Text → Option Text) where
    -- One round of the loop over `code.locks`.
    unfoldable pub check_lock : Lock → Result (Unit {0})
    check_lock lock = do
      inside_run lock.file
      elim (content lock.file) [
        | none ↦ err (verify missing_file)
        | some bytes ↦
            refuse_if (not (digest_as lock.hash.algorithm bytes == lock.hash.value))
              (verify digest_differs)
      ]

    check_each_lock : List Lock → Result (Unit {0})
    check_each_lock [] = ok tt
    check_each_lock (lock ∷ locks) = do check_lock lock; check_each_lock locks

    unfoldable pub check_locks : Option Code → Result (Unit {0})
    unfolding check_each_lock
    check_locks none = ok tt
    check_locks (some code) = check_each_lock code.locks

    -- The bytes of a file beside what its row records of it.
    unfoldable pub compare_file : List Text → List Text → Text → Result (Unit {0})
    compare_file header row bytes = elim (parse_algorithm (column header row (codes "algorithm"))) [
      | none ↦ err (verify unknown_algorithm)
      | some algorithm ↦ do
        refuse_if (not (column header row (codes "bytes") == decimal (length bytes)))
            (verify bytes_differ)
        refuse_if (not (column header row (codes "digest") == digest_as algorithm bytes))
            (verify digest_differs)
    ]

    -- One round of the loop over the rows.
    unfoldable pub check_row : List Text → List Text → Result (Unit {0})
    check_row header row = do
      inside_run (column header row (codes "path"))
      elim (content (column header row (codes "path"))) [
        | none ↦ err (verify missing_file)
        | some bytes ↦ compare_file header row bytes
      ]

    unfoldable pub check_rows : List Text → List (List Text) → Result (Unit {0})
    check_rows header [] = ok tt
    check_rows header (row ∷ rows) = do check_row header row; check_rows header rows

-- The set of the paths that the rows name.
abbrev pub recorded_paths : CsvTable → List Text
recorded_paths t = map (λ row. column t.header row (codes "path")) t.rows

-- `status.json` as it is read, where there is one.
unfoldable pub recorded_as_failed : Option (Result State) → Result Bool
recorded_as_failed none = ok false
recorded_as_failed (some (err e)) = err e
recorded_as_failed (some (ok finished)) = ok false
recorded_as_failed (some (ok failed)) = ok true

check_recorded : List Text → List Text → Result (Unit {0})
check_recorded recorded [] = ok tt
check_recorded recorded (rel ∷ rels) = do
  refuse_if (not (contains recorded rel)) (verify unrecorded_file)
  check_recorded recorded rels

-- The walks of the two directories.
unfoldable pub check_walks : RunFiles → List Text → Result (Unit {0})
unfolding check_recorded
check_walks files recorded = do
  artifacts ← files.artifacts
  check_recorded recorded artifacts
  logs ← files.logs
  check_recorded recorded logs

module _ (digest_as : Algorithm → Text → Text) (files : RunFiles) where
  unfoldable pub check_manifest_contents :
      Result (Option CsvTable) → Option (Result State) → Result (Unit {0})
  check_manifest_contents manifest status = do
    read ← manifest
    elim read [
      | some t ↦ do
        check_rows digest_as files.content t.header t.rows
        check_walks files (recorded_paths t)
      | none ↦ do
        exempt ← recorded_as_failed status
        elim exempt [ true ↦ ok tt | false ↦ check_walks files [] ]
    ]
