-- ===== src/Verify/Tables.antt =====
-- crates/runvault/src/verify.rs: the checks of the CSV tables of a run.
pub mod Keys
use rs_runvault.Base.{
  ℕ, Bool, true, false, not, ◌||◌, List, [], ◌∷◌, Option, none, some, Text, codes, ◌==◌, nat_eq,
  list_eq, contains, map, if◌then◌else◌, arith, ◌≡◌, ◌≢◌, ◌↔◌, refl, All, ◌≤◌,
}
use rs_runvault.Error.{
  Result, Error, ok, err, verify, uid_column_differs, repeated_key, unknown_target, refuse_if,
  ◌>>=◌, ◌>>◌,
}
use rs_runvault.Meta.{Target}

-- A CSV as it is read: the header, then the rows.
pub record CsvTable : Type 0 where
  pub header : List Text
  pub rows : List (List Text)

-- `header.iter().position(..).and_then(|i| row.get(i)).unwrap_or_default()`: a row may be shorter
-- than the header.
unfoldable pub column : List Text → List Text → Text → Text
column [] row name = []
column (h ∷ header) [] name = []
column (h ∷ header) (field ∷ row) name =
    let rest = column header row name in if h == name then field else rest

check_uid_rows : List Text → List (List Text) → Text → Result (Unit {0})
check_uid_rows header [] uid = ok tt
check_uid_rows header (row ∷ rows) uid = do
  refuse_if (not (column header row (codes "run_uid") == uid)) (verify uid_column_differs)
  check_uid_rows header rows uid

unfoldable pub check_uid_column : CsvTable → Text → Result (Unit {0})
unfolding check_uid_rows
check_uid_column t uid = check_uid_rows t.header t.rows uid

-- The loop of `check_unique`, with the set of the keys seen.
check_unique_loop : List (List Text) → List (List Text) → Result (Unit {0})
check_unique_loop seen [] = ok tt
check_unique_loop seen (key ∷ keys) = do
  refuse_if (contains seen key) (verify repeated_key)
  check_unique_loop (key ∷ seen) keys

unfoldable pub check_unique : List (List Text) → Result (Unit {0})
unfolding check_unique_loop
check_unique keys = check_unique_loop [] keys

-- The primary keys of the rows, by the names of the columns.
unfoldable pub keys_of : List Text → CsvTable → List (List Text)
keys_of names t = map (λ row. map (λ c. column t.header row c) names) t.rows

abbrev pub metric_key : List Text
metric_key = codes "run_uid" ∷ codes "name" ∷ codes "step" ∷ codes "step_unit" ∷ codes "scope" ∷ []

abbrev pub reference_key : List Text
reference_key =
    codes "run_uid"
    ∷ codes "name"
    ∷ codes "step"
    ∷ codes "step_unit"
    ∷ codes "scope"
    ∷ codes "target_id"
    ∷ []

abbrev pub manifest_key : List Text
manifest_key = codes "run_uid" ∷ codes "path" ∷ []

-- `read_csv` of an absent file gives `none`.
unfoldable pub check_table : List Text → Result (Option CsvTable) → Text → Result (Unit {0})
check_table names file uid = do
  table ← file
  elim table [ none ↦ ok tt | some t ↦ do check_uid_column t uid; check_unique (keys_of names t) ]

unfoldable pub check_metrics : Result (Option CsvTable) → Text → Result (Unit {0})
check_metrics file uid = check_table metric_key file uid

unfoldable pub check_manifest : Result (Option CsvTable) → Text → Result (Unit {0})
check_manifest file uid = check_table manifest_key file uid

check_targets : List Text → List Text → List (List Text) → Result (Unit {0})
check_targets known header [] = ok tt
check_targets known header (row ∷ rows) = do
  refuse_if (not (contains known (column header row (codes "target_id")))) (verify unknown_target)
  check_targets known header rows

unfoldable pub check_reference : Result (Option CsvTable) → Text → List Target → Result (Unit {0})
unfolding check_targets
check_reference file uid targets = do
  table ← file
  elim table [
    | none ↦ ok tt
    | some t ↦ do
      check_uid_column t uid
      check_unique (keys_of reference_key t)
      check_targets (map (λ (x : Target). x.target_id) targets) t.header t.rows
  ]
