-- ===== src/Delete/Tombstones.antt =====
-- crates/runvault/src/delete.rs: the record of a deleted run, and the reading of the file of these
-- records. A line is read and written by serde_json, which enters as a parameter.
use rs_runvault.Base.{
  Bool, true, false, not, ◌||◌, List, [], ◌∷◌, Option, none, some, Text, codes, ◌==◌, nat_eq,
  list_eq,
}
use rs_runvault.Error.{Result, ok, err, spec, unreadable_tombstone, bad_tombstone, ◌>>=◌}
use rs_runvault.Ids.{validate_slug, is_run_uid}
use rs_runvault.Status.{State}
use rs_runvault.Verify.Walk.{get}
use rs_runvault.Verify.Research.{blank}
use rs_runvault.Delete.{valid_run_slug}

pub record Tombstone : Type 0 where
  pub schema_version : Text
  pub run_uid : Text
  pub repo_id : Text
  pub experiment : Text
  pub run_slug : Text
  pub state : State
  pub deleted_at : Text
  pub host : Text
  pub reason : Text
  pub runvault_version : Text

-- `serde_json::from_str` and `serde_json::to_vec` on tombstones.
pub record Lines : Type 0 where
  pub read_line : Text → Option Tombstone
  pub write_line : Tombstone → Text

-- `is_err()`
abbrev pub is_err {ℓ} : {A : Type ℓ} → Result A → Bool
is_err (ok a) = false
is_err (err e) = true

abbrev pub is_some {ℓ} : {A : Type ℓ} → Option A → Bool
is_some none = false
is_some (some a) = true

unfoldable pub malformed : Text → Tombstone → Bool
malformed repo_id item =
    not (item.repo_id == repo_id)
    || not (is_run_uid item.run_uid)
    || is_err (validate_slug (codes "experiment") item.experiment)
    || not (valid_run_slug item.run_slug)
    || blank item.reason

-- `entry(key).or_insert(value)`
unfoldable pub or_insert : Tombstone → List (Text × Tombstone) → List (Text × Tombstone)
or_insert item out = elim (get item.run_uid out) [
  | some _ ↦ out
  | none ↦ (item.run_uid, item) ∷ out
]

module _ (lines : Lines) (repo_id : Text) where
  -- The loop over the lines. `none` is a file that does not exist.
  unfoldable pub read_lines : List Text → List (Text × Tombstone) → Result (List (Text × Tombstone))
  read_lines [] out = ok out
  read_lines (line ∷ rest) out = elim (blank line) [
    | true ↦ read_lines rest out
    | false ↦ elim (lines.read_line line) [
      | none ↦ err (spec unreadable_tombstone)
      | some item ↦ elim (malformed repo_id item) [
        | true ↦ err (spec bad_tombstone)
        | false ↦ read_lines rest (or_insert item out)
      ]
    ]
  ]

  unfoldable pub read : Option (List Text) → Result (List (Text × Tombstone))
  read none = ok []
  read (some text) = read_lines text []

  unfoldable pub contains : Option (List Text) → Text → Result Bool
  contains file run_uid = do m ← read file; ok (is_some (get run_uid m))
