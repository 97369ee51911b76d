-- ===== src/Legacy/Conversion.antt =====
-- crates/runvault/src/legacy.rs: about `convert_wide` as a whole.
use rs_runvault.Base.{
  ℕ, Bool, true, false, List, [], ◌∷◌, Option, none, some, Text, ◌≡◌, All, ltb, length,
  if◌then◌else◌,
}
use rs_runvault.Canonical.{Library}
use rs_runvault.Legacy.Gathered.{IsMetric, KeysDiffer}
use rs_runvault.Legacy.Long.{long_key, convert_long, as_table}
use rs_runvault.Legacy.Rows.{LegacyMetric, FileNote, metrics, Axis, axes_from, no_axis, Converted}
use rs_runvault.Legacy.Unique.{
  read_long_rows-IsGathered, read_wide_rows-IsGathered, conclude_long_sound, conclude_wide_sound,
  table_no_metrics,
}
use rs_runvault.Legacy.Wide.{read_wide, long_columns, convert_wide, conclude_wide, read_wide_rows}

module _ (lib : Library) (parse_f64 : Text → Option lib.Float) (file_name stem : Text)
    (header : List Text) where
  open lib use {Float}

  -- What holds of the metrics of a result.
  abbrev MetricsAreSound : Converted Float × List FileNote → Type 0
  MetricsAreSound r =
      (kept : List (LegacyMetric Float)) (notes : List FileNote)
      → r ≡ (metrics kept, notes)
      → KeysDiffer long_key kept × All (IsMetric lib) kept

  if-Sound :
      (b : Bool) (x y : Converted Float × List FileNote)
      → MetricsAreSound x
      → MetricsAreSound y
      → MetricsAreSound (if b then x else y)
  if-Sound true x y h k = h
  if-Sound false x y h k = k

  convert_long-Sound :
      (rows : List (List Text)) (name_column value_column : ℕ) (axes : List Axis)
      → MetricsAreSound
          (convert_long lib parse_f64 file_name stem header rows name_column value_column axes)
  unfolding convert_long
  convert_long-Sound rows name_column value_column axes kept notes e =
      conclude_long_sound lib parse_f64 file_name stem header rows _ kept notes
        (read_long_rows-IsGathered lib parse_f64 file_name stem name_column value_column _ _ rows
          (record { out = []; seen = []; skipped = [] }) (tt, tt, tt))
        e

  read_rows-Sound :
      (rows : List (List Text)) (axis : Option Axis) (before : List FileNote)
      → MetricsAreSound (
          conclude_wide lib parse_f64 file_name stem header rows before (
            read_wide_rows lib parse_f64 file_name stem header rows axis rows
              (record { out = []; seen = []; skipped = [] })))
  read_rows-Sound rows axis before kept notes e =
      conclude_wide_sound lib parse_f64 file_name stem header rows before _ kept notes
        (read_wide_rows-IsGathered lib parse_f64 file_name stem header rows axis rows
          (record { out = []; seen = []; skipped = [] }) (tt, tt, tt))
        e

  read_wide-Sound :
      (rows : List (List Text)) (axes : List Axis)
      → MetricsAreSound (read_wide lib parse_f64 file_name stem header rows axes)
  unfolding read_wide
  read_wide-Sound rows [] =
      if-Sound (ltb 1 (length rows)) (as_table file_name header rows no_axis, []) _
        (λ kept notes e. absurd (table_no_metrics _ kept [] notes e)) (read_rows-Sound rows none [])
  read_wide-Sound rows (axis ∷ axes) = read_rows-Sound rows (some axis) _

  choose-Sound :
      (o : Option (ℕ × ℕ)) (f : ℕ → ℕ → Converted Float × List FileNote)
      (y : Converted Float × List FileNote)
      → ((a b : ℕ) → MetricsAreSound (f a b))
      → MetricsAreSound y
      → MetricsAreSound (elim o [ some (a, b) ↦ f a b | none ↦ y ])
  choose-Sound none f y h k = k
  choose-Sound (some (a, b)) f y h k = h a b

  -- Where a CSV file becomes metrics, no two of them have the name, the step, its unit and the scope in
  -- common, every value is finite, and every name and every scope is a slug. This holds of a file with a
  -- column for each metric and of one that has a row for each.
  pub convert_wide-KeysDiffer :
      (rows : List (List Text)) (kept : List (LegacyMetric Float)) (notes : List FileNote)
      → convert_wide lib parse_f64 file_name stem header rows ≡ (metrics kept, notes)
      → KeysDiffer long_key kept × All (IsMetric lib) kept
  unfolding convert_wide
  convert_wide-KeysDiffer rows kept notes e =
      choose-Sound (long_columns lib parse_f64 file_name stem header) _ _
        (λ name_column value_column.
          convert_long-Sound rows name_column value_column (axes_from 0 header))
        (read_wide-Sound rows (axes_from 0 header)) kept notes e
