-- ===== src/Legacy/Long.antt =====
-- crates/runvault/src/legacy.rs: `long_value_column` and `convert_long`.
use rs_runvault.Base.{
  ℕ, Bool, true, false, not, ◌&&◌, List, [], ◌∷◌, ◌++◌, Option, none, some, Text, codes, length,
  get_elem?, ◌==◌, nat_eq, list_eq, option_eq, pair_eq, if◌then◌else◌,
}
use rs_runvault.Canonical.{ℤ, Library}
use rs_runvault.Error.{Result, ok, err}
use rs_runvault.Ids.{validate_slug}
use rs_runvault.Legacy.Rows.{
  i64_eq, parse_i64, LegacyMetric, Why, long_nothing_read, long_key_repeated, Converted, metrics,
  table, FileNote, long_dropped, read_as_long, Axis, index_where, prefixed, sorted_unique,
  name_label, scope_label, Gathering, Progressed, refused, going, and_going, skip, push_new,
}

-- `long_value_column`
unfoldable pub long_value_column : List Text → Text → Option ℕ
long_value_column header name_header =
    elim (index_where (λ h. h == name_header ++ codes "_value") header) [
      | some i ↦ some i
      | none ↦ index_where (λ h. h == codes "value") header
    ]

unfoldable pub axis_apart : ℕ → ℕ → List Axis → Option Axis
axis_apart name_column value_column [] = none
axis_apart name_column value_column (a ∷ axes) =
    let later = axis_apart name_column value_column axes in
    if not (a.index == name_column) && not (a.index == value_column) then some a else later

unfoldable pub long_key :
    {Float : Type 0} → LegacyMetric Float → Text × (Option ℤ × (Option Text × Text))
long_key m = (m.name, (m.step, (m.step_unit, m.scope)))

-- The cell of the scope, unless it is empty or missing.
unfoldable pub scope_of : Option ℕ → List Text → Text
scope_of none row = codes "run"
scope_of (some i) row = elim (get_elem? row i) [
  | none ↦ codes "run"
  | some cell ↦ if cell == [] then codes "run" else cell
]

-- The bytes of "時間軸が整数でない行".
abbrev pub row_without_step : Text
row_without_step =
    0xE6 ∷ 0x99 ∷ 0x82 ∷ 0xE9 ∷ 0x96 ∷ 0x93 ∷ 0xE8 ∷ 0xBB ∷ 0xB8 ∷ 0xE3 ∷ 0x81 ∷ 0x8C ∷ 0xE6 ∷ 0x95
    ∷ 0xB4 ∷ 0xE6 ∷ 0x95 ∷ 0xB0 ∷ 0xE3 ∷ 0x81 ∷ 0xA7 ∷ 0xE3 ∷ 0x81 ∷ 0xAA ∷ 0xE3 ∷ 0x81 ∷ 0x84
    ∷ 0xE8 ∷ 0xA1 ∷ 0x8C ∷ []

abbrev pub is_ok : Result (Unit {0}) → Bool
is_ok (ok _) = true
is_ok (err _) = false

abbrev pub unit_text : Option Axis → Option Text
unit_text none = none
unit_text (some a) = some a.unit

abbrev pub as_table : {Float : Type 0} → Text → List Text → List (List Text) → Why → Converted Float
as_table file_name header rows why =
    table (record { file = file_name; header = header; rows = length rows; reason = why })

-- What the metrics that were read become.
abbrev pub converted :
    {Float : Type 0}
    → Text
    → List Text
    → List (List Text)
    → Why
    → List (LegacyMetric Float)
    → Converted Float
converted file_name header rows why [] = as_table file_name header rows why
converted file_name header rows why (m ∷ ms) = metrics (m ∷ ms)

module _ (lib : Library) (parse_f64 : Text → Option lib.Float) (file_name stem : Text) where
  open lib use {Float, is_finite}

  -- A metric may be kept: a finite value, a name and a scope that are slugs.
  abbrev pub usable : LegacyMetric Float → Bool
  usable m =
      is_finite m.value
      && is_ok (validate_slug name_label m.name)
      && is_ok (validate_slug scope_label m.scope)

  module _ (name_column value_column : ℕ) (axis : Option Axis) (scope_column : Option ℕ) where
    abbrev pub long_metric : List Text → Option ℤ → Text → Float → LegacyMetric Float
    long_metric row step raw_name value = record {
      step = step;
      step_unit = unit_text axis;
      scope = scope_of scope_column row;
      name = prefixed stem raw_name;
      value = value;
      source = file_name;
    }

    unfoldable pub keep_or_skip :
        LegacyMetric Float
        → Text
        → Gathering Float (Text × (Option ℤ × (Option Text × Text)))
        → Progressed (Gathering Float (Text × (Option ℤ × (Option Text × Text))))
    keep_or_skip m raw_name s =
        if not (usable m)
        then skip long_key raw_name s
        else push_new long_key m (long_key_repeated m.name) s

    -- A row whose step is known.
    unfoldable pub read_named :
        List Text
        → Option ℤ
        → Gathering Float (Text × (Option ℤ × (Option Text × Text)))
        → Progressed (Gathering Float (Text × (Option ℤ × (Option Text × Text))))
    read_named row step s = elim (get_elem? row name_column) [
      | none ↦ going s
      | some raw_name ↦ elim (get_elem? row value_column) [
        | none ↦ skip long_key raw_name s
        | some cell ↦ elim (parse_f64 cell) [
          | none ↦ skip long_key raw_name s
          | some value ↦ keep_or_skip (long_metric row step raw_name value) raw_name s
        ]
      ]
    ]

    unfoldable pub read_long_row :
        List Text
        → Gathering Float (Text × (Option ℤ × (Option Text × Text)))
        → Progressed (Gathering Float (Text × (Option ℤ × (Option Text × Text))))
    read_long_row row s = elim axis [
      | none ↦ read_named row none s
      | some a ↦ elim (get_elem? row a.index) [
        | none ↦ skip long_key row_without_step s
        | some cell ↦ elim (parse_i64 cell) [
          | none ↦ skip long_key row_without_step s
          | some step ↦ read_named row (some step) s
        ]
      ]
    ]

    unfoldable pub read_long_rows :
        List (List Text)
        → Gathering Float (Text × (Option ℤ × (Option Text × Text)))
        → Progressed (Gathering Float (Text × (Option ℤ × (Option Text × Text))))
    read_long_rows [] s = going s
    read_long_rows (row ∷ rows) s = and_going (read_long_row row s) (λ t. read_long_rows rows t)

  -- What is returned, and the notes that are added.
  unfoldable pub conclude_long :
      List Text
      → List (List Text)
      → Progressed (Gathering Float (Text × (Option ℤ × (Option Text × Text))))
      → Converted Float × List FileNote
  conclude_long header rows (refused why) = (as_table file_name header rows why, [])
  conclude_long header rows (going s) =
      let note = if s.skipped == [] then read_as_long else long_dropped (sorted_unique s.skipped) in
      (converted file_name header rows long_nothing_read s.out, note ∷ [])

  unfoldable pub convert_long :
      List Text → List (List Text) → ℕ → ℕ → List Axis → Converted Float × List FileNote
  convert_long header rows name_column value_column axes = conclude_long header rows (
      read_long_rows name_column value_column (axis_apart name_column value_column axes)
        (index_where (λ h. h == codes "scope") header) rows
        (record { out = []; seen = []; skipped = [] }))
