-- ===== src/Legacy/Wide.antt =====
-- crates/runvault/src/legacy.rs: `convert_wide`, of a CSV file that has been read.
use rs_runvault.Base.{
  ℕ, suc, Bool, true, false, not, List, [], ◌∷◌, ◌++◌, Option, none, some, Text, codes, length,
  get_elem?, ltb, contains, ◌==◌, nat_eq, list_eq, option_eq, pair_eq, if◌then◌else◌,
}
use rs_runvault.Canonical.{ℤ, Library}
use rs_runvault.Ids.{validate_slug}
use rs_runvault.Legacy.Long.{is_ok, unit_text, as_table, converted, long_value_column, convert_long}
use rs_runvault.Legacy.Rows.{
  i64_eq, parse_i64, LegacyMetric, no_axis, nothing_read, key_repeated, Converted, FileNote,
  many_axes, unit_unregistered, unit_renamed, not_converted, Axis, unregistered_units,
  long_name_columns, axes_from, index_where, prefixed, sorted_unique, name_label, Gathering,
  Progressed, refused, going, and_going, skip, push_new,
}

unfoldable pub wide_key : {Float : Type 0} → LegacyMetric Float → Text × (Option ℤ × Option Text)
wide_key m = (m.name, (m.step, m.step_unit))

-- The bytes of ": 時間軸が整数ではありません".
abbrev pub step_not_integer : Text
step_not_integer =
    0x3A ∷ 0x20 ∷ 0xE6 ∷ 0x99 ∷ 0x82 ∷ 0xE9 ∷ 0x96 ∷ 0x93 ∷ 0xE8 ∷ 0xBB ∷ 0xB8 ∷ 0xE3 ∷ 0x81 ∷ 0x8C
    ∷ 0xE6 ∷ 0x95 ∷ 0xB4 ∷ 0xE6 ∷ 0x95 ∷ 0xB0 ∷ 0xE3 ∷ 0x81 ∷ 0xA7 ∷ 0xE3 ∷ 0x81 ∷ 0xAF ∷ 0xE3
    ∷ 0x81 ∷ 0x82 ∷ 0xE3 ∷ 0x82 ∷ 0x8A ∷ 0xE3 ∷ 0x81 ∷ 0xBE ∷ 0xE3 ∷ 0x81 ∷ 0x9B ∷ 0xE3 ∷ 0x82
    ∷ 0x93 ∷ []

abbrev pub value_at : Text → List (Text × Text) → Option Text
value_at step [] = none
value_at step ((s, value) ∷ by_step) =
    let later = value_at step by_step in if s == step then some value else later

-- The loop over the rows of one column: `by_step` is the map, whose last insertion stands first.
unfoldable pub varies : ℕ → ℕ → List (List Text) → List (Text × Text) → Bool
varies axis i [] by_step = false
varies axis i (row ∷ rows) by_step = elim (get_elem? row axis) [
  | none ↦ varies axis i rows by_step
  | some step ↦ elim (get_elem? row i) [
    | none ↦ varies axis i rows by_step
    | some value ↦
        let later = varies axis i rows ((step, value) ∷ by_step) in
        elim (value_at step by_step) [
          | none ↦ later
          | some previous ↦ if previous == value then later else true
        ]
  ]
]

unfoldable pub candidates_from : ℕ → List (List Text) → ℕ → List Text → List Text → List Text
candidates_from axis rows i [] out = out
candidates_from axis rows i (column ∷ columns) out =
    let more = if varies axis i rows [] then out ++ column ∷ [] else out in
    if i == axis
    then candidates_from axis rows (suc i) columns out
    else if length more == 3
    then more
    else candidates_from axis rows (suc i) columns more

unfoldable pub series_key_candidates : List Text → List (List Text) → Option Axis → List Text
series_key_candidates header rows none = []
series_key_candidates header rows (some axis) = candidates_from axis.index rows 0 header []

abbrev pub is_axis_index : Option Axis → ℕ → Bool
is_axis_index none i = false
is_axis_index (some a) i = a.index == i

unfoldable pub axis_notes : List Axis → List FileNote
axis_notes [] = []
axis_notes (a ∷ axes) =
    let first =
      if ltb 1 (length (a ∷ axes)) then many_axes (length (a ∷ axes)) a.column ∷ [] else [] in
    if contains unregistered_units a.unit
    then first ++ unit_unregistered a.column a.unit ∷ []
    else if not (a.column == a.unit)
    then first ++ unit_renamed a.column a.unit ∷ []
    else first

abbrev pub first_axis : List Axis → Option Axis
first_axis [] = none
first_axis (a ∷ axes) = some a

module _ (lib : Library) (parse_f64 : Text → Option lib.Float) (file_name stem : Text)
    (header : List Text) where
  open lib use {Float, is_finite}

  module _ (rows : List (List Text)) (axis : Option Axis) where
    abbrev pub wide_metric : Option ℤ → Text → Float → LegacyMetric Float
    wide_metric step column value = record {
      step = step;
      step_unit = unit_text axis;
      scope = codes "run";
      name = prefixed stem column;
      value = value;
      source = file_name;
    }

    -- One round of the inner loop, behind the test for the axis.
    unfoldable pub read_cell :
        List Text
        → Option ℤ
        → ℕ
        → Text
        → Gathering Float (Text × (Option ℤ × Option Text))
        → Progressed (Gathering Float (Text × (Option ℤ × Option Text)))
    read_cell row step i column s = elim (get_elem? row i) [
      | none ↦ going s
      | some field ↦ elim (parse_f64 field) [
        | none ↦ skip wide_key column s
        | some value ↦
            if not (is_finite value)
            then skip wide_key column s
            else if not (is_ok (validate_slug name_label (prefixed stem column)))
            then skip wide_key column s
            else push_new wide_key (wide_metric step column value)
                (key_repeated (prefixed stem column) step (series_key_candidates header rows axis))
                s
      ]
    ]

    unfoldable pub read_cells :
        List Text
        → Option ℤ
        → ℕ
        → List Text
        → Gathering Float (Text × (Option ℤ × Option Text))
        → Progressed (Gathering Float (Text × (Option ℤ × Option Text)))
    read_cells row step i [] s = going s
    read_cells row step i (column ∷ columns) s =
        if is_axis_index axis i
        then read_cells row step (suc i) columns s
        else and_going (read_cell row step i column s) (λ t. read_cells row step (suc i) columns t)

    unfoldable pub read_wide_row :
        List Text
        → Gathering Float (Text × (Option ℤ × Option Text))
        → Progressed (Gathering Float (Text × (Option ℤ × Option Text)))
    read_wide_row row s = elim axis [
      | none ↦ read_cells row none 0 header s
      | some a ↦ elim (get_elem? row a.index) [
        | none ↦ skip wide_key (file_name ++ step_not_integer) s
        | some cell ↦ elim (parse_i64 cell) [
          | none ↦ skip wide_key (file_name ++ step_not_integer) s
          | some step ↦ read_cells row (some step) 0 header s
        ]
      ]
    ]

    unfoldable pub read_wide_rows :
        List (List Text)
        → Gathering Float (Text × (Option ℤ × Option Text))
        → Progressed (Gathering Float (Text × (Option ℤ × Option Text)))
    read_wide_rows [] s = going s
    read_wide_rows (row ∷ left) s = and_going (read_wide_row row s) (λ t. read_wide_rows left t)

  unfoldable pub conclude_wide :
      List (List Text)
      → List FileNote
      → Progressed (Gathering Float (Text × (Option ℤ × Option Text)))
      → Converted Float × List FileNote
  conclude_wide rows notes (refused why) = (as_table file_name header rows why, notes)
  conclude_wide rows notes (going s) =
      let all_notes =
        if s.skipped == [] then notes else notes ++ not_converted (sorted_unique s.skipped) ∷ [] in
      (converted file_name header rows nothing_read s.out, all_notes)

  -- A file that is not long: `axis` is the first of the axes.
  unfoldable pub read_wide : List (List Text) → List Axis → Converted Float × List FileNote
  read_wide rows axes = elim (first_axis axes) [
    | none ↦
        if ltb 1 (length rows)
        then (as_table file_name header rows no_axis, [])
        else conclude_wide rows []
            (read_wide_rows rows none rows (record { out = []; seen = []; skipped = [] }))
    | some axis ↦
        conclude_wide rows (axis_notes axes)
          (read_wide_rows rows (some axis) rows (record { out = []; seen = []; skipped = [] }))
  ]

  -- The name column of a long file, and its value column.
  unfoldable pub long_columns : Option (ℕ × ℕ)
  long_columns = elim (index_where (contains long_name_columns) header) [
    | none ↦ none
    | some name_column ↦ elim (get_elem? header name_column) [
      | none ↦ none
      | some name_header ↦ elim (long_value_column header name_header) [
        | none ↦ none
        | some value_column ↦ some (name_column, value_column)
      ]
    ]
  ]

  unfoldable pub convert_wide : List (List Text) → Converted Float × List FileNote
  convert_wide rows = elim long_columns [
    | some (name_column, value_column) ↦
        convert_long lib parse_f64 file_name stem header rows name_column value_column
          (axes_from 0 header)
    | none ↦ read_wide rows (axes_from 0 header)
  ]
