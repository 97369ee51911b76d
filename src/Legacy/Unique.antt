-- ===== src/Legacy/Unique.antt =====
-- crates/runvault/src/legacy.rs: about the metrics that a CSV file becomes.
use rs_runvault.Base.{
  ℕ, suc, Bool, true, not, ◌&&◌, List, [], ◌∷◌, Option, none, some, Text, codes, get_elem?, ◌≡◌,
  refl, ap, subst, arith, All, nat_eq, list_eq, option_eq, pair_eq,
}
use rs_runvault.Canonical.{ℤ, Library}
use rs_runvault.Error.{ok}
use rs_runvault.Ids.{validate_slug}
use rs_runvault.Legacy.Gathered.{
  Holds, and_going-Holds, is_ok-ok, IsMetric, KeysDiffer, KeysDiffer-map, IsGathered,
  push_new-IsGathered, option-Holds, if-Holds, not-false,
}
use rs_runvault.Legacy.Long.{
  is_ok, long_key, usable, read_named, read_long_row, read_long_rows, conclude_long, converted,
  keep_or_skip, converted, keep_or_skip,
}
use rs_runvault.Legacy.Rows.{
  i64_eq, LegacyMetric, Why, LegacyTable, nothing_read, long_nothing_read, Converted, metrics,
  table, FileNote, Axis, name_label, scope_label, Gathering, Progressed, refused, going, prefixed,
  parse_i64,
}
use rs_runvault.Legacy.Wide.{
  wide_key, wide_metric, is_axis_index, read_cell, read_cells, read_wide_row, read_wide_rows,
  conclude_wide,
}

abbrev pub LongRows : Library → Type 0
LongRows lib = Gathering lib.Float (Text × (Option ℤ × (Option Text × Text)))

abbrev pub WideRows : Library → Type 0
WideRows lib = Gathering lib.Float (Text × (Option ℤ × Option Text))

and_parts : (a b c : Bool) → a && b && c ≡ true → (a ≡ true) × (b ≡ true) × (c ≡ true)
and_parts a b c h = ground arith

converted-metrics :
    {F : Type 0} (file_name : Text) (header : List Text) (rows : List (List Text)) (why : Why)
    (out kept : List (LegacyMetric F))
    → converted file_name header rows why out ≡ metrics kept
    → out ≡ kept
converted-metrics file_name header rows why [] kept e = absurd (ground arith)
converted-metrics file_name header rows why (m ∷ ms) kept e = ground arith

pub table_no_metrics :
    {F : Type 0} (t : LegacyTable) (kept : List (LegacyMetric F)) (l k : List FileNote)
    → Path (Converted F × List FileNote) (table t, l) (metrics kept, k)
    → ⊥
table_no_metrics t kept l k e = table_or_metrics t kept (ap (λ p. p.0) e)
  where
    table_or_metrics :
        {F : Type 0} (t : LegacyTable) (kept : List (LegacyMetric F))
        → Path (Converted F) (table t) (metrics kept)
        → ⊥
    table_or_metrics t kept e = ground arith

run_scope : validate_slug scope_label (codes "run") ≡ ok tt
unfolding validate_slug
run_scope = refl

abbrev pub LongGathered : (lib : Library) → LongRows lib → Type 0
LongGathered lib s = IsGathered lib long_key s

abbrev pub WideGathered : (lib : Library) → WideRows lib → Type 0
WideGathered lib s = IsGathered lib wide_key s

module _ (lib : Library) (parse_f64 : Text → Option lib.Float) (file_name stem : Text) where
  open lib use {Float, is_finite}

  usable-IsMetric :
      (m : LegacyMetric Float) → usable lib parse_f64 file_name stem m ≡ true → IsMetric lib m
  usable-IsMetric m h =
      let (f, n, s) =
        and_parts (is_finite m.value) (is_ok (validate_slug name_label m.name))
          (is_ok (validate_slug scope_label m.scope)) h in
      (f, is_ok-ok _ n, is_ok-ok _ s)

  module _ (name_column value_column : ℕ) (axis : Option Axis) (scope_column : Option ℕ) where
    keep_or_skip-IsGathered :
        (m : LegacyMetric Float) (raw_name : Text) (s : LongRows lib)
        → LongGathered lib s
        → Holds (LongGathered lib) (
            keep_or_skip lib parse_f64 file_name stem name_column value_column axis scope_column m
              raw_name s)
    unfolding keep_or_skip
    keep_or_skip-IsGathered m raw_name s h =
        if-Holds (LongGathered lib) (not (usable lib parse_f64 file_name stem m)) _ _ (λ p. h)
          (λ p. push_new-IsGathered lib long_key m _ s (usable-IsMetric m (not-false _ p)) h)

    read_named-IsGathered :
        (row : List Text) (step : Option ℤ) (s : LongRows lib)
        → LongGathered lib s
        → Holds (LongGathered lib) (
            read_named lib parse_f64 file_name stem name_column value_column axis scope_column row
              step s)
    unfolding read_named
    read_named-IsGathered row step s h =
        option-Holds (LongGathered lib) (get_elem? row name_column) _ _ h (λ raw_name.
          option-Holds (LongGathered lib) (get_elem? row value_column) _ _ h (λ cell.
            option-Holds (LongGathered lib) (parse_f64 cell) _ _ h
              (λ value. keep_or_skip-IsGathered _ _ s h)))

    read_long_row-IsGathered :
        (row : List Text) (s : LongRows lib)
        → LongGathered lib s
        → Holds (LongGathered lib) (
            read_long_row lib parse_f64 file_name stem name_column value_column axis scope_column
              row s)
    unfolding read_long_row
    read_long_row-IsGathered row s h =
        option-Holds (LongGathered lib) axis _ _ (read_named-IsGathered row none s h) (λ a.
          option-Holds (LongGathered lib) (get_elem? row a.index) _ _ h (λ cell.
            option-Holds (LongGathered lib) (parse_i64 cell) _ _ h
              (λ step. read_named-IsGathered row (some step) s h)))

    pub read_long_rows-IsGathered :
        (rows : List (List Text)) (s : LongRows lib)
        → LongGathered lib s
        → Holds (LongGathered lib) (
            read_long_rows lib parse_f64 file_name stem name_column value_column axis scope_column
              rows s)
    unfolding read_long_rows
    read_long_rows-IsGathered [] s h = h
    read_long_rows-IsGathered (row ∷ rows) s h =
        and_going-Holds (LongGathered lib) _ _ (read_long_row-IsGathered row s h)
          (λ t k. read_long_rows-IsGathered rows t k)

  pub conclude_long_sound :
      (header : List Text) (rows : List (List Text)) (r : Progressed (LongRows lib))
      (kept : List (LegacyMetric Float)) (notes : List FileNote)
      → Holds (LongGathered lib) r
      → conclude_long lib parse_f64 file_name stem header rows r ≡ (metrics kept, notes)
      → KeysDiffer long_key kept × All (IsMetric lib) kept
  unfolding conclude_long
  conclude_long_sound header rows (refused why) kept notes h e =
      absurd (table_no_metrics _ kept _ notes e)
  conclude_long_sound header rows (going s) kept notes (d, _, m) e =
      subst (λ ms. KeysDiffer long_key ms × All (IsMetric lib) ms)
        (converted-metrics file_name header rows long_nothing_read s.out kept (ap (λ p. p.0) e))
        (d, m)

module _ (lib : Library) (parse_f64 : Text → Option lib.Float) (file_name stem : Text)
    (header : List Text) where
  open lib use {Float, is_finite}

  module _ (rows : List (List Text)) (axis : Option Axis) where
    read_cell-IsGathered :
        (row : List Text) (step : Option ℤ) (i : ℕ) (column : Text) (s : WideRows lib)
        → WideGathered lib s
        → Holds
            (WideGathered lib)
            (read_cell lib parse_f64 file_name stem header rows axis row step i column s)
    unfolding read_cell
    read_cell-IsGathered row step i column s h =
        option-Holds (WideGathered lib) (get_elem? row i) _ _ h (λ field.
          option-Holds (WideGathered lib) (parse_f64 field) _ _ h (λ value.
            if-Holds (WideGathered lib) (not (is_finite value)) _ _ (λ p. h)
              (λ p.
                if-Holds (WideGathered lib)
                  (not (is_ok (validate_slug name_label (prefixed stem column)))) _ _ (λ q. h)
                  (λ q.
                    push_new-IsGathered lib wide_key
                      (wide_metric lib parse_f64 file_name stem header rows axis step column value)
                      _ s (not-false _ p, is_ok-ok _ (not-false _ q), run_scope) h))))

    read_cells-IsGathered :
        (row : List Text) (step : Option ℤ) (i : ℕ) (columns : List Text) (s : WideRows lib)
        → WideGathered lib s
        → Holds
            (WideGathered lib)
            (read_cells lib parse_f64 file_name stem header rows axis row step i columns s)
    unfolding read_cells
    read_cells-IsGathered row step i [] s h = h
    read_cells-IsGathered row step i (column ∷ columns) s h =
        if-Holds (WideGathered lib) (is_axis_index axis i) _ _
          (λ p. read_cells-IsGathered row step (suc i) columns s h)
          (λ p.
            and_going-Holds (WideGathered lib) _ _ (read_cell-IsGathered row step i column s h)
              (λ t k. read_cells-IsGathered row step (suc i) columns t k))

    read_wide_row-IsGathered :
        (row : List Text) (s : WideRows lib)
        → WideGathered lib s
        → Holds
            (WideGathered lib)
            (read_wide_row lib parse_f64 file_name stem header rows axis row s)
    unfolding read_wide_row
    read_wide_row-IsGathered row s h =
        option-Holds (WideGathered lib) axis _ _ (read_cells-IsGathered row none 0 header s h) (λ a.
          option-Holds (WideGathered lib) (get_elem? row a.index) _ _ h (λ cell.
            option-Holds (WideGathered lib) (parse_i64 cell) _ _ h
              (λ step. read_cells-IsGathered row (some step) 0 header s h)))

    pub read_wide_rows-IsGathered :
        (left : List (List Text)) (s : WideRows lib)
        → WideGathered lib s
        → Holds
            (WideGathered lib)
            (read_wide_rows lib parse_f64 file_name stem header rows axis left s)
    unfolding read_wide_rows
    read_wide_rows-IsGathered [] s h = h
    read_wide_rows-IsGathered (row ∷ left) s h =
        and_going-Holds (WideGathered lib) _ _ (read_wide_row-IsGathered row s h)
          (λ t k. read_wide_rows-IsGathered left t k)

  pub conclude_wide_sound :
      (rows : List (List Text)) (before : List FileNote) (r : Progressed (WideRows lib))
      (kept : List (LegacyMetric Float)) (notes : List FileNote)
      → Holds (WideGathered lib) r
      → conclude_wide lib parse_f64 file_name stem header rows before r ≡ (metrics kept, notes)
      → KeysDiffer long_key kept × All (IsMetric lib) kept
  unfolding conclude_wide long_key wide_key
  conclude_wide_sound rows before (refused why) kept notes h e =
      absurd (table_no_metrics _ kept _ notes e)
  conclude_wide_sound rows before (going s) kept notes (d, _, m) e =
      subst (λ ms. KeysDiffer long_key ms × All (IsMetric lib) ms)
        (converted-metrics file_name header rows nothing_read s.out kept (ap (λ p. p.0) e))
        (
          KeysDiffer-map long_key wide_key s.out (λ m n q i. ((q i).0, ((q i).1.0, (q i).1.1.0))) d,
          m,
        )
