-- ===== src/Legacy/Tests.antt =====
-- Legacy runs at concrete names.
use rs_runvault.Base.{
  ℕ, List, Option, [], ◌∷◌, ◌++◌, none, some, Text, codes, true, nat_eq, list_eq, option_eq,
  pair_eq, All, ℕ_discrete, ◌≡◌, refl, arith,
}
use rs_runvault.Ids.{is_digit, is_lower, is_upper}
use rs_runvault.Base.Order.{text_ord}
use rs_runvault.Base.Sort.{sort_on}
use rs_runvault.Canonical.{ℤ, pos, negsuc}
use rs_runvault.Canonical.Tests.{plain}
use rs_runvault.Ids.{validate_slug}
use rs_runvault.Legacy.Conversion.{convert_wide-KeysDiffer}
use rs_runvault.Legacy.Gathered.{IsMetric, KeysDiffer}
use rs_runvault.Legacy.Long.{long_key}
use rs_runvault.Legacy.Rows.{
  parse_i64, i64_eq, LegacyMetric, metrics, FileNote, not_converted, axes_from, unit_of, push_new,
  prefixed,
}
use rs_runvault.Legacy.Wide.{
  convert_wide, long_columns, read_wide, read_wide_rows, read_wide_row, read_cells, read_cell,
  conclude_wide, axis_notes, wide_key, step_not_integer,
}
use rs_runvault.Error.{ok, err, spec, bad_relpath}
use rs_runvault.Legacy.{
  after_mark, begins_marked, is_timestamp, parse_from, parse_dir_name, has_suffix, is_metric_file,
  replace_byte, encode_key_part, run_key, normal, cur_dir, other, normal_parts, join_slash,
  normalize_relpath,
}
use rs_runvault.Legacy.Boundaries.{parse_dir_name-panics}
use rs_runvault.Legacy.Keys.{run_key-injective}
use rs_runvault.Verify.{starts_with}

abbrev stamp : Text
stamp = codes "20260620_162729"

bare_name :
    parse_dir_name stamp ≡ some (some (record { timestamp = stamp; prefix = none; suffix = none }))
unfolding parse_dir_name parse_from after_mark begins_marked is_timestamp is_digit is_lower is_upper
    ℕ_discrete
bare_name = refl

both_sides :
    parse_dir_name (codes "try_20260620_162729_sweep")
    ≡ some (
        some (record {
          timestamp = stamp;
          prefix = some (codes "try");
          suffix = some (codes "sweep");
        }))
unfolding parse_dir_name parse_from after_mark begins_marked is_timestamp is_digit is_lower is_upper
    ℕ_discrete
both_sides = refl

not_a_run : parse_dir_name (codes "a_directory_of_figures") ≡ some none
unfolding parse_dir_name parse_from after_mark begins_marked is_timestamp is_digit is_lower is_upper
    ℕ_discrete
not_a_run = refl

-- Five characters of three bytes.
abbrev five_letters : Text
five_letters =
    0xE3 ∷ 0x81 ∷ 0x82 ∷ 0xE3 ∷ 0x81 ∷ 0x82 ∷ 0xE3 ∷ 0x81 ∷ 0x82 ∷ 0xE3 ∷ 0x81 ∷ 0x82 ∷ 0xE3 ∷ 0x81
    ∷ 0x82 ∷ []

parse_dir_name-panics_example : parse_dir_name five_letters ≡ none
parse_dir_name-panics_example =
    parse_dir_name-panics five_letters 0x82 refl refl (omega arith) (omega arith)

encoded_key : run_key (codes "a:b") (codes "c%") ≡ codes "legacy:a%3Ab:c%25"
unfolding run_key encode_key_part replace_byte ℕ_discrete
encoded_key = refl

run_key-injective_example : (codes "a:b" ≡ codes "a:b") × (codes "c" ≡ codes "c")
run_key-injective_example =
    run_key-injective (codes "a:b") (codes "a:b") (codes "c") (codes "c") refl

normalized :
    normalize_relpath
      (λ s. s)
      (normal (codes "sweep") ∷ cur_dir ∷ normal (codes "20260620_162729") ∷ [])
    ≡ ok (codes "sweep/20260620_162729")
unfolding normalize_relpath normal_parts join_slash
normalized = refl

parent_refused : normalize_relpath (λ s. s) (other ∷ []) ≡ err (spec bad_relpath)
unfolding normalize_relpath normal_parts join_slash
parent_refused = refl

root_refused : normalize_relpath (λ s. s) (cur_dir ∷ []) ≡ err (spec bad_relpath)
unfolding normalize_relpath normal_parts join_slash
root_refused = refl

metric_files : is_metric_file (codes "agent_metrics") ≡ true
unfolding is_metric_file has_suffix starts_with list_eq ℕ_discrete
metric_files = refl

abbrev parse_number : Text → Option ℕ
parse_number s = elim (parse_i64 s) [ none ↦ none | some (pos n) ↦ some n | some (negsuc n) ↦ none ]

abbrev header : List Text
header = codes "round" ∷ codes "loss" ∷ codes "Note" ∷ []

abbrev rows : List (List Text)
rows =
    (codes "1" ∷ codes "7" ∷ codes "x" ∷ [])
    ∷ (codes "-2" ∷ codes "5" ∷ codes "3" ∷ [])
    ∷ (codes "" ∷ codes "4" ∷ codes "3" ∷ [])
    ∷ []

abbrev loss : ℤ → ℕ → LegacyMetric ℕ
loss step value = record {
  step = some step;
  step_unit = some (codes "round");
  scope = codes "run";
  name = codes "loss";
  value = value;
  source = codes "metrics.csv";
}

-- A cell that is no number and a row without a step are left out.
abbrev left_out : List FileNote
left_out = not_converted (codes "Note" ∷ (codes "metrics.csv" ++ step_not_integer) ∷ []) ∷ []

wide_converts :
    convert_wide plain parse_number (codes "metrics.csv") (codes "metrics") header rows
    ≡ (metrics (loss (pos 1) 7 ∷ loss (negsuc 1) 5 ∷ []), left_out)
unfolding convert_wide long_columns read_wide read_wide_rows read_wide_row read_cells read_cell
    conclude_wide axes_from unit_of axis_notes push_new prefixed wide_key validate_slug parse_i64
    list_eq option_eq pair_eq i64_eq ℕ_discrete sort_on text_ord
wide_converts = refl

convert_wide-KeysDiffer_example :
    KeysDiffer long_key (loss (pos 1) 7 ∷ loss (negsuc 1) 5 ∷ [])
    × All (IsMetric plain) (loss (pos 1) 7 ∷ loss (negsuc 1) 5 ∷ [])
convert_wide-KeysDiffer_example =
    convert_wide-KeysDiffer plain parse_number (codes "metrics.csv") (codes "metrics") header rows
      (loss (pos 1) 7 ∷ loss (negsuc 1) 5 ∷ []) left_out wide_converts
