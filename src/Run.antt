-- ===== src/Run.antt =====
-- crates/runvault/src/run.rs: a run in progress, and what is recorded of it. The buffers of the
-- writers are part of the files here, and writing into the directory of the run succeeds.
pub mod Event
pub mod Finish
pub mod Recorded
pub mod Sealed
pub mod Settled
pub mod Stamped
pub mod Sequence
pub mod Explained
pub mod Start
pub mod Points
pub mod Names
mod Tests
use rs_runvault.Base.{
  ℕ, suc, Bool, true, false, not, ◌&&◌, ◌||◌, List, [], ◌∷◌, ◌++◌, Option, none, some, Text, codes,
  ◌==◌, nat_eq, list_eq, contains, filter, map, if◌then◌else◌,
}
use rs_runvault.Base.Decimal.{decimal}
use rs_runvault.Error.{
  Result, ok, err, Error, Effect, and_then, spec, metric_not_finite, wrong_scope,
  undescribed_metric, no_declaration_file, unknown_event_kind, payload_not_object,
  missing_event_keys, past_budget, budget_differs, no_target, no_source, target_not_listed,
  refuse_if, ◌>>=◌, ◌>>◌,
}
use rs_runvault.Json.{Value, null, bool, number, string, array, object, Members, end, member}
use rs_runvault.Canonical.{Library, format_f64}
use rs_runvault.Pointer
use rs_runvault.Ids.{validate_slug}
use rs_runvault.Meta.{Target}
use rs_runvault.Meta.Run.{RunMeta}
use rs_runvault.Status.{Counts, RunStatus}
use rs_runvault.Verify.{starts_with}
use rs_runvault.Verify.Research.{split_once}
use rs_runvault.Verify.Tables.{CsvTable}
use rs_runvault.Verify.Lines.{Jsonl, Comparison, bool_of, number_of}
use rs_runvault.Vocabulary.{Vocabulary, metric_allowed_at, is_reserved}
use rs_runvault.Metrics.{Declaration, MetricsMeta, ParametersMeta, describes}

-- `if let Err(e) = result { return Err(e) }`, of a step that changes nothing.
abbrev pub attempt {ℓ κ} : {S : Type ℓ} {A : Type κ} → S → Result A → (A → Effect S) → Effect S
attempt s (err e) next = (s, err e)
attempt s (ok a) next = next a

abbrev pub or_empty_text : Option Text → Text
or_empty_text none = []
or_empty_text (some t) = t

abbrev pub step_text : Option ℕ → Text
step_text none = []
step_text (some n) = decimal n

abbrev pub metrics_header : List Text
metrics_header =
    codes "run_uid"
    ∷ codes "step"
    ∷ codes "step_unit"
    ∷ codes "scope"
    ∷ codes "name"
    ∷ codes "value"
    ∷ []

abbrev pub reference_header : List Text
reference_header =
    codes "run_uid"
    ∷ codes "step"
    ∷ codes "step_unit"
    ∷ codes "scope"
    ∷ codes "name"
    ∷ codes "value"
    ∷ codes "target_id"
    ∷ codes "source"
    ∷ []

-- A row is written behind the others. The header comes with the first one.
unfoldable pub append_row : List Text → Option CsvTable → List Text → CsvTable
append_row header none row = record { header = header; rows = row ∷ [] }
append_row header (some t) row = record t { rows = t.rows ++ row ∷ [] }

unfoldable pub append_line : Option (List Text) → Text → List Text
append_line none line = line ∷ []
append_line (some events) line = events ++ line ∷ []

-- The set of the names keeps one of each.
abbrev pub with_name : List Text → Text → List Text
with_name names name = if contains names name then names else name ∷ names

-- The run, and the files of its directory that it writes.
pub record Run (lib : Library) : Type 0 where
  pub meta : RunMeta lib
  pub started_at : Text
  pub collision_index : Option ℕ
  pub metric_names : List Text
  pub declaration : Option (Declaration lib.Float)
  pub root_known : Bool
  pub parameters : Value lib.Number
  pub counts : Counts
  pub is_open : Bool
  pub has_lock : Bool
  pub has_finished : Bool
  pub metrics : Option CsvTable
  pub reference : Option CsvTable
  pub events : Option (List Text)
  pub manifest : Option CsvTable
  pub metrics_meta : Option (MetricsMeta lib.Float)
  pub parameters_meta : Option (ParametersMeta lib.Float)
  pub status : Option (RunStatus lib.Float)

pub record MetricEntry (Float : Type 0) : Type 0 where
  pub name : Text
  pub value : Float
  pub step : Option ℕ
  pub step_unit : Option Text
  pub scope : Text

pub record ReferenceEntry (Float : Type 0) : Type 0 where
  pub entry : MetricEntry Float
  pub target_id : Option Text
  pub source : Option Text

abbrev check_unit : Option Text → Result (Unit {0})
check_unit none = ok tt
check_unit (some unit) = validate_slug (codes "step_unit") unit

abbrev pub required_text : Option Text → Error → Result Text
required_text none e = err e
required_text (some t) e = ok t

abbrev pub metric_row : {Float : Type 0} → Text → MetricEntry Float → Text → List Text
metric_row uid e value =
    uid ∷ step_text e.step ∷ or_empty_text e.step_unit ∷ e.scope ∷ e.name ∷ value ∷ []

module _ (lib : Library) (v : Vocabulary) where
  open lib use {Number, Float, is_finite}

  unfoldable pub check_metric : MetricEntry Float → Result (Unit {0})
  check_metric e = do
    validate_slug (codes "name") e.name
    validate_slug (codes "scope") e.scope
    check_unit e.step_unit
    refuse_if (not (is_finite e.value)) (spec metric_not_finite)
    refuse_if (not (metric_allowed_at v e.name e.scope)) (spec wrong_scope)

  -- Of a repository that is known, and a name that the registry does not reserve.
  abbrev pub check_declared : Option (Declaration Float) → Text → Result (Unit {0})
  check_declared none name = err (spec no_declaration_file)
  check_declared (some d) name =
      if not d.require_docs || describes d name then ok tt else err (spec undescribed_metric)

  unfoldable pub check_metric_described : Run lib → Text → Result (Unit {0})
  check_metric_described r name =
      if not r.root_known || is_reserved v name then ok tt else check_declared r.declaration name

  -- Only the first row of a name is asked.
  unfoldable pub check_first : Run lib → Text → Result (Unit {0})
  check_first r name = if contains r.metric_names name then ok tt else check_metric_described r name

  -- `row[4]` is the name.
  unfoldable pub append_metric_row : Run lib → Text → List Text → Effect (Run lib)
  append_metric_row r name row = attempt r (check_first r name) (λ _. (
    record r {
      metrics = some (append_row metrics_header r.metrics row);
      metric_names = with_name r.metric_names name;
      counts = record r.counts { metrics = suc r.counts.metrics };
    },
    ok tt,
  ))

  -- What `send` does behind its check, and one round of the second loop of `log_metric_batch`.
  unfoldable pub write_metric : Run lib → MetricEntry Float → Effect (Run lib)
  write_metric r e =
      attempt r (format_f64 lib e.value)
        (λ value. append_metric_row r e.name (metric_row r.meta.run_uid e value))

  unfoldable pub send_metric : Run lib → MetricEntry Float → Effect (Run lib)
  send_metric r e = attempt r (check_metric e) (λ _. write_metric r e)

  check_each : List (MetricEntry Float) → Result (Unit {0})
  check_each [] = ok tt
  check_each (e ∷ es) = do check_metric e; check_each es

  -- A row that fails leaves those before it.
  write_metrics : Run lib → List (MetricEntry Float) → Effect (Run lib)
  write_metrics r [] = (r, ok tt)
  write_metrics r (e ∷ es) = and_then (write_metric r e) (λ s. write_metrics s es)

  -- The entries share the step, the unit and the scope.
  unfoldable pub log_metric_batch : Run lib → List (MetricEntry Float) → Effect (Run lib)
  unfolding check_each write_metrics
  log_metric_batch r es = attempt r (check_each es) (λ _. write_metrics r es)

  -- What `send` of a reference checks, and the row that it makes.
  unfoldable pub reference_row : Run lib → ReferenceEntry Float → Result (List Text)
  reference_row r x = do
    check_metric x.entry
    target_id ← required_text x.target_id (spec no_target)
    source ← required_text x.source (spec no_source)
    validate_slug (codes "target_id") target_id
    refuse_if (not (contains (map (λ (t : Target). t.target_id) r.meta.research.targets) target_id))
        (spec target_not_listed)
    value ← format_f64 lib x.entry.value
    ok (metric_row r.meta.run_uid x.entry value ++ target_id ∷ source ∷ [])

  abbrev pub append_reference_row : Run lib → List Text → Effect (Run lib)
  append_reference_row r row =
      (record r { reference = some (append_row reference_header r.reference row) }, ok tt)

  unfoldable pub send_reference : Run lib → ReferenceEntry Float → Effect (Run lib)
  send_reference r x = attempt r (reference_row r x) (λ row. append_reference_row r row)
