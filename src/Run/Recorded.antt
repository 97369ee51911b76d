-- ===== src/Run/Recorded.antt =====
-- What is recorded while a run is going on belongs to it, and is what it counts.
use rs_runvault.Base.{
  ℕ, suc, true, List, [], ◌∷◌, Option, none, some, Text, codes, length, length-append, contains,
  map, nat_eq, list_eq, ℕ_discrete, ◌≡◌, inl, inr, refl, sym, ap, ◌∙◌, All, All-map, All-append,
  arith, Bool-cases,
}
use rs_runvault.Error.{Result, ok, err, Effect, and_then, Result-cases}
use rs_runvault.Canonical.{Library, format_f64}
use rs_runvault.Meta.{Target}
use rs_runvault.Verify.Tables.{CsvTable, column}
use rs_runvault.Verify.Lines.{Jsonl, Comparison, check_events}
use rs_runvault.Vocabulary.{Vocabulary}
use rs_runvault.Run.{
  Run, MetricEntry, attempt, metrics_header, reference_header, append_row, append_line,
  check_metric, check_metric_described, check_first, with_name, append_metric_row, metric_row,
  write_metric, send_metric, check_each, write_metrics, log_metric_batch,
}

-- A table that is there has the header and rows of a kind.
abbrev pub Rows : List Text → (List Text → Type 0) → Option CsvTable → Type 0
Rows header P none = Unit
Rows header P (some t) = (t.header ≡ header) × All P t.rows

abbrev pub row_count : Option CsvTable → ℕ
row_count none = 0
row_count (some t) = length t.rows

abbrev pub line_count : Option (List Text) → ℕ
line_count none = 0
line_count (some events) = length events

pub append_row-Rows :
    (header : List Text) (P : List Text → Type 0) (file : Option CsvTable) (row : List Text)
    → Rows header P file
    → P row
    → Rows header P (some (append_row header file row))
unfolding append_row
append_row-Rows header P none row h p = (refl, (p, tt))
append_row-Rows header P (some t) row (e, h) p = (e, All-append P t.rows (row ∷ []) h (p, tt))

append_row-count :
    (header : List Text) (file : Option CsvTable) (row : List Text)
    → row_count (some (append_row header file row)) ≡ suc (row_count file)
unfolding append_row
append_row-count header none row = refl
append_row-count header (some t) row = omega (arith, length-append t.rows (row ∷ []))

pub append_line-count :
    (events : Option (List Text)) (line : Text)
    → line_count (some (append_line events line)) ≡ suc (line_count events)
unfolding append_line
append_line-count none line = refl
append_line-count (some events) line = omega (arith, length-append events (line ∷ []))

Rows-map :
    (header : List Text) (P Q : List Text → Type 0) (file : Option CsvTable)
    → ((row : List Text) → P row → Q row)
    → Rows header P file
    → Rows header Q file
Rows-map header P Q none f h = tt
Rows-map header P Q (some t) f (e, h) = (e, All-map P Q t.rows f h)

with_name-contains : (names : List Text) (name : Text) → contains (with_name names name) name ≡ true
with_name-contains names name = ground arith

contains-with_name :
    (names : List Text) (name other : Text)
    → contains names other ≡ true
    → contains (with_name names name) other ≡ true
contains-with_name names name other h = ground (arith, h)

-- What holds of the state before, and of the state behind each step that is taken, holds at the end.
pub attempt-keeps {ℓ κ μ} :
    {S : Type ℓ} {A : Type κ} (P : S → Type μ) (s : S) (check : Result A) (next : A → Effect S)
    → P s
    → ((a : A) → check ≡ ok a → P (next a).0)
    → P (attempt s check next).0
attempt-keeps P s (err x) next p f = p
attempt-keeps P s (ok a) next p f = f a refl

and_then-keeps {ℓ μ} :
    {S : Type ℓ} (P : S → Type μ) (first : Effect S) (next : S → Effect S)
    → P first.0
    → ((s : S) → P s → P (next s).0)
    → P (and_then first next).0
and_then-keeps P (s, err x) next p f = p
and_then-keeps P (s, ok _) next p f = f s p

module _ (lib : Library) (v : Vocabulary) where
  -- A row of the run, whose name is among those that it has recorded.
  abbrev pub MetricRow : Run lib → List Text → Type 0
  MetricRow r row =
      (column metrics_header row (codes "run_uid") ≡ r.meta.run_uid)
      × (contains r.metric_names (column metrics_header row (codes "name")) ≡ true)

  -- A row of the run, for a target of it.
  abbrev pub ReferenceRow : Run lib → List Text → Type 0
  ReferenceRow r row =
      (column reference_header row (codes "run_uid") ≡ r.meta.run_uid)
      × (contains (map (λ (t : Target). t.target_id) r.meta.research.targets)
            (column reference_header row (codes "target_id"))
          ≡ true)

  module _ (comparison : Comparison lib.Float) (lines : Jsonl lib.Number) where
    pub record IsConsistent (r : Run lib) : Type 0 where
      pub metrics : Rows metrics_header (MetricRow r) r.metrics
      pub counted : r.counts.metrics ≡ row_count r.metrics
      pub named : All (λ name. check_metric_described lib v r name ≡ ok tt) r.metric_names
      pub reference : Rows reference_header (ReferenceRow r) r.reference
      pub events : check_events lines r.events r.meta.run_uid ≡ ok tt
      pub event_count : r.counts.events ≡ line_count r.events

    with_name-All :
        (r : Run lib) (name : Text)
        → All (λ name. check_metric_described lib v r name ≡ ok tt) r.metric_names
        → check_first lib v r name ≡ ok tt
        → All (λ name. check_metric_described lib v r name ≡ ok tt) (with_name r.metric_names name)
    unfolding check_first
    with_name-All r name h e = elim (Bool-cases (contains r.metric_names name)) [
      | inl c ↦ rw c h
      | inr c ↦ rw c (ground (arith, e, c), h)
    ]

    append_metric_row-IsConsistent :
        (r : Run lib) (name : Text) (row : List Text)
        → IsConsistent r
        → column metrics_header row (codes "run_uid") ≡ r.meta.run_uid
        → column metrics_header row (codes "name") ≡ name
        → IsConsistent (append_metric_row lib v r name row).0
    unfolding append_metric_row check_metric_described
    append_metric_row-IsConsistent r name row h p q =
        elim (Result-cases (check_first lib v r name)) [
          | inr (x, e) ↦ rw (e, append_metric_row) h
          | inl (_, e) ↦
              rw (e, append_metric_row)
                (record {
                  metrics =
                      append_row-Rows metrics_header _ r.metrics row
                        (Rows-map metrics_header _ _ r.metrics
                          (λ x (a, b). (a, contains-with_name r.metric_names name _ b)) h.metrics)
                        (p, rw q (with_name-contains r.metric_names name));
                  counted = ap suc h.counted ∙ sym (append_row-count metrics_header r.metrics row);
                  named = with_name-All r name h.named e;
                  reference = h.reference;
                  events = h.events;
                  event_count = h.event_count;
                })
        ]

    write_metric-IsConsistent :
        (r : Run lib) (e : MetricEntry lib.Float)
        → IsConsistent r
        → IsConsistent (write_metric lib v r e).0
    unfolding write_metric column list_eq ℕ_discrete
    write_metric-IsConsistent r e h = elim (Result-cases (format_f64 lib e.value)) [
      | inr (x, a) ↦ rw (a, write_metric) h
      | inl (value, a) ↦
          rw (a, write_metric)
            (append_metric_row-IsConsistent r e.name (metric_row r.meta.run_uid e value) h refl
              refl)
    ]

    write_metrics-IsConsistent :
        (r : Run lib) (es : List (MetricEntry lib.Float))
        → IsConsistent r
        → IsConsistent (write_metrics lib v r es).0
    unfolding write_metrics
    write_metrics-IsConsistent r [] h = h
    write_metrics-IsConsistent r (e ∷ es) h =
        and_then-keeps IsConsistent (write_metric lib v r e) (λ s. write_metrics lib v s es)
          (write_metric-IsConsistent r e h) (λ s k. write_metrics-IsConsistent s es k)

    pub send_metric-IsConsistent :
        (r : Run lib) (e : MetricEntry lib.Float)
        → IsConsistent r
        → IsConsistent (send_metric lib v r e).0
    unfolding send_metric
    send_metric-IsConsistent r e h =
        attempt-keeps IsConsistent r (check_metric lib v e) (λ _. write_metric lib v r e) h
          (λ _ _. write_metric-IsConsistent r e h)

    pub log_metric_batch-IsConsistent :
        (r : Run lib) (es : List (MetricEntry lib.Float))
        → IsConsistent r
        → IsConsistent (log_metric_batch lib v r es).0
    unfolding log_metric_batch
    log_metric_batch-IsConsistent r es h =
        attempt-keeps IsConsistent r (check_each lib v es) (λ _. write_metrics lib v r es) h
          (λ _ _. write_metrics-IsConsistent r es h)
