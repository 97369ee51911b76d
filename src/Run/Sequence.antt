-- ===== src/Run/Sequence.antt =====
-- A sequence of calls that record, each of which may fail.
use rs_runvault.Base.{
  not, List, [], ◌∷◌, ◌++◌, Text, codes, contains, map, nat_eq, list_eq, ℕ_discrete, ◌≡◌, refl, sym,
  subst, ap, ◌∙◌, arith, suc,
}
use rs_runvault.Error.{
  ok, Effect, spec, target_not_listed, no_target, no_source, refuse_if, >>=-eq-ok,
}
use rs_runvault.Json.{Value, null, bool, number, string, array, object}
use rs_runvault.Canonical.{Library, format_f64}
use rs_runvault.Ids.{validate_slug}
use rs_runvault.Meta.{Target}
use rs_runvault.Verify.Tables.{column}
use rs_runvault.Verify.Lines.{Jsonl, Comparison}
use rs_runvault.Vocabulary.{Vocabulary}
use rs_runvault.Run.{
  Run, MetricEntry, ReferenceEntry, reference_header, check_metric, check_metric_described,
  metric_row, send_metric, log_metric_batch, required_text, send_reference, append_reference_row,
  reference_row,
}
use rs_runvault.Run.Event.{log_event, check_event, write_line, stamped, insert}
use rs_runvault.Run.Stamped.{ReadsBack, stamped-run_uid, append_line-check_events}
use rs_runvault.Run.Recorded.{
  ReferenceRow, IsConsistent, attempt-keeps, append_row-Rows, append_line-count,
  send_metric-IsConsistent, log_metric_batch-IsConsistent,
}

-- The calls by which a program records something of a run that goes on.
pub data Operation (lib : Library) : Type 0 where
  metric : MetricEntry lib.Float → Operation lib
  batch : List (MetricEntry lib.Float) → Operation lib
  reference : ReferenceEntry lib.Float → Operation lib
  event : Text → Value lib.Number → Text → Operation lib

module _ (lib : Library) (v : Vocabulary) (comparison : Comparison lib.Float)
    (lines : Jsonl lib.Number) where
  unfoldable pub perform : Run lib → Operation lib → Effect (Run lib)
  perform r (metric e) = send_metric lib v r e
  perform r (batch es) = log_metric_batch lib v r es
  perform r (reference x) = send_reference lib v r x
  perform r (event kind payload now) = log_event lib v comparison lines r kind payload now

  -- A program may go on behind an error.
  unfoldable pub perform_all : Run lib → List (Operation lib) → Run lib
  perform_all r [] = r
  perform_all r (o ∷ os) = perform_all (perform r o).0 os

  reference_row-listed :
      (r : Run lib) (x : ReferenceEntry lib.Float) {row : List Text}
      → reference_row lib v r x ≡ ok row
      → ReferenceRow lib v r row
  unfolding reference_row column list_eq ℕ_discrete
  reference_row-listed r x {row} e =
      let (_, _, e1) = >>=-eq-ok (check_metric lib v x.entry) _ e in
      let (target_id, _, e2) = >>=-eq-ok (required_text x.target_id (spec no_target)) _ e1 in
      let (source, _, e3) = >>=-eq-ok (required_text x.source (spec no_source)) _ e2 in
      let (_, _, e4) = >>=-eq-ok (validate_slug (codes "target_id") target_id) _ e3 in
      let (_, a, e5) =
        >>=-eq-ok
          (refuse_if
            (not (contains (map (λ (t : Target). t.target_id) r.meta.research.targets) target_id))
            (spec target_not_listed))
          _ e4 in
      let (value, _, e6) = >>=-eq-ok (format_f64 lib x.entry.value) _ e5 in
      subst (ReferenceRow lib v r)
        {x = metric_row r.meta.run_uid x.entry value ++ target_id ∷ source ∷ []} {y = row}
        (ground (arith, e6)) (refl, ground (arith, a))

  send_reference-IsConsistent :
      (r : Run lib) (x : ReferenceEntry lib.Float)
      → IsConsistent lib v comparison lines r
      → IsConsistent lib v comparison lines (send_reference lib v r x).0
  unfolding send_reference check_metric_described
  send_reference-IsConsistent r x h =
      attempt-keeps (IsConsistent lib v comparison lines) r (reference_row lib v r x)
        (λ row. append_reference_row lib v r row) h
        (λ row e. record {
          metrics = h.metrics;
          counted = h.counted;
          named = h.named;
          reference =
              append_row-Rows reference_header _ r.reference row h.reference
                (reference_row-listed r x e);
          events = h.events;
          event_count = h.event_count;
        })

  log_event-IsConsistent :
      (r : Run lib) (kind : Text) (payload : Value lib.Number) (now : Text)
      → ReadsBack lines
      → IsConsistent lib v comparison lines r
      → IsConsistent lib v comparison lines (log_event lib v comparison lines r kind payload now).0
  unfolding log_event check_metric_described
  log_event-IsConsistent r kind (object payload) now l h =
      let members = stamped lib v comparison lines r kind now payload in
      attempt-keeps (IsConsistent lib v comparison lines) r
        (check_event lib v comparison lines kind members)
        (λ _. write_line lib v comparison lines r (lines.to_string (object members))) h
        (λ _ _. record {
          metrics = h.metrics;
          counted = h.counted;
          named = h.named;
          reference = h.reference;
          events =
              append_line-check_events lines r.events r.meta.run_uid members l
                (stamped-run_uid r.meta.run_uid (string now)
                  (insert (codes "schema") (string kind) payload))
                h.events;
          event_count =
              ap suc h.event_count
              ∙ sym (append_line-count r.events (lines.to_string (object members)));
        })
  log_event-IsConsistent r kind null now l h = h
  log_event-IsConsistent r kind (bool b) now l h = h
  log_event-IsConsistent r kind (number n) now l h = h
  log_event-IsConsistent r kind (string s) now l h = h
  log_event-IsConsistent r kind (array items) now l h = h

  perform-IsConsistent :
      (r : Run lib) (o : Operation lib)
      → ReadsBack lines
      → IsConsistent lib v comparison lines r
      → IsConsistent lib v comparison lines (perform r o).0
  unfolding perform
  perform-IsConsistent r (metric e) l h = send_metric-IsConsistent lib v comparison lines r e h
  perform-IsConsistent r (batch es) l h =
      log_metric_batch-IsConsistent lib v comparison lines r es h
  perform-IsConsistent r (reference x) l h = send_reference-IsConsistent r x h
  perform-IsConsistent r (event kind payload now) l h =
      log_event-IsConsistent r kind payload now l h

-- Whatever calls record something of a run, and however many of them fail: the rows of its tables and
-- the lines of its events belong to the run, the references name targets of it, its counts are the
-- numbers of the rows and lines, and each name of a metric is kept and was allowed. A line of
-- events that is read again still has the identifier of the run, and is not blank.
pub perform_all-IsConsistent :
    (lib : Library) (v : Vocabulary) (comparison : Comparison lib.Float) (lines : Jsonl lib.Number)
    (r : Run lib) (os : List (Operation lib))
    → ReadsBack lines
    → IsConsistent lib v comparison lines r
    → IsConsistent lib v comparison lines (perform_all lib v comparison lines r os)
unfolding perform_all
perform_all-IsConsistent lib v comparison lines r [] l h = h
perform_all-IsConsistent lib v comparison lines r (o ∷ os) l h =
    perform_all-IsConsistent lib v comparison lines (perform lib v comparison lines r o).0 os l
      (perform-IsConsistent lib v comparison lines r o l h)
