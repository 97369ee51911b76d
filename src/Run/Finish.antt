-- ===== src/Run/Finish.antt =====
-- crates/runvault/src/run.rs: the ways in which a run ends. `verify::shallow`, the move of the link
-- `latest_finished` and the clock are parameters.
use rs_runvault.Base.{
  Bool, true, false, List, [], ◌∷◌, ◌++◌, Option, none, some, Text, codes, length, map,
}
use rs_runvault.Base.Decimal.{decimal}
use rs_runvault.Base.Order.{text_ord}
use rs_runvault.Base.Sort.{sort_on}
use rs_runvault.Error.{Result, ok, err, Error, Effect, and_then, io, ◌>>=◌}
use rs_runvault.Canonical.{Library, ℤ, pos}
use rs_runvault.Meta.{Algorithm, blake3}
use rs_runvault.Status.{State, finished, failed, StatusError}
use rs_runvault.Verify.Contents.{RunFiles}
use rs_runvault.Vocabulary.{Vocabulary}
use rs_runvault.Metrics.{resolve, resolve_parameters, says_nothing, has_nothing}
use rs_runvault.Run.{Run, attempt}

abbrev pub manifest_header : List Text
manifest_header =
    codes "run_uid" ∷ codes "path" ∷ codes "algorithm" ∷ codes "digest" ∷ codes "bytes" ∷ []

-- The time of the end, the seconds since the start, and how an error prints.
pub record Ending (Float : Type 0) : Type 0 where
  pub finished_at : Text
  pub duration_sec : Float
  pub message : Error → Text

-- What there is to write, if there is anything.
abbrev pub unless {ℓ} : {A : Type ℓ} → Bool → A → Option A → Option A
unless true a old = old
unless false a old = some a

module _ (digest_as : Algorithm → Text → Text) (files : RunFiles) where
  unfoldable pub manifest_row : Text → Text × Text → List Text
  manifest_row uid (rel, bytes) =
      uid ∷ rel ∷ codes "blake3" ∷ digest_as blake3 bytes ∷ decimal (length bytes) ∷ []

  -- The bytes behind each path that a walk lists, as `digest_file` reads them.
  unfoldable pub read_each : List Text → Result (List (Text × Text))
  read_each [] = ok []
  read_each (rel ∷ rels) = elim (files.content rel) [
    | none ↦ err (io rel)
    | some bytes ↦ do rest ← read_each rels; ok ((rel, bytes) ∷ rest)
  ]

  -- The rows are sorted by their paths, of which no two are the same.
  unfoldable pub manifest_rows : Text → Result (List (List Text))
  manifest_rows uid = do
    artifacts ← files.artifacts
    generated ← read_each artifacts
    logs ← files.logs
    logged ← read_each logs
    ok (map (manifest_row uid) (sort_on (λ (x : Text × Text). x.0) (generated ++ logged)))

module _ (lib : Library) (v : Vocabulary) (digest_as : Algorithm → Text → Text) (files : RunFiles)
    (ending : Ending lib.Float) where
  unfoldable pub write_metrics_meta : Run lib → Run lib
  write_metrics_meta r = elim r.declaration [
    | none ↦ r
    | some d ↦
        let meta = resolve v d r.metric_names in
        record r { metrics_meta = unless (says_nothing meta) meta r.metrics_meta }
  ]

  unfoldable pub write_parameters_meta : Run lib → Run lib
  write_parameters_meta r = elim r.declaration [
    | none ↦ r
    | some d ↦
        let meta = resolve_parameters d r.parameters in
        record r { parameters_meta = unless (has_nothing meta) meta r.parameters_meta }
  ]

  unfoldable pub write_manifest : Run lib → Effect (Run lib)
  write_manifest r = attempt r (manifest_rows digest_as files r.meta.run_uid) (λ rows. (
    record r {
      manifest = some (record { header = manifest_header; rows = rows });
      counts = record r.counts { artifacts = length rows };
    },
    ok tt,
  ))

  unfoldable pub write_status : State → Option StatusError → Option ℤ → Run lib → Run lib
  write_status state error exit_code r = record r {
    status = some (record {
      schema_version = codes "1.0";
      run_uid = r.meta.run_uid;
      state = state;
      started_at = r.started_at;
      finished_at = ending.finished_at;
      duration_sec = ending.duration_sec;
      exit_code = exit_code;
      collision_index = r.collision_index;
      error = error;
      counts = some r.counts;
    });
  }

  abbrev pub failed_with : Text → Text → Run lib → Run lib
  failed_with kind message r =
      write_status failed (some (record { kind = kind; message = message })) none r

  -- The heartbeat stops, and the lock is removed.
  abbrev pub release_lock : Run lib → Run lib
  release_lock r = record r { has_lock = false }

  abbrev pub close_to_progress : Run lib → Run lib
  close_to_progress r = record r { is_open = false }

  -- `impl Drop for Run`
  unfoldable pub drop_run : Text → Run lib → Run lib
  drop_run message r = elim r.has_finished [
    | true ↦ r
    | false ↦ failed_with (codes "dropped") message (release_lock (close_to_progress r))
  ]

  unfoldable pub fail : Text → Text → Run lib → Run lib
  fail kind message r = record (failed_with kind message (release_lock (close_to_progress r))) {
    has_finished = true;
  }

  module _ (shallow latest : Run lib → Result (Unit {0})) where
    -- `match verify::shallow(..)`
    unfoldable pub end_by_verdict : Run lib → Effect (Run lib)
    end_by_verdict r = elim (shallow r) [
      | ok _ ↦
          let ended = record (write_status finished none (some (pos 0)) r) {
            has_finished = true;
          } in
          (ended, latest ended)
      | err e ↦ (
        record (failed_with (codes "verify") (ending.message e) r) { has_finished = true },
        err e,
      )
    ]

    unfoldable pub finish_inner : Run lib → Effect (Run lib)
    finish_inner r =
        let described = write_parameters_meta (write_metrics_meta (close_to_progress r)) in
        and_then (write_manifest described) (λ sealed. end_by_verdict (release_lock sealed))

    -- The run is dropped behind it, whether it succeeds or not.
    unfoldable pub finish : Text → Run lib → Effect (Run lib)
    finish message r = let (ended, outcome) = finish_inner r in (drop_run message ended, outcome)
