-- ===== src/Run/Settled.antt =====
-- However a run ends, it has a status that the checks accept, and no lock.
use rs_runvault.Base.{
  ◌≤◌, true, false, List, [], none, some, Text, codes, length, nat_eq, list_eq, ◌≡◌, ◌≢◌, inl, inr,
  Option-cases, refl, ap, ◌∙◌, arith,
}
use rs_runvault.Error.{Result, ok, err, Error, Result-cases}
use rs_runvault.Canonical.{Library, pos}
use rs_runvault.Ids.{is_run_uid}
use rs_runvault.Meta.{Algorithm}
use rs_runvault.Meta.Run.{RunMeta}
use rs_runvault.Status.{finished, failed, RunStatus}
use rs_runvault.Verify.{Clock, check_status}
use rs_runvault.Verify.Records.{IfSome, check_status_schema_iff}
use rs_runvault.Verify.Contents.{RunFiles, check_manifest_contents}
use rs_runvault.Vocabulary.{Vocabulary}
use rs_runvault.Run.{Run}
use rs_runvault.Run.Sealed.{Within, manifest_rows-sealed}
use rs_runvault.Run.Finish.{
  Ending, manifest_header, manifest_rows, write_metrics_meta, write_parameters_meta, write_manifest,
  write_status, failed_with, close_to_progress, drop_run, end_by_verdict, finish_inner, finish,
}

module _ (lib : Library) (clock : Clock lib.Float) (v : Vocabulary)
    (digest_as : Algorithm → Text → Text) (files : RunFiles) (ending : Ending lib.Float) where
  -- What the run and its end have to be for a status to be valid.
  pub record IsTimed (r : Run lib) : Type 0 where
    pub uid : is_run_uid r.meta.run_uid ≡ true
    pub started : clock.is_rfc3339 r.started_at ≡ true
    pub ended : clock.is_rfc3339 ending.finished_at ≡ true
    pub duration : clock.is_negative ending.duration_sec ≡ false
    pub collision : IfSome (λ i. 2 ≤ i) r.collision_index
    pub message : (e : Error) → ending.message e ≢ []

  -- The status is there, and so are no lock and no contradiction. Of a run that has finished, the
  -- manifest agrees with the files.
  pub record Settled (r : Run lib) : Type 0 where
    pub status : RunStatus lib.Float
    pub written : r.status ≡ some status
    pub accepted : check_status clock (some (ok status)) r.has_lock r.meta.run_uid ≡ ok tt
    pub sealed :
        status.state ≡ finished
        → check_manifest_contents digest_as files (ok r.manifest) (some (ok status.state)) ≡ ok tt

  failed_with-Settled :
      (kind message : Text) (r : Run lib)
      → kind ≢ []
      → message ≢ []
      → IsTimed r
      → r.has_lock ≡ false
      → Settled (failed_with lib v digest_as files ending kind message r)
  unfolding write_status check_status
  failed_with-Settled kind message r k m t l =
      let s : RunStatus lib.Float = record {
        schema_version = codes "1.0";
        run_uid = r.meta.run_uid;
        state = failed;
        started_at = r.started_at;
        finished_at = ending.finished_at;
        duration_sec = ending.duration_sec;
        exit_code = none;
        collision_index = r.collision_index;
        error = some (record { kind = kind; message = message });
        counts = some r.counts;
      } in
      record {
        status = s;
        written = refl;
        accepted = ground (
          arith,
          l,
          (check_status_schema_iff clock s).1 (record {
            failed_has_error = λ e. cc;
            finished_has_no_error = λ e. cc;
            finished_exit_code = λ e. tt;
            version = refl;
            uid = t.uid;
            started = t.started;
            ended = t.ended;
            duration = t.duration;
            collision = t.collision;
            error_kind = k;
            error_message = m;
          }),
        );
        sealed = λ e. cc;
      }

  marked-Settled : (r : Run lib) → Settled r → Settled (record r { has_finished = true })
  marked-Settled r h = record {
    status = h.status;
    written = h.written;
    accepted = h.accepted;
    sealed = h.sealed;
  }

  finished-Settled :
      (r : Run lib) {rows : List (List Text)}
      → IsTimed r
      → r.has_lock ≡ false
      → r.manifest ≡ some (record { header = manifest_header; rows = rows })
      → manifest_rows digest_as files r.meta.run_uid ≡ ok rows
      → Within files.artifacts
      → Within files.logs
      → Settled (record (write_status lib v digest_as files ending finished none (some (pos 0)) r) {
        has_finished = true;
      })
  unfolding write_status check_status
  finished-Settled r {rows} t l m e p q =
      let s : RunStatus lib.Float = record {
        schema_version = codes "1.0";
        run_uid = r.meta.run_uid;
        state = finished;
        started_at = r.started_at;
        finished_at = ending.finished_at;
        duration_sec = ending.duration_sec;
        exit_code = some (pos 0);
        collision_index = r.collision_index;
        error = none;
        counts = some r.counts;
      } in
      record {
        status = s;
        written = refl;
        accepted = ground (
          arith,
          l,
          (check_status_schema_iff clock s).1 (record {
            failed_has_error = λ e. cc;
            finished_has_no_error = λ e. refl;
            finished_exit_code = λ e. refl;
            version = refl;
            uid = t.uid;
            started = t.started;
            ended = t.ended;
            duration = t.duration;
            collision = t.collision;
            error_kind = tt;
            error_message = tt;
          }),
        );
        sealed = λ _.
            rw m (manifest_rows-sealed digest_as files r.meta.run_uid (some (ok finished)) p q e);
      }

  -- What the two descriptions leave alone.
  abbrev described : Run lib → Run lib
  described r = write_parameters_meta lib v digest_as files ending (
      write_metrics_meta lib v digest_as files ending
        (close_to_progress lib v digest_as files ending r))

  described-keeps :
      (r : Run lib)
      → ((described r).meta ≡ r.meta)
        × ((described r).started_at ≡ r.started_at)
        × ((described r).collision_index ≡ r.collision_index)
        × ((described r).has_finished ≡ r.has_finished)
        × ((described r).has_lock ≡ r.has_lock)
  unfolding write_parameters_meta write_metrics_meta
  described-keeps r = elim (Option-cases r.declaration) [
    | inl e ↦ ground (arith, e)
    | inr (d, e) ↦ ground (arith, e)
  ]

  module _ (shallow latest : Run lib → Result (Unit {0})) where
    end_by_verdict-Settled :
        (r : Run lib) {rows : List (List Text)}
        → IsTimed r
        → r.has_lock ≡ false
        → r.manifest ≡ some (record { header = manifest_header; rows = rows })
        → manifest_rows digest_as files r.meta.run_uid ≡ ok rows
        → Within files.artifacts
        → Within files.logs
        → Settled (end_by_verdict lib v digest_as files ending shallow latest r).0
          × ((end_by_verdict lib v digest_as files ending shallow latest r).0.has_finished ≡ true)
    unfolding end_by_verdict
    end_by_verdict-Settled r t l m e p q = elim (Result-cases (shallow r)) [
      | inl (_, a) ↦ rw (a, end_by_verdict) (finished-Settled r t l m e p q, refl)
      | inr (x, a) ↦
          rw (a, end_by_verdict)
            (
              marked-Settled _ (
                  failed_with-Settled (codes "verify") (ending.message x) r (λ f. cc) (t.message x)
                    t l),
              refl,
            )
    ]

    -- The run that `judge` is given.
    abbrev sealed_run : List (List Text) → Run lib → Run lib
    sealed_run rows r = record r {
      has_lock = false;
      manifest = some (record { header = manifest_header; rows = rows });
      counts = record r.counts { artifacts = length rows };
    }

    finish_inner-sealed :
        (r : Run lib) {rows : List (List Text)}
        → manifest_rows digest_as files r.meta.run_uid ≡ ok rows
        → finish_inner lib v digest_as files ending shallow latest r
          ≡ end_by_verdict lib v digest_as files ending shallow latest
              (sealed_run rows (described r))
    unfolding finish_inner write_manifest
    finish_inner-sealed r {rows} e =
        let a = (described-keeps r).0 in
        let f : manifest_rows digest_as files (described r).meta.run_uid ≡ ok rows =
          ap (λ (m : RunMeta lib). manifest_rows digest_as files m.run_uid) a ∙ e in
        rw f refl

    finish_inner-dropped :
        (r : Run lib) {x : Error}
        → manifest_rows digest_as files r.meta.run_uid ≡ err x
        → finish_inner lib v digest_as files ending shallow latest r ≡ (described r, err x)
    unfolding finish_inner write_manifest
    finish_inner-dropped r {x} e =
        let a = (described-keeps r).0 in
        let f : manifest_rows digest_as files (described r).meta.run_uid ≡ err x =
          ap (λ (m : RunMeta lib). manifest_rows digest_as files m.run_uid) a ∙ e in
        rw f refl

    described-IsTimed : (r : Run lib) → IsTimed r → IsTimed (described r)
    described-IsTimed r t =
        let (a, b, c, _, _) = described-keeps r in
        record {
          uid = rw a t.uid;
          started = rw b t.started;
          ended = t.ended;
          duration = t.duration;
          collision = rw c t.collision;
          message = t.message;
        }

    drop_run-Settled :
        (message : Text) (r : Run lib)
        → Settled r
        → r.has_finished ≡ true
        → Settled (drop_run lib v digest_as files ending message r)
    unfolding drop_run
    drop_run-Settled message r h e = rw (e, drop_run) h

    drop_run-fails :
        (message : Text) (r : Run lib)
        → message ≢ []
        → IsTimed r
        → r.has_finished ≡ false
        → Settled (drop_run lib v digest_as files ending message r)
    unfolding drop_run
    drop_run-fails message r m t e =
        rw (e, drop_run)
          (failed_with-Settled (codes "dropped") message
            (record r { is_open = false; has_lock = false }) (λ f. cc) m
            (record {
              uid = t.uid;
              started = t.started;
              ended = t.ended;
              duration = t.duration;
              collision = t.collision;
              message = t.message;
            })
            refl)

    sealed-IsTimed :
        (rows : List (List Text)) (r : Run lib)
        → IsTimed r
        → IsTimed (sealed_run rows (described r))
    sealed-IsTimed rows r t =
        let u = described-IsTimed r t in
        record {
          uid = u.uid;
          started = u.started;
          ended = u.ended;
          duration = u.duration;
          collision = u.collision;
          message = u.message;
        }

    finish-sealed :
        (message : Text) (r : Run lib) {rows : List (List Text)}
        → IsTimed r
        → Within files.artifacts
        → Within files.logs
        → manifest_rows digest_as files r.meta.run_uid ≡ ok rows
        → Settled (
            drop_run lib v digest_as files ending message
              (finish_inner lib v digest_as files ending shallow latest r).0)
    finish-sealed message r {rows} t p q e =
        let (h, f) =
          end_by_verdict-Settled (sealed_run rows (described r)) {rows = rows}
            (sealed-IsTimed rows r t) refl refl
            (ap (λ (m : RunMeta lib). manifest_rows digest_as files m.run_uid) (described-keeps r).0
              ∙ e)
            p q in
        rw (finish_inner-sealed r e) (drop_run-Settled message _ h f)

    finish-dropped :
        (message : Text) (r : Run lib) {x : Error}
        → message ≢ []
        → IsTimed r
        → r.has_finished ≡ false
        → manifest_rows digest_as files r.meta.run_uid ≡ err x
        → Settled (
            drop_run lib v digest_as files ending message
              (finish_inner lib v digest_as files ending shallow latest r).0)
    finish-dropped message r m t o e =
        rw (finish_inner-dropped r e) (
          drop_run-fails message (described r) m (described-IsTimed r t)
            ((described-keeps r).3 ∙ o))

-- Where the identifier and the dates are valid, the clock has not gone back, messages are not empty,
-- and the walks find files inside the run: however `finish` goes, with a walk or a digest that fails,
-- or with a check that refuses, the run has a status, which `check_status` accepts of it without its
-- lock; and where the status says that the run has finished, `check_manifest_contents` accepts the
-- manifest.
pub finish_settles :
    (lib : Library) (clock : Clock lib.Float) (v : Vocabulary) (digest_as : Algorithm → Text → Text)
    (files : RunFiles) (ending : Ending lib.Float) (shallow latest : Run lib → Result (Unit {0}))
    (message : Text) (r : Run lib)
    → message ≢ []
    → IsTimed lib clock v digest_as files ending r
    → r.has_finished ≡ false
    → Within files.artifacts
    → Within files.logs
    → Settled lib clock v digest_as files ending
        (finish lib v digest_as files ending shallow latest message r).0
unfolding finish
finish_settles lib clock v digest_as files ending shallow latest message r m t o p q =
    elim (Result-cases (manifest_rows digest_as files r.meta.run_uid)) [
      | inl (rows, e) ↦
          finish-sealed lib clock v digest_as files ending shallow latest message r t p q e
      | inr (x, e) ↦
          finish-dropped lib clock v digest_as files ending shallow latest message r m t o e
    ]
