-- ===== src/Gc.antt =====
-- crates/runvault/src/gc.rs: `collect_one`. The process that may still be behind a lock can rewrite
-- the lock between any two steps. The reading of dates, the arithmetic of `f64` and the text of the
-- message enter as parameters.
pub mod Verdict
mod Tests
use rs_runvault.Base.{
  ℕ, Bool, true, false, not, ◌&&◌, List, [], Option, none, some, Text, codes, ◌==◌, nat_eq, list_eq,
  option_eq, if◌then◌else◌,
}
use rs_runvault.Base.Order.{text_le}
use rs_runvault.Error.{Result, ok, err, json, io}
use rs_runvault.Canonical.{ℤ, pos, negsuc}
use rs_runvault.Lock.{LockRecord, Moment, Liveness, running, stale, liveness}
use rs_runvault.Status.{RunStatus, failed, StatusError}

pub data Outcome : Type 0 where
  still_running reaped contested : Outcome

-- What `.runvault.lock` is.
pub data LockFile : Type 0 where
  absent unreadable : LockFile
  holds : LockRecord → LockFile

-- The run directory: its `status.json`, and its lock.
pub record RunDir (Float : Type 0) : Type 0 where
  pub status : Option (RunStatus Float)
  pub lock : LockFile

-- `lockfile::read`
unfoldable pub read : LockFile → Result (Option LockRecord)
read absent = ok none
read unreadable = err json
read (holds r) = ok (some r)

unfoldable pub same_record : LockRecord → LockRecord → Bool
same_record a b =
    a.host == b.host
    && a.pid == b.pid
    && a.process_start_time == b.process_start_time
    && a.created_at == b.created_at
    && a.heartbeat_at == b.heartbeat_at

-- The milliseconds from one date to another, where both can be read, and `as f64 / 1000.0`.
pub record Dates (Float : Type 0) : Type 0 where
  pub millis_between : Text → Text → Option ℤ
  pub seconds_of_millis : ℕ → Float
  pub no_seconds : Float
  pub message : LockRecord → Text

-- What the process behind the lock does between the steps of `collect_one`.
pub record Meanwhile : Type 0 where
  pub before_second_read : LockFile → LockFile
  pub before_status : LockFile → LockFile
  pub before_last_read : LockFile → LockFile

module _ {Float : Type 0} (dates : Dates Float) where
  abbrev pub seconds : Option ℤ → Float
  seconds none = dates.no_seconds
  seconds (some (pos n)) = dates.seconds_of_millis n
  seconds (some (negsuc n)) = dates.seconds_of_millis 0

  unfoldable pub duration_sec : Text → Text → Float
  duration_sec started last_beat = seconds (dates.millis_between started last_beat)

  -- `heartbeat_at.max(created_at)`
  unfoldable pub later_date : Text → Text → Text
  later_date a b = if text_le a b then b else a

  -- `unwrap_or_default` of the identifier in `run.json`.
  abbrev or_default : Option Text → Text
  or_default none = []
  or_default (some uid) = uid

  unfoldable pub failed_status : Option Text → LockRecord → RunStatus Float
  failed_status uid r = record {
    schema_version = codes "1.0";
    run_uid = or_default uid;
    state = failed;
    started_at = r.created_at;
    finished_at = later_date r.heartbeat_at r.created_at;
    duration_sec = duration_sec r.created_at r.heartbeat_at;
    exit_code = none;
    collision_index = none;
    error = some (record { kind = codes "killed"; message = dates.message r });
    counts = none;
  }

  -- The last read, and the verdict that it may take back.
  unfoldable pub conclude : RunDir Float → RunDir Float × Result (Option Outcome)
  conclude d = elim d.lock [
    | unreadable ↦ (d, err json)
    | holds _ ↦ (record d { status = none }, ok (some contested))
    | absent ↦ (d, ok (some reaped))
  ]

  -- From the second read on.
  unfoldable pub reap :
      Meanwhile → Option Text → LockRecord → RunDir Float → RunDir Float × Result (Option Outcome)
  reap meanwhile uid r d = elim d.lock [
    | unreadable ↦ (d, err json)
    | absent ↦ (d, ok (some still_running))
    | holds now ↦
        if same_record now r
        then conclude (record {
          status = some (failed_status uid r);
          lock = meanwhile.before_last_read (meanwhile.before_status absent);
        })
        else (d, ok (some still_running))
  ]

  -- A run that has ended: a lock that it still carries is removed.
  unfoldable pub repair : Bool → RunDir Float → RunDir Float × Result (Option Outcome)
  repair dry_run d = elim d.lock [
    | unreadable ↦ (d, err json)
    | absent ↦ (d, ok none)
    | holds _ ↦ (if dry_run then d else record d { lock = absent }, ok none)
  ]

  unfoldable pub judge :
      Meanwhile
      → Moment
      → Bool
      → Option Text
      → LockRecord
      → RunDir Float
      → RunDir Float × Result (Option Outcome)
  judge meanwhile moment dry_run uid r d = elim (liveness moment r) [
    | running ↦ (d, ok (some still_running))
    | stale ↦
        if dry_run
        then (d, ok (some reaped))
        else reap meanwhile uid r (record d { lock = meanwhile.before_second_read d.lock })
  ]

  unfoldable pub collect_one :
      Meanwhile
      → Moment
      → Bool
      → Option Text
      → RunDir Float
      → RunDir Float × Result (Option Outcome)
  collect_one meanwhile moment dry_run uid d = elim d.status [
    | some _ ↦ repair dry_run d
    | none ↦ elim d.lock [
      | unreadable ↦ (d, err json)
      | absent ↦ (d, ok none)
      | holds r ↦ judge meanwhile moment dry_run uid r d
    ]
  ]
