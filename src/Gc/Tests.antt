-- ===== src/Gc/Tests.antt =====
-- A lock whose heartbeat is an hour old, and whose process writes nothing.
use rs_runvault.Base.{
  ℕ, true, false, not, [], none, some, Text, codes, ◌≡◌, ◌⊎◌, refl, ◌==◌, nat_eq, list_eq,
  option_eq, ℕ_discrete,
}
use rs_runvault.Error.{ok}
use rs_runvault.Canonical.{pos}
use rs_runvault.Ids.{is_run_uid}
use rs_runvault.Lock.{LockRecord, Moment, liveness}
use rs_runvault.Status.{RunStatus}
use rs_runvault.Verify.{Clock, check_status}
use rs_runvault.Gc.{
  reaped, absent, holds, RunDir, Dates, Meanwhile, failed_status, collect_one, judge, reap,
  conclude, same_record,
}
use rs_runvault.Gc.Verdict.{Sensible, collect_one_sound}

abbrev clock : Clock ℕ
clock = record { is_rfc3339 = λ t. not (t == []); is_negative = λ f. false }

abbrev dates : Dates ℕ
dates = record {
  millis_between = λ a b. some (pos 1000);
  seconds_of_millis = λ n. n;
  no_seconds = 0;
  message = λ r. codes "killed";
}

sensible : Sensible clock dates
sensible = record { some_seconds = λ n. refl; zero_seconds = refl; some_message = λ r e. cc }

abbrev uid : Text
uid = codes "01ARZ3NDEKTSV4RRFFQ69G5FAV"

abbrev lock : LockRecord
lock = record {
  host = codes "there";
  pid = 7;
  process_start_time = some 1;
  created_at = codes "2026-08-30T22:49:52Z";
  heartbeat_at = codes "2026-08-30T22:50:00Z";
}

abbrev moment : Moment
moment = record {
  this_host = codes "here";
  started_at = λ pid. none;
  seconds_since = λ t. some (pos 3600);
}

abbrev meanwhile : Meanwhile
meanwhile = record {
  before_second_read = λ l. l;
  before_status = λ l. l;
  before_last_read = λ l. l;
}

abbrev dir : RunDir ℕ
dir = record { status = none; lock = holds lock }

abbrev after : RunDir ℕ
after = record { status = some (failed_status dates (some uid) lock); lock = absent }

reaps : collect_one dates meanwhile moment false (some uid) dir ≡ (after, ok (some reaped))
unfolding collect_one judge reap conclude same_record liveness list_eq option_eq ℕ_discrete
reaps = refl

uid_valid : is_run_uid uid ≡ true
unfolding is_run_uid ℕ_discrete
uid_valid = refl

created_read : clock.is_rfc3339 lock.created_at ≡ true
unfolding list_eq
created_read = refl

heartbeat_read : clock.is_rfc3339 lock.heartbeat_at ≡ true
unfolding list_eq
heartbeat_read = refl

collect_one_sound_example :
    (after.status ≡ none)
    ⊎ ((reaped ≡ reaped)
        × (after.lock ≡ absent)
        × ((s : RunStatus ℕ) × (after.status ≡ some s)
            × (check_status clock (some (ok s)) false uid ≡ ok tt)))
collect_one_sound_example =
    collect_one_sound clock dates sensible meanwhile moment false uid lock dir after reaped
      uid_valid created_read heartbeat_read refl refl reaps
