-- ===== src/Gc/Verdict.antt =====
-- What garbage collection leaves of a run that had no status.
use rs_runvault.Base.{
  ℕ, Bool, true, false, [], Option, none, some, Text, ◌≡◌, ◌≢◌, ◌⊎◌, inl, inr, Bool-cases, refl,
  sym, ap, arith, list_eq, nat_eq,
}
use rs_runvault.Error.{ok}
use rs_runvault.Canonical.{ℤ, pos, negsuc}
use rs_runvault.Ids.{is_run_uid}
use rs_runvault.Lock.{LockRecord, Moment, Liveness, running, stale, liveness}
use rs_runvault.Status.{RunStatus}
use rs_runvault.Verify.{Clock, check_status, check_status_schema}
use rs_runvault.Gc.{
  Outcome, reaped, LockFile, absent, unreadable, holds, RunDir, Dates, Meanwhile, seconds,
  duration_sec, later_date, failed_status, same_record, conclude, reap, judge, collect_one,
}

-- A duration is not below zero, and the message is not empty.
pub record Sensible {Float : Type 0} (clock : Clock Float) (dates : Dates Float) : Type 0 where
  pub some_seconds : (n : ℕ) → clock.is_negative (dates.seconds_of_millis n) ≡ false
  pub zero_seconds : clock.is_negative dates.no_seconds ≡ false
  pub some_message : (r : LockRecord) → dates.message r ≢ []

module _ {Float : Type 0} (clock : Clock Float) (dates : Dates Float)
    (sensible : Sensible clock dates) where
  seconds_not_negative : (m : Option ℤ) → clock.is_negative (seconds dates m) ≡ false
  seconds_not_negative none = sensible.zero_seconds
  seconds_not_negative (some (pos n)) = sensible.some_seconds n
  seconds_not_negative (some (negsuc n)) = sensible.some_seconds 0

  duration_not_negative : (a b : Text) → clock.is_negative (duration_sec dates a b) ≡ false
  unfolding duration_sec
  duration_not_negative a b = seconds_not_negative (dates.millis_between a b)

  -- The status that is written passes the check of a status.
  failed_status-checked :
      (uid : Text) (r : LockRecord)
      → is_run_uid uid ≡ true
      → clock.is_rfc3339 r.created_at ≡ true
      → clock.is_rfc3339 r.heartbeat_at ≡ true
      → check_status clock (some (ok (failed_status dates (some uid) r))) false uid ≡ ok tt
  unfolding check_status check_status_schema failed_status later_date
  failed_status-checked uid r u a b =
      ground
        (arith, duration_not_negative r.created_at r.heartbeat_at, sensible.some_message r, u, a, b)

  -- How a run stands that had no status.
  abbrev pub Left : Text → Outcome → RunDir Float → Type 0
  Left uid outcome d =
      (d.status ≡ none)
      ⊎ ((outcome ≡ reaped)
          × (d.lock ≡ absent)
          × ((s : RunStatus Float) × (d.status ≡ some s)
              × (check_status clock (some (ok s)) false uid ≡ ok tt)))

  conclude-Left :
      (uid : Text) (s : RunStatus Float) (l : LockFile) {outcome : Outcome} {e : RunDir Float}
      → check_status clock (some (ok s)) false uid ≡ ok tt
      → conclude dates (record { status = some s; lock = l }) ≡ (e, ok (some outcome))
      → Left uid outcome e
  unfolding conclude
  conclude-Left uid s absent c h =
      inr (ground arith, ap (λ x. x.0.lock) (sym h), (s, ap (λ x. x.0.status) (sym h), c))
  conclude-Left uid s unreadable c h = absurd (ground arith)
  conclude-Left uid s (holds _) c h = inl (ground arith)

  reap-Left :
      (meanwhile : Meanwhile) (uid : Text) (r : LockRecord) (status : Option (RunStatus Float))
      (l : LockFile) {outcome : Outcome} {e : RunDir Float}
      → check_status clock (some (ok (failed_status dates (some uid) r))) false uid ≡ ok tt
      → status ≡ none
      → reap dates meanwhile (some uid) r (record { status = status; lock = l })
        ≡ (e, ok (some outcome))
      → Left uid outcome e
  unfolding reap
  reap-Left meanwhile uid r status absent c n h = inl (ground arith)
  reap-Left meanwhile uid r status unreadable c n h = absurd (ground arith)
  reap-Left meanwhile uid r status (holds now) c n h = elim (Bool-cases (same_record now r)) [
    | inl f ↦
        conclude-Left uid (failed_status dates (some uid) r)
          (meanwhile.before_last_read (meanwhile.before_status absent)) c (ground arith)
    | inr f ↦ inl (ground arith)
  ]

  judge-Left :
      (meanwhile : Meanwhile) (moment : Moment) (dry_run : Bool) (uid : Text) (r : LockRecord)
      (d : RunDir Float) {outcome : Outcome} {e : RunDir Float}
      → check_status clock (some (ok (failed_status dates (some uid) r))) false uid ≡ ok tt
      → d.status ≡ none
      → judge dates meanwhile moment dry_run (some uid) r d ≡ (e, ok (some outcome))
      → Left uid outcome e
  unfolding judge
  judge-Left meanwhile moment dry_run uid r d c n h = elim (live_or_stale (liveness moment r)) [
    | inl f ↦ inl (ground arith)
    | inr f ↦ elim (Bool-cases dry_run) [
      | inl g ↦ inl (ground arith)
      | inr g ↦
          reap-Left meanwhile uid r d.status (meanwhile.before_second_read d.lock) c n
            (ground arith)
    ]
  ]
    where
      live_or_stale : (l : Liveness) → (l ≡ running) ⊎ (l ≡ stale)
      live_or_stale running = inl refl
      live_or_stale stale = inr refl

-- Where the identifier in `run.json` can be read and is one of a run, the dates in the lock can be
-- read, a duration is not below zero, and the message is not empty: a run that had no status, and a
-- lock, still has none after a call of `collect_one` that returns an outcome, or it is reaped: then its
-- lock has gone, and its status passes the check. Meanwhile the process behind the lock may rewrite
-- the lock.
pub collect_one_sound :
    {Float : Type 0} (clock : Clock Float) (dates : Dates Float)
    → Sensible clock dates
    → (meanwhile : Meanwhile) (moment : Moment) (dry_run : Bool) (uid : Text) (r : LockRecord)
      (d e : RunDir Float) (outcome : Outcome)
    → is_run_uid uid ≡ true
    → clock.is_rfc3339 r.created_at ≡ true
    → clock.is_rfc3339 r.heartbeat_at ≡ true
    → d.status ≡ none
    → d.lock ≡ holds r
    → collect_one dates meanwhile moment dry_run (some uid) d ≡ (e, ok (some outcome))
    → (e.status ≡ none)
      ⊎ ((outcome ≡ reaped)
          × (e.lock ≡ absent)
          × ((s : RunStatus Float) × (e.status ≡ some s)
              × (check_status clock (some (ok s)) false uid ≡ ok tt)))
unfolding collect_one
collect_one_sound clock dates sensible meanwhile moment dry_run uid r d e outcome u a b n l h =
    judge-Left clock dates sensible meanwhile moment dry_run uid r d
      (failed_status-checked clock dates sensible uid r u a b) n (ground arith)
