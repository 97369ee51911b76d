-- ===== src/Lock.antt =====
-- crates/runvault/src/lockfile.rs: the record of a lock and the judgement of its liveness. The table
-- of processes, the clock and the reading of a date enter as parameters; the thread that refreshes
-- the heartbeat and the file itself are I/O.
use rs_runvault.Base.{
  ℕ, Bool, true, false, ◌&&◌, Option, none, some, Text, ◌==◌, nat_eq, list_eq, option_eq, leb,
  if◌then◌else◌,
}
use rs_runvault.Canonical.{ℤ, pos, negsuc}

pub record LockRecord : Type 0 where
  pub host : Text
  pub pid : ℕ
  pub process_start_time : Option ℕ
  pub created_at : Text
  pub heartbeat_at : Text

pub data Liveness : Type 0 where
  running stale : Liveness

-- This machine at one moment: when each of its processes started, and the seconds that have passed
-- since a date, where the date can be read.
pub record Moment : Type 0 where
  pub this_host : Text
  pub started_at : ℕ → Option ℕ
  pub seconds_since : Text → Option ℤ

-- `let Some(started) = process_start_time(self.pid) && Some(started) == self.process_start_time`
abbrev same_process : Option ℕ → Option ℕ → Bool
same_process none recorded = false
same_process (some started) recorded = some started == recorded

abbrev pub fresh : Option ℤ → Bool
fresh none = false
fresh (some (pos age)) = leb age 300
fresh (some (negsuc age)) = true

unfoldable pub liveness : Moment → LockRecord → Liveness
liveness m r =
    if r.host == m.this_host && same_process (m.started_at r.pid) r.process_start_time
    then running
    else if fresh (m.seconds_since r.heartbeat_at)
    then running
    else stale
