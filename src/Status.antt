-- ===== src/Status.antt =====
-- crates/runvault/src/status.rs: `status.json`, how a run ended.
use rs_runvault.Base.{ℕ, Option, Text}
use rs_runvault.Canonical.{ℤ}

pub data State : Type 0 where
  finished failed : State

pub record StatusError : Type 0 where
  pub kind : Text
  pub message : Text

pub record Counts : Type 0 where
  pub metrics : ℕ
  pub events : ℕ
  pub artifacts : ℕ

pub record RunStatus (Float : Type 0) : Type 0 where
  pub schema_version : Text
  pub run_uid : Text
  pub state : State
  pub started_at : Text
  pub finished_at : Text
  pub duration_sec : Float
  pub exit_code : Option ℤ
  pub collision_index : Option ℕ
  pub error : Option StatusError
  pub counts : Option Counts
