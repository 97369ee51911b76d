-- ===== src/Meta.antt =====
-- crates/runvault/src/meta.rs: the parts of `run.json` that the hashes and the checks read.
pub mod Run
use rs_runvault.Base.{ℕ, Bool, List, [], Option, none, some, Text, codes}

pub data Algorithm : Type 0 where
  blake3 sha256 : Algorithm

unfoldable pub algorithm_str : Algorithm → Text
algorithm_str blake3 = codes "blake3"
algorithm_str sha256 = codes "sha256"

pub data HashScope : Type 0 where
  file dir_manifest : HashScope

pub record Hash : Type 0 where
  pub algorithm : Algorithm
  pub value : Text

pub data LockKind : Type 0 where
  cargo uv poetry pip other : LockKind

unfoldable pub kind_str : LockKind → Text
kind_str cargo = codes "cargo"
kind_str uv = codes "uv"
kind_str poetry = codes "poetry"
kind_str pip = codes "pip"
kind_str other = codes "other"

pub record Lock : Type 0 where
  pub kind : LockKind
  pub hash : Hash
  pub file : Text

pub record Code : Type 0 where
  pub git_remote : Option Text
  pub git_branch : Option Text
  pub git_commit : Text
  pub git_dirty : Bool
  pub dirty_hash : Option Hash
  pub repo_relpath : Option Text
  pub locks : List Lock

pub record Dataset : Type 0 where
  pub role : Text
  pub name : Text
  pub dataset_id : Option Text
  pub version : Option Text
  pub hash : Option Hash
  pub hash_scope : Option HashScope
  pub n : Option ℕ
  pub uri : Option Text
  pub split : Option Text

-- `HashScope::as_str` of the scope, or the empty string.
unfoldable pub hash_scope_str : Option HashScope → Text
hash_scope_str none = []
hash_scope_str (some file) = codes "file"
hash_scope_str (some dir_manifest) = codes "dir_manifest"

pub record Lineage : Type 0 where
  pub sweep_id : Option Text
  pub parent_run_uid : Option Text
  pub sweep_index : Option ℕ
  pub sweep_total : Option ℕ
  pub resumed_from : Option Text
  pub derived_from : Option Text

pub data TargetKind : Type 0 where
  table figure section claim : TargetKind

pub record Target : Type 0 where
  pub target_id : Text
  pub kind : TargetKind
  pub label : Text
  pub panel : Option Text
  pub row : Option Text
  pub condition : Option Text
