-- ===== src/Meta/Run.antt =====
-- `RunMeta` of crates/runvault/src/meta.rs, the contents of `run.json`, and its parts that are not
-- hashed.
use rs_runvault.Base.{ℕ, Bool, List, Option, Text}
use rs_runvault.Json.{Members}
use rs_runvault.Canonical.{Library, ℤ}
use rs_runvault.Meta.{Hash, Code, Dataset, Lineage, Target}

pub data Origin : Type 0 where
  code manual external : Origin

pub data Visibility : Type 0 where
  internal public : Visibility

pub record Env : Type 0 where
  pub env_hash : Text
  pub host : Text
  pub os : Text
  pub arch : Text
  pub rustc_version : Option Text
  pub python_version : Option Text

pub record Rng : Type 0 where
  pub master_seed : Option ℕ
  pub replicate_index : Option ℕ

pub record Llm (lib : Library) : Type 0 where
  pub provider : Text
  pub model_snapshot : Text
  pub temperature : Option lib.Float
  pub system_prompt_hash : Option Hash

pub record Work : Type 0 where
  pub work_id : Text
  pub doi : Option Text
  pub arxiv_id : Option Text
  pub paper_id : Option Text
  pub title : Text
  pub year : Option ℤ
  pub source_version : Option Text

pub record UpstreamImpl : Type 0 where
  pub url : Text
  pub commit : Option Text

pub record Research : Type 0 where
  pub is_replication : Bool
  pub work : Option Work
  pub targets : List Target
  pub upstream_impl : Option UpstreamImpl
  pub obsidian_note : Option Text
  pub jira : List Text

pub record RunMeta (lib : Library) : Type 0 where
  pub schema_version : Text
  pub vocab_version : Text
  pub runvault_version : Text
  pub run_uid : Text
  pub run_slug : Text
  pub label : Option Text
  pub repo_id : Text
  pub experiment : Text
  pub subcommand : Text
  pub domain : Text
  pub config_hash : Text
  pub execution_hash : Text
  pub created_at : Text
  pub cli_args : List Text
  pub origin : Origin
  pub visibility : Visibility
  pub code : Option Code
  pub env : Env
  pub rng : Option Rng
  pub llm : Option (Llm lib)
  pub data_used : List Dataset
  pub lineage : Option Lineage
  pub research : Research
  pub ext : Option (Members lib.Number)
