-- ===== src/Verify/Tests.antt =====
-- The checks of run directories at concrete records.
use rs_runvault.Base.{
  ℕ, false, not, [], ◌∷◌, ◌++◌, none, some, Text, codes, ◌==◌, nat_eq, list_eq, pair_eq, ℕ_discrete,
  ◌≡◌, ◌⊎◌, ◌↔◌, refl, arith,
}
use rs_runvault.Base.Order.{pair_ord}
use rs_runvault.Error.{ok}
use rs_runvault.Ids.{run_slug}
use rs_runvault.Config.{ConfigEnvelope, Exclusions, resolve}
use rs_runvault.Config.Tests.{block, parameters, exclusions, resolve_runs}
use rs_runvault.Canonical.{pos}
use rs_runvault.Canonical.Tests.{plain}
use rs_runvault.Meta.{Lineage}
use rs_runvault.Meta.Run.{RunMeta, Origin, Visibility}
use rs_runvault.Meta.Run as Run
use rs_runvault.Status.{RunStatus, finished}
use rs_runvault.Pointer.{child, resolve_tokens}
use rs_runvault.Pointer as Pointer_module
use rs_runvault.Base.Decimal.{decimal}
use rs_runvault.Base.Sort.{sort_on}
use rs_runvault.Config.{ordered_seeds}
use rs_runvault.Canonical.{canonicalize, write_number}
use rs_runvault.Canonical.Framing.{join_lp, push_lp}
use rs_runvault.Hash.{env_hash, env_input, locks_blob, seed_blob, execution_hash}
use rs_runvault.Hash.Tests.{train, evaluation, code, condition, condition_runs}
use rs_runvault.Hash.Collisions.{Collision}
use rs_runvault.Verify.{
  Clock, check_status_schema, check_data, check_hashes, check_slug_matches_hashes,
}
use rs_runvault.Verify.Records.{IsStatus, check_status_schema_iff}
use rs_runvault.Verify.Hashes.{
  Consistent, SameRun, compare_hash_same, check_hashes_sound, check_hashes-same,
}
use rs_runvault.Verify.Slug.{check_slug-run_slug}
use rs_runvault.Verify.Tables.{CsvTable, check_reference}
use rs_runvault.Verify.Tables.Keys.{IsReference, check_reference_iff}

abbrev clock : Clock ℕ
clock = record { is_rfc3339 = λ t. not (t == []); is_negative = λ f. false }

abbrev uid : Text
uid = codes "01ARZ3NDEKTSV4RRFFQ69G5FAV"

abbrev pub status : RunStatus ℕ
status = record {
  schema_version = codes "1.0";
  run_uid = uid;
  state = finished;
  started_at = codes "2026-08-30T22:49:52Z";
  finished_at = codes "2026-08-30T22:50:00Z";
  duration_sec = 8;
  exit_code = some (pos 0);
  collision_index = some 2;
  error = none;
  counts = none;
}

check_status_schema_iff_example : (check_status_schema clock status ≡ ok tt) ↔ IsStatus clock status
check_status_schema_iff_example = check_status_schema_iff clock status

abbrev lineage : Lineage
lineage = record {
  sweep_id = some (codes "s");
  parent_run_uid = some uid;
  sweep_index = some 1;
  sweep_total = some 3;
  resumed_from = none;
  derived_from = none;
}

data_accepted : check_data (train ∷ evaluation ∷ []) ≡ ok tt
unfolding check_data pair_eq list_eq ℕ_discrete
data_accepted = refl

abbrev environment : Text
environment = codes "5:linux6:x86_644:1.900:0:"

abbrev envelope : ℕ → ConfigEnvelope ℕ
envelope dir = record {
  schema_version = codes "1.0";
  run_uid = uid;
  runvault = block;
  parameters = parameters 1 dir;
}

-- `run.json` of a run with two given hashes.
abbrev pub meta : Text → Text → Text → RunMeta plain
meta slug config execution = record {
  schema_version = codes "1.0";
  vocab_version = codes "1";
  runvault_version = codes "0.1";
  run_uid = uid;
  run_slug = slug;
  label = none;
  repo_id = codes "repo";
  experiment = codes "exp";
  subcommand = codes "main";
  domain = codes "abm";
  config_hash = config;
  execution_hash = execution;
  created_at = codes "2026-08-30T22:49:52Z";
  cli_args = [];
  origin = Run.code;
  visibility = Run.internal;
  code = code;
  env = record {
    env_hash = environment;
    host = codes "here";
    os = codes "linux";
    arch = codes "x86_64";
    rustc_version = some (codes "1.90");
    python_version = none;
  };
  rng = none;
  llm = none;
  data_used = train ∷ [];
  lineage = none;
  research = record {
    is_replication = false;
    work = none;
    targets = [];
    upstream_impl = none;
    obsidian_note = none;
    jira = [];
  };
  ext = none;
}

abbrev execution : Text
execution = codes "46:" ++ (condition ++ (codes "10:5:/seed1:16:c0ffee5:false0:25:" ++ environment))

abbrev run : RunMeta plain
run = meta (codes "main_a_b") condition execution

environment_runs :
    env_hash plain (codes "linux") (codes "x86_64") (some (codes "1.90")) none [] ≡ environment
unfolding env_hash env_input join_lp push_lp decimal locks_blob sort_on
environment_runs = refl

execution_runs :
    (dir : ℕ)
    → execution_hash plain condition (parameters 1 dir) exclusions code environment ≡ ok execution
unfolding execution_hash seed_blob ordered_seeds sort_on canonicalize Pointer_module.resolve
    resolve_tokens child list_eq ℕ_discrete write_number join_lp push_lp decimal
execution_runs dir = refl

hashes_accepted : (dir : ℕ) → check_hashes plain (ok (envelope dir)) run ≡ ok tt
unfolding check_hashes
hashes_accepted dir =
    rw
      (
        resolve_runs 1 dir,
        environment_runs,
        condition_runs 1 dir,
        execution_runs dir,
        compare_hash_same environment,
        compare_hash_same condition,
        compare_hash_same execution,
      )
      refl

check_hashes_sound_example :
    (c : ConfigEnvelope ℕ) × (e : Exclusions) × (ok (envelope 2) ≡ ok c) × Consistent plain c e run
check_hashes_sound_example = check_hashes_sound plain (ok (envelope 2)) run (hashes_accepted 2)

check_hashes-same_example :
    ((e : Exclusions) × (f : Exclusions) × (resolve block (parameters 1 2) ≡ ok e)
      × (resolve block (parameters 1 9) ≡ ok f)
      × SameRun plain (envelope 2) e run (envelope 9) f run)
    ⊎ Collision plain
check_hashes-same_example =
    check_hashes-same plain (envelope 2) (envelope 9) run run (hashes_accepted 2)
      (hashes_accepted 9) refl

abbrev pub slug : Text
slug = codes "main_20260830_224952_90dbd20f_cd76"

slug_runs :
    run_slug (codes "main") (codes "20260830_224952") (codes "90dbd20f11") (codes "cd76aa") none
    ≡ some slug
unfolding run_slug
slug_runs = refl

check_slug-run_slug_example :
    check_slug_matches_hashes plain slug (meta slug (codes "90dbd20f11") (codes "cd76aa")) ≡ ok tt
check_slug-run_slug_example =
    check_slug-run_slug plain (meta slug (codes "90dbd20f11") (codes "cd76aa")) (codes "main")
      (codes "20260830_224952") none (omega arith) (omega arith) (omega arith) (omega arith)
      slug_runs

abbrev table : CsvTable
table = record {
  header = codes "run_uid" ∷ codes "target_id" ∷ [];
  rows = (uid ∷ codes "t1" ∷ []) ∷ [];
}

check_reference_iff_example :
    (check_reference (ok (some table)) uid [] ≡ ok tt) ↔ IsReference uid [] table
check_reference_iff_example = check_reference_iff table uid []
