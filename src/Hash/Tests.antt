-- ===== src/Hash/Tests.antt =====
-- The hashes of concrete runs. The digest of the test library keeps the bytes.
use mathlib.Core.List.Perm as Perm
use rs_runvault.Base.{
  ℕ, false, [], ◌∷◌, List, none, some, Option, Text, codes, arith, ◌≡◌, ◌≢◌, ◌⊎◌, inl, refl,
  ℕ_discrete, list_eq,
}
use rs_runvault.Base.Decimal.{decimal}
use rs_runvault.Base.Sort.{sort_on}
use rs_runvault.Error.{ok}
use rs_runvault.Json.{number}
use rs_runvault.Pointer.{parse, prune, resolve, resolve_tokens, child}
use rs_runvault.Pointer.Prune.{replace}
use rs_runvault.Config.{removed_from_config, ordered_seeds}
use rs_runvault.Config.Tests.{block, pointer, parameters, exclusions, resolve_runs}
use rs_runvault.Meta.{Lock, LockKind, cargo, uv, blake3, Code, Dataset, hash_scope_str}
use rs_runvault.Canonical.{canonicalize, write_number, write_string_raw}
use rs_runvault.Canonical.Framing.{join_lp, push_lp}
use rs_runvault.Canonical.Tests.{plain}
use rs_runvault.Hash.{
  or_empty, lock_key, dataset_key, env_hash, config_hash, execution_hash, seed_blob, data_identity,
}
use rs_runvault.Hash.Order.{env_hash-perm}
use rs_runvault.Hash.Collisions.{
  Collision, locks_said, data_said, env_hash-injective, config_hash-injective,
}
use rs_runvault.Hash.Executions.{SameCode, seeds_said, execution_hash-injective}
use rs_runvault.Hash.Conditions.{config_hash-replace}

abbrev lock : LockKind → Text → Lock
lock kind file = record {
  kind = kind;
  hash = record { algorithm = blake3; value = codes "00" };
  file = file;
}

abbrev cargo_lock : Lock
cargo_lock = lock cargo (codes "Cargo.lock")

abbrev uv_lock : Lock
uv_lock = lock uv (codes "uv.lock")

abbrev dataset : Text → Text → Dataset
dataset role name = record {
  role = role;
  name = name;
  dataset_id = none;
  version = some (codes "2");
  hash = none;
  hash_scope = none;
  n = some 10;
  uri = none;
  split = none;
}

abbrev pub train : Dataset
train = dataset (codes "train") (codes "a")

abbrev pub evaluation : Dataset
evaluation = dataset (codes "eval") (codes "b")

abbrev pub code : Option Code
code = some (record {
  git_remote = none;
  git_branch = some (codes "main");
  git_commit = codes "c0ffee";
  git_dirty = false;
  dirty_hash = none;
  repo_relpath = none;
  locks = [];
})

abbrev linux : List Lock → Text
linux = env_hash plain (codes "linux") (codes "x86_64") (some (codes "1.90")) none

lock_keys_differ : lock_key cargo_lock ≢ lock_key uv_lock
unfolding lock_key
lock_keys_differ e = ground arith

dataset_keys_differ : dataset_key train ≢ dataset_key evaluation
unfolding dataset_key
dataset_keys_differ e = ground arith

parsed : parse (codes "/output_dir") ≡ ok (pointer (codes "output_dir"))
unfolding parse ℕ_discrete
parsed = refl

config_hash-replace_example :
    config_hash plain (parameters 1 9) exclusions (train ∷ [])
    ≡ config_hash plain (parameters 1 2) exclusions (train ∷ [])
unfolding replace list_eq ℕ_discrete
config_hash-replace_example =
    config_hash-replace plain block (parameters 1 2) (number 9) (codes "/output_dir") exclusions
      exclusions (train ∷ []) (inl refl) parsed (resolve_runs 1 2) (resolve_runs 1 9)

-- The same lock files in another order give the same environment hash.
same_environment : linux (cargo_lock ∷ uv_lock ∷ []) ≡ linux (uv_lock ∷ cargo_lock ∷ [])
same_environment =
    env_hash-perm plain (codes "linux") (codes "x86_64") (some (codes "1.90")) none
      (Perm.swap uv_lock cargo_lock []) ((lock_keys_differ, tt), (tt, tt))

env_hash-injective_example :
    ((codes "linux" ≡ codes "linux")
      × (codes "x86_64" ≡ codes "x86_64")
      × (or_empty (some (codes "1.90")) ≡ or_empty (some (codes "1.90")))
      × (or_empty none ≡ or_empty none)
      × (locks_said (cargo_lock ∷ uv_lock ∷ []) ≡ locks_said (uv_lock ∷ cargo_lock ∷ [])))
    ⊎ Collision plain
env_hash-injective_example =
    env_hash-injective plain (codes "linux") (codes "x86_64") (codes "linux") (codes "x86_64")
      (some (codes "1.90")) none (some (codes "1.90")) none (cargo_lock ∷ uv_lock ∷ [])
      (uv_lock ∷ cargo_lock ∷ []) same_environment

abbrev pub condition : Text
condition = codes "11:{\"rows\":13}29:5:train1:a0:1:20:0:0:0:0:2:10"

pub condition_runs :
    (seed dir : ℕ) → config_hash plain (parameters seed dir) exclusions (train ∷ []) ≡ ok condition
unfolding config_hash canonicalize prune sort_on removed_from_config list_eq ℕ_discrete write_number
    join_lp push_lp decimal write_string_raw data_identity hash_scope_str
condition_runs seed dir = refl

config_hash-injective_example :
    ((canonicalize plain (prune (parameters 1 2) (removed_from_config exclusions))
        ≡ canonicalize plain (prune (parameters 4 9) (removed_from_config exclusions)))
      × (data_said (train ∷ []) ≡ data_said (train ∷ [])))
    ⊎ Collision plain
config_hash-injective_example =
    config_hash-injective plain (parameters 1 2) (parameters 4 9) exclusions exclusions (train ∷ [])
      (train ∷ []) condition (condition_runs 1 2) (condition_runs 4 9)

abbrev execution : Text
execution = codes "2:c110:5:/seed1:16:c0ffee5:false0:2:e1"

execution_runs :
    (dir : ℕ)
    → execution_hash plain (codes "c1") (parameters 1 dir) exclusions code (codes "e1")
      ≡ ok execution
unfolding execution_hash seed_blob ordered_seeds sort_on canonicalize resolve resolve_tokens child
    list_eq ℕ_discrete write_number join_lp push_lp decimal
execution_runs dir = refl

execution_hash-injective_example :
    ((codes "c1" ≡ codes "c1")
      × (seeds_said plain (parameters 1 2) exclusions
          ≡ seeds_said plain (parameters 1 9) exclusions)
      × SameCode code code
      × (codes "e1" ≡ codes "e1"))
    ⊎ Collision plain
execution_hash-injective_example =
    execution_hash-injective plain (codes "c1") (codes "c1") (codes "e1") (codes "e1")
      (parameters 1 2) (parameters 1 9) exclusions exclusions code code execution (execution_runs 2)
      (execution_runs 9)
