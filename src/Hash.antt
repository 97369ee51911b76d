-- ===== src/Hash.antt =====
-- crates/runvault/src/hash.rs: the three hashes.
pub mod Order
pub mod Collisions
pub mod Executions
pub mod Conditions
pub mod Tests
use rs_runvault.Base.{
  ℕ, Bool, true, false, List, [], ◌∷◌, Option, none, some, Text, codes, if◌then◌else◌,
}
use rs_runvault.Base.Decimal.{decimal}
use rs_runvault.Base.Order.{text_ord, pair_ord}
use rs_runvault.Base.Sort.{sort_on}
use rs_runvault.Error.{Result, ok, ◌>>=◌}
use rs_runvault.Json.{Value, null}
use rs_runvault.Pointer.{Pointer, resolve, prune}
use rs_runvault.Config.{Exclusions, removed_from_config, ordered_seeds}
use rs_runvault.Meta.{
  Algorithm, algorithm_str, HashScope, Hash, LockKind, kind_str, Lock, Code, Dataset,
  hash_scope_str,
}
use rs_runvault.Canonical.{Library, canonicalize}
use rs_runvault.Canonical.Framing.{push_lp, join_lp}

-- `as_deref().unwrap_or("")`
abbrev pub or_empty : Option Text → Text
or_empty none = []
or_empty (some t) = t

pub lock_key : Lock → Text × Text
lock_key lock = (kind_str lock.kind, lock.file)

push_locks : Text → List Lock → Text
push_locks blob [] = blob
push_locks blob (lock ∷ locks) =
    push_locks
      (push_lp
        (push_lp (push_lp (push_lp blob (kind_str lock.kind)) lock.file)
          (algorithm_str lock.hash.algorithm))
        lock.hash.value)
      locks

unfoldable pub locks_blob : List Lock → Text
unfolding push_locks lock_key
locks_blob locks = push_locks [] (sort_on lock_key locks)

unfoldable pub dataset_key : Dataset → Text × Text
dataset_key d = (d.role, d.name)

hash_algorithm : Option Hash → Text
hash_algorithm none = []
hash_algorithm (some h) = algorithm_str h.algorithm

abbrev hash_value : Option Hash → Text
hash_value none = []
hash_value (some h) = h.value

abbrev count_text : Option ℕ → Text
count_text none = []
count_text (some n) = decimal n

push_data : Text → List Dataset → Text
unfolding hash_algorithm
push_data blob [] = blob
push_data blob (d ∷ ds) =
    let a = push_lp (push_lp blob d.role) d.name in
    let b =
      push_lp (push_lp (push_lp a (or_empty d.dataset_id)) (or_empty d.version))
        (or_empty d.split) in
    let c = push_lp (push_lp b (hash_algorithm d.hash)) (hash_value d.hash) in
    let e = push_lp (push_lp c (hash_scope_str d.hash_scope)) (or_empty d.uri) in
    push_data (push_lp e (count_text d.n)) ds

unfoldable pub data_identity : List Dataset → Text
unfolding push_data dataset_key
data_identity ds = push_data [] (sort_on dataset_key ds)

-- The bytes that `env_hash` hashes.
unfoldable pub env_input : Text → Text → Option Text → Option Text → List Lock → Text
env_input os arch rustc_version python_version locks =
    join_lp (os ∷ arch ∷ or_empty rustc_version ∷ or_empty python_version ∷ locks_blob locks ∷ [])

-- The commit, the dirty flag and the digest of the working tree.
unfoldable pub code_inputs : Option Code → Text × Text × Text
code_inputs none = ([], [], [])
code_inputs (some c) = (
  c.git_commit,
  if c.git_dirty then codes "true" else codes "false",
  elim c.dirty_hash [ some h ↦ h.value | none ↦ [] ],
)

module _ (lib : Library) where
  open lib use {Number, blake3_hex}

  unfoldable pub env_hash : Text → Text → Option Text → Option Text → List Lock → Text
  env_hash os arch rustc_version python_version locks =
      blake3_hex (env_input os arch rustc_version python_version locks)

  unfoldable pub config_hash : Value Number → Exclusions → List Dataset → Result Text
  config_hash parameters exclusions ds = do
    text ← canonicalize lib (prune parameters (removed_from_config exclusions))
    ok (blake3_hex (join_lp (text ∷ data_identity ds ∷ [])))

  -- `pointer.resolve(parameters).cloned().unwrap_or(Value::Null)`
  seed_value : Value Number → Pointer → Value Number
  seed_value parameters pointer = elim (resolve pointer parameters) [ some v ↦ v | none ↦ null ]

  seed_loop : Value Number → Text → List Pointer → Result Text
  unfolding seed_value
  seed_loop parameters blob [] = ok blob
  seed_loop parameters blob (pointer ∷ pointers) = do
    text ← canonicalize lib (seed_value parameters pointer)
    seed_loop parameters (push_lp (push_lp blob pointer.raw) text) pointers

  unfoldable pub seed_blob : Value Number → Exclusions → Result Text
  unfolding seed_loop
  seed_blob parameters exclusions = seed_loop parameters [] (ordered_seeds exclusions)

  unfoldable pub execution_hash :
      Text → Value Number → Exclusions → Option Code → Text → Result Text
  unfolding code_inputs
  execution_hash config parameters exclusions code env = do
    seeds ← seed_blob parameters exclusions
    let (commit, dirty, dirty_hash) = code_inputs code
    ok (blake3_hex (join_lp (config ∷ seeds ∷ commit ∷ dirty ∷ dirty_hash ∷ env ∷ [])))
