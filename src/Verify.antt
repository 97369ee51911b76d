-- ===== src/Verify.antt =====
-- crates/runvault/src/verify.rs: the invariants of a run directory that one file, or two, decide.
-- What is read from the disk enters as the result of reading it.
pub mod Contents
pub mod Records
pub mod Data
pub mod Hashes
pub mod Lines
pub mod Walk
pub mod Research
pub mod Slug
pub mod Tables
pub mod Tests
use rs_runvault.Base.{
  ℕ, Bool, true, false, not, ◌&&◌, ◌||◌, List, [], ◌∷◌, Option, none, some, Text, codes, ltb, leb,
  ◌==◌, nat_eq, list_eq, option_eq, pair_eq, contains, if◌then◌else◌, map,
}
use rs_runvault.Error.{
  Result, ok, err, Error, spec, verify, refuse_if, ◌>>=◌, ◌>>◌, slug_differs, no_hash_prefixes,
  cfg8_differs, exec4_differs, config_uid_differs, status_uid_differs, failed_without_error,
  finished_with_error, finished_with_exit_code, wrong_schema_version, not_a_run_uid, not_a_date,
  negative_duration, low_collision_index, empty_error_kind, empty_error_message, stale_lock,
  parent_without_sweep, index_without_sweep, total_without_index, index_past_total,
  resumed_and_derived, hash_differs, repeated_dataset, hash_without_scope,
}
use rs_runvault.Ids.{is_run_uid, slug_hash_prefixes}
use rs_runvault.Canonical.{Library, ℤ, pos, negsuc}
use rs_runvault.Config.{ConfigEnvelope, resolve}
use rs_runvault.Meta.{Lineage, Dataset, Code, Lock}
use rs_runvault.Meta.Run.{RunMeta}
use rs_runvault.Status.{State, finished, failed, RunStatus, StatusError}
use rs_runvault.Hash.{env_hash, config_hash, execution_hash}

-- `str::starts_with`
unfoldable pub starts_with : Text → Text → Bool
starts_with s [] = true
starts_with [] (p ∷ prefix) = false
starts_with (c ∷ s) (p ∷ prefix) = c == p && starts_with s prefix

abbrev pub is_some {ℓ} : {A : Type ℓ} → Option A → Bool
is_some none = false
is_some (some a) = true

-- `!=` of two flags.
abbrev differ : Bool → Bool → Bool
differ true b = not b
differ false b = b

abbrev is_failed : State → Bool
is_failed finished = false
is_failed failed = true

abbrev is_zero_code : ℤ → Bool
is_zero_code (pos n) = n == 0
is_zero_code (negsuc n) = false

-- What the program calls of chrono and of `f64`: whether `parse_from_rfc3339` succeeds, and
-- `d < 0.0`.
pub record Clock (Float : Type 0) : Type 0 where
  pub is_rfc3339 : Text → Bool
  pub is_negative : Float → Bool

-- The two tests of an `Option`: `if let Some(x) = o && bad(x)`.
abbrev some_and {ℓ} : {A : Type ℓ} → Option A → (A → Bool) → Bool
some_and none f = false
some_and (some a) f = f a

module _ {Float : Type 0} (clock : Clock Float) where
  open clock use {is_rfc3339, is_negative}

  unfoldable pub check_status_schema : RunStatus Float → Result (Unit {0})
  check_status_schema s = do
    refuse_if (is_failed s.state && not (is_some s.error)) (verify failed_without_error)
    refuse_if (not (is_failed s.state) && is_some s.error) (verify finished_with_error)
    refuse_if (not (is_failed s.state) && some_and s.exit_code (λ c. not (is_zero_code c)))
        (verify finished_with_exit_code)
    refuse_if (not (s.schema_version == codes "1.0")) (verify wrong_schema_version)
    refuse_if (not (is_run_uid s.run_uid)) (verify not_a_run_uid)
    refuse_if (not (is_rfc3339 s.started_at)) (verify not_a_date)
    refuse_if (not (is_rfc3339 s.finished_at)) (verify not_a_date)
    refuse_if (is_negative s.duration_sec) (verify negative_duration)
    refuse_if (some_and s.collision_index (λ i. ltb i 2)) (verify low_collision_index)
    refuse_if (some_and s.error (λ e. e.kind == [])) (verify empty_error_kind)
    refuse_if (some_and s.error (λ e. e.message == [])) (verify empty_error_message)

  -- `status.json` as it is read, where there is one, and whether `.runvault.lock` is there.
  unfoldable pub check_status : Option (Result (RunStatus Float)) → Bool → Text → Result (Unit {0})
  check_status none locked uid = ok tt
  check_status (some file) locked uid = do
    status ← file
    refuse_if (not (status.run_uid == uid)) (verify status_uid_differs)
    check_status_schema status
    refuse_if locked (verify stale_lock)

-- Of a lineage that is there.
unfoldable pub check_lineage_fields : Lineage → Result (Unit {0})
check_lineage_fields l = do
  refuse_if (is_some l.parent_run_uid && not (is_some l.sweep_id)) (spec parent_without_sweep)
  refuse_if (is_some l.sweep_index && not (is_some l.sweep_id)) (spec index_without_sweep)
  refuse_if (is_some l.sweep_total && not (is_some l.sweep_index)) (spec total_without_index)
  refuse_if (some_and l.sweep_index (λ i. some_and l.sweep_total (λ n. leb n i)))
      (spec index_past_total)
  refuse_if (is_some l.resumed_from && is_some l.derived_from) (spec resumed_and_derived)

unfoldable pub check_lineage_shape : Option Lineage → Result (Unit {0})
check_lineage_shape none = ok tt
check_lineage_shape (some l) = check_lineage_fields l

-- The loop of `check_data`, with the set of the keys seen.
check_data_loop : List (Text × Text) → List Dataset → Result (Unit {0})
check_data_loop seen [] = ok tt
check_data_loop seen (d ∷ ds) = do
  refuse_if (contains seen (d.role, d.name)) (verify repeated_dataset)
  refuse_if (differ (is_some d.hash) (is_some d.hash_scope)) (verify hash_without_scope)
  check_data_loop ((d.role, d.name) ∷ seen) ds

unfoldable pub check_data : List Dataset → Result (Unit {0})
unfolding check_data_loop
check_data ds = check_data_loop [] ds

unfoldable pub compare_hash : Text → Text → Result (Unit {0})
compare_hash recorded recomputed = refuse_if (not (recorded == recomputed)) (verify hash_differs)

abbrev pub locks_of : Option Code → List Lock
locks_of none = []
locks_of (some c) = c.locks

module _ (lib : Library) where
  open lib use {Number}

  -- The name of the directory is the first argument.
  unfoldable pub check_slug_matches_hashes : Text → RunMeta lib → Result (Unit {0})
  check_slug_matches_hashes name m = do
    refuse_if (not (name == m.run_slug)) (verify slug_differs)
    elim (slug_hash_prefixes m.run_slug) [
      | none ↦ err (verify no_hash_prefixes)
      | some (cfg8, exec4) ↦ do
        refuse_if (not (starts_with m.config_hash cfg8)) (verify cfg8_differs)
        refuse_if (not (starts_with m.execution_hash exec4)) (verify exec4_differs)
    ]

  -- `config.json` as it is read.
  unfoldable pub check_config : Result (ConfigEnvelope Number) → RunMeta lib → Result (Unit {0})
  check_config file m = do
    config ← file
    refuse_if (not (config.run_uid == m.run_uid)) (verify config_uid_differs)
    exclusions ← resolve config.runvault config.parameters
    ok tt

  unfoldable pub check_hashes : Result (ConfigEnvelope Number) → RunMeta lib → Result (Unit {0})
  check_hashes file m = do
    config ← file
    exclusions ← resolve config.runvault config.parameters
    let env =
        env_hash lib m.env.os m.env.arch m.env.rustc_version m.env.python_version (locks_of m.code)
    compare_hash m.env.env_hash env
    condition ← config_hash lib config.parameters exclusions m.data_used
    compare_hash m.config_hash condition
    execution ← execution_hash lib condition config.parameters exclusions m.code env
    compare_hash m.execution_hash execution
