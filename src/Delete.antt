-- ===== src/Delete.antt =====
-- crates/runvault/src/delete.rs: which runs are selected for deletion, and what is asked of their
-- records before a path is built from them. The children read the tombstones, scan the two trees,
-- plan and execute.
pub mod Anew
mod Codec
pub mod Crashes
pub mod Execute
pub mod Origin
pub mod Plan
pub mod Planned
pub mod Recovery
pub mod Removed
pub mod Safety
pub mod Scan
pub mod Scanned
pub mod Settled
pub mod Stages
pub mod Tombstones
mod Scenario
mod Tests
use rs_runvault.Base.{
  ℕ, Bool, true, false, not, ◌&&◌, ◌||◌, List, [], ◌∷◌, Option, none, some, Text, codes, all,
  contains, ◌==◌, nat_eq, list_eq, if◌then◌else◌,
}
use rs_runvault.Error.{
  Result, ok, err, spec, bad_path_fields, runs_differ, uid_differs, states_differ, no_state,
  not_failed, no_lock, still_running, lock_is_stale, refuse_if, ◌>>=◌, ◌>>◌,
}
use rs_runvault.Ids.{validate_slug, is_run_uid, slug_char, slug_hash_prefixes}
use rs_runvault.Canonical.{Library}
use rs_runvault.Lock.{Moment, LockRecord, liveness, running, stale}
use rs_runvault.Tree.{FilePath}
use rs_runvault.Meta.Run.{RunMeta}
use rs_runvault.Status.{State, finished, failed, RunStatus}

pub data Selection : Type 0 where
  run_uids : List Text → Selection
  failed_experiment : Text → Selection

unfoldable pub selected : Selection → Text → Text → Bool
selected (run_uids uids) uid experiment = contains uids uid
selected (failed_experiment wanted) uid experiment = wanted == experiment

unfoldable pub valid_run_slug : Text → Bool
valid_run_slug s = all slug_char s && elim (slug_hash_prefixes s) [ some _ ↦ true | none ↦ false ]

-- `!=` of two states.
abbrev states_apart : State → State → Bool
states_apart finished failed = true
states_apart failed finished = true
states_apart finished finished = false
states_apart failed failed = false

module _ (lib : Library) where
  unfoldable pub validate_meta_path_fields : RunMeta lib → Result (Unit {0})
  validate_meta_path_fields m = do
    validate_slug (codes "experiment") m.experiment
    refuse_if (not (is_run_uid m.run_uid) || not (valid_run_slug m.run_slug)) (spec bad_path_fields)

  pub record Found : Type 0 where
    pub found_meta : Option (RunMeta lib)
    pub found_status : Option (RunStatus lib.Float)
    pub source : Option FilePath
    pub vault : Option FilePath
    pub source_unfinished : Bool

  -- `Found::default()`
  abbrev pub no_found : Found
  no_found = record {
    found_meta = none;
    found_status = none;
    source = none;
    vault = none;
    source_unfinished = false;
  }

  unfoldable pub merge_meta : Found → RunMeta lib → Result Found
  merge_meta entry m = elim entry.found_meta [
    | none ↦ ok (record entry { found_meta = some m })
    | some old ↦ do
      refuse_if
          (not (old.run_uid == m.run_uid)
            || not (old.run_slug == m.run_slug)
            || not (old.experiment == m.experiment))
          (spec runs_differ)
      ok (record entry { found_meta = some m })
  ]

  abbrev other_uid : Option (RunMeta lib) → RunStatus lib.Float → Bool
  other_uid none s = false
  other_uid (some m) s = not (m.run_uid == s.run_uid)

  abbrev other_state : Option (RunStatus lib.Float) → RunStatus lib.Float → Bool
  other_state none s = false
  other_state (some old) s = states_apart old.state s.state

  unfoldable pub merge_status : Found → Option (RunStatus lib.Float) → Result Found
  merge_status entry none = ok entry
  merge_status entry (some s) = do
    refuse_if (other_uid entry.found_meta s) (spec uid_differs)
    refuse_if (other_state entry.found_status s) (spec states_differ)
    ok (record entry { found_status = some s })

  -- The part of `eligible_state` that judges a status: the run is not an unfinished source.
  unfoldable pub eligible_status : Option (RunStatus lib.Float) → Bool → Bool → Result State
  eligible_status none include_succeeded tombstoned = err (spec no_state)
  eligible_status (some s) include_succeeded tombstoned = elim s.state [
    | failed ↦ ok failed
    | finished ↦ if include_succeeded || tombstoned then ok finished else err (spec not_failed)
  ]

  -- The part that judges an unfinished source by its lock.
  unfoldable pub eligible_lock : Moment → Result (Option LockRecord) → Result State
  eligible_lock moment lock = lock >>= (λ read. elim read [
    | none ↦ err (spec no_lock)
    | some r ↦ elim (liveness moment r) [
      | running ↦ err (spec still_running)
      | stale ↦ err (spec lock_is_stale)
    ]
  ])

  -- An unfinished source has a path, which `expect` relies on: `scan_sources` writes both.
  unfoldable pub eligible_state :
      Moment → (FilePath → Result (Option LockRecord)) → Found → Bool → Bool → Result State
  eligible_state moment lock f include_succeeded tombstoned =
      if f.source_unfinished
      then elim f.source [ none ↦ err (spec no_lock) | some dir ↦ eligible_lock moment (lock dir) ]
      else eligible_status f.found_status include_succeeded tombstoned
