-- ===== src/Delete/Scan.antt =====
-- crates/runvault/src/delete.rs: `scan_sources` and `scan_vault`. The directories that are listed,
-- and what is read of the files in them, enter in the order of the listing.
use rs_runvault.Base.{
  Bool, true, false, not, ◌&&◌, ◌||◌, List, [], ◌∷◌, Option, none, some, Text, codes, contains,
  ◌==◌, nat_eq, list_eq, option_eq, if◌then◌else◌,
}
use rs_runvault.Error.{Result, ok, err, spec, wrong_repo, legacy_selected, refuse_if, ◌>>=◌, ◌>>◌}
use rs_runvault.Ids.{is_run_uid}
use rs_runvault.Canonical.{Library}
use rs_runvault.Tree.{FilePath}
use rs_runvault.Meta.Run.{RunMeta}
use rs_runvault.Status.{finished, failed, RunStatus}
use rs_runvault.Verify.Walk.{get}
use rs_runvault.Delete.{
  Selection, run_uids, failed_experiment, selected, validate_meta_path_fields, Found, no_found,
  merge_meta, merge_status,
}
use rs_runvault.Delete.Tombstones.{is_some}

-- The value of a key is replaced, or the key is added.
unfoldable pub update {ℓ} : {A : Type ℓ} → Text → A → List (Text × A) → List (Text × A)
update key a [] = (key, a) ∷ []
update key a ((k, b) ∷ rest) =
    let later = update key a rest in if k == key then (k, a) ∷ rest else (k, b) ∷ later

-- `transpose`
abbrev pub transpose {ℓ} : {A : Type ℓ} → Option (Result A) → Result (Option A)
transpose none = ok none
transpose (some (ok a)) = ok (some a)
transpose (some (err e)) = err e

-- `.ok()`
abbrev readable {ℓ} : {A : Type ℓ} → Option (Result A) → Option A
readable none = none
readable (some (ok a)) = some a
readable (some (err e)) = none

module _ (lib : Library) where
  -- A run directory below the results root: the first component of its path there, and what is read
  -- of `run.json` and `status.json`, where they are files.
  pub record SourceRun : Type 0 where
    pub dir : FilePath
    pub experiment : Option Text
    pub run_json : Option (Result (RunMeta lib))
    pub status_json : Option (Result (RunStatus lib.Float))

  -- A directory below the directory of an experiment in the vault.
  pub record VaultRun : Type 0 where
    pub dir : FilePath
    pub experiment : Text
    pub name : Text
    pub run_json : Result (RunMeta lib)
    pub status_json : Result (Option (RunStatus lib.Float))

  abbrev failed_run : RunStatus lib.Float → Bool
  failed_run s = elim s.state [ failed ↦ true | finished ↦ false ]

  unfoldable pub selected_legacy : Selection → Option Text → Option (RunStatus lib.Float) → Bool
  selected_legacy selection experiment none = false
  selected_legacy (run_uids uids) experiment (some s) = contains uids s.run_uid
  selected_legacy (failed_experiment wanted) experiment (some s) =
      experiment == some wanted && failed_run s

  unfoldable pub reject_selected_legacy : SourceRun → Selection → Result (Unit {0})
  reject_selected_legacy run selection =
      refuse_if (selected_legacy selection run.experiment (readable run.status_json))
        (spec legacy_selected)

  -- `found.entry(uid).or_default()`
  unfoldable pub entry : Text → List (Text × Found lib) → Found lib
  entry uid found = elim (get uid found) [ none ↦ no_found lib | some f ↦ f ]

  -- The part behind the selection.
  unfoldable pub take_source :
      Text → SourceRun → RunMeta lib → List (Text × Found lib) → Result (List (Text × Found lib))
  take_source repo_id run m found = do
    refuse_if (not (m.repo_id == repo_id)) (spec wrong_repo)
    validate_meta_path_fields lib m
    status ← transpose run.status_json
    merged ← merge_meta lib (entry m.run_uid found) m
    f ← merge_status lib merged status
    ok (
        update m.run_uid
          (record f { source = some run.dir; source_unfinished = not (is_some run.status_json) })
          found)

  unfoldable pub scan_source :
      Text
      → Selection
      → SourceRun
      → Option (Result (RunMeta lib))
      → List (Text × Found lib)
      → Result (List (Text × Found lib))
  scan_source repo_id selection run none found = do reject_selected_legacy run selection; ok found
  scan_source repo_id selection run (some (err e)) found = err e
  scan_source repo_id selection run (some (ok m)) found =
      if not (selected selection m.run_uid m.experiment)
      then ok found
      else take_source repo_id run m found

  unfoldable pub scan_sources :
      Text → Selection → List SourceRun → List (Text × Found lib) → Result (List (Text × Found lib))
  scan_sources repo_id selection [] found = ok found
  scan_sources repo_id selection (run ∷ runs) found = do
    next ← scan_source repo_id selection run run.run_json found
    scan_sources repo_id selection runs next

  -- The part behind the selection.
  unfoldable pub take_vault :
      Text → VaultRun → RunMeta lib → List (Text × Found lib) → Result (List (Text × Found lib))
  take_vault repo_id run m found = do
    refuse_if (not (m.repo_id == repo_id) || not (m.run_uid == run.name)) (spec wrong_repo)
    validate_meta_path_fields lib m
    status ← run.status_json
    merged ← merge_meta lib (entry run.name found) m
    f ← merge_status lib merged status
    ok (update run.name (record f { vault = some run.dir }) found)

  unfoldable pub scan_vault_run :
      Text → Selection → VaultRun → List (Text × Found lib) → Result (List (Text × Found lib))
  scan_vault_run repo_id selection run found =
      if run.name == codes "by-slug"
        || not (selected selection run.name run.experiment)
        || not (is_run_uid run.name)
      then ok found
      else (run.run_json >>= (λ m. take_vault repo_id run m found))

  unfoldable pub scan_vault :
      Text → Selection → List VaultRun → List (Text × Found lib) → Result (List (Text × Found lib))
  scan_vault repo_id selection [] found = ok found
  scan_vault repo_id selection (run ∷ runs) found = do
    next ← scan_vault_run repo_id selection run found
    scan_vault repo_id selection runs next
