-- ===== src/Delete/Plan.antt =====
-- crates/runvault/src/delete.rs: `plan`. The time, the host and the version are inputs.
use rs_runvault.Base.{
  Bool, true, false, not, List, [], ◌∷◌, Option, none, some, Text, codes, contains, map, filter,
  nat_eq, list_eq, if◌then◌else◌,
}
use rs_runvault.Base.Order.{text_ord}
use rs_runvault.Base.Sort.{sort_on}
use rs_runvault.Error.{
  Result, ok, err, spec, empty_reason, no_run_uid, not_a_run_uid, not_found_anywhere, refuse_if,
  ◌>>=◌, ◌>>◌,
}
use rs_runvault.Ids.{validate_slug, is_run_uid}
use rs_runvault.Canonical.{Library}
use rs_runvault.Lock.{Moment, LockRecord}
use rs_runvault.Tree.{FilePath}
use rs_runvault.Status.{State, finished, failed, RunStatus}
use rs_runvault.Verify.Walk.{get}
use rs_runvault.Verify.Research.{blank}
use rs_runvault.Delete.{Selection, run_uids, failed_experiment, Found, eligible_state}
use rs_runvault.Delete.Tombstones.{Tombstone, Lines, read, is_some}
use rs_runvault.Delete.Execute.{DeletePlan}
use rs_runvault.Delete.Scan.{SourceRun, VaultRun, scan_sources, scan_vault, entry}

check_uids : List Text → Result (Unit {0})
check_uids [] = ok tt
check_uids (uid ∷ uids) = do refuse_if (not (is_run_uid uid)) (spec not_a_run_uid); check_uids uids

unfoldable pub check_selection : Selection → Result (Unit {0})
unfolding check_uids
check_selection (run_uids []) = err (spec no_run_uid)
check_selection (run_uids (uid ∷ uids)) = check_uids (uid ∷ uids)
check_selection (failed_experiment experiment) = validate_slug (codes "experiment") experiment

unfoldable pub without_repeats : List Text → List Text
without_repeats [] = []
without_repeats (x ∷ xs) = let rest = without_repeats xs in if contains xs x then rest else x ∷ rest

-- A `BTreeSet` of texts, in the order in which it is walked.
unfoldable pub to_set : List Text → List Text
unfolding without_repeats
to_set xs = sort_on (λ t. t) (without_repeats xs)

pub record Context : Type 0 where
  pub deleted_at : Text
  pub host : Text
  pub runvault_version : Text
  pub vault_root : FilePath
  pub moment : Moment
  pub lock : FilePath → Result (Option LockRecord)

module _ (lib : Library) where
  abbrev has_failed : Option (RunStatus lib.Float) → Bool
  has_failed none = false
  has_failed (some s) = elim s.state [ failed ↦ true | finished ↦ false ]

  unfoldable pub target_uids : Selection → List (Text × Found lib) → List Text
  target_uids (run_uids uids) found = to_set uids
  target_uids (failed_experiment experiment) found =
      to_set (map (λ x. x.0) (filter (λ x. has_failed x.1.found_status) found))

  module _ (context : Context) (repo_id reason : Text) where
    abbrev new_tombstone : Text → Text → Text → State → Tombstone
    new_tombstone uid experiment run_slug state = record {
      schema_version = codes "1.0";
      run_uid = uid;
      repo_id = repo_id;
      experiment = experiment;
      run_slug = run_slug;
      state = state;
      deleted_at = context.deleted_at;
      host = context.host;
      reason = reason;
      runvault_version = context.runvault_version;
    }

    abbrev or_new : Option Tombstone → Tombstone → Tombstone
    or_new (some old) new = old
    or_new none new = new

    unfoldable pub delete_plan :
        Text → Found lib → Option Tombstone → Text → Text → State → DeletePlan
    delete_plan uid item old experiment run_slug state = record {
      run_uid = uid;
      run_slug = run_slug;
      experiment = experiment;
      source_dir = item.source;
      vault_dir = item.vault;
      tombstone = or_new old (new_tombstone uid experiment run_slug state);
      vault_root = context.vault_root;
      already_tombstoned = is_some old;
    }

    -- The body of the loop over the targets. They are distinct, so `remove` reads the entry.
    unfoldable pub plan_one : Bool → Text → Found lib → Option Tombstone → Result DeletePlan
    plan_one include_succeeded uid item old = elim item.found_meta [
      | some m ↦ do
        state ← eligible_state lib context.moment context.lock item include_succeeded (is_some old)
        ok (delete_plan uid item old m.experiment m.run_slug state)
      | none ↦ elim old [
        | some o ↦ ok (delete_plan uid item (some o) o.experiment o.run_slug o.state)
        | none ↦ err (spec not_found_anywhere)
      ]
    ]

    unfoldable pub plan_targets :
        Bool
        → List (Text × Tombstone)
        → List (Text × Found lib)
        → List Text
        → Result (List DeletePlan)
    plan_targets include_succeeded tombstones found [] = ok []
    plan_targets include_succeeded tombstones found (uid ∷ uids) = do
      first ← plan_one include_succeeded uid (entry lib uid found) (get uid tombstones)
      rest ← plan_targets include_succeeded tombstones found uids
      ok (first ∷ rest)

    unfoldable pub plan :
        Lines
        → Option (List Text)
        → List (SourceRun lib)
        → List (VaultRun lib)
        → Selection
        → Bool
        → Result (List DeletePlan)
    plan lines deleted sources vaults selection include_succeeded = do
      validate_slug (codes "repo_id") repo_id
      refuse_if (blank reason) (spec empty_reason)
      check_selection selection
      tombstones ← read lines repo_id deleted
      with_sources ← scan_sources lib repo_id selection sources []
      found ← scan_vault lib repo_id selection vaults with_sources
      plan_targets include_succeeded tombstones found (target_uids selection found)
