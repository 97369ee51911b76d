-- ===== src/Delete/Scenario.antt =====
-- A run that stands in both trees, planned for deletion and cut off while its copy in the vault is
-- removed.
use rs_runvault.Base.{
  true, false, [], ◌∷◌, ◌++◌, none, some, Text, codes, ◌≡◌, ◌⊎◌, inl, inr, refl, arith, list_eq,
  ℕ_discrete, length,
}
use rs_runvault.Error.{ok}
use rs_runvault.Canonical.Tests.{plain}
use rs_runvault.Canonical.{pos}
use rs_runvault.Tree.{
  FilePath, directory, leaf, Tree, at, exists, under, create_dir_all, is_dir, remove_dir_all,
  unlink, is_empty, remove_dir,
}
use rs_runvault.Tree.Laws.{all_seen, keep, drop}
use rs_runvault.Status.{finished}
use rs_runvault.Verify.Research.{blank}
use rs_runvault.Verify.Tests.{meta, slug, status}
use mathlib.Core.Option.{some-injective}
use rs_runvault.Base.{option_eq, ap, subst}
use rs_runvault.Base.Order.{text_ord}
use rs_runvault.Base.Sort.{sort_on}
use rs_runvault.Ids.{validate_slug, is_run_uid, slug_hash_prefixes, slug_char}
use rs_runvault.Verify.Walk.{get}
use rs_runvault.Delete.{
  run_uids, selected, validate_meta_path_fields, valid_run_slug, merge_meta, merge_status,
  eligible_state, eligible_status,
}
use rs_runvault.Delete.Tombstones.{read, read_lines, malformed, or_insert}
use rs_runvault.Delete.Scan.{
  scan_sources, scan_source, take_source, entry, scan_vault, scan_vault_run, take_vault, update,
}
use rs_runvault.Delete.Plan.{
  check_selection, delete_plan, plan_one, plan_targets, target_uids, to_set,
}
use rs_runvault.Delete.Tombstones.{Tombstone, contains}
use rs_runvault.Delete.Scan.{SourceRun, VaultRun}
use rs_runvault.Delete.Plan.{Context, plan}
use rs_runvault.Delete.Execute.{
  DeletePlan, Disk, execute, append_tombstone, remove_vault, remove_copy, remove_source, drop_empty,
  slug_dir,
}
use rs_runvault.Delete.Stages.{Gone}
use rs_runvault.Delete.Settled.{Disjoint}
use rs_runvault.Delete.Recovery.{Interrupted, in_vault, vault_removed}
use rs_runvault.Delete.Removed.{Belongs}
use rs_runvault.Delete.Codec.{lines, faithful, write_tombstone, read_tombstone}
use rs_runvault.Delete.Crashes.{cut_off_safe}
use rs_runvault.Delete.Anew.{IsAnew, replanned_resumes}

abbrev uid : Text
uid = codes "01ARZ3NDEKTSV4RRFFQ69G5FAV"

abbrev source_path : FilePath
source_path = codes "results" ∷ codes "exp" ∷ slug ∷ []

abbrev vault_path : FilePath
vault_path = codes "vault" ∷ codes "repo" ∷ codes "exp" ∷ uid ∷ []

abbrev slug_path : FilePath
slug_path = codes "vault" ∷ codes "repo" ∷ codes "exp" ∷ codes "by-slug" ∷ slug ∷ []

abbrev above : Tree
above =
    (codes "vault" ∷ [], directory)
    ∷ (codes "vault" ∷ codes "repo" ∷ [], directory)
    ∷ (codes "vault" ∷ codes "repo" ∷ codes "exp" ∷ codes "other" ∷ [], directory)
    ∷ []

abbrev tree_below : Tree → Tree
tree_below copy =
    (source_path, directory)
      ∷ (source_path ++ codes "run.json" ∷ [], leaf)
      ∷ (vault_path, directory)
      ∷ copy
    ++ (slug_path, directory) ∷ (slug_path ++ uid ∷ [], leaf) ∷ above

abbrev disk : Disk
disk = record {
  deleted = none;
  tree = tree_below ((vault_path ++ codes "run.json" ∷ [], leaf) ∷ []);
}

abbrev context : Context
context = record {
  deleted_at = codes "2026-09-01T00:00:00Z";
  host = codes "here";
  runvault_version = codes "0.1";
  vault_root = codes "vault" ∷ [];
  moment = record {
    this_host = codes "here";
    started_at = λ pid. none;
    seconds_since = λ t. some (pos 10);
  };
  lock = λ p. ok none;
}

abbrev source_run : SourceRun plain
source_run = record {
  dir = source_path;
  experiment = some (codes "exp");
  run_json = some (ok (meta slug (codes "90dbd20f11") (codes "cd76aa")));
  status_json = some (ok status);
}

abbrev vault_run : VaultRun plain
vault_run = record {
  dir = vault_path;
  experiment = codes "exp";
  name = uid;
  run_json = ok (meta slug (codes "90dbd20f11") (codes "cd76aa"));
  status_json = ok (some status);
}

abbrev tombstone : Tombstone
tombstone = record {
  schema_version = codes "1.0";
  run_uid = uid;
  repo_id = codes "repo";
  experiment = codes "exp";
  run_slug = slug;
  state = finished;
  deleted_at = codes "2026-09-01T00:00:00Z";
  host = codes "here";
  reason = codes "wrong data";
  runvault_version = codes "0.1";
}

abbrev planned : DeletePlan
planned = record {
  run_uid = uid;
  run_slug = slug;
  experiment = codes "exp";
  source_dir = some source_path;
  vault_dir = some vault_path;
  tombstone = tombstone;
  vault_root = codes "vault" ∷ [];
  already_tombstoned = false;
}

plan_runs :
    plan plain context
      (codes "repo")
      (codes "wrong data")
      lines
      none
      (source_run ∷ [])
      (vault_run ∷ [])
      (run_uids (uid ∷ []))
      true
    ≡ ok (planned ∷ [])
unfolding plan validate_slug blank ℕ_discrete check_selection is_run_uid read scan_sources
    scan_source selected list_eq take_source validate_meta_path_fields valid_run_slug
    slug_hash_prefixes merge_meta entry get option_eq text_ord sort_on delete_plan plan_one
    plan_targets target_uids to_set scan_vault scan_vault_run take_vault update eligible_state
    eligible_status merge_status slug_char
plan_runs = refl

cut :
    Interrupted lines planned disk
      (record { deleted = some (lines.write_line tombstone ∷ []); tree = tree_below [] })
unfolding append_tombstone exists at ℕ_discrete contains list_eq create_dir_all read get under
cut =
    in_vault (record { deleted = some (lines.write_line tombstone ∷ []); tree = disk.tree })
      vault_path (tree_below []) refl refl refl
      (keep _ _ (
        keep _ _ (
          keep _ _ (
            drop _ _ refl (λ e. ground (arith, ap length e))
              (keep _ _ (keep _ _ (keep _ _ (keep _ _ (keep _ _ all_seen)))))))))

abbrev after : Disk
after = record { deleted = some (lines.write_line tombstone ∷ []); tree = above }

executes : execute lines planned disk ≡ (after, ok tt)
unfolding execute append_tombstone contains read get list_eq ℕ_discrete create_dir_all at
    remove_vault remove_copy exists is_dir remove_dir_all unlink drop_empty is_empty remove_dir
    remove_source under
executes = refl

apart : (q : FilePath) → under (slug_dir lines planned) q ≡ true → under source_path q ≡ false
unfolding under list_eq ℕ_discrete
apart [] h = cc
apart (x ∷ q) h = ground (arith, h)

disjoint : Disjoint lines planned
disjoint = record {
  apart = λ p q e h. subst (λ s. under s q ≡ false) (some-injective source_path p e) (apart q h);
}

-- The copy in the vault has gone when the deletion is cut off.
abbrev half_deleted : Disk
half_deleted = record {
  deleted = some (lines.write_line tombstone ∷ []);
  tree = (source_path, directory) ∷ (source_path ++ codes "run.json" ∷ [], leaf) ∷ above;
}

cut_between : Interrupted lines planned disk half_deleted
unfolding append_tombstone exists at ℕ_discrete contains list_eq create_dir_all read get under
    remove_vault remove_copy is_dir remove_dir_all unlink drop_empty is_empty remove_dir
cut_between =
    vault_removed (record { deleted = some (lines.write_line tombstone ∷ []); tree = disk.tree })
      half_deleted.tree refl refl

stands : contains lines (codes "repo") half_deleted.deleted uid ≡ ok true
unfolding contains read get list_eq ℕ_discrete read_lines blank write_tombstone read_tombstone
    malformed is_run_uid validate_slug valid_run_slug slug_hash_prefixes or_insert
stands = refl

abbrev replanned : DeletePlan
replanned = record planned { vault_dir = none; already_tombstoned = true }

plan_runs_again :
    plan plain context
      (codes "repo")
      (codes "wrong data")
      lines
      half_deleted.deleted
      (source_run ∷ [])
      []
      (run_uids (uid ∷ []))
      false
    ≡ ok (replanned ∷ [])
unfolding plan validate_slug blank ℕ_discrete check_selection is_run_uid read scan_sources
    scan_source selected list_eq take_source validate_meta_path_fields valid_run_slug
    slug_hash_prefixes merge_meta entry get option_eq text_ord sort_on delete_plan plan_one
    plan_targets target_uids to_set scan_vault scan_vault_run take_vault update eligible_state
    eligible_status merge_status slug_char read_lines write_tombstone read_tombstone malformed
    or_insert
plan_runs_again = refl

gone : at vault_path half_deleted.tree ≡ none
unfolding at list_eq ℕ_discrete
gone = refl

anew : IsAnew planned replanned half_deleted.tree
anew = record {
  same_uid = refl;
  same_slug = refl;
  same_experiment = refl;
  vault_left = inr (refl, gone);
  source_left = inl refl;
}

replanned_resumes_example :
    (execute lines replanned half_deleted ≡ (after, ok tt))
    × (contains lines (codes "repo") after.deleted uid ≡ ok true)
    × Gone (some vault_path) above
    × Gone (some source_path) above
replanned_resumes_example =
    replanned_resumes plain context context (codes "repo") (codes "wrong data") (codes "wrong data")
      lines faithful (source_run ∷ []) (source_run ∷ []) (vault_run ∷ []) [] (run_uids (uid ∷ []))
      (run_uids (uid ∷ [])) true false (planned ∷ []) (replanned ∷ []) 0 0 planned replanned disk
      half_deleted after plan_runs refl disjoint executes cut_between stands plan_runs_again refl
      refl anew

there : at (vault_path ++ codes "run.json" ∷ []) disk.tree ≡ some leaf
unfolding at list_eq ℕ_discrete
there = refl

cut_off_safe_example :
    (at (vault_path ++ codes "run.json" ∷ []) (tree_below []) ≡ some leaf)
    ⊎ (Belongs lines planned (vault_path ++ codes "run.json" ∷ [])
        × (contains lines (codes "repo") (some (lines.write_line tombstone ∷ [])) uid ≡ ok true))
cut_off_safe_example =
    cut_off_safe plain context (codes "repo") (codes "wrong data") lines faithful (source_run ∷ [])
      (vault_run ∷ []) (run_uids (uid ∷ [])) true (planned ∷ []) 0 planned disk
      (record { deleted = some (lines.write_line tombstone ∷ []); tree = tree_below [] })
      (vault_path ++ codes "run.json" ∷ []) leaf plan_runs refl cut there
