-- ===== src/Delete/Execute.antt =====
-- crates/runvault/src/delete.rs: `DeletePlan`, and its execution in three stages: the tombstone, the
-- copy in the vault with its link, and the source.
use rs_runvault.Base.{
  Bool, true, false, ◌&&◌, List, [], ◌∷◌, ◌++◌, Option, none, some, Text, codes, if◌then◌else◌,
}
use rs_runvault.Error.{Result, ok, err, Effect, and_then}
use rs_runvault.Tree.{
  FilePath, Tree, exists, is_dir, remove_dir_all, unlink, is_empty, remove_dir, create_dir_all,
}
use rs_runvault.Delete.Tombstones.{Tombstone, Lines, contains}

pub data Presence : Type 0 where
  both source_only vault_only neither : Presence

pub data DeleteStage : Type 0 where
  tombstone_stage vault_stage source_stage : DeleteStage

pub record DeletePlan : Type 0 where
  pub run_uid : Text
  pub run_slug : Text
  pub experiment : Text
  pub source_dir : Option FilePath
  pub vault_dir : Option FilePath
  pub tombstone : Tombstone
  pub vault_root : FilePath
  pub already_tombstoned : Bool

unfoldable pub presence : DeletePlan → Presence
presence p = elim p.source_dir [
  | some _ ↦ elim p.vault_dir [ some _ ↦ both | none ↦ source_only ]
  | none ↦ elim p.vault_dir [ some _ ↦ vault_only | none ↦ neither ]
]

-- The lines of `_deleted.jsonl` of the repository, and the entries of both trees.
pub record Disk : Type 0 where
  pub deleted : Option (List Text)
  pub tree : Tree

-- A step on the tree alone.
abbrev pub on_tree : (Tree → Effect Tree) → Disk → Effect Disk
on_tree step d = (record d { tree = (step d.tree).0 }, (step d.tree).1)

-- The lines that stand in the file.
abbrev pub lines_of : Option (List Text) → List Text
lines_of none = []
lines_of (some text) = text

-- `if let Some(dir) = dir && dir.exists() { remove_dir_all(dir)? }`
unfoldable pub remove_copy : Option FilePath → Tree → Effect Tree
remove_copy none t = (t, ok tt)
remove_copy (some dir) t = if exists dir t then remove_dir_all dir t else (t, ok tt)

unfoldable pub drop_empty : FilePath → Tree → Effect Tree
drop_empty dir t = if is_dir dir t && is_empty dir t then remove_dir dir t else (t, ok tt)

module _ (lines : Lines) (plan : DeletePlan) where
  abbrev pub repo_dir : FilePath
  repo_dir = plan.vault_root ++ plan.tombstone.repo_id ∷ []

  abbrev pub slug_dir : FilePath
  slug_dir = repo_dir ++ plan.experiment ∷ codes "by-slug" ∷ plan.run_slug ∷ []

  abbrev pub link : FilePath
  link = slug_dir ++ plan.run_uid ∷ []

  -- The line is written as a whole.
  abbrev pub write_tombstone : Disk → Effect Disk
  write_tombstone d = (
    record d { deleted = some (lines_of d.deleted ++ lines.write_line plan.tombstone ∷ []) },
    ok tt,
  )

  unfoldable pub append_tombstone : Disk → Effect Disk
  append_tombstone d =
      if plan.already_tombstoned
      then (d, ok tt)
      else elim (contains lines plan.tombstone.repo_id d.deleted plan.run_uid) [
        | err e ↦ (d, err e)
        | ok true ↦ (d, ok tt)
        | ok false ↦ and_then (on_tree (create_dir_all repo_dir) d) write_tombstone
      ]

  unfoldable pub remove_vault : Tree → Effect Tree
  remove_vault t =
      and_then (remove_copy plan.vault_dir t) (λ u. and_then (unlink link u) (drop_empty slug_dir))

  unfoldable pub remove_source : Tree → Effect Tree
  remove_source t = remove_copy plan.source_dir t

  -- The hook runs behind each stage, and may end the execution.
  unfoldable pub execute_with_hook : (DeleteStage → Result (Unit {0})) → Disk → Effect Disk
  execute_with_hook after_stage d = and_then (append_tombstone d) (λ d1.
      and_then (d1, after_stage tombstone_stage)
        (λ d2. and_then (on_tree remove_vault d2) (λ d3.
          and_then (d3, after_stage vault_stage)
            (λ d4. and_then (on_tree remove_source d4) (λ d5. (d5, after_stage source_stage))))))

  unfoldable pub execute : Disk → Effect Disk
  unfolding execute_with_hook
  execute d = execute_with_hook (λ stage. ok tt) d
