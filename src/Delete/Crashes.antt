-- ===== src/Delete/Crashes.antt =====
-- Deletions that are planned, cut off and run again: what remains, and what is missing meanwhile.
use rs_runvault.Base.{ℕ, Bool, true, List, some, Text, ◌≡◌, ◌⊎◌, get_elem?, All-get_elem}
use rs_runvault.Error.{ok}
use rs_runvault.Canonical.{Library}
use rs_runvault.Tree.{FilePath, Kind, at}
use rs_runvault.Delete.{Selection}
use rs_runvault.Delete.Tombstones.{Lines, contains}
use rs_runvault.Delete.Scan.{SourceRun, VaultRun}
use rs_runvault.Delete.Plan.{Context, plan}
use rs_runvault.Delete.Planned.{plan-Ready}
use rs_runvault.Delete.Execute.{DeletePlan, Disk, execute}
use rs_runvault.Delete.Stages.{Faithful, Gone}
use rs_runvault.Delete.Settled.{Disjoint}
use rs_runvault.Delete.Recovery.{Interrupted, execute_resumes, execute-Gone}
use rs_runvault.Delete.Removed.{Belongs, cut_off_keeps}

-- Where the execution of a plan that `plan` has returned would succeed, and it is cut off, the next
-- execution of the plan succeeds and leaves the same disk: the run has its tombstone, and neither
-- copy of it is there. The lines of tombstones are read as they are written, and are not blank. What
-- stands in the vault below the directory of the slug does not stand below the source.
pub planned_resumes :
    (lib : Library) (context : Context) (repo_id reason : Text) (lines : Lines)
    → Faithful lines
    → (sources : List (SourceRun lib)) (vaults : List (VaultRun lib)) (selection : Selection)
      (include_succeeded : Bool) (plans : List DeletePlan) (i : ℕ) (p : DeletePlan) (d e f : Disk)
    → plan lib context repo_id reason lines d.deleted sources vaults selection include_succeeded
      ≡ ok plans
    → get_elem? plans i ≡ some p
    → Disjoint lines p
    → execute lines p d ≡ (f, ok tt)
    → Interrupted lines p d e
    → (execute lines p e ≡ (f, ok tt))
      × (contains lines p.tombstone.repo_id f.deleted p.run_uid ≡ ok true)
      × Gone p.vault_dir f.tree
      × Gone p.source_dir f.tree
planned_resumes lib context repo_id reason lines faithful sources vaults selection include_succeeded
      plans i p d e f h m apart x cut =
    let ready =
      (All-get_elem _ plans i
        (plan-Ready lib context repo_id reason lines d.deleted sources vaults selection
          include_succeeded h)
        m).0 in
    let (recorded, no_vault, no_source) = execute-Gone lines faithful p d ready apart x in
    (execute_resumes lines faithful p d e f ready apart x cut, recorded, no_vault, no_source)

-- Whatever is missing after an execution, cut off or not, of a plan that `plan` has returned belongs
-- to the run that the plan names, and the run has its tombstone by then. The lines of tombstones are
-- read as they are written, and are not blank.
pub cut_off_safe :
    (lib : Library) (context : Context) (repo_id reason : Text) (lines : Lines)
    → Faithful lines
    → (sources : List (SourceRun lib)) (vaults : List (VaultRun lib)) (selection : Selection)
      (include_succeeded : Bool) (plans : List DeletePlan) (i : ℕ) (p : DeletePlan) (d e : Disk)
      (q : FilePath) (k : Kind)
    → plan lib context repo_id reason lines d.deleted sources vaults selection include_succeeded
      ≡ ok plans
    → get_elem? plans i ≡ some p
    → Interrupted lines p d e
    → at q d.tree ≡ some k
    → (at q e.tree ≡ some k)
      ⊎ (Belongs lines p q × (contains lines p.tombstone.repo_id e.deleted p.run_uid ≡ ok true))
cut_off_safe lib context repo_id reason lines faithful sources vaults selection include_succeeded
      plans i p d e q k h m =
    cut_off_keeps lines faithful p d e q k
      (All-get_elem _ plans i
        (plan-Ready lib context repo_id reason lines d.deleted sources vaults selection
          include_succeeded h)
        m).0
