-- ===== src/Delete/Anew.antt =====
-- A deletion that is planned anew after it has been cut off.
use rs_runvault.Base.{
  ℕ, get_elem?, All-get_elem, Bool, true, List, Option, none, some, Text, ◌≡◌, sym, ap, ◌∙◌, ◌⊎◌,
  inl, inr, nat_eq, list_eq,
}
use rs_runvault.Error.{ok}
use rs_runvault.Canonical.{Library}
use rs_runvault.Tree.{FilePath, Tree, unlink}
use rs_runvault.Delete.{Selection}
use rs_runvault.Delete.Tombstones.{Lines, contains}
use rs_runvault.Delete.Scan.{SourceRun, VaultRun}
use rs_runvault.Delete.Plan.{Context, plan}
use rs_runvault.Delete.Execute.{
  DeletePlan, Disk, remove_copy, remove_vault, remove_source, execute, drop_empty, link, slug_dir,
}
use rs_runvault.Delete.Origin.{plan-IsOf}
use rs_runvault.Delete.Crashes.{planned_resumes}
use rs_runvault.Delete.Stages.{
  Faithful, Gone, Gone-remove_copy, Gone-remove_source, Gone-unlink, Gone-drop_empty,
  append_tombstone-again,
}
use rs_runvault.Delete.Settled.{Disjoint, remove_vault-parts, remove_vault_parts}
use rs_runvault.Delete.Recovery.{Interrupted, execute_steps, execute-steps}

-- A copy is found where it was, or is not found because it has gone.
abbrev pub IsLeft : Option FilePath → Option FilePath → Tree → Type 0
IsLeft before now t = (now ≡ before) ⊎ ((now ≡ none) × Gone before t)

-- Two plans name the same run, and the second the copies that are left of it.
pub record IsAnew (p q : DeletePlan) (t : Tree) : Type 0 where
  pub same_uid : q.run_uid ≡ p.run_uid
  pub same_slug : q.run_slug ≡ p.run_slug
  pub same_experiment : q.experiment ≡ p.experiment
  pub vault_left : IsLeft p.vault_dir q.vault_dir t
  pub source_left : IsLeft p.source_dir q.source_dir t

remove_copy-IsLeft :
    (before now : Option FilePath) (t : Tree)
    → IsLeft before now t
    → remove_copy now t ≡ remove_copy before t
unfolding remove_copy
remove_copy-IsLeft before now t (inl e) = ap (λ o. remove_copy o t) e
remove_copy-IsLeft before now t (inr (e, g)) =
    ap (λ o. remove_copy o t) e ∙ sym (Gone-remove_copy before t g)

module _ (lines : Lines) (faithful : Faithful lines) (p q : DeletePlan) where
  IsLeft-remove_vault :
      (before now : Option FilePath) (t : Tree) {u : Tree}
      → remove_vault lines p t ≡ (u, ok tt)
      → IsLeft before now t
      → IsLeft before now u
  IsLeft-remove_vault before now t h (inl e) = inl e
  IsLeft-remove_vault before now t h (inr (e, g)) =
      let (u, v, a, b, c) = remove_vault-parts lines p t h in
      inr (
        e,
        Gone-drop_empty before (slug_dir lines p) v
            (Gone-unlink before (link lines p) u (Gone-remove_source before p.vault_dir t g a) b) c,
      )

  pub execute_anew :
      (e f : Disk)
      → q.tombstone.repo_id ≡ p.tombstone.repo_id
      → q.vault_root ≡ p.vault_root
      → IsAnew p q e.tree
      → contains lines p.tombstone.repo_id e.deleted p.run_uid ≡ ok true
      → execute lines p e ≡ (f, ok tt)
      → execute lines q e ≡ (f, ok tt)
  unfolding remove_source
  execute_anew e f r v anew c h =
      let (e1, t, u, a, b, k, s) = execute-steps lines p e h in
      let same : e1 ≡ e = ap (λ x. x.0) (sym a ∙ append_tombstone-again lines faithful p e c) in
      let b1 : remove_vault lines p e.tree ≡ (t, ok tt) =
        ap (λ (x : Disk). remove_vault lines p x.tree) (sym same) ∙ b in
      let (x, y, m, l, n) = remove_vault-parts lines p e.tree b1 in
      let links : link lines q ≡ link lines p =
        cc (r, v, anew.same_uid, anew.same_slug, anew.same_experiment) in
      let slugs : slug_dir lines q ≡ slug_dir lines p =
        cc (r, v, anew.same_slug, anew.same_experiment) in
      let there : contains lines q.tombstone.repo_id e.deleted q.run_uid ≡ ok true =
        (λ i. contains lines (r i) e.deleted (anew.same_uid i)) ∙ c in
      execute_steps lines q e e t u (append_tombstone-again lines faithful q e there)
        (remove_vault_parts lines q e.tree x y
          (remove_copy-IsLeft p.vault_dir q.vault_dir e.tree anew.vault_left ∙ m)
          (ap (λ o. unlink o x) links ∙ l) (ap (λ o. drop_empty o y) slugs ∙ n))
        (remove_copy-IsLeft p.source_dir q.source_dir t
            (IsLeft-remove_vault p.source_dir q.source_dir e.tree b1 anew.source_left)
          ∙ k)
      ∙ ap (λ (x : Disk). (x, ok tt)) (ap (λ (x : Disk). record x { tree = u }) (sym same) ∙ sym s)

-- A deletion of a plan that `plan` has returned would succeed, and it is cut off, before or behind a
-- step or while a directory is removed, when the tombstone stands. If `plan` is asked again for the
-- repository, with the tombstones that stand now and whatever directories are found now, and accepts,
-- then the execution of the new plan of the run succeeds and leaves the disk that the first would have
-- left: the run has its tombstone, and neither copy of it is there. The new plan has the vault root, the
-- slug and the experiment of the first, and of each copy the directory, or none where it has gone. The
-- lines of tombstones are read as they are written, and are not blank. What stands in the vault below
-- the directory of the slug does not stand below the source.
pub replanned_resumes :
    (lib : Library) (context again : Context) (repo_id reason reason_again : Text) (lines : Lines)
    → Faithful lines
    → (sources sources_left : List (SourceRun lib)) (vaults vaults_left : List (VaultRun lib))
      (selection selection_again : Selection) (include_succeeded include_again : Bool)
      (plans plans_again : List DeletePlan) (i j : ℕ) (p q : DeletePlan) (d e f : Disk)
    → plan lib context repo_id reason lines d.deleted sources vaults selection include_succeeded
      ≡ ok plans
    → get_elem? plans i ≡ some p
    → Disjoint lines p
    → execute lines p d ≡ (f, ok tt)
    → Interrupted lines p d e
    → contains lines repo_id e.deleted p.run_uid ≡ ok true
    → plan lib again repo_id reason_again lines e.deleted sources_left vaults_left selection_again
        include_again
      ≡ ok plans_again
    → get_elem? plans_again j ≡ some q
    → again.vault_root ≡ context.vault_root
    → IsAnew p q e.tree
    → (execute lines q e ≡ (f, ok tt))
      × (contains lines repo_id f.deleted p.run_uid ≡ ok true)
      × Gone p.vault_dir f.tree
      × Gone p.source_dir f.tree
replanned_resumes lib context again repo_id reason reason_again lines faithful sources sources_left
      vaults vaults_left selection selection_again include_succeeded include_again plans plans_again
      i j p q d e f h m apart x cut c h' m' root anew =
    let (resumed, recorded, no_vault, no_source) =
      planned_resumes lib context repo_id reason lines faithful sources vaults selection
        include_succeeded plans i p d e f h m apart x cut in
    let (repo, v) =
      All-get_elem _ plans i
        (plan-IsOf lib context repo_id reason lines d.deleted sources vaults selection
          include_succeeded h)
        m in
    let (repo_again, v_again) =
      All-get_elem _ plans_again j
        (plan-IsOf lib again repo_id reason_again lines e.deleted sources_left vaults_left
          selection_again include_again h')
        m' in
    (
      execute_anew lines faithful p q e f (repo_again ∙ sym repo) (v_again ∙ root ∙ sym v) anew
          (ap (λ r. contains lines r e.deleted p.run_uid) repo ∙ c) resumed,
      ap (λ r. contains lines r f.deleted p.run_uid) (sym repo) ∙ recorded,
      no_vault,
      no_source,
    )
