-- ===== src/Delete/Recovery.antt =====
-- An execution that is cut off, and the one that follows it.
use rs_runvault.Base.{true, some, ◌≡◌, refl, sym, ap, ◌∙◌}
use rs_runvault.Error.{ok, and_then-ok}
use rs_runvault.Tree.{FilePath, Tree, exists, unlink}
use rs_runvault.Tree.Laws.{Emptied}
use rs_runvault.Delete.Tombstones.{Lines, contains}
use rs_runvault.Delete.Execute.{
  DeletePlan, Disk, on_tree, remove_copy, link, append_tombstone, remove_vault, remove_source,
  execute, execute_with_hook,
}
use rs_runvault.Delete.Stages.{
  Faithful, Ready, append_tombstone-recorded, append_tombstone-again, Gone, remove_copy-Gone,
}
use rs_runvault.Delete.Settled.{
  Disjoint, remove_vault-Emptied, remove_vault-Settled, Settled-remove_vault, remove_vault-copied,
  remove_vault-unlinked, Settled-Emptied, Settled-remove_source, remove_source-again,
  remove_source-Emptied,
}

module _ (lines : Lines) (plan : DeletePlan) where
  -- What an execution that began with the first disk can leave when it is cut off: before or behind
  -- a step, or while a directory is removed, when the directory itself still stands.
  pub data Interrupted (d : Disk) : Disk → Type 0 where
    untouched : Interrupted d d
    tombstoned : (e : Disk) → append_tombstone lines plan d ≡ (e, ok tt) → Interrupted d e
    in_vault :
        (e : Disk) (p : FilePath) (t : Tree)
        → append_tombstone lines plan d ≡ (e, ok tt)
        → plan.vault_dir ≡ some p
        → exists p e.tree ≡ true
        → Emptied p e.tree t
        → Interrupted d (record e { tree = t })
    copy_removed :
        (e : Disk) (t : Tree)
        → append_tombstone lines plan d ≡ (e, ok tt)
        → remove_copy plan.vault_dir e.tree ≡ (t, ok tt)
        → Interrupted d (record e { tree = t })
    unlinked :
        (e : Disk) (t u : Tree)
        → append_tombstone lines plan d ≡ (e, ok tt)
        → remove_copy plan.vault_dir e.tree ≡ (t, ok tt)
        → unlink (link lines plan) t ≡ (u, ok tt)
        → Interrupted d (record e { tree = u })
    vault_removed :
        (e : Disk) (t : Tree)
        → append_tombstone lines plan d ≡ (e, ok tt)
        → remove_vault lines plan e.tree ≡ (t, ok tt)
        → Interrupted d (record e { tree = t })
    in_source :
        (e : Disk) (p : FilePath) (t u : Tree)
        → append_tombstone lines plan d ≡ (e, ok tt)
        → remove_vault lines plan e.tree ≡ (t, ok tt)
        → plan.source_dir ≡ some p
        → exists p t ≡ true
        → Emptied p t u
        → Interrupted d (record e { tree = u })
    source_removed :
        (e : Disk) (t u : Tree)
        → append_tombstone lines plan d ≡ (e, ok tt)
        → remove_vault lines plan e.tree ≡ (t, ok tt)
        → remove_source lines plan t ≡ (u, ok tt)
        → Interrupted d (record e { tree = u })

  pub execute_steps :
      (d e : Disk) (t u : Tree)
      → append_tombstone lines plan d ≡ (e, ok tt)
      → remove_vault lines plan e.tree ≡ (t, ok tt)
      → remove_source lines plan t ≡ (u, ok tt)
      → execute lines plan d ≡ (record e { tree = u }, ok tt)
  unfolding execute execute_with_hook
  execute_steps d e t u a b c = rw (a, b, c) refl

  pub execute-steps :
      (d : Disk) {f : Disk}
      → execute lines plan d ≡ (f, ok tt)
      → (e : Disk) × (t u : Tree) × (append_tombstone lines plan d ≡ (e, ok tt))
        × (remove_vault lines plan e.tree ≡ (t, ok tt))
        × (remove_source lines plan t ≡ (u, ok tt))
        × (f ≡ record e { tree = u })
  unfolding execute execute_with_hook
  execute-steps d h =
      let (a, rest) = and_then-ok (append_tombstone lines plan d) _ h in
      let (b, last) = and_then-ok (on_tree (remove_vault lines plan) _) _ rest in
      let (c, f) = and_then-ok (on_tree (remove_source lines plan) _) _ last in
      let e = (append_tombstone lines plan d).0 in
      let t = (remove_vault lines plan e.tree).0 in
      let u = (remove_source lines plan t).0 in
      (e, t, u, a, (λ i. (t, (b i).1)), (λ i. (u, (c i).1)), ap (λ x. x.0) (sym f))

  execute-after :
      (d e : Disk) {f : Disk}
      → append_tombstone lines plan d ≡ (e, ok tt)
      → execute lines plan d ≡ (f, ok tt)
      → (t u : Tree) × (remove_vault lines plan e.tree ≡ (t, ok tt))
        × (remove_source lines plan t ≡ (u, ok tt))
        × (f ≡ record e { tree = u })
  execute-after d e a h =
      let (e', t, u, a', b, c, g) = execute-steps d h in
      let p : e' ≡ e = ap (λ x. x.0) (sym a' ∙ a) in
      let put : Disk → Disk = λ x. record x { tree = u } in
      (t, u, ap (λ x. remove_vault lines plan x.tree) (sym p) ∙ b, c, g ∙ ap put p)

module _ (lines : Lines) (faithful : Faithful lines) (plan : DeletePlan) where
  resume_at :
      (g : Disk) (v t u : Tree)
      → contains lines plan.tombstone.repo_id g.deleted plan.run_uid ≡ ok true
      → remove_vault lines plan v ≡ (t, ok tt)
      → remove_source lines plan t ≡ (u, ok tt)
      → execute lines plan (record g { tree = v }) ≡ (record g { tree = u }, ok tt)
  resume_at g v t u r =
      execute_steps lines plan (record g { tree = v }) (record g { tree = v }) t u
        (append_tombstone-again lines faithful plan (record g { tree = v }) r)

  -- Any execution of a plan that would have succeeded and is cut off is completed by the next one of
  -- the same plan, which leaves the same disk.
  pub execute_resumes :
      (d e f : Disk)
      → Ready lines plan d.deleted
      → Disjoint lines plan
      → execute lines plan d ≡ (f, ok tt)
      → Interrupted lines plan d e
      → execute lines plan e ≡ (f, ok tt)
  execute_resumes d e f ready apart h untouched = h
  execute_resumes d e f ready apart h (tombstoned _ a) =
      let (t, u, b, c, q) = execute-after lines plan d e a h in
      rw q (resume_at e e.tree t u (append_tombstone-recorded lines faithful plan d ready a) b c)
  execute_resumes d e f ready apart h (in_vault g p t a v x m) =
      let (w, u, b, c, q) = execute-after lines plan d g a h in
      rw q (
        resume_at g t w u (append_tombstone-recorded lines faithful plan d ready a)
          (remove_vault-Emptied lines plan p g.tree t v x m b) c)
  execute_resumes d e f ready apart h (copy_removed g t a r) =
      let (w, u, b, c, q) = execute-after lines plan d g a h in
      rw q (
        resume_at g t w u (append_tombstone-recorded lines faithful plan d ready a)
          (remove_vault-copied lines plan g.tree t r b) c)
  execute_resumes d e f ready apart h (unlinked g t v a r l) =
      let (w, u, b, c, q) = execute-after lines plan d g a h in
      rw q (
        resume_at g v w u (append_tombstone-recorded lines faithful plan d ready a)
          (remove_vault-unlinked lines plan g.tree t v r l b) c)
  execute_resumes d e f ready apart h (vault_removed g t a r) =
      let (w, u, b, c, q) = execute-after lines plan d g a h in
      rw q (
        resume_at g t t u (append_tombstone-recorded lines faithful plan d ready a)
          (Settled-remove_vault lines plan t (remove_vault-Settled lines plan g.tree r))
          (ap (λ x. remove_source lines plan (x.0)) (sym r ∙ b) ∙ c))
  execute_resumes d e f ready apart h (in_source g p t v a r s x m) =
      let (w, u, b, c, q) = execute-after lines plan d g a h in
      rw q (
        resume_at g v v u (append_tombstone-recorded lines faithful plan d ready a)
          (Settled-remove_vault lines plan v
            (Settled-Emptied lines plan p t v s apart (remove_vault-Settled lines plan g.tree r) m))
          (remove_source-Emptied lines plan p t v s x m
            (ap (λ x. remove_source lines plan (x.0)) (sym r ∙ b) ∙ c)))
  execute_resumes d e f ready apart h (source_removed g t v a r s) =
      let (w, u, b, c, q) = execute-after lines plan d g a h in
      let same = ap (λ x. x.0) (sym s ∙ ap (λ x. remove_source lines plan (x.0)) (sym r ∙ b) ∙ c) in
      rw (q, sym same)
        (resume_at g v v v (append_tombstone-recorded lines faithful plan d ready a)
          (Settled-remove_vault lines plan v (
            Settled-remove_source lines plan t v apart (remove_vault-Settled lines plan g.tree r)
              s))
          (remove_source-again lines plan t v s))

  -- What an execution that succeeds leaves.
  pub execute-Gone :
      (d : Disk) {f : Disk}
      → Ready lines plan d.deleted
      → Disjoint lines plan
      → execute lines plan d ≡ (f, ok tt)
      → (contains lines plan.tombstone.repo_id f.deleted plan.run_uid ≡ ok true)
        × Gone plan.vault_dir f.tree
        × Gone plan.source_dir f.tree
  unfolding remove_source
  execute-Gone d ready apart h =
      let (e, t, u, a, b, c, q) = execute-steps lines plan d h in
      let (g, _, _) =
        Settled-remove_source lines plan t u apart (remove_vault-Settled lines plan e.tree b) c in
      rw q (
        append_tombstone-recorded lines faithful plan d ready a,
        g,
        remove_copy-Gone plan.source_dir t c,
      )
