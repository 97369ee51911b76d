-- ===== src/Delete/Settled.antt =====
-- The trees that the removals leave, and that the removals change no further.
use rs_runvault.Base.{true, false, none, some, ◌≡◌, refl, sym, ap, ◌∙◌}
use rs_runvault.Error.{ok, and_then-ok}
use rs_runvault.Tree.{FilePath, Tree, at, exists, under, unlink}
use rs_runvault.Tree.Laws.{Emptied, Emptied-at-none}
use rs_runvault.Delete.Tombstones.{Lines}
use rs_runvault.Delete.Execute.{
  DeletePlan, remove_copy, drop_empty, link, slug_dir, remove_vault, remove_source,
}
use rs_runvault.Delete.Stages.{
  Gone, remove_copy-Gone, Gone-remove_copy, remove_copy-Emptied, unlink-none, none-unlink,
  drop_empty-again, Gone-unlink, Gone-drop_empty, Emptied-Gone, Emptied-drop_empty,
  Gone-remove_source, drop_empty-remove_source,
}

module _ (lines : Lines) (plan : DeletePlan) where
  -- What stands below the directory of a slug, in the vault, does not stand below the source.
  pub record Disjoint : Type 0 where
    pub apart :
        (p q : FilePath)
        → plan.source_dir ≡ some p
        → under (slug_dir lines plan) q ≡ true
        → under p q ≡ false

  -- The three parts of removing the copy in the vault.
  pub remove_vault-parts :
      (t : Tree) {w : Tree}
      → remove_vault lines plan t ≡ (w, ok tt)
      → (u v : Tree) × (remove_copy plan.vault_dir t ≡ (u, ok tt))
        × (unlink (link lines plan) u ≡ (v, ok tt))
        × (drop_empty (slug_dir lines plan) v ≡ (w, ok tt))
  unfolding remove_vault
  remove_vault-parts t h =
      let (a, b) = and_then-ok (remove_copy plan.vault_dir t) _ h in
      let (c, e) = and_then-ok (unlink (link lines plan) _) _ b in (_, _, a, c, e)

  pub remove_vault_parts :
      (t u v : Tree) {w : Tree}
      → remove_copy plan.vault_dir t ≡ (u, ok tt)
      → unlink (link lines plan) u ≡ (v, ok tt)
      → drop_empty (slug_dir lines plan) v ≡ (w, ok tt)
      → remove_vault lines plan t ≡ (w, ok tt)
  unfolding remove_vault
  remove_vault_parts t u v a b c = rw (a, b, c) refl

  pub remove_vault-Emptied :
      (p : FilePath) (t v : Tree) {w : Tree}
      → plan.vault_dir ≡ some p
      → exists p t ≡ true
      → Emptied p t v
      → remove_vault lines plan t ≡ (w, ok tt)
      → remove_vault lines plan v ≡ (w, ok tt)
  remove_vault-Emptied p t v e x m h =
      let (u, u', a, b, c) = remove_vault-parts t h in
      remove_vault_parts v u u'
        (rw e (remove_copy-Emptied p x m (ap (λ o. remove_copy o t) (sym e) ∙ a))) b c

  -- What holds of a tree from which the copy in the vault has been removed.
  abbrev pub Settled : Tree → Type 0
  Settled t =
      Gone plan.vault_dir t
      × (at (link lines plan) t ≡ none)
      × (drop_empty (slug_dir lines plan) t ≡ (t, ok tt))

  pub remove_vault-Settled :
      (t : Tree) {w : Tree} → remove_vault lines plan t ≡ (w, ok tt) → Settled w
  remove_vault-Settled t h =
      let (u, v, a, b, c) = remove_vault-parts t h in
      let g =
        Gone-unlink plan.vault_dir (link lines plan) u (remove_copy-Gone plan.vault_dir t a) b in
      (
        Gone-drop_empty plan.vault_dir (slug_dir lines plan) v g c,
        Gone-drop_empty (some (link lines plan)) (slug_dir lines plan) v
            (unlink-none (link lines plan) u b) c,
        drop_empty-again (slug_dir lines plan) v c,
      )

  pub Settled-remove_vault : (t : Tree) → Settled t → remove_vault lines plan t ≡ (t, ok tt)
  Settled-remove_vault t (g, l, s) =
      remove_vault_parts t t t (Gone-remove_copy plan.vault_dir t g)
        (none-unlink (link lines plan) t l) s

  -- The copy, or the link too, has been removed before.
  pub remove_vault-copied :
      (t u : Tree) {w : Tree}
      → remove_copy plan.vault_dir t ≡ (u, ok tt)
      → remove_vault lines plan t ≡ (w, ok tt)
      → remove_vault lines plan u ≡ (w, ok tt)
  remove_vault-copied t u r h =
      let (u', v, a, b, c) = remove_vault-parts t h in
      remove_vault_parts u u v
        (Gone-remove_copy plan.vault_dir u (remove_copy-Gone plan.vault_dir t r))
        (ap (λ x. unlink (link lines plan) (x.0)) (sym r ∙ a) ∙ b) c

  pub remove_vault-unlinked :
      (t u v : Tree) {w : Tree}
      → remove_copy plan.vault_dir t ≡ (u, ok tt)
      → unlink (link lines plan) u ≡ (v, ok tt)
      → remove_vault lines plan t ≡ (w, ok tt)
      → remove_vault lines plan v ≡ (w, ok tt)
  remove_vault-unlinked t u v r l h =
      let (u', v', a, b, c) = remove_vault-parts t h in
      let same = ap (λ x. unlink (link lines plan) (x.0)) (sym r ∙ a) ∙ b in
      remove_vault_parts v v v
        (Gone-remove_copy plan.vault_dir v
          (Gone-unlink plan.vault_dir (link lines plan) u (remove_copy-Gone plan.vault_dir t r) l))
        (none-unlink (link lines plan) v (unlink-none (link lines plan) u l))
        (ap (λ x. drop_empty (slug_dir lines plan) (x.0)) (sym l ∙ same) ∙ c)

  pub Settled-Emptied :
      (p : FilePath) (t u : Tree)
      → plan.source_dir ≡ some p
      → Disjoint
      → Settled t
      → Emptied p t u
      → Settled u
  Settled-Emptied p t u e apart (g, l, s) m = (
    Emptied-Gone plan.vault_dir g m,
    Emptied-at-none (link lines plan) l m,
    Emptied-drop_empty (slug_dir lines plan) (λ r. apart.apart p r e) s m,
  )

  pub Settled-remove_source :
      (t u : Tree) → Disjoint → Settled t → remove_source lines plan t ≡ (u, ok tt) → Settled u
  unfolding remove_source
  Settled-remove_source t u apart (g, l, s) h = (
    Gone-remove_source plan.vault_dir plan.source_dir t g h,
    Gone-remove_source (some (link lines plan)) plan.source_dir t l h,
    drop_empty-remove_source (slug_dir lines plan) plan.source_dir t apart.apart s h,
  )

  pub remove_source-again :
      (t u : Tree)
      → remove_source lines plan t ≡ (u, ok tt)
      → remove_source lines plan u ≡ (u, ok tt)
  unfolding remove_source
  remove_source-again t u h =
      Gone-remove_copy plan.source_dir u (remove_copy-Gone plan.source_dir t h)

  pub remove_source-Emptied :
      (p : FilePath) (t v : Tree) {w : Tree}
      → plan.source_dir ≡ some p
      → exists p t ≡ true
      → Emptied p t v
      → remove_source lines plan t ≡ (w, ok tt)
      → remove_source lines plan v ≡ (w, ok tt)
  unfolding remove_source
  remove_source-Emptied p t v e x m h =
      ap (λ o. remove_copy o v) e
      ∙ remove_copy-Emptied p x m (ap (λ o. remove_copy o t) (sym e) ∙ h)
