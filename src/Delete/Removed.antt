-- ===== src/Delete/Removed.antt =====
-- What an execution takes away, whether it is cut off or not.
use rs_runvault.Base.{
  true, Option, none, some, ◌≡◌, refl, ◌∙◌, ◌⊎◌, inl, inr, arith, Bool-cases, ◌==◌, nat_eq, list_eq,
}
use rs_runvault.Error.{ok}
use rs_runvault.Tree.{FilePath, Kind, Tree, at, under, remove_dir_all, unlink, remove_dir}
use rs_runvault.Tree.Laws.{
  Emptied, Emptied-at_apart, at-outside_apart, at-lacking_apart, create_dir_all-keeps,
}
use rs_runvault.Delete.Tombstones.{Lines, contains}
use rs_runvault.Delete.Execute.{
  DeletePlan, Disk, remove_copy, drop_empty, repo_dir, link, slug_dir, append_tombstone,
  remove_vault, remove_source,
}
use rs_runvault.Delete.Stages.{Faithful, Ready, append_tombstone-recorded}
use rs_runvault.Delete.Settled.{remove_vault-parts}
use rs_runvault.Delete.Recovery.{
  Interrupted, untouched, tombstoned, in_vault, copy_removed, unlinked, vault_removed, in_source,
  source_removed,
}

module _ (lines : Lines) (plan : DeletePlan) (q : FilePath) where
  -- The places of a run: its two copies, its link, and the directory of its slug.
  pub data Belongs : Type 0 where
    to_vault : (p : FilePath) → plan.vault_dir ≡ some p → under p q ≡ true → Belongs
    to_source : (p : FilePath) → plan.source_dir ≡ some p → under p q ≡ true → Belongs
    as_link : q ≡ link lines plan → Belongs
    as_slug_dir : q ≡ slug_dir lines plan → Belongs

  append_tombstone-keeps :
      (d : Disk) {e : Disk} {k : Kind}
      → append_tombstone lines plan d ≡ (e, ok tt)
      → at q d.tree ≡ some k
      → at q e.tree ≡ some k
  unfolding append_tombstone
  append_tombstone-keeps d {k = k} h a =
      ground (arith, create_dir_all-keeps (repo_dir lines plan) q d.tree k a)

  remove_copy-keeps :
      (dir : Option FilePath) (t : Tree) {u : Tree}
      → ((p : FilePath) → dir ≡ some p → under p q ≡ true → Belongs)
      → remove_copy dir t ≡ (u, ok tt)
      → (at q u ≡ at q t) ⊎ Belongs
  unfolding remove_copy remove_dir_all
  remove_copy-keeps none t b h = inl (ground arith)
  remove_copy-keeps (some p) t b h = elim (Bool-cases (under p q)) [
    | inl e ↦ inr (b p refl e)
    | inr e ↦ inl (ground (arith, at-outside_apart p q t e))
  ]

  unlink-keeps :
      (p : FilePath) (t : Tree) {u : Tree}
      → (q ≡ p → Belongs)
      → unlink p t ≡ (u, ok tt)
      → (at q u ≡ at q t) ⊎ Belongs
  unfolding unlink
  unlink-keeps p t b h = elim (Bool-cases (q == p)) [
    | inl e ↦ inr (b (ground arith))
    | inr e ↦ inl (ground (arith, at-lacking_apart p q t))
  ]

  drop_empty-keeps :
      (p : FilePath) (t : Tree) {u : Tree}
      → (q ≡ p → Belongs)
      → drop_empty p t ≡ (u, ok tt)
      → (at q u ≡ at q t) ⊎ Belongs
  unfolding drop_empty remove_dir
  drop_empty-keeps p t b h = elim (Bool-cases (q == p)) [
    | inl e ↦ inr (b (ground arith))
    | inr e ↦ inl (ground (arith, at-lacking_apart p q t))
  ]

  Emptied-keeps :
      {p : FilePath} {t u : Tree}
      → (under p q ≡ true → Belongs)
      → Emptied p t u
      → (at q u ≡ at q t) ⊎ Belongs
  Emptied-keeps {p} b m = elim (Bool-cases (under p q)) [
    | inl e ↦ inr (b e)
    | inr e ↦ inl (Emptied-at_apart q e m)
  ]

  then_keeps :
      (t u v : Tree)
      → (at q u ≡ at q t) ⊎ Belongs
      → (at q v ≡ at q u) ⊎ Belongs
      → (at q v ≡ at q t) ⊎ Belongs
  then_keeps t u v (inr b) k = inr b
  then_keeps t u v (inl e) (inr b) = inr b
  then_keeps t u v (inl e) (inl f) = inl (f ∙ e)

  copy-keeps :
      (t : Tree) {u : Tree}
      → remove_copy plan.vault_dir t ≡ (u, ok tt)
      → (at q u ≡ at q t) ⊎ Belongs
  copy-keeps t h = remove_copy-keeps plan.vault_dir t to_vault h

  link-keeps :
      (t : Tree) {u : Tree} → unlink (link lines plan) t ≡ (u, ok tt) → (at q u ≡ at q t) ⊎ Belongs
  link-keeps t h = unlink-keeps (link lines plan) t as_link h

  remove_vault-keeps :
      (t : Tree) {w : Tree} → remove_vault lines plan t ≡ (w, ok tt) → (at q w ≡ at q t) ⊎ Belongs
  remove_vault-keeps t {w} h =
      let (u, v, a, b, c) = remove_vault-parts lines plan t h in
      then_keeps t v w (then_keeps t u v (copy-keeps t a) (link-keeps u b))
        (drop_empty-keeps (slug_dir lines plan) v as_slug_dir c)

  remove_source-keeps :
      (t : Tree) {u : Tree} → remove_source lines plan t ≡ (u, ok tt) → (at q u ≡ at q t) ⊎ Belongs
  unfolding remove_source
  remove_source-keeps t h = remove_copy-keeps plan.source_dir t to_source h

  -- From the disk with the tombstone to the one that is left.
  behind_tombstone :
      (d e : Disk) (t : Tree) (k : Kind)
      → append_tombstone lines plan d ≡ (e, ok tt)
      → at q d.tree ≡ some k
      → (at q t ≡ at q e.tree) ⊎ Belongs
      → (at q t ≡ some k) ⊎ Belongs
  behind_tombstone d e t k a h (inl x) = inl (x ∙ append_tombstone-keeps d a h)
  behind_tombstone d e t k a h (inr b) = inr b

module _ (lines : Lines) (faithful : Faithful lines) (plan : DeletePlan) where
  recorded_keeps :
      (d e : Disk) (t : Tree) (q : FilePath) (k : Kind)
      → Ready lines plan d.deleted
      → at q d.tree ≡ some k
      → append_tombstone lines plan d ≡ (e, ok tt)
      → (at q t ≡ at q e.tree) ⊎ Belongs lines plan q
      → (at q t ≡ some k)
        ⊎ (Belongs lines plan q
            × (contains lines plan.tombstone.repo_id e.deleted plan.run_uid ≡ ok true))
  recorded_keeps d e t q k r h a x = elim (behind_tombstone lines plan q d e t k a h x) [
    | inl y ↦ inl y
    | inr b ↦ inr (b, append_tombstone-recorded lines faithful plan d r a)
  ]

  pub cut_off_keeps :
      (d e : Disk) (q : FilePath) (k : Kind)
      → Ready lines plan d.deleted
      → Interrupted lines plan d e
      → at q d.tree ≡ some k
      → (at q e.tree ≡ some k)
        ⊎ (Belongs lines plan q
            × (contains lines plan.tombstone.repo_id e.deleted plan.run_uid ≡ ok true))
  cut_off_keeps d e q k r untouched h = inl h
  cut_off_keeps d e q k r (tombstoned _ a) h = inl (append_tombstone-keeps lines plan q d a h)
  cut_off_keeps d e q k r (in_vault g p t a v x m) h =
      recorded_keeps d g t q k r h a (Emptied-keeps lines plan q (to_vault p v) m)
  cut_off_keeps d e q k r (copy_removed g t a b) h =
      recorded_keeps d g t q k r h a (copy-keeps lines plan q g.tree b)
  cut_off_keeps d e q k r (unlinked g t u a b c) h = recorded_keeps d g u q k r h a (
      then_keeps lines plan q g.tree t u (copy-keeps lines plan q g.tree b)
        (link-keeps lines plan q t c))
  cut_off_keeps d e q k r (vault_removed g t a b) h =
      recorded_keeps d g t q k r h a (remove_vault-keeps lines plan q g.tree b)
  cut_off_keeps d e q k r (in_source g p t u a b s x m) h = recorded_keeps d g u q k r h a (
      then_keeps lines plan q g.tree t u (remove_vault-keeps lines plan q g.tree b)
        (Emptied-keeps lines plan q (to_source p s) m))
  cut_off_keeps d e q k r (source_removed g t u a b s) h = recorded_keeps d g u q k r h a (
      then_keeps lines plan q g.tree t u (remove_vault-keeps lines plan q g.tree b)
        (remove_source-keeps lines plan q t s))
