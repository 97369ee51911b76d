-- ===== src/Delete/Stages.antt =====
-- What each stage of an execution leaves behind, and that it has nothing to do again.
use rs_runvault.Base.{
  true, false, List, [], ◌∷◌, ◌++◌, Option, none, some, Text, ◌≡◌, refl, sym, arith, Option-cases,
  inl, inr, nat_eq, list_eq,
}
use rs_runvault.Error.{ok, >>=-eq-ok}
use rs_runvault.Tree.{FilePath, Tree, at, exists, is_dir, under, remove_dir_all, unlink, remove_dir}
use rs_runvault.Tree.Laws.{
  Emptied, Emptied-outside, Emptied-at, Emptied-at_apart, Emptied-is_empty, Emptied-at-none,
  under-same, at-outside, at-outside_apart, at-lacking, lacking, outside-none, is_empty-outside,
}
use rs_runvault.Verify.Walk.{get}
use rs_runvault.Verify.Research.{blank}
use rs_runvault.Delete.Tombstones.{
  Tombstone, Lines, contains, read, read_lines, malformed, or_insert, is_some,
}
use rs_runvault.Delete.Execute.{
  DeletePlan, Disk, remove_copy, drop_empty, append_tombstone, lines_of,
}

-- What is written by serde_json is read again, and is not an empty line.
pub record Faithful (lines : Lines) : Type 0 where
  pub read_written : (t : Tombstone) → lines.read_line (lines.write_line t) ≡ some t
  pub not_blank : (t : Tombstone) → blank (lines.write_line t) ≡ false

-- What the execution of a plan expects of it and of the tombstones.
pub record Ready (lines : Lines) (plan : DeletePlan) (deleted : Option (List Text)) : Type 0 where
  pub names_run : plan.tombstone.run_uid ≡ plan.run_uid
  pub well_formed :
      plan.already_tombstoned ≡ false → malformed plan.tombstone.repo_id plan.tombstone ≡ false
  pub recorded :
      plan.already_tombstoned ≡ true
      → contains lines plan.tombstone.repo_id deleted plan.run_uid ≡ ok true

module _ (lines : Lines) (faithful : Faithful lines) where
  read_lines-last :
      (repo_id : Text) (text : List Text) (out : List (Text × Tombstone)) (t : Tombstone)
      → malformed repo_id t ≡ false
      → (m : List (Text × Tombstone)) → read_lines lines repo_id text out ≡ ok m
      → read_lines lines repo_id (text ++ lines.write_line t ∷ []) out ≡ ok (or_insert t m)
  unfolding read_lines
  read_lines-last repo_id [] out t w m h =
      ground (arith, faithful.read_written t, faithful.not_blank t)
  read_lines-last repo_id (l ∷ text) out t w m h = elim (Option-cases (lines.read_line l)) [
    | inl e ↦ ground (arith, read_lines-last repo_id text out t w m)
    | inr (item, e) ↦ ground (
      arith,
      read_lines-last repo_id text out t w m,
      read_lines-last repo_id text (or_insert item out) t w m,
    )
  ]

  get-or_insert :
      (t : Tombstone) (m : List (Text × Tombstone)) → is_some (get t.run_uid (or_insert t m)) ≡ true
  unfolding or_insert get
  get-or_insert t m = ground arith

  -- A tombstone that has been written is found.
  contains-written :
      (repo_id : Text) (d : Option (List Text)) (t : Tombstone) (run_uid : Text)
      → t.run_uid ≡ run_uid
      → malformed repo_id t ≡ false
      → contains lines repo_id d run_uid ≡ ok false
      → contains lines repo_id (some (lines_of d ++ lines.write_line t ∷ [])) run_uid ≡ ok true
  unfolding contains read read_lines
  contains-written repo_id none t run_uid n w h =
      rw (sym n, read_lines-last repo_id [] [] t w [] refl, get-or_insert t []) refl
  contains-written repo_id (some text) t run_uid n w h =
      let (m, e, _) = >>=-eq-ok (read_lines lines repo_id text []) _ h in
      rw (sym n, read_lines-last repo_id text [] t w m e, get-or_insert t m) refl

module _ (lines : Lines) (faithful : Faithful lines) (plan : DeletePlan) where
  -- After the first stage the run is recorded, and the stage has nothing left to do.
  pub append_tombstone-recorded :
      (d : Disk) {e : Disk}
      → Ready lines plan d.deleted
      → append_tombstone lines plan d ≡ (e, ok tt)
      → contains lines plan.tombstone.repo_id e.deleted plan.run_uid ≡ ok true
  unfolding append_tombstone
  append_tombstone-recorded d r h = ground (
    arith,
    r.names_run,
    r.well_formed,
    r.recorded,
    contains-written lines faithful plan.tombstone.repo_id d.deleted plan.tombstone plan.run_uid,
  )

  pub append_tombstone-again :
      (d : Disk)
      → contains lines plan.tombstone.repo_id d.deleted plan.run_uid ≡ ok true
      → append_tombstone lines plan d ≡ (d, ok tt)
  unfolding append_tombstone
  append_tombstone-again d h = ground arith

-- The copy has gone, where there was one.
abbrev pub Gone : Option FilePath → Tree → Type 0
Gone none t = Unit
Gone (some p) t = at p t ≡ none

pub remove_copy-Gone :
    (dir : Option FilePath) (t : Tree) {u : Tree} → remove_copy dir t ≡ (u, ok tt) → Gone dir u
unfolding remove_copy exists is_dir remove_dir_all
remove_copy-Gone none t h = tt
remove_copy-Gone (some dir) t h = ground (arith, at-outside dir dir t (under-same dir))

pub Gone-remove_copy :
    (dir : Option FilePath) (t : Tree) → Gone dir t → remove_copy dir t ≡ (t, ok tt)
unfolding remove_copy exists
Gone-remove_copy none t h = refl
Gone-remove_copy (some dir) t h = ground arith

pub remove_copy-Emptied :
    (dir : FilePath) {t v : Tree} {u : Tree}
    → exists dir t ≡ true
    → Emptied dir t v
    → remove_copy (some dir) t ≡ (u, ok tt)
    → remove_copy (some dir) v ≡ (u, ok tt)
unfolding remove_copy exists is_dir remove_dir_all
remove_copy-Emptied dir x e h = ground (arith, Emptied-at e, Emptied-outside e)

pub unlink-none : (p : FilePath) (t : Tree) {u : Tree} → unlink p t ≡ (u, ok tt) → at p u ≡ none
unfolding unlink
unlink-none p t h = ground (arith, at-lacking p t)

pub none-unlink : (p : FilePath) (t : Tree) → at p t ≡ none → unlink p t ≡ (t, ok tt)
unfolding unlink
none-unlink p t h = ground arith

pub drop_empty-again :
    (p : FilePath) (t : Tree) {u : Tree} → drop_empty p t ≡ (u, ok tt) → drop_empty p u ≡ (u, ok tt)
unfolding drop_empty remove_dir is_dir
drop_empty-again p t h = ground (arith, at-lacking p t)

-- What has gone stays away.
pub lacking-none : (q p : FilePath) (t : Tree) → at q t ≡ none → at q (lacking p t) ≡ none
unfolding at
lacking-none q p [] h = refl
lacking-none q p ((r, k) ∷ t) h = ground (arith, lacking-none q p t)

pub Gone-unlink :
    (dir : Option FilePath) (p : FilePath) (t : Tree) {u : Tree}
    → Gone dir t
    → unlink p t ≡ (u, ok tt)
    → Gone dir u
unfolding unlink
Gone-unlink none p t g h = tt
Gone-unlink (some dir) p t g h = ground (arith, lacking-none dir p t)

pub Gone-drop_empty :
    (dir : Option FilePath) (p : FilePath) (t : Tree) {u : Tree}
    → Gone dir t
    → drop_empty p t ≡ (u, ok tt)
    → Gone dir u
unfolding drop_empty remove_dir
Gone-drop_empty none p t g h = tt
Gone-drop_empty (some dir) p t g h = ground (arith, lacking-none dir p t)

pub Emptied-Gone :
    {p : FilePath} {t u : Tree} (dir : Option FilePath) → Gone dir t → Emptied p t u → Gone dir u
Emptied-Gone none g e = tt
Emptied-Gone (some dir) g e = Emptied-at-none dir g e

pub Emptied-drop_empty :
    {p : FilePath} {t u : Tree} (q : FilePath)
    → ((r : FilePath) → under q r ≡ true → under p r ≡ false)
    → drop_empty q t ≡ (t, ok tt)
    → Emptied p t u
    → drop_empty q u ≡ (u, ok tt)
unfolding drop_empty is_dir remove_dir
Emptied-drop_empty {t = t} q apart h e = ground (
  arith,
  Emptied-at_apart q (apart q (under-same q)) e,
  Emptied-is_empty q apart e,
  at-lacking q t,
)

-- The removal of the source brings nothing back.
pub Gone-remove_source :
    (dir source : Option FilePath) (t : Tree) {u : Tree}
    → Gone dir t
    → remove_copy source t ≡ (u, ok tt)
    → Gone dir u
unfolding remove_copy remove_dir_all
Gone-remove_source none source t g h = tt
Gone-remove_source (some dir) none t g h = ground arith
Gone-remove_source (some dir) (some p) t g h = ground (arith, outside-none dir p t)

pub drop_empty-remove_source :
    (q : FilePath) (source : Option FilePath) (t : Tree) {u : Tree}
    → ((p r : FilePath) → source ≡ some p → under q r ≡ true → under p r ≡ false)
    → drop_empty q t ≡ (t, ok tt)
    → remove_copy source t ≡ (u, ok tt)
    → drop_empty q u ≡ (u, ok tt)
unfolding remove_copy remove_dir_all drop_empty is_dir remove_dir
drop_empty-remove_source q none t apart s h = ground arith
drop_empty-remove_source q (some p) t apart s h = ground (
  arith,
  at-outside_apart p q t (apart p q refl (under-same q)),
  is_empty-outside p q t (λ r. apart p r refl),
  at-lacking q t,
)
