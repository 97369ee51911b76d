-- ===== src/Delete/Planned.antt =====
-- What `plan` returns can be executed.
use rs_runvault.Base.{
  Bool, true, false, List, [], ◌∷◌, Option, none, some, Text, codes, All, ◌≡◌, refl, subst, arith,
  Bool-cases, Option-cases, inl, inr, nat_eq, list_eq,
}
use rs_runvault.Error.{
  Result, ok, err, spec, empty_reason, not_found_anywhere, refuse_if, >>=-eq-ok,
}
use rs_runvault.Ids.{validate_slug, is_run_uid}
use rs_runvault.Ids.Grammar.{validate_slug_safe}
use rs_runvault.Canonical.{Library}
use rs_runvault.Meta.Run.{RunMeta}
use rs_runvault.Status.{State}
use rs_runvault.Verify.Walk.{get}
use rs_runvault.Verify.Research.{blank}
use rs_runvault.Delete.{Selection, validate_meta_path_fields, valid_run_slug, Found, eligible_state}
use rs_runvault.Delete.Safety.{IsElement, valid_run_slug-IsElement}
use rs_runvault.Delete.Tombstones.{
  Tombstone, Lines, read, read_lines, contains, malformed, is_some, is_err, or_insert,
}
use rs_runvault.Delete.Scan.{SourceRun, VaultRun, entry, scan_sources, scan_vault}
use rs_runvault.Delete.Scanned.{get-All, Sound, entry-Sound, scan_sources-Sound, scan_vault-Sound}
use rs_runvault.Delete.Plan.{
  Context, delete_plan, plan_one, plan_targets, plan, target_uids, check_selection,
}
use rs_runvault.Delete.Execute.{DeletePlan}
use rs_runvault.Delete.Stages.{Ready}

-- A tombstone that is read has been checked, and stands under the identifier of its run.
abbrev pub Read : Text → Text → Tombstone → Type 0
Read repo_id uid t = (t.run_uid ≡ uid) × (malformed repo_id t ≡ false)

or_insert-Read :
    (repo_id : Text) (item : Tombstone) (out : List (Text × Tombstone))
    → malformed repo_id item ≡ false
    → All (λ x. Read repo_id x.0 x.1) out
    → All (λ x. Read repo_id x.0 x.1) (or_insert item out)
unfolding or_insert
or_insert-Read repo_id item out g h = elim (Option-cases (get item.run_uid out)) [
  | inl f ↦ rw (f, or_insert) ((refl, g), h)
  | inr (_, f) ↦ rw (f, or_insert) h
]

module _ (lines : Lines) (repo_id : Text) where
  read_lines-Read :
      (text : List Text) (out : List (Text × Tombstone)) {m : List (Text × Tombstone)}
      → All (λ x. Read repo_id x.0 x.1) out
      → read_lines lines repo_id text out ≡ ok m
      → All (λ x. Read repo_id x.0 x.1) m
  unfolding read_lines
  read_lines-Read [] out h e = subst (All (λ x. Read repo_id x.0 x.1)) (cc) h
  read_lines-Read (l ∷ text) out h e = elim (Bool-cases (blank l)) [
    | inl b ↦ read_lines-Read text out h (ground arith)
    | inr b ↦ elim (Option-cases (lines.read_line l)) [
      | inl f ↦ absurd (ground arith)
      | inr (item, f) ↦ elim (Bool-cases (malformed repo_id item)) [
        | inl g ↦ absurd (ground arith)
        | inr g ↦
            read_lines-Read text (or_insert item out) (or_insert-Read repo_id item out g h)
              (ground arith)
      ]
    ]
  ]

  pub read-Read :
      (deleted : Option (List Text)) {m : List (Text × Tombstone)}
      → read lines repo_id deleted ≡ ok m
      → All (λ x. Read repo_id x.0 x.1) m
  unfolding read
  read-Read none {m} e = subst (All (λ x. Read repo_id x.0 x.1)) {x = []} {y = m} (ground arith) tt
  read-Read (some text) e = read_lines-Read text [] tt e

-- The names of which a deletion builds its paths.
abbrev pub HasSafeNames : DeletePlan → Type 0
HasSafeNames p = IsElement p.experiment × IsElement p.run_slug × (is_run_uid p.run_uid ≡ true)

-- A record that has been read or checked has the names of a path.
malformed-safe :
    (repo_id : Text) (t : Tombstone)
    → malformed repo_id t ≡ false
    → (is_run_uid t.run_uid ≡ true)
      × (validate_slug (codes "experiment") t.experiment ≡ ok tt)
      × (valid_run_slug t.run_slug ≡ true)
unfolding malformed
malformed-safe repo_id t h =
    elim (Bool-cases (is_err (validate_slug (codes "experiment") t.experiment))) [
      | inl e ↦ absurd (ground arith)
      | inr e ↦
          (ground arith, not_err (validate_slug (codes "experiment") t.experiment) e, ground arith)
    ]
  where
    not_err : (r : Result (Unit {0})) → is_err r ≡ false → r ≡ ok tt
    not_err (ok _) e = refl
    not_err (err _) e = cc

slug-IsElement : (s : Text) → validate_slug (codes "experiment") s ≡ ok tt → IsElement s
slug-IsElement s h =
    let (filled, no_separator, _, no_dot, no_dots) = validate_slug_safe (codes "experiment") s h in
    (filled, no_separator, no_dot, no_dots)

validated :
    (lib : Library) (m : RunMeta lib) (uid : Text)
    → m.run_uid ≡ uid
    → validate_meta_path_fields lib m ≡ ok tt
    → (is_run_uid uid ≡ true)
      × (validate_slug (codes "experiment") m.experiment ≡ ok tt)
      × (valid_run_slug m.run_slug ≡ true)
unfolding validate_meta_path_fields
validated lib m uid n h =
    let (_, slug, rest) = >>=-eq-ok (validate_slug (codes "experiment") m.experiment) _ h in
    (subst (λ t. is_run_uid t ≡ true) n (ground (arith, rest)), slug, ground (arith, rest))

has_safe_names :
    (uid experiment run_slug : Text)
    → (is_run_uid uid ≡ true)
      × (validate_slug (codes "experiment") experiment ≡ ok tt)
      × (valid_run_slug run_slug ≡ true)
    → IsElement experiment × IsElement run_slug × (is_run_uid uid ≡ true)
has_safe_names uid experiment run_slug (u, x, v) =
    (slug-IsElement experiment x, valid_run_slug-IsElement run_slug v, u)

module _ (lib : Library) (context : Context) (repo_id reason : Text) (lines : Lines)
    (deleted : Option (List Text)) (item : Found lib) (uid : Text) where
  Ready-old :
      (o : Tombstone) (experiment run_slug : Text) (state : State)
      → Read repo_id uid o
      → contains lines repo_id deleted uid ≡ ok true
      → Ready lines
          (delete_plan lib context repo_id reason uid item (some o) experiment run_slug state)
          deleted
  unfolding delete_plan malformed
  Ready-old o experiment run_slug state (n, g) c = record {
    names_run = n;
    well_formed = λ e. cc;
    recorded = λ e. subst (λ r. contains lines r deleted uid ≡ ok true) (ground arith) c;
  }

  Ready-new :
      (experiment run_slug : Text) (state : State)
      → blank reason ≡ false
      → is_run_uid uid ≡ true
      → validate_slug (codes "experiment") experiment ≡ ok tt
      → valid_run_slug run_slug ≡ true
      → Ready lines
          (delete_plan lib context repo_id reason uid item none experiment run_slug state)
          deleted
  unfolding delete_plan malformed
  Ready-new experiment run_slug state b u x v = record {
    names_run = refl;
    well_formed = λ e. ground arith;
    recorded = λ e. cc;
  }

module _ (lib : Library) (context : Context) (repo_id reason : Text) (lines : Lines)
    (deleted : Option (List Text)) where
  plan_one-Ready :
      (include_succeeded : Bool) (uid : Text) (item : Found lib) (old : Option Tombstone)
      {p : DeletePlan}
      → blank reason ≡ false
      → Sound lib uid item
      → ((t : Tombstone) → old ≡ some t → Read repo_id uid t)
      → (is_some old ≡ true → contains lines repo_id deleted uid ≡ ok true)
      → plan_one lib context repo_id reason include_succeeded uid item old ≡ ok p
      → Ready lines p deleted × HasSafeNames p
  unfolding plan_one delete_plan
  plan_one-Ready include_succeeded uid item old {p} b s r c e =
      elim (Option-cases item.found_meta) [
        | inr (m, f) ↦
            let (n, v) = s m f in
            let (state, _, q) =
              >>=-eq-ok
                (eligible_state lib context.moment context.lock item include_succeeded
                  (is_some old))
                (λ state. ok (
                  delete_plan lib context repo_id reason uid item old m.experiment m.run_slug
                    state))
                {b = p} (ground arith) in
            subst (λ p. Ready lines p deleted × HasSafeNames p) (ground (arith, q))
              (
                with_meta old m state n v r c,
                has_safe_names uid m.experiment m.run_slug (validated lib m uid n v),
              )
        | inl f ↦ without_meta old r c (ground arith)
      ]
    where
      with_meta :
          (old : Option Tombstone) (m : RunMeta lib) (state : State)
          → m.run_uid ≡ uid
          → validate_meta_path_fields lib m ≡ ok tt
          → ((t : Tombstone) → old ≡ some t → Read repo_id uid t)
          → (is_some old ≡ true → contains lines repo_id deleted uid ≡ ok true)
          → Ready lines
              (delete_plan lib context repo_id reason uid item old m.experiment m.run_slug state)
              deleted
      with_meta none m state n v r c =
          let (u, x, g) = validated lib m uid n v in
          Ready-new lib context repo_id reason lines deleted item uid m.experiment m.run_slug state
            b u x g
      with_meta (some o) m state n v r c =
          Ready-old lib context repo_id reason lines deleted item uid o m.experiment m.run_slug
            state (r o refl) (c refl)

      without_meta :
          (old : Option Tombstone)
          → ((t : Tombstone) → old ≡ some t → Read repo_id uid t)
          → (is_some old ≡ true → contains lines repo_id deleted uid ≡ ok true)
          → elim old as (λ _. Result DeletePlan) [
            | some o ↦ ok (
                delete_plan lib context repo_id reason uid item
                  (some o)
                  o.experiment
                  o.run_slug
                  o.state)
            | none ↦ err (spec not_found_anywhere)
          ]
            ≡ ok p
          → Ready lines p deleted × HasSafeNames p
      without_meta none r c e = cc
      without_meta (some o) r c e =
          let (n, g) = r o refl in
          let (u, x, v) = malformed-safe repo_id o g in
          subst (λ p. Ready lines p deleted × HasSafeNames p) (ground arith)
            (
              Ready-old lib context repo_id reason lines deleted item uid o o.experiment o.run_slug
                  o.state (r o refl) (c refl),
              has_safe_names uid o.experiment o.run_slug
                  (subst (λ t. is_run_uid t ≡ true) n u, x, v),
            )

  plan_targets-Ready :
      (include_succeeded : Bool) (tombstones : List (Text × Tombstone))
      (found : List (Text × Found lib)) (uids : List Text) {plans : List DeletePlan}
      → blank reason ≡ false
      → All (λ x. Sound lib x.0 x.1) found
      → read lines repo_id deleted ≡ ok tombstones
      → plan_targets lib context repo_id reason include_succeeded tombstones found uids ≡ ok plans
      → All (λ p. Ready lines p deleted × HasSafeNames p) plans
  unfolding plan_targets contains
  plan_targets-Ready include_succeeded tombstones found [] {plans} b s r e =
      subst (All (λ p. Ready lines p deleted × HasSafeNames p)) {x = []} {y = plans} (ground arith)
        tt
  plan_targets-Ready include_succeeded tombstones found (uid ∷ uids) {plans} b s r e =
      let (first, f, e1) =
        >>=-eq-ok
          (plan_one lib context repo_id reason include_succeeded uid (entry lib uid found)
            (get uid tombstones))
          _ e in
      let (rest, g, e2) =
        >>=-eq-ok (plan_targets lib context repo_id reason include_succeeded tombstones found uids)
          _ e1 in
      subst (All (λ p. Ready lines p deleted × HasSafeNames p)) {x = first ∷ rest} {y = plans}
        (ground (arith, e2))
        (
          plan_one-Ready include_succeeded uid (entry lib uid found) (get uid tombstones) b
              (entry-Sound lib uid found s)
              (λ t. get-All (Read repo_id) uid tombstones (read-Read lines repo_id deleted r))
              (λ c. rw r (cc)) f,
          plan_targets-Ready include_succeeded tombstones found uids b s r g,
        )

  -- Every plan that is returned can be executed, and its names are those of a path.
  pub plan-Ready :
      (sources : List (SourceRun lib)) (vaults : List (VaultRun lib)) (selection : Selection)
      (include_succeeded : Bool) {plans : List DeletePlan}
      → plan lib context repo_id reason lines deleted sources vaults selection include_succeeded
        ≡ ok plans
      → All (λ p. Ready lines p deleted × HasSafeNames p) plans
  unfolding plan
  plan-Ready sources vaults selection include_succeeded e =
      let (_, _, e1) = >>=-eq-ok (validate_slug (codes "repo_id") repo_id) _ e in
      let (_, b, e2) = >>=-eq-ok (refuse_if (blank reason) (spec empty_reason)) _ e1 in
      let (_, _, e3) = >>=-eq-ok (check_selection selection) _ e2 in
      let (tombstones, r, e4) = >>=-eq-ok (read lines repo_id deleted) _ e3 in
      let (with_sources, s, e5) = >>=-eq-ok (scan_sources lib repo_id selection sources []) _ e4 in
      let (found, v, e6) = >>=-eq-ok (scan_vault lib repo_id selection vaults with_sources) _ e5 in
      plan_targets-Ready include_succeeded tombstones found (target_uids lib selection found)
        (ground (arith, b))
        (scan_vault-Sound lib repo_id selection vaults with_sources
          (scan_sources-Sound lib repo_id selection sources [] tt s) v)
        r e6
