-- ===== src/Delete/Origin.antt =====
-- What `plan` takes from the call.
use rs_runvault.Base.{
  Bool, false, List, [], ◌∷◌, Option, none, some, Text, codes, All, ◌≡◌, refl, subst, arith, inl,
  inr, Option-cases, nat_eq, list_eq,
}
use rs_runvault.Error.{ok, err, spec, empty_reason, not_found_anywhere, refuse_if, >>=-eq-ok}
use rs_runvault.Canonical.{Library}
use rs_runvault.Ids.{validate_slug}
use rs_runvault.Status.{State}
use rs_runvault.Verify.Walk.{get}
use rs_runvault.Verify.Research.{blank}
use rs_runvault.Delete.{Selection, Found, eligible_state}
use rs_runvault.Delete.Tombstones.{Tombstone, Lines, read, malformed, is_some}
use rs_runvault.Delete.Scan.{SourceRun, VaultRun, entry, scan_sources, scan_vault}
use rs_runvault.Delete.Scanned.{get-All}
use rs_runvault.Delete.Plan.{
  Context, delete_plan, plan_one, plan_targets, plan, target_uids, check_selection,
}
use rs_runvault.Delete.Planned.{Read, read-Read}
use rs_runvault.Delete.Execute.{DeletePlan}

abbrev pub IsOf : Context → Text → DeletePlan → Type 0
IsOf context repo_id p = (p.tombstone.repo_id ≡ repo_id) × (p.vault_root ≡ context.vault_root)

module _ (lib : Library) (context : Context) (repo_id reason : Text) where
  delete_plan-IsOf :
      (uid : Text) (item : Found lib) (old : Option Tombstone) (experiment run_slug : Text)
      (state : State)
      → ((t : Tombstone) → old ≡ some t → malformed repo_id t ≡ false)
      → IsOf context repo_id
          (delete_plan lib context repo_id reason uid item old experiment run_slug state)
  unfolding delete_plan malformed
  delete_plan-IsOf uid item none experiment run_slug state r = (refl, refl)
  delete_plan-IsOf uid item (some o) experiment run_slug state r = (ground (arith, r o refl), refl)

  plan_one-IsOf :
      (include_succeeded : Bool) (uid : Text) (item : Found lib) (old : Option Tombstone)
      {p : DeletePlan}
      → ((t : Tombstone) → old ≡ some t → malformed repo_id t ≡ false)
      → plan_one lib context repo_id reason include_succeeded uid item old ≡ ok p
      → IsOf context repo_id p
  unfolding plan_one
  plan_one-IsOf include_succeeded uid item old {p} r e = elim (Option-cases item.found_meta) [
    | inr (m, f) ↦
        let (state, _, q) =
          >>=-eq-ok
            (eligible_state lib context.moment context.lock item include_succeeded (is_some old))
            (λ state.
              ok
                (delete_plan lib context repo_id reason uid item old m.experiment m.run_slug state))
            {b = p} (ground arith) in
        subst (IsOf context repo_id)
          {x = delete_plan lib context repo_id reason uid item old m.experiment m.run_slug state}
          {y = p} (ground (arith, q))
          (delete_plan-IsOf uid item old m.experiment m.run_slug state r)
    | inl f ↦ without_meta old r (ground arith)
  ]
    where
      without_meta :
          (old : Option Tombstone)
          → ((t : Tombstone) → old ≡ some t → malformed repo_id t ≡ false)
          → elim old [
            | some o ↦ ok (
                delete_plan lib context repo_id reason uid item
                  (some o)
                  o.experiment
                  o.run_slug
                  o.state)
            | none ↦ err (spec not_found_anywhere)
          ]
            ≡ ok p
          → IsOf context repo_id p
      without_meta none r e = cc
      without_meta (some o) r e =
          subst (IsOf context repo_id)
            {x = delete_plan lib context repo_id reason uid item (some o) o.experiment o.run_slug
              o.state}
            {y = p} (ground (arith, e))
            (delete_plan-IsOf uid item (some o) o.experiment o.run_slug o.state r)

  plan_targets-IsOf :
      (include_succeeded : Bool) (tombstones : List (Text × Tombstone))
      (found : List (Text × Found lib)) (uids : List Text) {plans : List DeletePlan}
      → All (λ x. Read repo_id x.0 x.1) tombstones
      → plan_targets lib context repo_id reason include_succeeded tombstones found uids ≡ ok plans
      → All (IsOf context repo_id) plans
  unfolding plan_targets
  plan_targets-IsOf include_succeeded tombstones found [] {plans} r e =
      subst (All (IsOf context repo_id)) {x = []} {y = plans} (ground arith) tt
  plan_targets-IsOf include_succeeded tombstones found (uid ∷ uids) {plans} r e =
      let (first, f, e1) =
        >>=-eq-ok
          (plan_one lib context repo_id reason include_succeeded uid (entry lib uid found)
            (get uid tombstones))
          _ e in
      let (rest, g, e2) =
        >>=-eq-ok (plan_targets lib context repo_id reason include_succeeded tombstones found uids)
          _ e1 in
      subst (All (IsOf context repo_id)) {x = first ∷ rest} {y = plans} (ground (arith, e2)) (
        plan_one-IsOf include_succeeded uid (entry lib uid found) (get uid tombstones)
            (λ t h. (get-All (Read repo_id) uid tombstones r h).1) f,
        plan_targets-IsOf include_succeeded tombstones found uids r g,
      )

  pub plan-IsOf :
      (lines : Lines) (deleted : Option (List Text)) (sources : List (SourceRun lib))
      (vaults : List (VaultRun lib)) (selection : Selection) (include_succeeded : Bool)
      {plans : List DeletePlan}
      → plan lib context repo_id reason lines deleted sources vaults selection include_succeeded
        ≡ ok plans
      → All (IsOf context repo_id) plans
  unfolding plan
  plan-IsOf lines deleted sources vaults selection include_succeeded e =
      let (_, _, e1) = >>=-eq-ok (validate_slug (codes "repo_id") repo_id) _ e in
      let (_, _, e2) = >>=-eq-ok (refuse_if (blank reason) (spec empty_reason)) _ e1 in
      let (_, _, e3) = >>=-eq-ok (check_selection selection) _ e2 in
      let (tombstones, r, e4) = >>=-eq-ok (read lines repo_id deleted) _ e3 in
      let (with_sources, _, e5) = >>=-eq-ok (scan_sources lib repo_id selection sources []) _ e4 in
      let (found, _, e6) = >>=-eq-ok (scan_vault lib repo_id selection vaults with_sources) _ e5 in
      plan_targets-IsOf include_succeeded tombstones found (target_uids lib selection found)
        (read-Read lines repo_id deleted r) e6
