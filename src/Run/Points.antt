-- ===== src/Run/Points.antt =====
-- What `require` has let pass is recorded in a form that the checks of a lineage accept.
use rs_runvault.Base.{
  ℕ, Bool, true, false, not, ◌&&◌, ◌||◌, [], Option, none, some, Text, codes, nat_eq, list_eq, ◌==◌,
  ◌≡◌, refl, arith, Bool-cases, inl, inr,
}
use rs_runvault.Error.{
  ok, spec, no_repo_id, no_domain, reserved_experiment, no_master_seed, no_llm, refuse_if,
  >>=-eq-ok,
}
use rs_runvault.Canonical.{Library}
use rs_runvault.Ids.{validate_slug}
use rs_runvault.Meta.{Lineage}
use rs_runvault.Verify.{is_some, check_lineage_shape, check_lineage_fields}
use rs_runvault.Verify.Research.{check_research}
use rs_runvault.Run.Start.{
  RunOptions, needed, check_parent, check_point, check_datasets, heads_a_sweep, require_options,
  or_no_lineage, with_sweep, with_point, lineage_of,
}

module _ {lib : Library} (o : RunOptions lib) where
  -- The three checks of `require` that look at the lineage, and the one of the replication.
  require_options-checks :
      {named : Text × Text}
      → require_options o ≡ ok named
      → (check_parent o.sweep_parent o.lineage ≡ ok tt)
        × (check_research o.research ≡ ok tt)
        × (check_point o.sweep_parent o.lineage o.sweep_point ≡ ok tt)
        × (check_lineage_shape o.lineage ≡ ok tt)
  unfolding require_options
  require_options-checks e =
      let (repo_id, _, e1) = >>=-eq-ok (needed o.repo_id (spec no_repo_id)) _ e in
      let (domain, _, e2) = >>=-eq-ok (needed o.domain (spec no_domain)) _ e1 in
      let (_, _, e3) =
        >>=-eq-ok (refuse_if (o.experiment == codes "_scratch") (spec reserved_experiment)) _ e2 in
      let (_, _, e4) = >>=-eq-ok (validate_slug (codes "repo_id") repo_id) _ e3 in
      let (_, _, e5) = >>=-eq-ok (validate_slug (codes "experiment") o.experiment) _ e4 in
      let (_, _, e6) = >>=-eq-ok (validate_slug (codes "subcommand") o.subcommand) _ e5 in
      let (_, _, e7) = >>=-eq-ok (validate_slug (codes "domain") domain) _ e6 in
      let (_, a, e8) = >>=-eq-ok (check_parent o.sweep_parent o.lineage) _ e7 in
      let (_, _, e9) =
        >>=-eq-ok
          (refuse_if
            (domain == codes "simulation"
              && not (is_some o.master_seed)
              && not (o.sweep_parent || heads_a_sweep o.lineage))
            (spec no_master_seed))
          _ e8 in
      let (_, _, e10) =
        >>=-eq-ok (refuse_if (domain == codes "llm-safety" && not (is_some o.llm)) (spec no_llm)) _
          e9 in
      let (_, _, e11) = >>=-eq-ok (check_datasets [] o.data_used) _ e10 in
      let (_, b, e12) = >>=-eq-ok (check_research o.research) _ e11 in
      let (_, c, e13) = >>=-eq-ok (check_point o.sweep_parent o.lineage o.sweep_point) _ e12 in
      let (_, d, _) = >>=-eq-ok (check_lineage_shape o.lineage) _ e13 in (a, b, c, d)

shape_kept :
    (parent : Bool) (lineage : Option Lineage) (point : Option (ℕ × ℕ)) (slug : Text)
    → check_parent parent lineage ≡ ok tt
    → check_point parent lineage point ≡ ok tt
    → check_lineage_shape lineage ≡ ok tt
    → (not parent && not (is_some point)) ≡ false
    → check_lineage_fields (with_point point (with_sweep parent slug (or_no_lineage lineage)))
      ≡ ok tt
unfolding check_parent check_point check_lineage_shape check_lineage_fields
shape_kept true none none slug a b c d = refl
shape_kept true (some l) none slug a b c d = ground arith
shape_kept true none (some (i, n)) slug a b c d = ground arith
shape_kept true (some l) (some (i, n)) slug a b c d = ground arith
shape_kept false lineage none slug a b c d = cc
shape_kept false none (some (i, n)) slug a b c d = ground arith
shape_kept false (some l) (some (i, n)) slug a b c d = ground arith

-- If `require` accepts the options, then the lineage that is written, with the sweep of a parent and the
-- point filled in, passes `check_lineage_shape`, whatever the name of the directory, and the
-- replication passes `check_research`.
pub require_options-lineage_of :
    {lib : Library} (o : RunOptions lib) (slug : Text) {named : Text × Text}
    → require_options o ≡ ok named
    → (check_lineage_shape (lineage_of o slug) ≡ ok tt) × (check_research o.research ≡ ok tt)
unfolding lineage_of check_lineage_shape
require_options-lineage_of o slug e =
    let (a, b, c, d) = require_options-checks o e in
    elim (Bool-cases (not o.sweep_parent && not (is_some o.sweep_point))) [
      | inl f ↦ (rw (f, lineage_of) d, b)
      | inr f ↦
          (rw (f, lineage_of) (shape_kept o.sweep_parent o.lineage o.sweep_point slug a c d f), b)
    ]
