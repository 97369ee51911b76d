-- ===== src/Run/Start.antt =====
-- crates/runvault/src/run.rs: what is asked of the options of a run, and the name of its directory.
-- Which directories exist is a parameter.
use rs_runvault.Base.{
  ℕ, zero, suc, Bool, true, false, not, ◌&&◌, ◌||◌, List, [], ◌∷◌, Option, none, some, Text, codes,
  leb, ◌==◌, nat_eq, list_eq, pair_eq, contains, if◌then◌else◌,
}
use rs_runvault.Error.{
  Result, ok, err, Error, spec, no_repo_id, no_domain, reserved_experiment, sweep_id_given,
  parent_of_parent, no_master_seed, no_llm, repeated_dataset, unidentified_dataset,
  point_without_sweep, no_points, index_past_points, no_free_name, refuse_if, ◌>>=◌, ◌>>◌,
}
use rs_runvault.Canonical.{Library}
use rs_runvault.Ids.{validate_slug, run_slug}
use rs_runvault.Meta.{Dataset, Lineage}
use rs_runvault.Meta.Run.{Llm, Rng, Research}
use rs_runvault.Verify.{is_some, check_lineage_shape}
use rs_runvault.Verify.Research.{check_research}

-- The options that are looked at before the directory is made.
pub record RunOptions (lib : Library) : Type 0 where
  pub experiment : Text
  pub subcommand : Text
  pub repo_id : Option Text
  pub domain : Option Text
  pub data_used : List Dataset
  pub master_seed : Option ℕ
  pub replicate_index : Option ℕ
  pub llm : Option (Llm lib)
  pub lineage : Option Lineage
  pub sweep_parent : Bool
  pub sweep_point : Option (ℕ × ℕ)
  pub research : Research

abbrev pub needed : Option Text → Error → Result Text
needed none e = err e
needed (some t) e = ok t

-- Of a sweep parent that has a lineage.
unfoldable pub check_parent : Bool → Option Lineage → Result (Unit {0})
check_parent true (some l) = do
  refuse_if (is_some l.sweep_id) (spec sweep_id_given)
  refuse_if (is_some l.parent_run_uid) (spec parent_of_parent)
check_parent true none = ok tt
check_parent false lineage = ok tt

abbrev pub in_a_sweep : Option Lineage → Bool
in_a_sweep none = false
in_a_sweep (some l) = is_some l.sweep_id

abbrev pub heads_a_sweep : Option Lineage → Bool
heads_a_sweep none = false
heads_a_sweep (some l) = is_some l.sweep_id && not (is_some l.parent_run_uid)

-- The loop over the datasets, with the set of those seen.
unfoldable pub check_datasets : List (Text × Text) → List Dataset → Result (Unit {0})
check_datasets seen [] = ok tt
check_datasets seen (d ∷ ds) = do
  validate_slug (codes "data[].role") d.role
  validate_slug (codes "data[].name") d.name
  refuse_if (contains seen (d.role, d.name)) (spec repeated_dataset)
  refuse_if (not (is_some d.hash) && not (is_some d.dataset_id) && not (is_some d.uri))
      (spec unidentified_dataset)
  check_datasets ((d.role, d.name) ∷ seen) ds

unfoldable pub check_point : Bool → Option Lineage → Option (ℕ × ℕ) → Result (Unit {0})
check_point parent lineage none = ok tt
check_point parent lineage (some (index, total)) = do
  refuse_if (not (parent || in_a_sweep lineage)) (spec point_without_sweep)
  refuse_if (total == 0) (spec no_points)
  refuse_if (leb total index) (spec index_past_points)

-- `Lineage::default()`
abbrev pub or_no_lineage : Option Lineage → Lineage
or_no_lineage (some l) = l
or_no_lineage none = record {
  sweep_id = none;
  parent_run_uid = none;
  sweep_index = none;
  sweep_total = none;
  resumed_from = none;
  derived_from = none;
}

abbrev pub with_sweep : Bool → Text → Lineage → Lineage
with_sweep true slug l = record l { sweep_id = some slug }
with_sweep false slug l = l

abbrev pub with_point : Option (ℕ × ℕ) → Lineage → Lineage
with_point none l = l
with_point (some (index, total)) l = record l { sweep_index = some index; sweep_total = some total }

module _ {lib : Library} where
  unfoldable pub require_options : RunOptions lib → Result (Text × Text)
  require_options o = do
    repo_id ← needed o.repo_id (spec no_repo_id)
    domain ← needed o.domain (spec no_domain)
    refuse_if (o.experiment == codes "_scratch") (spec reserved_experiment)
    validate_slug (codes "repo_id") repo_id
    validate_slug (codes "experiment") o.experiment
    validate_slug (codes "subcommand") o.subcommand
    validate_slug (codes "domain") domain
    check_parent o.sweep_parent o.lineage
    refuse_if
        (domain == codes "simulation"
          && not (is_some o.master_seed)
          && not (o.sweep_parent || heads_a_sweep o.lineage))
        (spec no_master_seed)
    refuse_if (domain == codes "llm-safety" && not (is_some o.llm)) (spec no_llm)
    check_datasets [] o.data_used
    check_research o.research
    check_point o.sweep_parent o.lineage o.sweep_point
    check_lineage_shape o.lineage
    ok (repo_id, domain)

  unfoldable pub lineage_of : RunOptions lib → Text → Option Lineage
  lineage_of o slug =
      if not o.sweep_parent && not (is_some o.sweep_point)
      then o.lineage
      else some
          (with_point o.sweep_point (with_sweep o.sweep_parent slug (or_no_lineage o.lineage)))

  unfoldable pub rng_of : RunOptions lib → Text → Option Rng
  rng_of o domain =
      if not (is_some o.master_seed)
        && not (is_some o.replicate_index)
        && not (domain == codes "simulation")
      then none
      else some (record { master_seed = o.master_seed; replicate_index = o.replicate_index })

-- What `create_dir` answers for a name in the directory of the experiment.
pub data Creation : Type 0 where
  created already_exists : Creation
  create_failed : Error → Creation

module _ (create_dir : Text → Creation)
    (subcommand timestamp config_hash execution_hash : Text) where
  abbrev pub slug_of : Option ℕ → Option Text
  slug_of index = run_slug subcommand timestamp config_hash execution_hash index

  -- The attempts with a suffix: how many are left, and the next one. `none` is the panic of a slice.
  unfoldable pub try_suffixes : ℕ → ℕ → Option (Result (Text × Option ℕ))
  try_suffixes zero n = some (err (spec no_free_name))
  try_suffixes (suc left) n = elim (slug_of (some n)) [
    | none ↦ none
    | some slug ↦ elim (create_dir slug) [
      | created ↦ some (ok (slug, some n))
      | create_failed e ↦ some (err e)
      | already_exists ↦ try_suffixes left (suc n)
    ]
  ]

  -- Without a suffix, then with those from 2 to 999.
  unfoldable pub create_run_dir : Option (Result (Text × Option ℕ))
  create_run_dir = elim (slug_of none) [
    | none ↦ none
    | some slug ↦ elim (create_dir slug) [
      | created ↦ some (ok (slug, none))
      | create_failed e ↦ some (err e)
      | already_exists ↦ try_suffixes 998 2
    ]
  ]
