-- ===== src/Sync/Plan.antt =====
-- crates/runvault/src/sync.rs: `canonical_files` and `plan_canonical`, which decide what is sent of a
-- run. The globs of globset and `verify::deep` enter as parameters.
use rs_runvault.Base.{
  ℕ, Bool, true, false, not, ◌&&◌, List, [], ◌∷◌, ◌++◌, none, some, Text, codes, contains, map,
  filter, ◌==◌, nat_eq, list_eq,
}
use rs_runvault.Error.{
  Result, ok, err, spec, io, wrong_repo, required_excluded, refuse_if, ◌>>=◌, ◌>>◌,
}
use rs_runvault.Canonical.{Library}
use rs_runvault.Meta.Run.{RunMeta, Visibility, internal, public}
use rs_runvault.Verify.{starts_with}
use rs_runvault.Verify.Walk.{get}
use rs_runvault.Delete.Plan.{to_set}
use rs_runvault.Sync.{PlannedFile, SyncPlan, planned_file}

-- `globset::GlobSetBuilder`: whether a path matches one of the patterns, where they are valid.
abbrev pub Globs : Type 0
Globs = List Text → Result (Text → Bool)

abbrev pub has : List (Text × Text) → Text → Bool
has source rel = elim (get rel source) [ none ↦ false | some _ ↦ true ]

unfoldable pub canonical_names : List Text
canonical_names =
    codes "run.json"
    ∷ codes "config.json"
    ∷ codes "status.json"
    ∷ codes "metrics.csv"
    ∷ codes "metrics.meta.json"
    ∷ codes "parameters.meta.json"
    ∷ codes "reference.csv"
    ∷ codes "manifest.csv"
    ∷ codes "events.jsonl"
    ∷ []

-- `walk_files`
abbrev all_paths : List (Text × Text) → List Text
all_paths source = map (λ e. e.0) source

module _ (globs : Globs) (source : List (Text × Text)) where
  unfoldable pub default_files : List Text
  default_files =
      filter (has source) canonical_names
      ++ filter (λ rel. starts_with rel (codes "lock/")) (all_paths source)

  unfoldable pub included : List Text → Result (List Text)
  included [] = ok []
  included (p ∷ patterns) = do
    matches ← globs (p ∷ patterns)
    ok (filter matches (all_paths source))

  unfoldable pub without_excluded : List Text → List Text → Result (List Text)
  without_excluded [] chosen = ok chosen
  without_excluded (p ∷ patterns) chosen = do
    matches ← globs (p ∷ patterns)
    ok (filter (λ rel. not (matches rel)) chosen)

  abbrev pub missing : List Text → Text → Bool
  missing chosen required = not (contains chosen required) && has source required

  unfoldable pub plan_each : ℕ → List Text → Result (List PlannedFile)
  plan_each limit [] = ok []
  plan_each limit (rel ∷ rels) = elim (get rel source) [
    | none ↦ err (io rel)
    | some content ↦ do rest ← plan_each limit rels; ok (planned_file limit rel content ∷ rest)
  ]

  unfoldable pub canonical_files : List Text → List Text → ℕ → Result (List PlannedFile)
  canonical_files sync_include sync_exclude limit = do
    more ← included sync_include
    chosen ← without_excluded sync_exclude (to_set (default_files ++ more))
    refuse_if (missing chosen (codes "run.json")) (spec required_excluded)
    refuse_if (missing chosen (codes "config.json")) (spec required_excluded)
    plan_each limit chosen

pub data Planned : Type 0 where
  send : SyncPlan → Planned
  skipped_internal skipped_unverified : Planned

abbrev pub held_back : Visibility → Bool → Bool
held_back internal allow_internal = not allow_internal
held_back public allow_internal = false

module _ (lib : Library) (globs : Globs) (source : List (Text × Text))
    (sync_include sync_exclude : List Text) (limit : ℕ) where
  -- The directories of the run and of its copy are not part of the plan here.
  unfoldable pub send_run : RunMeta lib → Result (Unit {0}) → Result Planned
  send_run m (err _) = ok skipped_unverified
  send_run m (ok _) = do
    files ← canonical_files globs source sync_include sync_exclude limit
    ok (
        send (record {
          run_key = m.run_uid;
          run_uid = some m.run_uid;
          run_slug = some m.run_slug;
          repo_id = m.repo_id;
          verified = some true;
          files = files;
        }))

  unfoldable pub plan_canonical :
      Result (RunMeta lib) → Result (Unit {0}) → Text → Bool → Result Planned
  plan_canonical run_json deep repo_id allow_internal = do
    m ← run_json
    refuse_if (not (m.repo_id == repo_id)) (spec wrong_repo)
    elim (held_back m.visibility allow_internal) [
      | true ↦ ok skipped_internal
      | false ↦ send_run m deep
    ]
