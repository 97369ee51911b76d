-- ===== src/Sync/Tests.antt =====
-- The metrics of a run that is sent a second time, when they have grown past the size from which
-- they are compressed.
use mathlib.Core.Option.{some-injective}
use rs_runvault.Base.{
  ℕ, true, false, List, [], ◌∷◌, ◌++◌, Option, none, some, Text, codes, All, ◌≡◌, ◌⊎◌, inl, inr,
  refl, sym, ap, arith, list_eq, ℕ_discrete,
}
use rs_runvault.Error.{Result, ok, err, spec, required_excluded}
use rs_runvault.Base.Order.{text_ord}
use rs_runvault.Base.Sort.{sort_on}
use rs_runvault.Canonical.Tests.{plain as canonical_plain}
use rs_runvault.Meta.Run.{RunMeta}
use rs_runvault.Verify.Tests.{meta, slug}
use rs_runvault.Delete.Plan.{to_set, without_repeats}
use rs_runvault.Sync.Plan.{
  Globs, send, plan_canonical, send_run, canonical_files, included, without_excluded, default_files,
  canonical_names, plan_each,
}
use rs_runvault.Sync.Chosen.{NoneCompressed, planned_refines}
use rs_runvault.Verify.{starts_with}
use rs_runvault.Verify.Walk.{get}
use rs_runvault.Delete.Scan.{update}
use rs_runvault.Sync.{
  plain, zstd, SyncedFile, PlannedFile, SyncPlan, Dest, compressed_name, planned_file,
  compression_of, find_file, previous_form, Outside, execute, new_receipt, synced_file,
  read_synced_optional, is_append_only, is_immutable, digest, check_previous, guard_rewrite, place,
  without, other_form, copy_into, read_stored, seal, send_file, send_files, link_by_slug,
}
use rs_runvault.Sync.Reader.{stored_is_prefix_of, read_full, read, given}
use rs_runvault.Sync.Prefix.{stored_is_prefix_of-starts_with}
use rs_runvault.Sync.Apart.{Named, WellNamed}
use rs_runvault.Sync.Kept.{Lossless, execute_keeps}

abbrev unpack : Text → Option Text
unpack [] = none
unpack (c ∷ s) = some s

abbrev outside : Outside
outside = record {
  compress = λ s. 40 ∷ s;
  decompress = unpack;
  blake3_hex = λ s. s;
  sizes = λ rel. 2 ∷ 1 ∷ [];
  host = codes "here";
  synced_at = codes "2026-09-02T00:00:00Z";
  source_path = codes "/results/exp/run";
}

lossless : Lossless outside
lossless = record { decompress_compress = λ s. refl }

abbrev metrics : PlannedFile
metrics = record {
  path = codes "metrics.csv";
  stored_path = codes "metrics.csv.zst";
  compression = zstd;
  bytes = 8;
}

metrics_planned : planned_file 5 (codes "metrics.csv") (codes "a,b\n1,2\n") ≡ metrics
unfolding planned_file compression_of compressed_name
metrics_planned = refl

abbrev identity : PlannedFile
identity = record {
  path = codes "run.json";
  stored_path = codes "run.json";
  compression = plain;
  bytes = 2;
}

abbrev sync_plan : SyncPlan
sync_plan = record {
  run_key = codes "k";
  run_uid = some (codes "u");
  run_slug = some (codes "s");
  repo_id = codes "repo";
  verified = some true;
  files = metrics ∷ identity ∷ [];
}

abbrev source : List (Text × Text)
source = (codes "metrics.csv", codes "a,b\n1,2\n") ∷ (codes "run.json", codes "{}") ∷ []

abbrev before : Dest
before = record {
  files = (codes "metrics.csv", codes "a,b\n") ∷ [];
  receipt = some (record {
    schema_version = codes "1.0";
    run_uid = some (codes "u");
    run_key = codes "k";
    generation = 1;
    synced_at = codes "2026-09-01T00:00:00Z";
    verified = some true;
    source = record { host = codes "here"; repo_id = codes "repo"; path = codes "p" };
    files =
        record {
          path = codes "metrics.csv";
          stored_path = codes "metrics.csv";
          compression = plain;
          source = digest outside (codes "a,b\n");
          stored = digest outside (codes "a,b\n");
        }
        ∷ [];
  });
  link = none;
}

abbrev after : Dest
after = record {
  files = (codes "metrics.csv.zst", codes "(a,b\n1,2\n") ∷ (codes "run.json", codes "{}") ∷ [];
  receipt = some (
      new_receipt outside sync_plan before.receipt (
        synced_file outside metrics (codes "a,b\n1,2\n")
        ∷ synced_file outside identity (codes "{}")
        ∷ []));
  link = some (codes "../../u");
}

runs : execute outside sync_plan source before ≡ (after, ok tt)
unfolding execute seal send_files send_file get list_eq ℕ_discrete check_previous previous_form
    find_file guard_rewrite is_append_only is_immutable read_stored stored_is_prefix_of read_full
    read given place without other_form compressed_name update copy_into link_by_slug
runs = refl

well_named : All WellNamed sync_plan.files
unfolding compressed_name
well_named = (refl, (refl, tt))

abbrev first : Text → ℕ
first [] = 0
first (c ∷ s) = c

first-metrics : (p : Text) → Named metrics p → first p ≡ b'm'
unfolding compressed_name
first-metrics p (inl e) = ap first e
first-metrics p (inr e) = ap first e

first-identity : (p : Text) → Named identity p → first p ≡ b'r'
unfolding compressed_name
first-identity p (inl e) = ap first e
first-identity p (inr e) = ap first e

separate : (p : Text) → Named metrics p → ¬ (Named identity p)
separate p a b = omega (arith, first-metrics p a, first-identity p b)

form_before :
    (o : SyncedFile)
    → previous_form before.receipt (codes "metrics.csv") ≡ some o
    → Named metrics o.stored_path
unfolding previous_form find_file list_eq ℕ_discrete
form_before o e = inl (ap (λ x. x.stored_path) (sym (some-injective _ o e)))

read_before : read_synced_optional outside before (codes "metrics.csv") ≡ ok (some (codes "a,b\n"))
unfolding read_synced_optional find_file get list_eq ℕ_discrete read_stored
read_before = refl

execute_keeps_example :
    (new : Text) × (read_synced_optional outside after (codes "metrics.csv") ≡ ok (some new))
    × ((is_append_only (codes "metrics.csv") ≡ false) ⊎ (starts_with new (codes "a,b\n") ≡ true))
    × ((is_immutable (codes "metrics.csv") ≡ false) ⊎ (new ≡ codes "a,b\n"))
execute_keeps_example =
    execute_keeps outside lossless sync_plan source before after 0 metrics (codes "a,b\n")
      well_named ((separate, tt), (tt, tt)) refl form_before read_before runs

stored_is_prefix_of-starts_with_example :
    stored_is_prefix_of 4 2
      (record { content = codes "a,b"; sizes = 1 ∷ [] })
      (record { content = codes "a,b\n"; sizes = 0 ∷ 7 ∷ [] })
    ≡ some (starts_with (codes "a,b\n") (codes "a,b"))
stored_is_prefix_of-starts_with_example =
    stored_is_prefix_of-starts_with 4 2 (record { content = codes "a,b"; sizes = 1 ∷ [] })
      (record { content = codes "a,b\n"; sizes = 0 ∷ 7 ∷ [] }) (omega arith) (omega arith)

no_globs : Globs
no_globs patterns = err (spec required_excluded)

abbrev files : List (Text × Text)
files =
    (codes "metrics.csv", codes "a,b\n1,2\n")
    ∷ (codes "run.json", codes "{}")
    ∷ (codes "config.json", codes "{}")
    ∷ (codes "artifacts/a.npy", codes "1")
    ∷ []

abbrev settings : PlannedFile
settings = record {
  path = codes "config.json";
  stored_path = codes "config.json";
  compression = plain;
  bytes = 2;
}

abbrev run : Result (RunMeta canonical_plain)
run = ok (meta slug (codes "90dbd20f11") (codes "cd76aa"))

abbrev run_uid : Text
run_uid = codes "01ARZ3NDEKTSV4RRFFQ69G5FAV"

abbrev canonical_plan : SyncPlan
canonical_plan = record {
  run_key = run_uid;
  run_uid = some run_uid;
  run_slug = some slug;
  repo_id = codes "repo";
  verified = some true;
  files = settings ∷ metrics ∷ identity ∷ [];
}

planned :
    plan_canonical canonical_plain no_globs files [] [] 5 run (ok tt) (codes "repo") true
    ≡ ok (send canonical_plan)
unfolding plan_canonical send_run canonical_files included without_excluded default_files
    canonical_names to_set without_repeats sort_on text_ord plan_each planned_file compression_of
    compressed_name list_eq ℕ_discrete get starts_with
planned = refl

separate_files : NoneCompressed canonical_plan.files
unfolding compressed_name
separate_files = (
  (
    ((λ e. omega (arith, ap first e)), (λ e. omega (arith, ap first e))),
    (((λ e. omega (arith, ap first e)), (λ e. omega (arith, ap first e))), tt),
  ),
  ((((λ e. omega (arith, ap first e)), (λ e. omega (arith, ap first e))), tt), (tt, tt)),
)

abbrev empty : Dest
empty = record { files = []; receipt = none; link = none }

abbrev filled : Dest
filled = record {
  files =
      (codes "config.json", codes "{}")
      ∷ (codes "metrics.csv.zst", codes "(a,b\n1,2\n")
      ∷ (codes "run.json", codes "{}")
      ∷ [];
  receipt = some (
      new_receipt outside canonical_plan none (
        synced_file outside settings (codes "{}")
        ∷ synced_file outside metrics (codes "a,b\n1,2\n")
        ∷ synced_file outside identity (codes "{}")
        ∷ []));
  link = some (codes "../../" ++ run_uid);
}

sends : execute outside canonical_plan files empty ≡ (filled, ok tt)
unfolding execute seal send_files send_file get list_eq ℕ_discrete check_previous previous_form
    find_file place without other_form compressed_name update copy_into link_by_slug
sends = refl

planned_refines_example :
    (c : Text) × (get (codes "metrics.csv") files ≡ some c)
    × (read_synced_optional outside filled (codes "metrics.csv") ≡ ok (some c))
planned_refines_example =
    planned_refines canonical_plain no_globs files [] [] 5 canonical_plan run (ok tt) (codes "repo")
      true outside empty filled 1 metrics planned separate_files lossless refl sends
