-- ===== src/Run/Tests.antt =====
-- A run with one metric, one event and one figure.
use rs_runvault.Base.{
  ℕ, true, false, not, List, [], ◌∷◌, Option, none, some, Text, codes, list_eq, ℕ_discrete, ◌==◌,
  nat_eq, ◌≡◌, refl, if◌then◌else◌,
}
use rs_runvault.Base.Decimal.{decimal}
use rs_runvault.Error.{ok}
use rs_runvault.Json.{Value, null, bool, number, string, array, object, end, member}
use rs_runvault.Canonical.Tests.{plain}
use rs_runvault.Ids.{is_run_uid, validate_slug, run_slug}
use rs_runvault.Pointer
use rs_runvault.Pointer.{split}
use rs_runvault.Verify.{Clock, starts_with, check_lineage_shape}
use rs_runvault.Verify.Research.{blank, check_research}
use rs_runvault.Verify.Tests.{meta, slug}
use rs_runvault.Verify.Walk.{get}
use rs_runvault.Verify.Lines.{Jsonl, Comparison, check_events}
use rs_runvault.Verify.Contents.{inside_run}
use rs_runvault.Verify.Contents.Tests.{digest_as, files}
use rs_runvault.Metrics.{describes, resolve}
use rs_runvault.Metrics.Tests.{vocabulary, declaration}
use rs_runvault.Run.{Run, MetricEntry, check_metric_described}
use rs_runvault.Run.Stamped.{ReadsBack}
use rs_runvault.Run.Recorded.{IsConsistent}
use rs_runvault.Run.Sequence.{
  Operation, metric, batch, reference, event, perform_all, perform_all-IsConsistent,
}
use rs_runvault.Run.Explained.{resolve-explained}
use rs_runvault.Run.Finish.{Ending, finish}
use rs_runvault.Run.Sealed.{Within}
use rs_runvault.Run.Settled.{IsTimed, Settled, finish_settles}
use rs_runvault.Run.Start.{
  RunOptions, require_options, check_parent, check_datasets, check_point, lineage_of, Creation,
  created, already_exists, create_run_dir, try_suffixes,
}
use rs_runvault.Run.Points.{require_options-lineage_of}
use rs_runvault.Run.Names.{IsFirst, create_run_dir-IsFirst}

abbrev comparison : Comparison ℕ
comparison = record { above = λ a b. false; same = λ a b. a == b }

-- Of an object, the identifier of the run is written.
abbrev write : Option (Value ℕ) → Text
write (some (string uid)) = b'{' ∷ uid
write (some null) = b'{' ∷ []
write (some (bool b)) = b'{' ∷ []
write (some (number n)) = b'{' ∷ []
write (some (array items)) = b'{' ∷ []
write (some (object members)) = b'{' ∷ []
write none = b'{' ∷ []

abbrev write_value : Value ℕ → Text
write_value (object members) = write (Pointer.get (codes "run_uid") members)
write_value _ = []

abbrev read_value : Text → Option (Value ℕ)
read_value [] = none
read_value (c ∷ uid) = some (object (member (codes "run_uid") (string uid) end))

abbrev lines : Jsonl ℕ
lines = record { from_str = read_value; to_string = write_value }

begins_blank : (uid : Text) → blank (b'{' ∷ uid) ≡ false
unfolding blank ℕ_discrete
begins_blank [] = refl
begins_blank (b ∷ []) = refl
begins_blank (b ∷ c ∷ s) = refl

reads_back : ReadsBack lines
unfolding Pointer.get list_eq ℕ_discrete
reads_back = record {
  from_to = λ members uid e. (member (codes "run_uid") (string uid) end, rw e refl, refl);
  not_blank = λ members. written_blank (Pointer.get (codes "run_uid") members);
}
  where
    written_blank : (o : Option (Value ℕ)) → blank (write o) ≡ false
    written_blank (some (string uid)) = begins_blank uid
    written_blank (some null) = begins_blank []
    written_blank (some (bool b)) = begins_blank []
    written_blank (some (number n)) = begins_blank []
    written_blank (some (array items)) = begins_blank []
    written_blank (some (object members)) = begins_blank []
    written_blank none = begins_blank []

abbrev start : Run plain
start = record {
  meta = meta slug (codes "90dbd20f11") (codes "cd76aa");
  started_at = codes "2026-08-30T22:49:52Z";
  collision_index = none;
  metric_names = [];
  declaration = some declaration;
  root_known = true;
  parameters = object end;
  counts = record { metrics = 0; events = 0; artifacts = 0 };
  is_open = true;
  has_lock = true;
  has_finished = false;
  metrics = none;
  reference = none;
  events = none;
  manifest = none;
  metrics_meta = none;
  parameters_meta = none;
  status = none;
}

start-IsConsistent : IsConsistent plain vocabulary comparison lines start
unfolding check_events
start-IsConsistent = record {
  metrics = tt;
  counted = refl;
  named = tt;
  reference = tt;
  events = refl;
  event_count = refl;
}

abbrev loss : MetricEntry ℕ
loss = record { name = codes "loss"; value = 3; step = none; step_unit = none; scope = codes "run" }

abbrev operations : List (Operation plain)
operations =
    metric loss
    ∷ batch (loss ∷ loss ∷ [])
    ∷ reference (record { entry = loss; target_id = none; source = none })
    ∷ event (codes "terminal") (object end) (codes "2026-08-30T22:50:00Z")
    ∷ event (codes "x.repo.seen") (object end) (codes "2026-08-30T22:50:00Z")
    ∷ []

perform_all-IsConsistent_example :
    IsConsistent plain vocabulary comparison lines
      (perform_all plain vocabulary comparison lines start operations)
perform_all-IsConsistent_example =
    perform_all-IsConsistent plain vocabulary comparison lines start operations reads_back
      start-IsConsistent

abbrev named : Run plain
named = record start { metric_names = codes "loss" ∷ [] }

named-IsConsistent : IsConsistent plain vocabulary comparison lines named
unfolding check_events check_metric_described describes get list_eq ℕ_discrete
named-IsConsistent = record {
  metrics = tt;
  counted = refl;
  named = (refl, tt);
  reference = tt;
  events = refl;
  event_count = refl;
}

resolve-explained_example : (resolve vocabulary declaration (codes "loss" ∷ [])).undescribed ≡ []
resolve-explained_example =
    resolve-explained plain vocabulary comparison lines named declaration named-IsConsistent refl
      refl refl

abbrev clock : Clock ℕ
clock = record { is_rfc3339 = λ t. not (t == []); is_negative = λ f. false }

abbrev ending : Ending ℕ
ending = record {
  finished_at = codes "2026-08-30T22:51:00Z";
  duration_sec = 68;
  message = λ e. codes "refused";
}

timed : IsTimed plain clock vocabulary digest_as files ending start
unfolding is_run_uid list_eq ℕ_discrete
timed = record {
  uid = refl;
  started = refl;
  ended = refl;
  duration = refl;
  collision = tt;
  message = λ e f. cc;
}

figure-Within : Within files.artifacts
unfolding inside_run split starts_with list_eq ℕ_discrete
figure-Within = (refl, tt)

finish_settles_example :
    Settled plain clock vocabulary digest_as files ending
      (finish plain vocabulary digest_as files ending
        (λ r. ok tt)
        (λ r. ok tt)
        (codes "dropped")
        start).0
finish_settles_example =
    finish_settles plain clock vocabulary digest_as files ending (λ r. ok tt) (λ r. ok tt)
      (codes "dropped") start (λ e. cc) timed refl figure-Within tt

abbrev options : RunOptions plain
options = record {
  experiment = codes "exp";
  subcommand = codes "main";
  repo_id = some (codes "repo");
  domain = some (codes "simulation");
  data_used = [];
  master_seed = none;
  replicate_index = none;
  llm = none;
  lineage = none;
  sweep_parent = true;
  sweep_point = some (0, 2);
  research = record {
    is_replication = false;
    work = none;
    targets = [];
    upstream_impl = none;
    obsidian_note = none;
    jira = [];
  };
}

options_pass : require_options options ≡ ok (codes "repo", codes "simulation")
unfolding require_options validate_slug check_parent check_datasets check_research check_point
    check_lineage_shape list_eq ℕ_discrete
options_pass = refl

require_options-lineage_of_example :
    (check_lineage_shape (lineage_of options slug) ≡ ok tt)
    × (check_research options.research ≡ ok tt)
require_options-lineage_of_example = require_options-lineage_of options slug options_pass

abbrev second : Text
second = codes "main_20260830_224952_90dbd20f_cd76-2"

-- One run of the condition has begun in the same second.
abbrev create_dir : Text → Creation
create_dir name = if name == slug then already_exists else created

second_made :
    create_run_dir create_dir
      (codes "main")
      (codes "20260830_224952")
      (codes "90dbd20f11")
      (codes "cd76aa")
    ≡ some (ok (second, some 2))
unfolding create_run_dir try_suffixes run_slug decimal list_eq ℕ_discrete
second_made = refl

create_run_dir-IsFirst_example :
    IsFirst create_dir
      (codes "main")
      (codes "20260830_224952")
      (codes "90dbd20f11")
      (codes "cd76aa")
      second
      (some 2)
create_run_dir-IsFirst_example =
    create_run_dir-IsFirst create_dir (codes "main") (codes "20260830_224952") (codes "90dbd20f11")
      (codes "cd76aa") second (some 2) second_made
