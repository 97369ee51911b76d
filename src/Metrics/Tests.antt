-- ===== src/Metrics/Tests.antt =====
-- A declaration of one metric and one family.
use rs_runvault.Base.{
  ℕ, true, List, [], ◌∷◌, none, some, Text, codes, filter, list_eq, ℕ_discrete, ◌≡◌, refl,
}
use rs_runvault.Verify.Walk.{get}
use rs_runvault.Pointer.{split}
use rs_runvault.Vocabulary.{Vocabulary}
use rs_runvault.Metrics.{
  MetricPattern, Declaration, matches, is_axis, axis_order, position, gather, gather_all, resolve,
  zeroes, count_at,
}
use rs_runvault.Metrics.Described.{
  own_descriptions, left_to_patterns, undescribed, resolve_accounts,
}
use rs_runvault.Metrics.Tally.{tally}

abbrev pub vocabulary : Vocabulary
vocabulary = record {
  version = codes "1";
  event_schemas = codes "terminal" ∷ [];
  metric_names =
      (codes "n_units", record { scopes = codes "run" ∷ []; meaning = codes "units" }) ∷ [];
  renamed_metrics = [];
  moved_metrics = (codes "wall_sec", codes "runs.duration") ∷ [];
}

abbrev family : MetricPattern
family = record {
  pattern = codes "acc.{split}.{class}";
  meaning = some (codes "accuracy");
  unit = none;
  direction = none;
  axes = [];
}

abbrev pub declaration : Declaration ℕ
declaration = record {
  require_docs = true;
  metrics =
      (
        codes "loss",
        record { meaning = codes "loss"; unit = none; direction = none; range = none; scope = [] },
      )
      ∷ [];
  metric_patterns = family ∷ [];
  parameters = [];
}

abbrev names : List Text
names = codes "acc.test.a" ∷ codes "loss" ∷ codes "n_units" ∷ codes "other" ∷ []

axes_in_order : axis_order family ≡ codes "split" ∷ codes "class" ∷ []
unfolding axis_order split is_axis list_eq ℕ_discrete
axes_in_order = refl

one_undescribed : (resolve vocabulary declaration names).undescribed ≡ codes "other" ∷ []
unfolding resolve gather_all gather get position matches split is_axis zeroes count_at list_eq
    ℕ_discrete
one_undescribed = refl

resolve_accounts_example :
    ((resolve vocabulary declaration names).metrics ≡ own_descriptions vocabulary declaration names)
    × ((resolve vocabulary declaration names).patterns
        ≡ tally (left_to_patterns vocabulary declaration) declaration.metric_patterns names)
    × ((resolve vocabulary declaration names).undescribed
        ≡ filter (undescribed vocabulary declaration) names)
resolve_accounts_example = resolve_accounts vocabulary declaration names
