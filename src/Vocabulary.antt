-- ===== src/Vocabulary.antt =====
-- crates/runvault/src/vocabulary.rs: the registry as it is parsed, and the two questions asked of it.
-- A map is the list of its entries.
pub mod Retired
use rs_runvault.Base.{
  ℕ, Bool, true, false, not, ◌||◌, List, [], ◌∷◌, Option, none, some, Text, ◌==◌, nat_eq, list_eq,
  contains, if◌then◌else◌,
}
use rs_runvault.Verify.Walk.{get}
use rs_runvault.Verify.Research.{split_once}

pub record ReservedMetric : Type 0 where
  pub scopes : List Text
  pub meaning : Text

-- Of the settings of the dashboard nothing is kept here.
pub record Vocabulary : Type 0 where
  pub version : Text
  pub event_schemas : List Text
  pub metric_names : List (Text × ReservedMetric)
  pub renamed_metrics : List (Text × Text)
  pub moved_metrics : List (Text × Text)

unfoldable pub metric_allowed_at : Vocabulary → Text → Text → Bool
metric_allowed_at v name scope = elim (get name v.metric_names) [
  | some reserved ↦ contains reserved.scopes scope
  | none ↦ true
]

-- `metric_names.contains_key`
abbrev pub is_reserved : Vocabulary → Text → Bool
is_reserved v name = elim (get name v.metric_names) [ some _ ↦ true | none ↦ false ]

pub data Resolved : Type 0 where
  keep : Text → Resolved
  move_to : Text → Text → Resolved
  unplaceable : Text → Resolved

-- `match destination.split_once('.')`
unfoldable pub place_of : Text → Resolved
place_of destination = elim (split_once b'.' destination) [
  | none ↦ unplaceable destination
  | some (table, column) ↦
      if table == [] || column == [] then unplaceable destination else move_to table column
]

unfoldable pub resolve_metric : Vocabulary → Text → Resolved
resolve_metric v name = elim (get name v.moved_metrics) [
  | some destination ↦ place_of destination
  | none ↦ elim (get name v.renamed_metrics) [ some new ↦ keep new | none ↦ keep name ]
]
