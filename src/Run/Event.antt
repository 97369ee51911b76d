-- ===== src/Run/Event.antt =====
-- crates/runvault/src/run.rs: `log_event`, and what it asks of an event.
use rs_runvault.Base.{
  suc, Bool, true, false, not, ◌&&◌, List, [], ◌∷◌, Option, none, some, Text, codes, ◌==◌, nat_eq,
  list_eq, contains, length, filter, if◌then◌else◌,
}
use rs_runvault.Error.{
  Result, ok, err, Effect, spec, unknown_event_kind, payload_not_object, missing_event_keys,
  past_budget, budget_differs, refuse_if, ◌>>◌,
}
use rs_runvault.Json.{Value, null, bool, number, string, array, object, Members, end, member}
use rs_runvault.Canonical.{Library}
use rs_runvault.Pointer
use rs_runvault.Ids.{validate_slug}
use rs_runvault.Verify.Research.{split_once}
use rs_runvault.Verify.Lines.{Jsonl, Comparison, bool_of, number_of}
use rs_runvault.Vocabulary.{Vocabulary}
use rs_runvault.Run.{Run, attempt, append_line}

-- `strip_prefix("x.")`
unfoldable pub behind_x : Text → Option Text
behind_x [] = none
behind_x (a ∷ []) = none
behind_x (a ∷ b ∷ rest) = if a == b'x' && b == b'.' then some rest else none

-- A kind of an experiment's own.
unfoldable pub check_own_kind : Option Text → Result (Unit {0})
check_own_kind none = err (spec unknown_event_kind)
check_own_kind (some rest) = elim (split_once b'.' rest) [
  | none ↦ err (spec unknown_event_kind)
  | some (repo, name) ↦ do validate_slug (codes "repo_id") repo; validate_slug (codes "name") name
]

unfoldable pub check_event_kind : Vocabulary → Text → Result (Unit {0})
check_event_kind v kind =
    if contains v.event_schemas kind then ok tt else check_own_kind (behind_x kind)

module _ {N : Type 0} where
  -- `Map::insert`
  unfoldable pub insert : Text → Value N → Members N → Members N
  insert key value end = member key value end
  insert key value (member k old rest) =
      let later = insert key value rest in
      if k == key then member k value rest else member k old later

  -- `entry(key).or_insert(value)`
  unfoldable pub entry_or_insert : Text → Value N → Members N → Members N
  entry_or_insert key value members = elim (Pointer.get key members) [
    | some _ ↦ members
    | none ↦ insert key value members
  ]

  -- `object.get(key).is_none_or(Value::is_null)`
  unfoldable pub lacks : Members N → Text → Bool
  lacks members key = elim (Pointer.get key members) [
    | none ↦ true
    | some null ↦ true
    | some _ ↦ false
  ]

abbrev pub required_keys : Text → List Text
required_keys kind =
    if kind == codes "observation"
    then codes "unit_id" ∷ codes "t" ∷ codes "t_unit" ∷ []
    else if kind == codes "terminal"
    then codes "unit_id"
      ∷ codes "t"
      ∷ codes "t_unit"
      ∷ codes "outcome"
      ∷ codes "censored"
      ∷ codes "budget"
      ∷ []
    else []

abbrev or_false : Option Bool → Bool
or_false none = false
or_false (some b) = b

module _ (lib : Library) (v : Vocabulary) (comparison : Comparison lib.Float)
    (lines : Jsonl lib.Number) where
  open comparison use {above, same}

  -- Of the two numbers, where both are there.
  unfoldable pub compare_budget : Bool → lib.Float → lib.Float → Result (Unit {0})
  compare_budget censored t budget = do
    refuse_if (above t budget) (spec past_budget)
    refuse_if (censored && not (same t budget)) (spec budget_differs)

  unfoldable pub check_terminal_consistency : Members lib.Number → Result (Unit {0})
  check_terminal_consistency members = elim (number_of lib (Pointer.get (codes "t") members)) [
    | none ↦ ok tt
    | some t ↦ elim (number_of lib (Pointer.get (codes "budget") members)) [
      | none ↦ ok tt
      | some budget ↦
          compare_budget (or_false (bool_of (Pointer.get (codes "censored") members))) t budget
    ]
  ]

  unfoldable pub check_event_reserved : Text → Members lib.Number → Result (Unit {0})
  check_event_reserved kind members = do
    refuse_if (not (length (filter (lacks members) (required_keys kind)) == 0))
        (spec missing_event_keys)
    if kind == codes "terminal" then check_terminal_consistency members else ok tt

  -- The payload with the three keys that every line has.
  abbrev pub stamped : Run lib → Text → Text → Members lib.Number → Members lib.Number
  stamped r kind now payload = entry_or_insert (codes "ts") (string now) (
      insert (codes "run_uid") (string r.meta.run_uid)
        (insert (codes "schema") (string kind) payload))

  abbrev pub write_line : Run lib → Text → Effect (Run lib)
  write_line r line = (
    record r {
      events = some (append_line r.events line);
      counts = record r.counts { events = suc r.counts.events };
    },
    ok tt,
  )

  unfoldable pub check_event : Text → Members lib.Number → Result (Unit {0})
  check_event kind members = do check_event_kind v kind; check_event_reserved kind members

  -- `serde_json::to_value` of the payload, and the clock.
  unfoldable pub log_event : Run lib → Text → Value lib.Number → Text → Effect (Run lib)
  log_event r kind (object payload) now =
      attempt r (check_event kind (stamped r kind now payload))
        (λ _. write_line r (lines.to_string (object (stamped r kind now payload))))
  log_event r kind null now = (r, err (spec payload_not_object))
  log_event r kind (bool b) now = (r, err (spec payload_not_object))
  log_event r kind (number n) now = (r, err (spec payload_not_object))
  log_event r kind (string s) now = (r, err (spec payload_not_object))
  log_event r kind (array items) now = (r, err (spec payload_not_object))
