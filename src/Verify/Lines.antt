-- ===== src/Verify/Lines.antt =====
-- crates/runvault/src/verify.rs: the checks of `events.jsonl`. serde_json is a parameter, and so is the
-- comparison of an `f64`.
use rs_runvault.Base.{
  Bool, true, false, not, List, [], ◌∷◌, ◌++◌, Option, none, some, Text, codes, ◌==◌, nat_eq,
  list_eq, if◌then◌else◌,
}
use rs_runvault.Error.{
  Result, ok, err, verify, not_json, event_uid_differs, no_text_field, no_number_field, no_censored,
  unobserved_unit, last_differs, budget_differs, censored_without_budget, refuse_if, ◌>>=◌, ◌>>◌,
}
use rs_runvault.Json.{Value, null, bool, number, string, array, object}
use rs_runvault.Canonical.{Library}
use rs_runvault.Pointer
use rs_runvault.Verify.Walk.{get}
use rs_runvault.Verify.Research.{blank}
use rs_runvault.Delete.Scan.{update}

-- `serde_json::from_str` and `to_string`.
pub record Jsonl (N : Type 0) : Type 0 where
  pub from_str : Text → Option (Value N)
  pub to_string : Value N → Text

-- `>` and `==` of an `f64`.
pub record Comparison (Float : Type 0) : Type 0 where
  pub above : Float → Float → Bool
  pub same : Float → Float → Bool

module _ {N : Type 0} where
  -- `value.get(field)` of any value
  unfoldable pub field_of : Text → Value N → Option (Value N)
  field_of field (object members) = Pointer.get field members
  field_of field _ = none

  -- `and_then(|v| v.as_str())`
  unfoldable pub text_of : Option (Value N) → Option Text
  text_of (some (string s)) = some s
  text_of (some null) = none
  text_of (some (bool b)) = none
  text_of (some (number n)) = none
  text_of (some (array items)) = none
  text_of (some (object members)) = none
  text_of none = none

  -- `and_then(Value::as_bool)`
  unfoldable pub bool_of : Option (Value N) → Option Bool
  bool_of (some (bool b)) = some b
  bool_of (some null) = none
  bool_of (some (string s)) = none
  bool_of (some (number n)) = none
  bool_of (some (array items)) = none
  bool_of (some (object members)) = none
  bool_of none = none

  -- The file, where there is one, line by line, with what the closure changes.
  module _ (lines : Jsonl N) {S : Type 0} (f : S → Value N → Result S) where
    unfoldable pub for_each_event : S → List Text → Result S
    for_each_event s [] = ok s
    for_each_event s (line ∷ rest) =
        let skipped = for_each_event s rest in
        if blank line then skipped else elim (lines.from_str line) [
          | none ↦ err (verify not_json)
          | some value ↦ do next ← f s value; for_each_event next rest
        ]

  unfoldable pub same_uid : Text → Unit {0} → Value N → Result (Unit {0})
  same_uid uid _ value = elim (text_of (field_of (codes "run_uid") value)) [
    | none ↦ refuse_if (not (uid == [])) (verify event_uid_differs)
    | some found ↦ refuse_if (not (found == uid)) (verify event_uid_differs)
  ]

  unfoldable pub check_events : Jsonl N → Option (List Text) → Text → Result (Unit {0})
  check_events lines none uid = ok tt
  check_events lines (some events) uid = for_each_event lines (same_uid uid) tt events

-- A `terminal` row of a unit: its time, whether it was cut off, and the budget.
pub record Terminal (Float : Type 0) : Type 0 where
  pub unit_id : Text
  pub t : Float
  pub censored : Bool
  pub budget : Option Float

-- `last_observed` and `terminals`.
pub record Seen (Float : Type 0) : Type 0 where
  pub last_observed : List (Text × Float)
  pub terminals : List (Terminal Float)

module _ (lib : Library) where
  open lib use {Number, Float, as_f64}

  -- `and_then(Value::as_f64)`
  unfoldable pub number_of : Option (Value Number) → Option Float
  number_of (some (number n)) = as_f64 n
  number_of (some null) = none
  number_of (some (bool b)) = none
  number_of (some (string s)) = none
  number_of (some (array items)) = none
  number_of (some (object members)) = none
  number_of none = none

  unfoldable pub event_str : Value Number → Text → Result Text
  event_str value field = elim (text_of (field_of field value)) [
    | none ↦ err (verify no_text_field)
    | some s ↦ ok s
  ]

  unfoldable pub event_num : Value Number → Text → Result Float
  event_num value field = elim (number_of (field_of field value)) [
    | none ↦ err (verify no_number_field)
    | some x ↦ ok x
  ]

  module _ (comparison : Comparison Float) where
    open comparison use {above, same}

    -- `entry(unit).and_modify(..).or_insert(t)`
    unfoldable pub observe : Text → Float → List (Text × Float) → List (Text × Float)
    observe unit t last = elim (get unit last) [
      | none ↦ update unit t last
      | some max ↦ if above t max then update unit t last else last
    ]

    unfoldable pub note_observation : Seen Float → Value Number → Result (Seen Float)
    note_observation s value = do
      unit ← event_str value (codes "unit_id")
      t ← event_num value (codes "t")
      ok (record s { last_observed = observe unit t s.last_observed })

    unfoldable pub note_terminal : Seen Float → Value Number → Result (Seen Float)
    note_terminal s value = do
      unit ← event_str value (codes "unit_id")
      t ← event_num value (codes "t")
      elim (bool_of (field_of (codes "censored") value)) [
        | none ↦ err (verify no_censored)
        | some censored ↦ ok (record s {
          terminals =
              s.terminals
              ++ record {
                unit_id = unit;
                t = t;
                censored = censored;
                budget = number_of (field_of (codes "budget") value);
              }
                ∷ [];
        })
      ]

    -- The closure of `check_terminal_events`.
    unfoldable pub note : Seen Float → Value Number → Result (Seen Float)
    note s value = elim (text_of (field_of (codes "schema") value)) [
      | none ↦ ok s
      | some schema ↦
          if schema == codes "observation"
          then note_observation s value
          else if schema == codes "terminal"
          then note_terminal s value
          else ok s
    ]

    unfoldable pub check_budget : Terminal Float → Result (Unit {0})
    check_budget x = elim x.budget [
      | none ↦ err (verify censored_without_budget)
      | some budget ↦ refuse_if (not (same budget x.t)) (verify budget_differs)
    ]

    unfoldable pub check_terminal : List (Text × Float) → Terminal Float → Result (Unit {0})
    check_terminal last x = elim (get x.unit_id last) [
      | none ↦ err (verify unobserved_unit)
      | some observed ↦ do
        refuse_if (not (same x.t observed)) (verify last_differs)
        elim x.censored [ true ↦ check_budget x | false ↦ ok tt ]
    ]

    check_each_terminal : List (Text × Float) → List (Terminal Float) → Result (Unit {0})
    check_each_terminal last [] = ok tt
    check_each_terminal last (x ∷ xs) = do check_terminal last x; check_each_terminal last xs

    unfoldable pub check_terminal_events : Jsonl Number → Option (List Text) → Result (Unit {0})
    unfolding check_each_terminal
    check_terminal_events lines none = ok tt
    check_terminal_events lines (some events) = do
      seen ← for_each_event lines note (record { last_observed = []; terminals = [] }) events
      check_each_terminal seen.last_observed seen.terminals
