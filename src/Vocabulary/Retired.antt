-- ===== src/Vocabulary/Retired.antt =====
-- No value is lost where the vocabulary has retired a name.
use rs_runvault.Base.{
  ℕ, [], ◌∷◌, ◌++◌, some, Text, nat_eq, list_eq, ◌≡◌, ◌≢◌, arith, Option-cases, inl, inr,
}
use rs_runvault.Verify.Walk.{get}
use rs_runvault.Verify.Research.{split_once}
use rs_runvault.Vocabulary.{Vocabulary, move_to, place_of, resolve_metric}

split_once-append :
    (sep : ℕ) (s : Text) {head tail : Text}
    → split_once sep s ≡ some (head, tail)
    → s ≡ head ++ sep ∷ tail
unfolding split_once
split_once-append sep [] h = cc
split_once-append sep (c ∷ s) {head} {tail} h = elim (Option-cases (split_once sep s)) [
  | inl e ↦ ground (arith, e)
  | inr ((before, behind), e) ↦
      ground (arith, e, split_once-append sep s {head = before} {tail = behind} e)
]

-- The column that a value is moved to is one of the registry: its name is where the registry sends
-- the metric, cut at a dot, and neither part of it is empty.
resolve_metric-move_to :
    (v : Vocabulary) (name table column : Text)
    → resolve_metric v name ≡ move_to table column
    → (get name v.moved_metrics ≡ some (table ++ b'.' ∷ column)) × (table ≢ []) × (column ≢ [])
unfolding resolve_metric place_of
resolve_metric-move_to v name table column h = elim (Option-cases (get name v.moved_metrics)) [
  | inl e ↦ absurd (ground (arith, e))
  | inr (destination, e) ↦ elim (Option-cases (split_once b'.' destination)) [
    | inl f ↦ absurd (ground (arith, e, f))
    | inr ((before, behind), f) ↦
        let g = split_once-append b'.' destination {head = before} {tail = behind} f in
        (ground (arith, e, f, g), ground (arith, e, f), ground (arith, e, f))
  ]
]
