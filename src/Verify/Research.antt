-- ===== src/Verify/Research.antt =====
-- crates/runvault/src/verify.rs: `check_research`, the record of a replication.
pub mod Identified
mod Tests
use rs_runvault.Base.{
  ℕ, Bool, true, false, not, ◌&&◌, ◌||◌, List, [], ◌∷◌, Option, none, some, Text, codes, leb, ◌==◌,
  nat_eq, list_eq, contains, if◌then◌else◌,
}
use rs_runvault.Error.{
  Result, ok, err, spec, verify, refuse_if, ◌>>=◌, ◌>>◌, repeated_target, no_work, no_title,
  no_source_version, no_targets, no_obsidian_note, no_work_prefix, unknown_work_prefix,
  work_differs, no_declared_id,
}
use rs_runvault.Ids.{validate_slug}
use rs_runvault.Meta.{Target}
use rs_runvault.Meta.Run.{Work, Research}

-- The Unicode white space, in UTF-8: of one byte, of two and of three.
unfoldable pub space_1 : ℕ → Bool
space_1 a = (leb 9 a && leb a 13) || a == 32

unfoldable pub space_2 : ℕ → ℕ → Bool
space_2 a b = a == 0xC2 && (b == 0x85 || b == 0xA0)

unfoldable pub space_3 : ℕ → ℕ → ℕ → Bool
space_3 a b c =
    (a == 0xE1 && b == 0x9A && c == 0x80)
    || (a == 0xE2
        && b == 0x80
        && ((leb 0x80 c && leb c 0x8A) || c == 0xA8 || c == 0xA9 || c == 0xAF))
    || (a == 0xE2 && b == 0x81 && c == 0x9F)
    || (a == 0xE3 && b == 0x80 && c == 0x80)

-- `trim().is_empty()`
unfoldable pub blank : Text → Bool
unfolding space_1 space_2 space_3
blank [] = true
blank (a ∷ []) = space_1 a
blank (a ∷ b ∷ []) = (space_1 a && space_1 b) || space_2 a b
blank (a ∷ b ∷ c ∷ s) =
    let one = blank (b ∷ c ∷ s) in
    let two = blank (c ∷ s) in
    let three = blank s in (space_1 a && one) || (space_2 a b && two) || (space_3 a b c && three)

-- `as_deref().unwrap_or("").trim().is_empty()`
abbrev pub blank_option : Option Text → Bool
blank_option none = true
blank_option (some t) = blank t

-- `split_once` at the first separator: what stands before and behind it.
unfoldable pub split_once : ℕ → Text → Option (Text × Text)
split_once sep [] = none
split_once sep (c ∷ s) =
    let rest = split_once sep s in
    if c == sep
    then some ([], s)
    else elim rest [ none ↦ none | some (head, tail) ↦ some (c ∷ head, tail) ]

-- The loop over the targets, with the set of the names seen.
check_target_ids : List Text → List Target → Result (Unit {0})
check_target_ids seen [] = ok tt
check_target_ids seen (t ∷ ts) = do
  validate_slug (codes "target_id") t.target_id
  refuse_if (contains seen t.target_id) (verify repeated_target)
  check_target_ids (t.target_id ∷ seen) ts

-- `match declared`
unfoldable pub compare_id : Option Text → Text → Result (Unit {0})
compare_id none rest = err (spec no_declared_id)
compare_id (some value) rest = refuse_if (not (value == rest)) (verify work_differs)

-- What the prefix of `work_id` names is the canonical one of the three identifiers.
unfoldable pub check_work_id : Work → Result (Unit {0})
check_work_id w = elim (split_once b':' w.work_id) [
  | none ↦ err (spec no_work_prefix)
  | some (prefix, rest) ↦
      if prefix == codes "doi"
      then compare_id w.doi rest
      else if prefix == codes "arxiv"
      then compare_id w.arxiv_id rest
      else if prefix == codes "paperid"
      then compare_id w.paper_id rest
      else err (spec unknown_work_prefix)
]

abbrev is_empty : List Target → Bool
is_empty [] = true
is_empty (t ∷ ts) = false

-- What a replication needs besides its targets' names.
unfoldable pub check_replication : Research → Work → Result (Unit {0})
check_replication r w = do
  refuse_if (blank w.title) (spec no_title)
  refuse_if (blank_option w.source_version) (spec no_source_version)
  refuse_if (is_empty r.targets) (spec no_targets)
  refuse_if (blank_option r.obsidian_note) (spec no_obsidian_note)
  check_work_id w

unfoldable pub check_research : Research → Result (Unit {0})
unfolding check_target_ids
check_research r = do
  check_target_ids [] r.targets
  elim r.is_replication [
    | false ↦ ok tt
    | true ↦ elim r.work [ none ↦ err (spec no_work) | some w ↦ check_replication r w ]
  ]
