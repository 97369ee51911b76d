-- ===== src/Legacy.antt =====
-- crates/runvault/src/legacy.rs: the names and the keys of runs that predate the specification.
pub mod Keys
pub mod Boundaries
pub mod Rows
pub mod Long
pub mod Wide
pub mod Gathered
pub mod Unique
pub mod Conversion
mod Tests
use rs_runvault.Base.{
  ℕ, zero, suc, ◌<◌, Bool, true, false, not, ◌&&◌, ◌||◌, List, [], ◌∷◌, ◌++◌, Option, none, some,
  Text, codes, all, get_elem?, length, ltb, leb, take, ◌==◌, nat_eq, list_eq, if◌then◌else◌,
}
use rs_runvault.Error.{Result, ok, err, spec, bad_relpath, ◌>>=◌}
use rs_runvault.Ids.{is_digit, is_lower, is_upper}
use rs_runvault.Verify.{starts_with}

pub record LegacyName : Type 0 where
  pub timestamp : Text
  pub prefix : Option Text
  pub suffix : Option Text

abbrev pub drop_bytes : ℕ → Text → Text
drop_bytes zero s = s
drop_bytes (suc n) [] = []
drop_bytes (suc n) (c ∷ s) = drop_bytes n s

abbrev pub is_word : ℕ → Bool
is_word c = is_digit c || is_lower c || is_upper c || c == b'_' || c == b'-'

-- The byte in front of what is looked at, if there is one, is a `_`.
unfoldable pub after_mark : Text → Bool
after_mark [] = true
after_mark (c ∷ []) = c == b'_'
after_mark (c ∷ d ∷ s) = after_mark (d ∷ s)

unfoldable pub begins_marked : Text → Bool
begins_marked [] = true
begins_marked (c ∷ s) = c == b'_'

-- A byte at which `&s[..n]` may end: none that continues a character.
abbrev pub is_boundary : ℕ → Bool
is_boundary c = ltb c 0x80 || leb 0xC0 c

-- `none` is the panic of `&candidate[..8]`, which is taken before anything else is tested.
unfoldable pub is_timestamp : Text → Option Bool
is_timestamp candidate = elim (get_elem? candidate 8) [
  | none ↦ none
  | some mark ↦
      if is_boundary mark
      then some
          (all is_digit (take 8 candidate) && mark == b'_' && all is_digit (drop_bytes 9 candidate))
      else none
]

abbrev pub all_but_last : Text → Text
all_but_last [] = []
all_but_last (c ∷ []) = []
all_but_last (c ∷ d ∷ s) = c ∷ all_but_last (d ∷ s)

-- `(start > 0).then(|| name[..start - 1])`
abbrev pub prefix_of : Text → Option Text
prefix_of [] = none
prefix_of (c ∷ before) = some (all_but_last (c ∷ before))

-- `(end < len).then(|| name[end + 1..])`
abbrev pub suffix_of : Text → Option Text
suffix_of [] = none
suffix_of (c ∷ after) = some after

-- The loop: what stands before `start`, and what from there on. It ends where no fifteen bytes are
-- left. `none` is a panic.
unfoldable pub parse_from : Text → Text → Option (Option LegacyName)
parse_from before [] = some none
parse_from before (c ∷ rest) =
    let later = parse_from (before ++ c ∷ []) rest in
    let candidate = take 15 (c ∷ rest) in
    let after = drop_bytes 15 (c ∷ rest) in
    if ltb (length (c ∷ rest)) 15
    then some none
    else if not (after_mark before) || not (begins_marked after)
    then later
    else elim (is_timestamp candidate) [
      | none ↦ none
      | some false ↦ later
      | some true ↦ some (
          if all is_word (before ++ c ∷ rest)
          then some (record {
            timestamp = candidate;
            prefix = prefix_of before;
            suffix = suffix_of after;
          })
          else none)
    ]

unfoldable pub parse_dir_name : Text → Option (Option LegacyName)
parse_dir_name name = parse_from [] name

unfoldable pub has_suffix : Text → Text → Bool
has_suffix s suffix = elim s [
  | [] ↦ suffix == []
  | c ∷ (rest → shorter) ↦ (c ∷ rest) == suffix || shorter
]

unfoldable pub is_metric_file : Text → Bool
is_metric_file stem =
    starts_with stem (codes "metrics")
    || has_suffix stem (codes "_metrics")
    || has_suffix stem (codes "_summary")

-- `str::replace` of an ASCII character
unfoldable pub replace_byte : ℕ → Text → Text → Text
replace_byte b with_ [] = []
replace_byte b with_ (c ∷ s) =
    let rest = replace_byte b with_ s in if c == b then with_ ++ rest else c ∷ rest

unfoldable pub encode_key_part : Text → Text
encode_key_part part = replace_byte b':' (codes "%3A") (replace_byte b'%' (codes "%25") part)

unfoldable pub run_key : Text → Text → Text
run_key repo_id relpath =
    codes "legacy:" ++ (encode_key_part repo_id ++ b':' ∷ encode_key_part relpath)

-- `std::path::Component`
pub data Component : Type 0 where
  normal : Text → Component
  cur_dir other : Component

-- What is pushed of the components; `nfc` is that of unicode_normalization.
module _ (nfc : Text → Text) where
  unfoldable pub normal_parts : List Component → Result (List Text)
  normal_parts [] = ok []
  normal_parts (normal part ∷ components) = do rest ← normal_parts components; ok (nfc part ∷ rest)
  normal_parts (cur_dir ∷ components) = normal_parts components
  normal_parts (other ∷ components) = err (spec bad_relpath)

  -- `join("/")`
  unfoldable pub join_slash : List Text → Text
  join_slash [] = []
  join_slash (part ∷ []) = part
  join_slash (part ∷ next ∷ parts) = part ++ b'/' ∷ join_slash (next ∷ parts)

  unfoldable pub normalize_relpath : List Component → Result Text
  normalize_relpath components = do
    parts ← normal_parts components
    elim parts [ [] ↦ err (spec bad_relpath) | part ∷ more ↦ ok (join_slash (part ∷ more)) ]
