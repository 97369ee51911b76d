-- ===== src/Ids.antt =====
-- crates/runvault/src/ids.rs: the slug grammar, `run_uid` and `run_slug`. Generating a ULID and
-- formatting a local time are library calls; the identifiers they give enter as texts.
pub mod Grammar
pub mod Prefixes
mod Tests
use rs_runvault.Base.{
  ℕ, ◌+◌, Bool, true, false, ◌&&◌, ◌||◌, not, List, [], ◌∷◌, ◌++◌, Option, none, some, Text, codes,
  ltb, leb, ◌==◌, nat_eq, list_eq, contains, if◌then◌else◌, length, take, all, ◌≡◌, refl,
  ℕ_discrete, zero, suc,
}
use rs_runvault.Base.Decimal.{decimal}
use rs_runvault.Error.{Result, ok, err, Error, slug}
use mathlib.Core.List.{reverse}

-- `char::is_ascii_lowercase` and its kin.
unfoldable pub is_lower : ℕ → Bool
is_lower c = leb b'a' c && leb c b'z'

unfoldable pub is_upper : ℕ → Bool
is_upper c = leb b'A' c && leb c b'Z'

unfoldable pub is_digit : ℕ → Bool
is_digit c = leb b'0' c && leb c b'9'

-- The test of the loop of `validate_slug` on every character but the first.
unfoldable pub slug_char : ℕ → Bool
unfolding is_lower is_digit
slug_char c = is_lower c || is_digit c || c == b'.' || c == b'_' || c == b'-'

slug_rest : Text → Text → Text → Result (Unit {0})
slug_rest field text [] = ok tt
slug_rest field text (c ∷ chars) =
    let rest = slug_rest field text chars in
    if not (slug_char c) then err (slug field text) else rest

unfoldable pub validate_slug : Text → Text → Result (Unit {0})
unfolding slug_rest slug_char
validate_slug field [] = err (slug field [])
validate_slug field (first ∷ chars) =
    if ltb 64 (length (first ∷ chars))
    then err (slug field (first ∷ chars))
    else if not (is_lower first) && not (is_digit first)
    then err (slug field (first ∷ chars))
    else slug_rest field (first ∷ chars) chars

abbrev uid_char : ℕ → Bool
uid_char c = is_digit c || (is_upper c && not (contains (codes "ILOU") c))

unfoldable pub is_run_uid : Text → Bool
unfolding is_digit is_upper
is_run_uid [] = false
is_run_uid (first ∷ rest) =
    if not (leb b'0' first && leb first b'7') then false else length rest == 25 && all uid_char rest

-- `&s[..n]`, which panics where the string is shorter.
abbrev pub prefix : ℕ → Text → Option Text
prefix zero s = some []
prefix (suc n) [] = none
prefix (suc n) (c ∷ s) = elim (prefix n s) [ none ↦ none | some p ↦ some (c ∷ p) ]

-- `none` is the panic of the two slices. The hashes are ASCII texts, so a slice panics only where
-- its text is too short.
unfoldable pub run_slug : Text → Text → Text → Text → Option ℕ → Option Text
run_slug subcommand timestamp config_hash execution_hash collision_index =
    elim (prefix 8 config_hash) [
      | none ↦ none
      | some cfg8 ↦ elim (prefix 4 execution_hash) [
        | none ↦ none
        | some exec4 ↦
            let base = subcommand ++ b'_' ∷ (timestamp ++ b'_' ∷ (cfg8 ++ b'_' ∷ exec4)) in
            some (elim collision_index [ some n ↦ base ++ b'-' ∷ decimal n | none ↦ base ])
      ]
    ]

-- `rsplit_once` at the last separator.
unfoldable pub rsplit_once : ℕ → Text → Option (Text × Text)
rsplit_once sep [] = none
rsplit_once sep (c ∷ s) = elim (rsplit_once sep s) [
  | some (head, tail) ↦ some (c ∷ head, tail)
  | none ↦ if c == sep then some ([], s) else none
]

-- The collision suffix is cut off where there is one.
stem_of : Text → Text
unfolding rsplit_once is_digit
stem_of s = elim (rsplit_once b'-' s) [
  | some (head, tail) ↦ if not (tail == []) && all is_digit tail then head else s
  | none ↦ s
]

abbrev pub hex_char : ℕ → Bool
hex_char c = is_digit c || (leb b'a' c && leb c b'f')

-- The first two parts of `rsplitn(3, '_')`, from the right.
last_parts : Text → Option (Text × Text)
unfolding rsplit_once
last_parts stem = elim (rsplit_once b'_' stem) [
  | none ↦ none
  | some (head, exec4) ↦
      some (elim (rsplit_once b'_' head) [ none ↦ head | some (_, cfg8) ↦ cfg8 ], exec4)
]

unfoldable pub slug_hash_prefixes : Text → Option (Text × Text)
unfolding stem_of last_parts
slug_hash_prefixes s = elim (last_parts (stem_of s)) [
  | none ↦ none
  | some (cfg8, exec4) ↦
      if not (length cfg8 == 8) || not (length exec4 == 4)
      then none
      else if all hex_char cfg8 && all hex_char exec4
      then some (cfg8, exec4)
      else none
]
