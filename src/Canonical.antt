-- ===== src/Canonical.antt =====
-- crates/runvault/src/canonical.rs: canonical JSON, and length-prefixed concatenation in the module
-- below. Numbers, NFC and BLAKE3 are those of the libraries, and enter as a `Library`.
pub mod Framing
mod Order
mod Strings
pub mod Tests
use rs_runvault.Base.{
  ℕ, suc, ◌+◌, ◌-◌, ◌/◌, ◌%◌, Bool, true, false, List, [], ◌∷◌, ◌++◌, Option, none, some, Text,
  codes, ltb, ◌==◌, nat_eq, list_eq, contains, if◌then◌else◌,
}
use rs_runvault.Base.Decimal.{decimal}
use rs_runvault.Base.Order.{text_ord}
use rs_runvault.Base.Sort.{sort_on}
use rs_runvault.Error.{Result, ok, err, canonical, not_finite, not_a_number, duplicate_key, ◌>>=◌}
use mathlib.Core.List
use rs_runvault.Json.{
  Value, null, bool, number, string, array, object, Items, nil, cons, Members, end, member,
}

-- An `i64`: `negsuc n` is -(n + 1).
pub data ℤ : Type 0 where
  pos : ℕ → ℤ
  negsuc : ℕ → ℤ

-- What the program calls of serde_json, of `f64`, of unicode_normalization and of blake3.
pub record Library : Type 1 where
  pub Number : Type 0
  pub Float : Type 0
  pub as_u64 : Number → Option ℕ
  pub as_i64 : Number → Option ℤ
  pub as_f64 : Number → Option Float
  pub is_finite : Float → Bool
  -- `f == 0.0`, which holds of both zeroes.
  pub is_zero : Float → Bool
  pub zero_float : Float
  pub display : Float → Text
  pub nfc : Text → Text
  pub blake3_hex : Text → Text

-- `to_string` of an `i64`.
unfoldable pub signed : ℤ → Text
signed (pos n) = decimal n
signed (negsuc n) = b'-' ∷ decimal (suc n)

hex_digit : ℕ → ℕ
hex_digit d = if ltb d 10 then b'0' + d else b'a' + (d - 10)

-- One round of the loop of `write_string_raw`.
unfoldable pub escape_byte : ℕ → Text
unfolding hex_digit
escape_byte c =
    if c == b'"'
    then codes "\\\""
    else if c == b'\\'
    then codes "\\\\"
    else if c == 8
    then codes "\\b"
    else if c == 12
    then codes "\\f"
    else if c == 10
    then codes "\\n"
    else if c == 13
    then codes "\\r"
    else if c == 9
    then codes "\\t"
    else if ltb c 0x20
    then codes "\\u00" ++ hex_digit (c / 16) ∷ hex_digit (c % 16) ∷ []
    else c ∷ []

escape_bytes : Text → Text
escape_bytes [] = []
escape_bytes (c ∷ s) = escape_byte c ++ escape_bytes s

-- What `write_string_raw` pushes.
unfoldable pub write_string_raw : Text → Text
unfolding escape_bytes escape_byte
write_string_raw s = b'"' ∷ (escape_bytes s ++ b'"' ∷ [])

-- The loops over the elements: a comma before each but the first, and the first error ends them.
write_each : Bool → List (Result Text) → Result Text
write_each first [] = ok []
write_each first (item ∷ items) = do
  text ← item
  rest ← write_each false items
  ok ((if first then [] else b',' ∷ []) ++ (text ++ rest))

-- `keys.windows(2)`
has_duplicate : List (Text × Result Text) → Bool
has_duplicate [] = false
has_duplicate (x ∷ []) = false
has_duplicate ((j, _) ∷ (k, t) ∷ rest) =
    let more = has_duplicate ((k, t) ∷ rest) in if j == k then true else more

write_member : Text × Result Text → Result Text
write_member (key, item) = do text ← item; ok (write_string_raw key ++ b':' ∷ text)

module _ (lib : Library) where
  open lib use {
    Number, Float, as_u64, as_i64, as_f64, is_finite, is_zero, zero_float, display, nfc, blake3_hex,
  }

  -- `-0.0` is folded to `0.0`, and a text without a point gets `.0`.
  unfoldable pub format_f64 : Float → Result Text
  format_f64 f =
      if is_finite f
      then (let s = display (if is_zero f then zero_float else f) in
          ok (if contains s b'.' then s else s ++ codes ".0"))
      else err (canonical not_finite)

  unfoldable pub write_number : Number → Result Text
  unfolding format_f64 signed
  write_number n = elim (as_u64 n) [
    | some u ↦ ok (decimal u)
    | none ↦ elim (as_i64 n) [
      | some i ↦ ok (signed i)
      | none ↦ elim (as_f64 n) [ some f ↦ format_f64 f | none ↦ err (canonical not_a_number) ]
    ]
  ]

  unfoldable pub write_string : Text → Text
  unfolding write_string_raw
  write_string s = write_string_raw (nfc s)

  -- What `write_value` pushes. The members of an object are written in the order of the sorted
  -- keys; the sort looks at the keys alone, so the writing of a member is delayed by the pair.
  unfoldable mutual
    unfolding write_each write_member has_duplicate

    pub write_value : Value Number → Result Text
    write_value null = ok (codes "null")
    write_value (bool true) = ok (codes "true")
    write_value (bool false) = ok (codes "false")
    write_value (number n) = write_number n
    write_value (string s) = ok (write_string s)
    write_value (array items) = do
      text ← write_each true (write_items items)
      ok (b'[' ∷ (text ++ b']' ∷ []))
    write_value (object map) =
        let keys = sort_on (λ (p : Text × Result Text). p.0) (write_members map) in
        if has_duplicate keys
        then err (canonical duplicate_key)
        else do text ← write_each true (List.map write_member keys); ok (b'{' ∷ (text ++ b'}' ∷ []))

    pub write_items : Items Number → List (Result Text)
    write_items nil = []
    write_items (cons item items) = write_value item ∷ write_items items

    pub write_members : Members Number → List (Text × Result Text)
    write_members end = []
    write_members (member key item rest) = (nfc key, write_value item) ∷ write_members rest

  unfoldable pub canonicalize : Value Number → Result Text
  unfolding write_value
  canonicalize value = write_value value
