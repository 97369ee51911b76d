-- ===== src/Canonical/Tests.antt =====
-- Canonical texts of concrete values, and the theorems about them at concrete data.
use rs_runvault.Base.{
  ◌++◌, some, ℕ, true, [], ◌∷◌, none, some, codes, ◌≡◌, refl, ◌==◌, nat_eq, ℕ_discrete, list_eq,
}
use rs_runvault.Base.Decimal.{decimal}
use rs_runvault.Base.Order.{text_ord}
use rs_runvault.Base.Sort.{sort_on}
use rs_runvault.Error.{ok}
use rs_runvault.Json.{null, number, array, object, nil, cons, end, member}
use rs_runvault.Canonical.{Library, write_string_raw, write_number, canonicalize}
use mathlib.Core.List.Perm as Perm
use rs_runvault.Canonical.Strings.{read_string, read_string-write_string_raw}
use rs_runvault.Canonical.Order.{members, canonicalize-perm}
use rs_runvault.Canonical.Framing.{join_lp-injective}

-- A library for the tests: whole numbers only, texts that are normal as they stand, and a digest
-- that keeps the bytes.
abbrev pub plain : Library
plain = record {
  Number = ℕ;
  Float = ℕ;
  as_u64 = λ n. some n;
  as_i64 = λ n. none;
  as_f64 = λ n. none;
  is_finite = λ f. true;
  is_zero = λ f. f == 0;
  zero_float = 0;
  display = decimal;
  nfc = λ s. s;
  blake3_hex = λ s. s;
}

keys_sorted :
    canonicalize plain (
      object (
        member
          (codes "b")
          (number 1)
          (member (codes "a") (array (cons (number 2) (cons null nil))) end)))
    ≡ ok (codes "{\"a\":[2,null],\"b\":1}")
unfolding canonicalize sort_on text_ord ℕ_discrete decimal write_string_raw list_eq write_number
keys_sorted = refl

join_lp-injective_example : codes "1:a" ∷ codes "" ∷ [] ≡ codes "1:a" ∷ codes "" ∷ []
join_lp-injective_example =
    join_lp-injective (codes "1:a" ∷ codes "" ∷ []) (codes "1:a" ∷ codes "" ∷ []) refl

read_string-write_string_raw_example :
    read_string (write_string_raw (codes "a\"b\n") ++ codes ":1")
    ≡ some (codes "a\"b\n", codes ":1")
read_string-write_string_raw_example = read_string-write_string_raw (codes "a\"b\n") (codes ":1")

canonicalize-perm_example :
    canonicalize plain (object (members plain ((codes "b", null) ∷ (codes "a", number 1) ∷ [])))
    ≡ canonicalize plain (object (members plain ((codes "a", number 1) ∷ (codes "b", null) ∷ [])))
canonicalize-perm_example =
    canonicalize-perm plain (Perm.swap (codes "a", number 1) (codes "b", null) [])
