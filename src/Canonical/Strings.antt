-- ===== src/Canonical/Strings.antt =====
-- What `write_string_raw` of crates/runvault/src/canonical.rs writes is read back by the rules of
-- JSON strings.
use rs_runvault.Base.{
  ◌&&◌, ◌≤◌, ℕ, zero, suc, length, ◌+◌, ◌-◌, ◌*◌, Bool, false, [], ◌∷◌, ◌++◌, Option, none, some,
  Text, ltb, leb, ◌==◌, nat_eq, if◌then◌else◌, ℕ_discrete, ◌≡◌, refl, arith, append_assoc,
}
use rs_runvault.Canonical.{escape_byte, escape_bytes, write_string_raw}

-- The value of a hexadecimal digit, and 16 of anything else.
hex_value : ℕ → ℕ
hex_value c =
    if leb b'0' c && leb c b'9'
    then c - b'0'
    else if leb b'a' c && leb c b'f'
    then c - b'a' + 10
    else if leb b'A' c && leb c b'F'
    then c - b'A' + 10
    else 16

-- The byte that a short escape stands for.
short_escape : ℕ → Option ℕ
short_escape c =
    if c == b'"'
    then some b'"'
    else if c == b'\\'
    then some b'\\'
    else if c == b'/'
    then some b'/'
    else if c == b'b'
    then some 8
    else if c == b'f'
    then some 12
    else if c == b'n'
    then some 10
    else if c == b'r'
    then some 13
    else if c == b't'
    then some 9
    else none

-- The four digits behind `\u`. Only the escapes below 0x80 are one byte; no other one is written.
read_hex : Text → Option (ℕ × Text)
unfolding hex_value
read_hex (x ∷ y ∷ z ∷ w ∷ s) =
    if x == b'0' && y == b'0' && ltb (hex_value z) 8 && ltb (hex_value w) 16
    then some (hex_value z * 16 + hex_value w, s)
    else none
read_hex _ = none

read_escape : Text → Option (ℕ × Text)
unfolding short_escape
read_escape [] = none
read_escape (d ∷ s) = elim (short_escape d) [
  | some c ↦ some (c, s)
  | none ↦ if d == b'u' then read_hex s else none
]

-- One character of a string. A control character may not stand for itself.
read_char : Text → Option (ℕ × Text)
read_char [] = none
read_char (c ∷ s) = if c == b'\\' then read_escape s else if ltb c 0x20 then none else some (c, s)

is_quote : Text → Bool
is_quote [] = false
is_quote (c ∷ s) = c == b'"'

-- The characters up to the closing quote, and what stands behind it.
read_chars : ℕ → Text → Option (Text × Text)
read_chars zero t = none
read_chars (suc n) [] = none
read_chars (suc n) (c ∷ t) = if c == b'"' then some ([], t) else elim (read_char (c ∷ t)) [
  | none ↦ none
  | some (d, rest) ↦ elim (read_chars n rest) [ none ↦ none | some (s, r) ↦ some (d ∷ s, r) ]
]

-- A JSON string at the head of a text. Each character takes at least one byte, so the length of the
-- text is enough fuel.
pub read_string : Text → Option (Text × Text)
unfolding read_chars
read_string [] = none
read_string (c ∷ t) = if c == b'"' then read_chars (suc (length t)) t else none

read_char-escape_byte :
    (c : ℕ) (r : Text)
    → (read_char (escape_byte c ++ r) ≡ some (c, r)) × (is_quote (escape_byte c ++ r) ≡ false)
unfolding read_char escape_byte is_quote read_escape read_hex
read_char-escape_byte c r = (ground arith, ground arith)

length-escape_byte : (c : ℕ) (r : Text) → suc (length r) ≤ length (escape_byte c ++ r)
unfolding escape_byte
length-escape_byte c r = ground arith

read_chars-step :
    (n c : ℕ) (t rest s r : Text)
    → is_quote t ≡ false
    → read_char t ≡ some (c, rest)
    → read_chars n rest ≡ some (s, r)
    → read_chars (suc n) t ≡ some (c ∷ s, r)
unfolding read_chars is_quote read_char
read_chars-step n c [] rest s r q p h = ground arith
read_chars-step n c (d ∷ t) rest s r q p h = rw (p, h) (ground arith)

read_chars-escape_bytes :
    (n : ℕ) (s r : Text)
    → suc (length s) ≤ n
    → read_chars n (escape_bytes s ++ b'"' ∷ r) ≡ some (s, r)
unfolding read_chars escape_bytes ℕ_discrete
read_chars-escape_bytes zero s r h = absurd (omega arith)
read_chars-escape_bytes (suc n) [] r h = refl
read_chars-escape_bytes (suc n) (c ∷ s) r h =
    let rest = escape_bytes s ++ b'"' ∷ r in
    let (p, q) = read_char-escape_byte c rest in
    rw (append_assoc (escape_byte c) (escape_bytes s) (b'"' ∷ r)) (
      read_chars-step n c (escape_byte c ++ rest) rest s r q p
        (read_chars-escape_bytes n s r (omega arith)))

length-escape_bytes : (s r : Text) → suc (length s) ≤ length (escape_bytes s ++ b'"' ∷ r)
unfolding escape_bytes
length-escape_bytes [] r = omega arith
length-escape_bytes (c ∷ s) r =
    rw (append_assoc (escape_byte c) (escape_bytes s) (b'"' ∷ r))
      (omega (arith, length-escape_bytes s r, length-escape_byte c (escape_bytes s ++ b'"' ∷ r)))

-- A written string, whatever follows it, is read back by the rules of JSON: the bytes of the text
-- come back and what followed is left. So no two texts are written alike, and none ends early.
pub read_string-write_string_raw :
    (s r : Text) → read_string (write_string_raw s ++ r) ≡ some (s, r)
unfolding read_string write_string_raw ℕ_discrete
read_string-write_string_raw s r = rw (append_assoc (escape_bytes s) (b'"' ∷ []) r) (
    read_chars-escape_bytes (suc (length (escape_bytes s ++ b'"' ∷ r))) s r
      (omega (arith, length-escape_bytes s r)))
