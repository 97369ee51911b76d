-- ===== src/Ids/Prefixes.antt =====
-- The hash prefixes are read back out of a `run_slug`.
use rs_runvault.Base.{
  ℕ, zero, suc, ◌≤◌, ◌<◌, ◌≡◌, ◌≢◌, refl, sym, All-append, ◌⊎◌, inl, inr, true, false, [], ◌∷◌,
  ◌++◌, append_assoc, Option, none, some, Text, arith, length, length-take, take, all, All, Lacks,
  nat_eq, list_eq,
}
use rs_runvault.Base.Decimal.{decimal, IsDigit, decimal-IsDigit, decimal-ne-nil}
use rs_runvault.Ids.{
  is_digit, hex_char, prefix, run_slug, rsplit_once, stem_of, last_parts, slug_hash_prefixes,
}
use rs_runvault.Ids.Grammar.{InRange}

rsplit_once-none : (b : ℕ) (q : Text) → Lacks b q → rsplit_once b q ≡ none
unfolding rsplit_once
rsplit_once-none b [] h = refl
rsplit_once-none b (c ∷ q) (n, h) = rw (rsplit_once-none b q h) (ground arith)

rsplit_once_last : (b : ℕ) (p q : Text) → Lacks b q → rsplit_once b (p ++ b ∷ q) ≡ some (p, q)
unfolding rsplit_once
rsplit_once_last b [] q h = rw (rsplit_once-none b q h) (ground arith)
rsplit_once_last b (c ∷ p) q h = rw (rsplit_once_last b p q h)

-- Text without a separator, put behind, lengthens the last part.
extend : Text → Option (Text × Text) → Option (Text × Text)
extend q none = none
extend q (some (head, tail)) = some (head, tail ++ q)

rsplit_once-append :
    (b : ℕ) (p q : Text) → Lacks b q → rsplit_once b (p ++ q) ≡ extend q (rsplit_once b p)
unfolding rsplit_once extend
rsplit_once-append b [] q h = rsplit_once-none b q h
rsplit_once-append b (c ∷ p) q h = ground (arith, rsplit_once-append b p q h)

abbrev pub IsHexDigit : ℕ → Type 0
IsHexDigit c = InRange b'0' b'9' c ⊎ InRange b'a' b'f' c

hex-all : (t : Text) → All IsHexDigit t → all hex_char t ≡ true
unfolding is_digit
hex-all [] h = refl
hex-all (c ∷ t) (p, h) = ground (arith, hex-all t h)

hex-Lacks : (b : ℕ) (t : Text) → b < b'0' ⊎ (b ≡ b'_') → All IsHexDigit t → Lacks b t
hex-Lacks b [] n h = tt
hex-Lacks b (c ∷ t) n (p, h) = (ground arith, hex-Lacks b t n h)

digits-all : (t : Text) → All IsDigit t → all is_digit t ≡ true
unfolding is_digit
digits-all [] h = refl
digits-all (c ∷ t) (p, h) = ground (arith, digits-all t h)

digits-Lacks_dash : (t : Text) → All IsDigit t → Lacks b'-' t
digits-Lacks_dash [] h = tt
digits-Lacks_dash (c ∷ t) (p, h) = (omega arith, digits-Lacks_dash t h)

all_digits-append : (t r : Text) → all is_digit (t ++ b'_' ∷ r) ≡ false
unfolding is_digit
all_digits-append [] r = refl
all_digits-append (c ∷ t) r = ground (arith, all_digits-append t r)

stem_of_plain : (p r : Text) → Lacks b'-' r → stem_of (p ++ b'_' ∷ r) ≡ p ++ b'_' ∷ r
unfolding stem_of extend
stem_of_plain p r h =
    go (rsplit_once b'-' p) (rsplit_once-append b'-' p (b'_' ∷ r) (omega arith, h))
  where
    go :
        (o : Option (Text × Text))
        → rsplit_once b'-' (p ++ b'_' ∷ r) ≡ extend (b'_' ∷ r) o
        → stem_of (p ++ b'_' ∷ r) ≡ p ++ b'_' ∷ r
    go none e = rw (e, stem_of)
    go (some (head, tail)) e = rw (e, stem_of) (ground (arith, all_digits-append tail r))

stem_of_suffixed : (p : Text) (n : ℕ) → stem_of (p ++ b'-' ∷ decimal n) ≡ p
unfolding stem_of
stem_of_suffixed p n =
    rw (rsplit_once_last b'-' p (decimal n) (digits-Lacks_dash _ (decimal-IsDigit n)), stem_of)
      (ground (arith, decimal-ne-nil n, digits-all (decimal n) (decimal-IsDigit n)))

last_parts-base :
    (p cfg8 exec4 : Text)
    → Lacks b'_' cfg8
    → Lacks b'_' exec4
    → last_parts (p ++ b'_' ∷ (cfg8 ++ b'_' ∷ exec4)) ≡ some (cfg8, exec4)
unfolding last_parts
last_parts-base p cfg8 exec4 h k = ground (
  arith,
  append_assoc p (b'_' ∷ cfg8) (b'_' ∷ exec4),
  rsplit_once_last b'_' (p ++ b'_' ∷ cfg8) exec4 k,
  rsplit_once_last b'_' p cfg8 h,
)

All-take : (n : ℕ) (t : Text) → All IsHexDigit t → All IsHexDigit (take n t)
All-take zero t h = tt
All-take (suc n) [] h = tt
All-take (suc n) (c ∷ t) (p, h) = (p, All-take n t h)

prefix-take : (n : ℕ) (t : Text) → n ≤ length t → prefix n t ≡ some (take n t)
prefix-take zero t h = refl
prefix-take (suc n) [] h = absurd (omega arith)
prefix-take (suc n) (c ∷ t) h = rw (prefix-take n t (omega arith))

prefixes-of_stem :
    (s p cfg8 exec4 : Text)
    → All IsHexDigit cfg8
    → All IsHexDigit exec4
    → length cfg8 ≡ 8
    → length exec4 ≡ 4
    → stem_of s ≡ p ++ b'_' ∷ (cfg8 ++ b'_' ∷ exec4)
    → slug_hash_prefixes s ≡ some (cfg8, exec4)
unfolding slug_hash_prefixes
prefixes-of_stem s p cfg8 exec4 h k m n e = ground (
  arith,
  e,
  last_parts-base p cfg8 exec4 (hex-Lacks b'_' cfg8 (inr refl) h)
      (hex-Lacks b'_' exec4 (inr refl) k),
  hex-all cfg8 h,
  hex-all exec4 k,
)

base_Lacks_dash :
    (cfg8 exec4 : Text)
    → All IsHexDigit cfg8
    → All IsHexDigit exec4
    → Lacks b'-' (cfg8 ++ b'_' ∷ exec4)
base_Lacks_dash cfg8 exec4 h k =
    All-append (λ c. c ≢ b'-') cfg8 _ (hex-Lacks b'-' cfg8 (inl (omega arith)) h)
      (omega arith, hex-Lacks b'-' exec4 (inl (omega arith)) k)

-- For any subcommand and time stamp and two hexadecimal hashes that are long enough, the directory
-- name is built, with a collision suffix or without one, and the first eight and four digits of
-- the hashes are read back out of it.
pub slug_hash_prefixes-run_slug :
    (subcommand timestamp cfg exec : Text) (collision : Option ℕ)
    → All IsHexDigit cfg
    → All IsHexDigit exec
    → 8 ≤ length cfg
    → 4 ≤ length exec
    → (s : Text) × (run_slug subcommand timestamp cfg exec collision ≡ some s)
      × (slug_hash_prefixes s ≡ some (take 8 cfg, take 4 exec))
unfolding run_slug
slug_hash_prefixes-run_slug sub ts cfg exec collision h k m n =
    let p = sub ++ b'_' ∷ ts in
    let q = take 8 cfg ++ b'_' ∷ take 4 exec in
    let same : sub ++ b'_' ∷ (ts ++ b'_' ∷ q) ≡ p ++ b'_' ∷ q = sym (append_assoc sub _ _) in
    let plain = base_Lacks_dash _ _ (All-take 8 cfg h) (All-take 4 exec k) in
    let read = λ (s : Text).
      prefixes-of_stem s p _ _ (All-take 8 cfg h) (All-take 4 exec k) (length-take 8 cfg m)
        (length-take 4 exec n) in
    elim collision
      as (λ c.
        (s : Text) × (run_slug sub ts cfg exec c ≡ some s)
        × (slug_hash_prefixes s ≡ some (take 8 cfg, take 4 exec))) [
          | none ↦ (
            p ++ b'_' ∷ q,
            ground (arith, prefix-take 8 cfg m, prefix-take 4 exec n, same),
            read (p ++ b'_' ∷ q) (stem_of_plain p q plain),
          )
          | some i ↦ (
            (p ++ b'_' ∷ q) ++ b'-' ∷ decimal i,
            ground (arith, prefix-take 8 cfg m, prefix-take 4 exec n, same),
            read ((p ++ b'_' ∷ q) ++ b'-' ∷ decimal i) (stem_of_suffixed (p ++ b'_' ∷ q) i),
          )
        ]
