-- ===== src/Legacy/Keys.antt =====
-- crates/runvault/src/legacy.rs: about the key of a legacy run.
use rs_runvault.Base.{
  ℕ, [], ◌∷◌, ◌++◌, Text, codes, ◌==◌, nat_eq, ◌≡◌, refl, arith, All-append, Lacks, split_at_sep,
  if◌then◌else◌, append_cancel,
}
use rs_runvault.Legacy.{replace_byte, encode_key_part, run_key}

-- The encoding of a byte.
encode_byte : ℕ → Text
encode_byte c = if c == b'%' then codes "%25" else if c == b':' then codes "%3A" else c ∷ []

encode_bytes : Text → Text
encode_bytes [] = []
encode_bytes (c ∷ s) = encode_byte c ++ encode_bytes s

encode_key_part-bytes : (s : Text) → encode_key_part s ≡ encode_bytes s
unfolding encode_key_part replace_byte encode_bytes encode_byte
encode_key_part-bytes [] = refl
encode_key_part-bytes (c ∷ s) = ground (arith, encode_key_part-bytes s)

encode_bytes-injective : (s t : Text) → encode_bytes s ≡ encode_bytes t → s ≡ t
unfolding encode_bytes encode_byte
encode_bytes-injective [] [] e = refl
encode_bytes-injective [] (d ∷ t) e = absurd (ground arith)
encode_bytes-injective (c ∷ s) [] e = absurd (ground arith)
encode_bytes-injective (c ∷ s) (d ∷ t) e = ground (arith, encode_bytes-injective s t)

encode_byte-Lacks : (c : ℕ) → Lacks b':' (encode_byte c)
unfolding encode_byte
encode_byte-Lacks c = ground arith

encode_bytes-Lacks : (s : Text) → Lacks b':' (encode_bytes s)
unfolding encode_bytes encode_byte
encode_bytes-Lacks [] = tt
encode_bytes-Lacks (c ∷ s) =
    All-append _ (encode_byte c) (encode_bytes s) (encode_byte-Lacks c) (encode_bytes-Lacks s)

-- Two legacy runs with one key are of one repository, and have one path below the results.
pub run_key-injective : (r s p q : Text) → run_key r p ≡ run_key s q → (r ≡ s) × (p ≡ q)
unfolding run_key
run_key-injective r s p q e =
    let (_, f) = append_cancel (codes "legacy:") (codes "legacy:") _ _ refl e in
    let (g, h) =
      split_at_sep b':' (encode_bytes r) (encode_bytes s) (encode_bytes p) (encode_bytes q)
        (encode_bytes-Lacks r) (encode_bytes-Lacks s)
        (ground (
          arith,
          encode_key_part-bytes r,
          encode_key_part-bytes s,
          encode_key_part-bytes p,
          encode_key_part-bytes q,
          f,
        )) in
    (encode_bytes-injective r s g, encode_bytes-injective p q h)
