-- ===== src/Ids/Grammar.antt =====
-- What `validate_slug` and `is_run_uid` accept.
use rs_runvault.Base.{
  ℕ, ◌≤◌, ◌≡◌, ◌≢◌, refl, ◌↔◌, ◌⊎◌, [], ◌∷◌, Text, arith, length, All, Lacks, codes, nat_eq,
}
use rs_runvault.Error.{ok}
use rs_runvault.Ids.{slug_char, slug_rest, validate_slug}

abbrev pub InRange : ℕ → ℕ → ℕ → Type 0
InRange lo hi c = (lo ≤ c) × (c ≤ hi)

abbrev pub IsAlnum : ℕ → Type 0
IsAlnum c = InRange b'a' b'z' c ⊎ InRange b'0' b'9' c

abbrev pub IsSlugByte : ℕ → Type 0
IsSlugByte c = IsAlnum c ⊎ ((c ≡ b'.') ⊎ ((c ≡ b'_') ⊎ (c ≡ b'-')))

-- `^[a-z0-9][a-z0-9._-]{0,63}$`
abbrev pub IsSlug : Text → Type 0
IsSlug [] = ⊥
IsSlug (c ∷ s) = IsAlnum c × (length s ≤ 63) × All IsSlugByte s

slug_rest_sound : (f t s : Text) → slug_rest f t s ≡ ok tt → All IsSlugByte s
unfolding slug_rest slug_char
slug_rest_sound f t [] h = tt
slug_rest_sound f t (c ∷ s) h = (ground arith, slug_rest_sound f t s (ground arith))

slug_rest_complete : (f t s : Text) → All IsSlugByte s → slug_rest f t s ≡ ok tt
unfolding slug_rest slug_char
slug_rest_complete f t [] h = refl
slug_rest_complete f t (c ∷ s) (p, h) = ground (arith, slug_rest_complete f t s h)

-- `validate_slug` accepts exactly the texts of the slug grammar.
pub validate_slug_iff : (field s : Text) → (validate_slug field s ≡ ok tt) ↔ IsSlug s
unfolding validate_slug
validate_slug_iff field [] = (λ h. cc, λ h. absurd h)
validate_slug_iff field (c ∷ s) = (
  λ h. (ground arith, ground arith, slug_rest_sound field (c ∷ s) s (ground arith)),
  λ h. ground (arith, slug_rest_complete field (c ∷ s) s h.2),
)

slug_bytes-Lacks : (s : Text) → All IsSlugByte s → Lacks b'/' s × Lacks b' ' s
slug_bytes-Lacks [] h = (tt, tt)
slug_bytes-Lacks (c ∷ s) (p, h) =
    let (a, b) = slug_bytes-Lacks s h in ((ground arith, a), (ground arith, b))

-- A validated slug is one plain path element: it is not empty, holds no `/` and no space, and is
-- neither `.` nor `..`.
pub validate_slug_safe :
    (field s : Text)
    → validate_slug field s ≡ ok tt
    → (s ≢ []) × Lacks b'/' s × Lacks b' ' s × (s ≢ codes ".") × (s ≢ codes "..")
validate_slug_safe field [] h = absurd ((validate_slug_iff field []).0 h)
validate_slug_safe field (c ∷ s) h =
    let (p, _, q) = (validate_slug_iff field (c ∷ s)).0 h in
    let (a, b) = slug_bytes-Lacks s q in
    ((λ e. cc), ((ground arith), a), ((ground arith), b), (λ e. ground arith), (λ e. ground arith))
