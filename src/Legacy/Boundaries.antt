-- ===== src/Legacy/Boundaries.antt =====
-- crates/runvault/src/legacy.rs: about names that are not of ASCII.
use rs_runvault.Base.{
  ℕ, zero, suc, ◌<◌, ◌≤◌, List, [], ◌∷◌, none, some, Text, get_elem?, length, take, nat_eq, ◌≡◌,
  refl, arith,
}
use rs_runvault.Legacy.{
  is_timestamp, after_mark, begins_marked, drop_bytes, parse_from, parse_dir_name,
}

take_all {ℓ} : {A : Type ℓ} (n : ℕ) (xs : List A) → length xs ≡ n → take n xs ≡ xs
take_all zero [] h = refl
take_all zero (x ∷ xs) h = absurd (omega arith)
take_all (suc n) [] h = refl
take_all (suc n) (x ∷ xs) h = ground (arith, take_all n xs)

drop_all : (n : ℕ) (s : Text) → length s ≡ n → drop_bytes n s ≡ []
drop_all zero [] h = refl
drop_all zero (c ∷ s) h = absurd (omega arith)
drop_all (suc n) [] h = refl
drop_all (suc n) (c ∷ s) h = drop_all n s (omega arith)

-- `parse_dir_name` panics on every name of fifteen bytes whose ninth byte continues a character, as it
-- does in five characters of three bytes each.
pub parse_dir_name-panics :
    (name : Text) (b : ℕ)
    → length name ≡ 15
    → get_elem? name 8 ≡ some b
    → 0x80 ≤ b
    → b < 0xC0
    → parse_dir_name name ≡ none
unfolding parse_dir_name parse_from is_timestamp after_mark begins_marked
parse_dir_name-panics [] b h e p q = absurd (omega arith)
parse_dir_name-panics (c ∷ rest) b h e p q =
    ground (arith, take_all 15 (c ∷ rest) h, drop_all 15 (c ∷ rest) h)
