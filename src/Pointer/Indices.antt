-- ===== src/Pointer/Indices.antt =====
-- The tokens that name an element of an array.
use mathlib.Core.List.{foldl}
use rs_runvault.Base.{
  ℕ, suc, ◌+◌, ◌-◌, ◌*◌, ◌^◌, ◌≤◌, ◌<◌, true, List, [], ◌∷◌, ◌++◌, some, Text, arith, All, nat_eq,
  list_eq, ◌≡◌, ◌≢◌, refl, ap, map,
}
use rs_runvault.Base.Decimal.{
  decimal, IsDigit, decimal-IsDigit, value-decimal, decimal-ne-nil, decimal-leading_zero,
  decimal-zero,
}
use rs_runvault.Error.{ok}
use rs_runvault.Json.{
  Value, null, bool, number, string, array, object, Items, nil, cons, Members, end, member,
}
use rs_runvault.Pointer.{
  Pointer, parse_digits, parse_usize, starts_with_zero, array_index, get_item, child,
  resolve_tokens, resolve, require, rebuild, rebuild_members, rebuild_items, prune,
}

abbrev value_from : ℕ → Text → ℕ
value_from = foldl (λ n c. n * 10 + (c - b'0'))

le-value_from : (s : Text) (n : ℕ) → n ≤ value_from n s
le-value_from [] n = omega arith
le-value_from (c ∷ s) n = omega (arith, le-value_from s (n * 10 + (c - b'0')))

parse_digits_lem :
    (s : Text) (n : ℕ)
    → All IsDigit s
    → value_from n s < 2 ^ 64
    → parse_digits n s ≡ some (value_from n s)
unfolding parse_digits
parse_digits_lem [] n h k = refl
parse_digits_lem (c ∷ s) n (d, h) k =
    let m = n * 10 + (c - b'0') in ground (arith, parse_digits_lem s m h k, le-value_from s m)

parse_digits-decimal : (i : ℕ) → i < 2 ^ 64 → parse_digits 0 (decimal i) ≡ some i
parse_digits-decimal i h =
    rw (parse_digits_lem (decimal i) 0 (decimal-IsDigit i) (omega (arith, value-decimal i)))
      (ap some (value-decimal i))

-- A text of digits is read as it stands, and so it is behind a `+`.
parse_usize-digits :
    (s : Text)
    → s ≢ []
    → All IsDigit s
    → (parse_usize s ≡ parse_digits 0 s) × (parse_usize (b'+' ∷ s) ≡ parse_digits 0 s)
unfolding parse_usize
parse_usize-digits [] h d = absurd (h refl)
parse_usize-digits (c ∷ []) h d = (ground arith, ground arith)
parse_usize-digits (c ∷ e ∷ s) h d = (ground arith, ground arith)

starts_with_zero-decimal : (i : ℕ) → starts_with_zero (decimal i) ≡ true → i ≡ 0
unfolding starts_with_zero
starts_with_zero-decimal i h = go (decimal i) refl
  where
    go : (t : Text) → decimal i ≡ t → i ≡ 0
    go [] e = absurd (decimal-ne-nil i e)
    go (c ∷ s) e = ground (arith, decimal-leading_zero i s)

-- The decimal of an index that fits in a machine word is read back as that index, and so is, against
-- RFC 6901, the decimal behind a `+`.
pub array_index-decimal :
    (i : ℕ)
    → i < 2 ^ 64
    → (array_index (decimal i) ≡ some i) × (array_index (b'+' ∷ decimal i) ≡ some i)
unfolding array_index starts_with_zero
array_index-decimal i h =
    let (plain, plus) = parse_usize-digits (decimal i) (decimal-ne-nil i) (decimal-IsDigit i) in
    (
      ground (arith, plain, decimal-zero, starts_with_zero-decimal i, parse_digits-decimal i h),
      ground (arith, plus, parse_digits-decimal i h),
    )

append-ne-nil : (ds : List Text) (t : Text) → ds ++ t ∷ [] ≢ []
append-ne-nil [] t e = cc
append-ne-nil (d ∷ ds) t e = cc

module _ {N : Type 0} (token : Text) where
  -- Below the top level no place is named by a pointer of one token.
  mutual
    unfolding rebuild

    rebuild_deep :
        (d : Text) (ds : List Text) (v : Value N) → rebuild ((token ∷ []) ∷ []) (d ∷ ds) v ≡ v
    rebuild_deep d ds (object map) = ap object (rebuild_members_deep d ds map)
    rebuild_deep d ds (array items) = ap array (rebuild_items_deep d ds 0 items)
    rebuild_deep d ds null = refl
    rebuild_deep d ds (bool b) = refl
    rebuild_deep d ds (number n) = refl
    rebuild_deep d ds (string s) = refl

    rebuild_members_deep :
        (d : Text) (ds : List Text) (m : Members N)
        → rebuild_members ((token ∷ []) ∷ []) (d ∷ ds) m ≡ m
    rebuild_members_deep d ds end = refl
    rebuild_members_deep d ds (member key v rest) = ground (
      arith,
      append-ne-nil ds key,
      rebuild_deep d (ds ++ key ∷ []) v,
      rebuild_members_deep d ds rest,
    )

    rebuild_items_deep :
        (d : Text) (ds : List Text) (i : ℕ) (items : Items N)
        → rebuild_items ((token ∷ []) ∷ []) (d ∷ ds) i items ≡ items
    rebuild_items_deep d ds i nil = refl
    rebuild_items_deep d ds i (cons v rest) = ground (
      arith,
      append-ne-nil ds (decimal i),
      rebuild_deep d (ds ++ decimal i ∷ []) v,
      rebuild_items_deep d ds (suc i) rest,
    )

decimal-ne-plus : (i j : ℕ) → decimal j ≢ b'+' ∷ decimal i
decimal-ne-plus i j e = go (decimal j) refl (decimal-IsDigit j)
  where
    go : (t : Text) → decimal j ≡ t → All IsDigit t → ⊥
    go [] f d = decimal-ne-nil j f
    go (c ∷ s) f (d, _) = ground arith

rebuild_items-plus :
    {N : Type 0} (i j : ℕ) (items : Items N)
    → rebuild_items (((b'+' ∷ decimal i) ∷ []) ∷ []) [] j items ≡ items
unfolding rebuild
rebuild_items-plus i j nil = refl
rebuild_items-plus i j (cons v rest) = ground (
  arith,
  decimal-ne-plus i j,
  rebuild_deep (b'+' ∷ decimal i) (decimal j) [] v,
  rebuild_items-plus i (suc j) rest,
)

-- A pointer to an element of an array whose index is written with a `+` is accepted as resolving,
-- and `prune` does not remove the element: the exclusion silently does not apply.
pub plus_not_removed :
    {N : Type 0} (raw : Text) (i : ℕ) (items : Items N) {v : Value N}
    → i < 2 ^ 64
    → get_item i items ≡ some v
    → let p : Pointer = record { raw = raw; tokens = (b'+' ∷ decimal i) ∷ [] } in
      (require p (array items) ≡ ok tt) × (prune (array items) (p ∷ []) ≡ array items)
unfolding require resolve resolve_tokens child prune
plus_not_removed raw i items h e =
    let (_, plus) = array_index-decimal i h in
    (ground (arith, plus), ap array (rebuild_items-plus i 0 items))
