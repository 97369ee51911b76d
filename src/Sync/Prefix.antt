-- ===== src/Sync/Prefix.antt =====
-- The comparison by buffers is the test for a prefix.
use rs_runvault.Base.{
  ℕ, zero, suc, ◌+◌, ◌-◌, ◌≤◌, ◌<◌, true, false, ◌&&◌, List, [], ◌∷◌, ◌++◌, some, Text, length,
  take, leb, ◌==◌, nat_eq, list_eq, ◌≡◌, refl, sym, ap, ◌∙◌, arith, Bool-cases, inl, inr,
}
use mathlib.Core.Path.{ap₂}
use rs_runvault.Verify.{starts_with}
use rs_runvault.Sync.Reader.{Reader, drop, given, tail_of, read, read_full, stored_is_prefix_of}

take-drop : (n : ℕ) (s : Text) → take n s ++ drop n s ≡ s
take-drop zero s = refl
take-drop (suc n) [] = refl
take-drop (suc n) (c ∷ s) = ap (λ t. c ∷ t) (take-drop n s)

take_nil : (n : ℕ) → take {A = ℕ} n [] ≡ []
take_nil zero = refl
take_nil (suc n) = refl

drop_nil : (n : ℕ) → drop {A = ℕ} n [] ≡ []
drop_nil zero = refl
drop_nil (suc n) = refl

take_more :
    (m n : ℕ) (s : Text) → m ≤ n → take m s ++ take (n - length (take m s)) (drop m s) ≡ take n s
take_more zero n s h = ap (λ k. take k s) (omega arith)
take_more (suc m) n [] h = take_nil (n - 0) ∙ sym (take_nil n)
take_more (suc m) zero (c ∷ s) h = absurd (omega arith)
take_more (suc m) (suc n) (c ∷ s) h =
    let less : suc n - suc (length (take m s)) ≡ n - length (take m s) = omega arith in
    ap (λ k. c ∷ (take m s ++ take k (drop m s))) less
    ∙ ap (λ t. c ∷ t) (take_more m n s (omega arith))

drop_more : (m n : ℕ) (s : Text) → m ≤ n → drop (n - length (take m s)) (drop m s) ≡ drop n s
drop_more zero n s h = ap (λ k. drop k s) (omega arith)
drop_more (suc m) n [] h = drop_nil (n - 0) ∙ sym (drop_nil n)
drop_more (suc m) zero (c ∷ s) h = absurd (omega arith)
drop_more (suc m) (suc n) (c ∷ s) h =
    let less : suc n - suc (length (take m s)) ≡ n - length (take m s) = omega arith in
    ap (λ k. drop k (drop m s)) less ∙ drop_more m n s (omega arith)

given_bounds :
    (room : ℕ) (sizes : List ℕ) → 1 ≤ room → (1 ≤ given room sizes) × (given room sizes ≤ room)
unfolding given
given_bounds room [] h = ground arith
given_bounds room (zero ∷ sizes) h = ground arith
given_bounds room (suc n ∷ sizes) h = ground arith

length-take_pos : (n : ℕ) (c : ℕ) (s : Text) → 1 ≤ n → 1 ≤ length (take n (c ∷ s))
length-take_pos zero c s h = absurd (omega arith)
length-take_pos (suc n) c s h = omega arith

-- Whatever the reads give, the buffer is filled unless the reader ends.
read_full-take :
    (fuel room : ℕ) (s : Text) (sizes : List ℕ)
    → room ≤ fuel
    → ((read_full fuel room (record { content = s; sizes = sizes })).0 ≡ take room s)
      × ((read_full fuel room (record { content = s; sizes = sizes })).1.content ≡ drop room s)
unfolding read_full read
read_full-take zero zero s sizes h = (refl, refl)
read_full-take zero (suc room) s sizes h = absurd (omega arith)
read_full-take (suc fuel) zero s sizes h = (refl, refl)
read_full-take (suc fuel) (suc room) [] sizes h =
    let none_given : leb (length (take {A = ℕ} (given (suc room) sizes) [])) 0 ≡ true =
      ap (λ t. leb (length t) 0) (take_nil (given (suc room) sizes)) in
    rw none_given (refl, drop_nil (given (suc room) sizes))
read_full-take (suc fuel) (suc room) (c ∷ s) sizes h =
    let g = given (suc room) sizes in
    let (low, high) = given_bounds (suc room) sizes (omega arith) in
    let filled = length-take_pos g c s low in
    let some_given : leb (length (take g (c ∷ s))) 0 ≡ false = ground (arith, filled) in
    let (a, b) =
      read_full-take fuel (suc room - length (take g (c ∷ s))) (drop g (c ∷ s)) (tail_of sizes)
        (omega (arith, filled)) in
    rw some_given (
      ap (λ t. take g (c ∷ s) ++ t) a ∙ take_more g (suc room) (c ∷ s) high,
      b ∙ drop_more g (suc room) (c ∷ s) high,
    )

length-take_le : (n : ℕ) (s : Text) → length (take n s) ≤ length s
length-take_le zero s = omega arith
length-take_le (suc n) [] = omega arith
length-take_le (suc n) (c ∷ s) = omega (arith, length-take_le n s)

take-drop-length : (n : ℕ) (s : Text) → length (take n s) + length (drop n s) ≡ length s
take-drop-length zero s = omega arith
take-drop-length (suc n) [] = refl
take-drop-length (suc n) (c ∷ s) = omega (arith, take-drop-length n s)

-- A prefix by its first part and the rest.
starts_with-parts :
    (p s t : Text)
    → starts_with s (p ++ t) ≡ (
        length (take (length p) s) == length p
        && p == take (length p) s
        && starts_with (drop (length p) s) t)
unfolding starts_with
starts_with-parts [] s t = ground arith
starts_with-parts (c ∷ p) [] t = ground arith
starts_with-parts (c ∷ p) (d ∷ s) t = ground (arith, starts_with-parts p s t)

starts_with-none : (s p : Text) → length p ≡ 0 → starts_with s p ≡ true
unfolding starts_with
starts_with-none [] [] h = refl
starts_with-none (c ∷ s) [] h = refl
starts_with-none s (c ∷ p) h = absurd (omega arith)

full_length : (size : ℕ) (s : Text) → 1 ≤ size → length (take size s) ≡ 0 → length s ≡ 0
full_length size [] h e = refl
full_length zero (c ∷ s) h e = absurd (omega arith)
full_length (suc size) (c ∷ s) h e = absurd (omega arith)

-- The loop on buffers of any size but none ends, if its fuel is more than the stored length, and
-- tells whether the stored bytes begin the fresh ones, however many bytes each read gives.
pub stored_is_prefix_of-starts_with :
    (fuel size : ℕ) (stored fresh : Reader)
    → 1 ≤ size
    → length stored.content < fuel
    → stored_is_prefix_of fuel size stored fresh ≡ some (starts_with fresh.content stored.content)
unfolding stored_is_prefix_of
stored_is_prefix_of-starts_with zero size stored fresh h k = absurd (omega arith)
stored_is_prefix_of-starts_with (suc fuel) size stored fresh h k =
    let left = read_full size size stored in
    let right = read_full (length left.0) (length left.0) fresh in
    let (a, b) = read_full-take size size stored.content stored.sizes (omega arith) in
    let (c, d) =
      read_full-take (length left.0) (length left.0) fresh.content fresh.sizes (omega arith) in
    let whole : left.0 ++ left.1.content ≡ stored.content =
      ap₂ ◌++◌ a b ∙ take-drop size stored.content in
    let lengths : length left.0 + length left.1.content ≡ length stored.content =
      omega (arith, ap length a, ap length b, take-drop-length size stored.content) in
    let parts : starts_with fresh.content stored.content ≡ (
        length right.0 == length left.0
        && left.0 == right.0
        && starts_with right.1.content left.1.content) =
      ap (starts_with fresh.content) (sym whole)
      ∙ starts_with-parts left.0 fresh.content left.1.content
      ∙ ap₂ (λ u v. length u == length left.0 && left.0 == u && starts_with v left.1.content)
          (sym c) (sym d) in
    elim (Bool-cases (leb (length left.0) 0)) [
      | inl e ↦ rw e (
          ap some (
            sym (
              starts_with-none fresh.content stored.content
                (full_length size stored.content h (ground (arith, ap length a))))))
      | inr e ↦
          let later =
            stored_is_prefix_of-starts_with fuel size left.1 right.1 h (ground (arith, lengths)) in
          rw e (ground (arith, parts, later))
    ]
