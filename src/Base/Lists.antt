-- ===== src/Base/Lists.antt =====
-- List functions over the native numbers, and how concatenations are taken apart.
use Prim.Native.Nat.{ℕ, zero, suc, ◌+◌, ◌≤◌}
use mathlib.Core.Path.{◌≡◌, refl, subst}
use mathlib.Core.Logic.{◌≢◌, ◌⊎◌, inl, inr}
use mathlib.Core.Bool.{Bool, true, ◌&&◌}
use mathlib.Core.Option.{Option, none, some}
use mathlib.Core.List.{List, [], ◌∷◌, ◌++◌}
use native.Mathlib.Omega.{arith}
use rs_runvault.Base.Tests.{if◌then◌else◌}

-- To split on a computed option and keep the equation.
pub Option-cases {ℓ} : {A : Type ℓ} (o : Option A) → (o ≡ none) ⊎ ((a : A) × (o ≡ some a))
Option-cases none = inl refl
Option-cases (some a) = inr (a, refl)

module _ {ℓ} {A : Type ℓ} where
  abbrev pub length : List A → ℕ
  length [] = 0
  length (x ∷ xs) = suc (length xs)

  pub length-append : (xs ys : List A) → length (xs ++ ys) ≡ length xs + length ys
  length-append [] ys = omega arith
  length-append (x ∷ xs) ys = omega (arith, length-append xs ys)

  abbrev pub get_elem? : List A → ℕ → Option A
  get_elem? [] i = none
  get_elem? (x ∷ xs) zero = some x
  get_elem? (x ∷ xs) (suc i) = get_elem? xs i

  abbrev pub take : ℕ → List A → List A
  take zero xs = []
  take (suc n) [] = []
  take (suc n) (x ∷ xs) = x ∷ take n xs

  pub length-take : (n : ℕ) (xs : List A) → n ≤ length xs → length (take n xs) ≡ n
  length-take zero xs h = refl
  length-take (suc n) [] h = absurd (omega arith)
  length-take (suc n) (x ∷ xs) h = omega (arith, length-take n xs)

  -- `iter().filter(p)`
  abbrev pub filter : (A → Bool) → List A → List A
  filter p [] = []
  filter p (x ∷ xs) = let rest = filter p xs in if p x then x ∷ rest else rest

  -- `iter().all(p)`
  abbrev pub all : (A → Bool) → List A → Bool
  all p [] = true
  all p (x ∷ xs) = p x && all p xs

  -- Two concatenations whose first parts are equally long agree part by part.
  pub append_cancel :
      (xs ys r s : List A) → length xs ≡ length ys → xs ++ r ≡ ys ++ s → (xs ≡ ys) × (r ≡ s)
  append_cancel [] [] r s h e = (refl, e)
  append_cancel [] (y ∷ ys) r s h e = absurd (omega arith)
  append_cancel (x ∷ xs) [] r s h e = absurd (omega arith)
  append_cancel (x ∷ xs) (y ∷ ys) r s h e =
      let (p, q) = append_cancel xs ys r s (omega arith) (cc) in (cc, q)

module _ {ℓ κ} {A : Type ℓ} (P : A → Type κ) where
  abbrev pub All : List A → Type κ
  All [] = Unit
  All (x ∷ xs) = P x × All xs

  pub All-append : (xs ys : List A) → All xs → All ys → All (xs ++ ys)
  All-append [] ys _ h = h
  All-append (x ∷ xs) ys (p, hx) h = (p, All-append xs ys hx h)

pub All-map {ℓ κ μ} :
    {A : Type ℓ} (P : A → Type κ) (Q : A → Type μ) (xs : List A)
    → ((a : A) → P a → Q a)
    → All P xs
    → All Q xs
All-map P Q [] f h = tt
All-map P Q (x ∷ xs) f (p, h) = (f x p, All-map P Q xs f h)

abbrev pub Lacks {ℓ} : {A : Type ℓ} → A → List A → Type ℓ
Lacks b = All (λ c. c ≢ b)

-- The text before the first separator is determined, and so is the text behind it.
pub split_at_sep {ℓ} :
    {A : Type ℓ} (b : A) (p q r s : List A)
    → Lacks b p
    → Lacks b q
    → p ++ b ∷ r ≡ q ++ b ∷ s
    → (p ≡ q) × (r ≡ s)
split_at_sep b [] [] r s hp hq e = (refl, cc)
split_at_sep b [] (y ∷ q) r s hp (hy, hq) e = absurd (hy (cc))
split_at_sep b (x ∷ p) [] r s (hx, hp) hq e = absurd (hx (cc))
split_at_sep b (x ∷ p) (y ∷ q) r s (hx, hp) (hy, hq) e =
    let (f, g) = split_at_sep b p q r s hp hq (cc) in (cc, g)

-- The property of an element, by its place.
pub All-get_elem {ℓ κ} :
    {A : Type ℓ} (P : A → Type κ) (xs : List A) (i : ℕ) {a : A}
    → All P xs
    → get_elem? xs i ≡ some a
    → P a
All-get_elem P [] i h e = cc
All-get_elem P (x ∷ xs) zero (p, h) e = subst P (ground arith) p
All-get_elem P (x ∷ xs) (suc i) (p, h) e = All-get_elem P xs i h e
