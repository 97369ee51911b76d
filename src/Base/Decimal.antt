-- ===== src/Base/Decimal.antt =====
-- `to_string` of an unsigned integer, and `str::parse` into a `usize`.
use mathlib.Core.List.{foldl, foldl-append}
use mathlib.Core.Logic.{ite, dite}
use mathlib.Core.WellFounded.{Acc, Acc-prop, WellFounded, induction}
use native.Mathlib.Decide.{dec_lt}
use rs_runvault.Base.{
  ℕ, zero, suc, ◌+◌, ◌-◌, ◌*◌, ◌/◌, ◌%◌, ◌≤◌, ◌<◌, ◌≡◌, ◌≢◌, refl, ap, [], ◌∷◌, ◌++◌, arith, length,
  length-append, Text, nat_eq, All, All-append, codes,
}

Acc-below : (k n : ℕ) → n < k → Acc ◌<◌ n
Acc-below zero n h = elim h [ ]
Acc-below (suc k) n h = Acc.intro n λ m lt. Acc-below k m (omega arith)

lt_wf : WellFounded ◌<◌
unfolding Acc-below
lt_wf = record { apply = λ n. Acc-below (suc n) n (omega arith) }

tenth-lt : {n : ℕ} → ¬ (n < 10) → n / 10 < n
tenth-lt h = omega arith

decimal_acc : (n : ℕ) → Acc ◌<◌ n → Text
decimal_acc n (Acc.intro _ smaller) =
    dite (dec_lt n 10) (λ _. (b'0' + n) ∷ [])
      (λ h. decimal_acc (n / 10) (smaller (n / 10) (tenth-lt h)) ++ (b'0' + n % 10) ∷ [])

-- The decimal digits, with no leading zero.
unfoldable pub decimal : ℕ → Text
unfolding decimal_acc lt_wf tenth-lt dec_lt
decimal n = decimal_acc n (lt_wf.apply n)

decimal_acc_step :
    (n : ℕ) (w : Acc ◌<◌ n) (w' : Acc ◌<◌ (n / 10))
    → decimal_acc n w
      ≡ ite (dec_lt n 10) ((b'0' + n) ∷ []) (decimal_acc (n / 10) w' ++ (b'0' + n % 10) ∷ [])
unfolding decimal_acc
decimal_acc_step n (Acc.intro _ smaller) w' = λ i.
    dite (dec_lt n 10) (λ _. (b'0' + n) ∷ [])
      (λ h.
        decimal_acc (n / 10) (Acc-prop (smaller (n / 10) (tenth-lt h)) w' i)
        ++ (b'0' + n % 10) ∷ [])

-- One digit, or the digits of a tenth and the last digit.
decimal_step :
    (n : ℕ)
    → decimal n ≡ ite (dec_lt n 10) ((b'0' + n) ∷ []) (decimal (n / 10) ++ (b'0' + n % 10) ∷ [])
unfolding decimal
decimal_step n = decimal_acc_step n (lt_wf.apply n) (lt_wf.apply (n / 10))

abbrev pub IsDigit : ℕ → Type 0
IsDigit c = (b'0' ≤ c) × (c ≤ b'9')

abbrev pub value : Text → ℕ
value = foldl (λ n c. n * 10 + (c - b'0')) 0

value-last : (t : Text) (c : ℕ) → value (t ++ c ∷ []) ≡ value t * 10 + (c - b'0')
value-last t c = rw foldl-append

pub decimal-IsDigit : (n : ℕ) → All IsDigit (decimal n)
decimal-IsDigit n = induction lt_wf {C = λ m. All IsDigit (decimal m)} n λ m ih.
    rw (decimal_step m)
      (elim (dec_lt m 10)
        as (λ d. All IsDigit (ite d ((b'0' + m) ∷ []) (decimal (m / 10) ++ (b'0' + m % 10) ∷ []))) [
          | yes h ↦ omega arith
          | no h ↦ All-append IsDigit (decimal (m / 10)) _ (ih (m / 10) (tenth-lt h)) (omega arith)
        ])

pub value-decimal : (n : ℕ) → value (decimal n) ≡ n
value-decimal n = induction lt_wf {C = λ m. value (decimal m) ≡ m} n λ m ih.
    rw (decimal_step m) (ground (arith, ih (m / 10), value-last (decimal (m / 10)) (b'0' + m % 10)))

pub decimal-injective : (m n : ℕ) → decimal m ≡ decimal n → m ≡ n
decimal-injective m n e = cc (value-decimal m, value-decimal n)

decimal_runs : decimal 1024 ≡ codes "1024"
unfolding decimal
decimal_runs = refl

pub decimal-ne-nil : (n : ℕ) → decimal n ≢ []
decimal-ne-nil n e =
    ground
      (arith, decimal_step n, ap length e, length-append (decimal (n / 10)) ((b'0' + n % 10) ∷ []))

head_append : (t u s : Text) (c : ℕ) → t ≢ [] → t ++ u ≡ c ∷ s → (r : Text) × (t ≡ c ∷ r)
head_append [] u s c h e = absurd (h refl)
head_append (d ∷ t) u s c h e = (t, cc)

-- Only zero is written with a leading zero.
pub decimal-leading_zero : (n : ℕ) (s : Text) → decimal n ≡ b'0' ∷ s → n ≡ 0
decimal-leading_zero n =
    induction lt_wf {C = λ m. (s : Text) → decimal m ≡ b'0' ∷ s → m ≡ 0} n λ m ih s e.
      elim (dec_lt m 10) [
        | yes h ↦ ground (arith, decimal_step m)
        | no h ↦
            let (r, f) =
              head_append (decimal (m / 10)) ((b'0' + m % 10) ∷ []) s b'0' (decimal-ne-nil (m / 10))
                (ground (arith, decimal_step m)) in
            absurd (omega (arith, ih (m / 10) (tenth-lt h) r f))
      ]

pub decimal-zero : decimal 0 ≡ b'0' ∷ []
unfolding decimal
decimal-zero = refl
