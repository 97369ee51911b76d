-- ===== src/Legacy/Gathered.antt =====
-- crates/runvault/src/legacy.rs: about the rows that are gathered from one file.
use rs_runvault.Base.{
  Bool, true, false, not, List, [], ◌∷◌, ◌++◌, Option, none, some, contains, Eq, ◌≡◌, ◌≢◌, refl, ap,
  arith, All, All-append, All-map, if◌then◌else◌,
}
use rs_runvault.Canonical.{Library}
use rs_runvault.Error.{Result, ok, err}
use rs_runvault.Ids.{validate_slug}
use rs_runvault.Legacy.Long.{is_ok}
use rs_runvault.Legacy.Rows.{
  LegacyMetric, Why, name_label, scope_label, Gathering, Progressed, refused, going, and_going,
  push_new, pushed,
}

abbrev pub Holds : {S : Type 0} → (S → Type 0) → Progressed S → Type 0
Holds P (refused why) = Unit
Holds P (going s) = P s

pub and_going-Holds :
    {S : Type 0} (P : S → Type 0) (r : Progressed S) (next : S → Progressed S)
    → Holds P r
    → ((s : S) → P s → Holds P (next s))
    → Holds P (and_going r next)
and_going-Holds P (refused why) next h f = tt
and_going-Holds P (going s) next h f = f s h

module _ {S : Type 0} (P : S → Type 0) where
  pub option-Holds :
      {A : Type 0} (o : Option A) (n : Progressed S) (f : A → Progressed S)
      → Holds P n
      → ((a : A) → Holds P (f a))
      → Holds P (elim o [ none ↦ n | some a ↦ f a ])
  option-Holds none n f h k = h
  option-Holds (some a) n f h k = k a

  pub if-Holds :
      (b : Bool) (x y : Progressed S)
      → (b ≡ true → Holds P x)
      → (b ≡ false → Holds P y)
      → Holds P (if b then x else y)
  if-Holds true x y h k = h refl
  if-Holds false x y h k = k refl

pub not-false : (b : Bool) → not b ≡ false → b ≡ true
not-false b h = ground arith

pub is_ok-ok : (r : Result (Unit {0})) → is_ok r ≡ true → r ≡ ok tt
is_ok-ok (ok tt) h = refl
is_ok-ok (err e) h = absurd (ground arith)

-- What is asked of a number that becomes a metric.
abbrev pub IsMetric : (lib : Library) → LegacyMetric lib.Float → Type 0
IsMetric lib m =
    (lib.is_finite m.value ≡ true)
    × (validate_slug name_label m.name ≡ ok tt)
    × (validate_slug scope_label m.scope ≡ ok tt)

module _ {Float K : Type 0} (key : LegacyMetric Float → K) where
  -- No two have one key.
  abbrev pub KeysDiffer : List (LegacyMetric Float) → Type 0
  KeysDiffer [] = Unit
  KeysDiffer (m ∷ ms) = All (λ n. key m ≢ key n) ms × KeysDiffer ms

  KeysDiffer-snoc :
      (ms : List (LegacyMetric Float)) (m : LegacyMetric Float)
      → KeysDiffer ms
      → All (λ n. key n ≢ key m) ms
      → KeysDiffer (ms ++ m ∷ [])
  KeysDiffer-snoc [] m h f = (tt, tt)
  KeysDiffer-snoc (n ∷ ms) m (p, h) (q, f) =
      (All-append _ ms (m ∷ []) p (q, tt), KeysDiffer-snoc ms m h f)

pub KeysDiffer-map :
    {Float K L : Type 0} (key : LegacyMetric Float → K) (part : LegacyMetric Float → L)
    (ms : List (LegacyMetric Float))
    → ((m n : LegacyMetric Float) → key m ≡ key n → part m ≡ part n)
    → KeysDiffer part ms
    → KeysDiffer key ms
KeysDiffer-map key part [] f h = tt
KeysDiffer-map key part (m ∷ ms) f (p, h) =
    (All-map _ _ ms (λ n q e. q (f m n e)) p, KeysDiffer-map key part ms f h)

module _ {K : Type 0} ⦃e : Eq K⦄ (lib : Library) (key : LegacyMetric lib.Float → K) where
  open lib use {Float}

  abbrev pub IsGathered : Gathering Float K → Type 0
  IsGathered s =
      KeysDiffer key s.out
      × All (λ m. contains s.seen (key m) ≡ true) s.out
      × All (IsMetric lib) s.out

  unseen_differs :
      (seen : List K) (k : K) (m : LegacyMetric Float)
      → contains seen k ≡ false
      → contains seen (key m) ≡ true
      → key m ≢ k
  unseen_differs seen k m p q r = ground (arith, ap (λ x. contains seen x) r)

  contains_later : (seen : List K) (k l : K) → contains seen l ≡ true → contains (k ∷ seen) l ≡ true
  contains_later seen k l h = ground arith

  contains_first : (seen : List K) (k : K) → contains (k ∷ seen) k ≡ true
  contains_first seen k = ground arith

  pushed-IsGathered :
      (m : LegacyMetric Float) (s : Gathering Float K)
      → IsMetric lib m
      → contains s.seen (key m) ≡ false
      → IsGathered s
      → IsGathered (pushed key m s)
  pushed-IsGathered m s k p (d, c, h) = (
    KeysDiffer-snoc key s.out m d (All-map _ _ s.out (λ n. unseen_differs s.seen (key m) n p) c),
    All-append _ s.out (m ∷ []) (All-map _ _ s.out (λ n. contains_later s.seen (key m) (key n)) c)
        (contains_first s.seen (key m), tt),
    All-append _ s.out (m ∷ []) h (k, tt),
  )

  pub push_new-IsGathered :
      (m : LegacyMetric Float) (why : Why) (s : Gathering Float K)
      → IsMetric lib m
      → IsGathered s
      → Holds IsGathered (push_new key m why s)
  unfolding push_new
  push_new-IsGathered m why s k h =
      if-Holds IsGathered (contains s.seen (key m)) (refused why) (going (pushed key m s)) (λ p. tt)
        (λ p. pushed-IsGathered m s k p h)
