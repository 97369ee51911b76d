-- ===== src/Metrics/Tally.antt =====
-- How many names match each of a list of patterns, and how the loop counts them.
use rs_runvault.Base.{
  ℕ, ◌+◌, Bool, not, ◌&&◌, List, [], ◌∷◌, some, none, true, false, Text, length, filter, ◌≡◌, refl,
  ap, arith, Bool-cases, Option-cases, inl, inr, if◌then◌else◌, ltb,
}
use rs_runvault.Metrics.{
  MetricPattern, MatchedPattern, matches, position, count_at, zeroes, matched,
}

-- How many names are open and match a pattern, and no pattern in front of it.
abbrev pub tally_counts : (Text → Bool) → List MetricPattern → List Text → List ℕ
tally_counts open_ [] names = []
tally_counts open_ (p ∷ ps) names =
    length (filter (λ name. open_ name && matches p name) names)
    ∷ tally_counts (λ name. open_ name && not (matches p name)) ps names

-- The patterns that open names match, each with the number of them that match no pattern in front.
abbrev pub tally : (Text → Bool) → List MetricPattern → List Text → List MatchedPattern
tally open_ [] names = []
tally open_ (p ∷ ps) names =
    let n = length (filter (λ name. open_ name && matches p name) names) in
    let rest = tally (λ name. open_ name && not (matches p name)) ps names in
    if ltb 0 n then record { pattern = p; n_matched = n } ∷ rest else rest

pub matched-tally_counts :
    (open_ : Text → Bool) (ps : List MetricPattern) (names : List Text)
    → matched ps (tally_counts open_ ps names) ≡ tally open_ ps names
unfolding matched
matched-tally_counts open_ [] names = refl
matched-tally_counts open_ (p ∷ ps) names =
    let n = length (filter (λ name. open_ name && matches p name) names) in
    ap (λ rest. if ltb 0 n then record { pattern = p; n_matched = n } ∷ rest else rest)
      (matched-tally_counts (λ name. open_ name && not (matches p name)) ps names)

one_if : Bool → ℕ
one_if b = if b then 1 else 0

-- The counts with one name more.
pub bump : (Text → Bool) → List MetricPattern → Text → List ℕ → List ℕ
bump open_ [] name counts = counts
bump open_ (p ∷ ps) name [] = []
bump open_ (p ∷ ps) name (n ∷ counts) =
    (one_if (open_ name && matches p name) + n)
    ∷ bump (λ x. open_ x && not (matches p x)) ps name counts

pub bump_closed :
    (open_ : Text → Bool) (ps : List MetricPattern) (name : Text) (counts : List ℕ)
    → open_ name ≡ false
    → bump open_ ps name counts ≡ counts
unfolding bump one_if
bump_closed open_ [] name counts h = refl
bump_closed open_ (p ∷ ps) name [] h = refl
bump_closed open_ (p ∷ ps) name (n ∷ counts) h =
    ground (arith, h, bump_closed (λ x. open_ x && not (matches p x)) ps name counts)

pub bump-none :
    (open_ : Text → Bool) (ps : List MetricPattern) (name : Text) (counts : List ℕ)
    → position name ps ≡ none
    → bump open_ ps name counts ≡ counts
unfolding bump one_if position
bump-none open_ [] name counts h = refl
bump-none open_ (p ∷ ps) name [] h = refl
bump-none open_ (p ∷ ps) name (n ∷ counts) h = elim (Option-cases (position name ps)) [
  | inl e ↦ ground (arith, h, e, bump-none (λ x. open_ x && not (matches p x)) ps name counts e)
  | inr (j, e) ↦ absurd (ground (arith, h, e))
]

pub bump-count_at :
    (open_ : Text → Bool) (ps : List MetricPattern) (name : Text) (counts : List ℕ) (i : ℕ)
    → open_ name ≡ true
    → position name ps ≡ some i
    → bump open_ ps name counts ≡ count_at i counts
unfolding bump one_if position count_at
bump-count_at open_ [] name counts i o h = absurd (ground (arith, h))
bump-count_at open_ (p ∷ ps) name [] i o h = refl
bump-count_at open_ (p ∷ ps) name (n ∷ counts) i o h = elim (Bool-cases (matches p name)) [
  | inl m ↦ ground (arith, h, o, m, bump_closed (λ x. open_ x && not (matches p x)) ps name counts)
  | inr m ↦ elim (Option-cases (position name ps)) [
    | inl e ↦ absurd (ground (arith, h, e, m))
    | inr (j, e) ↦ ground (
      arith,
      h,
      o,
      m,
      e,
      bump-count_at (λ x. open_ x && not (matches p x)) ps name counts j (ground (arith, o, m)) e,
    )
  ]
]

pub add : List ℕ → List ℕ → List ℕ
add [] ns = []
add (m ∷ ms) [] = []
add (m ∷ ms) (n ∷ ns) = (m + n) ∷ add ms ns

pub add-bump :
    (open_ : Text → Bool) (ps : List MetricPattern) (name : Text) (names : List Text)
    (counts : List ℕ)
    → add (bump open_ ps name counts) (tally_counts open_ ps names)
      ≡ add counts (tally_counts open_ ps (name ∷ names))
unfolding bump one_if add
add-bump open_ [] name names counts = refl
add-bump open_ (p ∷ ps) name names [] = refl
add-bump open_ (p ∷ ps) name names (n ∷ counts) =
    ground (arith, add-bump (λ x. open_ x && not (matches p x)) ps name names counts)

pub add-none :
    (open_ : Text → Bool) (ps : List MetricPattern) (counts : List ℕ)
    → length counts ≡ length ps
    → add counts (tally_counts open_ ps []) ≡ counts
unfolding add
add-none open_ [] [] h = refl
add-none open_ [] (n ∷ counts) h = absurd (omega arith)
add-none open_ (p ∷ ps) [] h = refl
add-none open_ (p ∷ ps) (n ∷ counts) h =
    ground (arith, add-none (λ x. open_ x && not (matches p x)) ps counts (omega arith))

pub add-zeroes :
    (open_ : Text → Bool) (ps : List MetricPattern) (names : List Text)
    → add (zeroes ps) (tally_counts open_ ps names) ≡ tally_counts open_ ps names
unfolding add zeroes
add-zeroes open_ [] names = refl
add-zeroes open_ (p ∷ ps) names =
    ground (arith, add-zeroes (λ x. open_ x && not (matches p x)) ps names)

pub length-bump :
    (open_ : Text → Bool) (ps : List MetricPattern) (name : Text) (counts : List ℕ)
    → length (bump open_ ps name counts) ≡ length counts
unfolding bump
length-bump open_ [] name counts = refl
length-bump open_ (p ∷ ps) name [] = refl
length-bump open_ (p ∷ ps) name (n ∷ counts) =
    omega (arith, length-bump (λ x. open_ x && not (matches p x)) ps name counts)

pub zeroes-length : (patterns : List MetricPattern) → length (zeroes patterns) ≡ length patterns
unfolding zeroes
zeroes-length [] = refl
zeroes-length (p ∷ patterns) = omega (arith, zeroes-length patterns)
