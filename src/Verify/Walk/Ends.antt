-- ===== src/Verify/Walk/Ends.antt =====
-- `check_no_cycle` ends: its fuel is enough.
use rs_runvault.Base.{
  ℕ, zero, suc, ◌+◌, ◌*◌, ◌≤◌, ◌<◌, Bool, true, false, List, [], ◌∷◌, Option, none, some, Text,
  nat_eq, list_eq, contains, arith, ◌≡◌, inl, inr, refl, length, Bool-cases,
}
use rs_runvault.Error.{Result, ok, err, verify, cyclic_lineage}
use rs_runvault.Meta.{Lineage}
use rs_runvault.Verify.Walk.{
  Mark, on_path, done, get, push_all, edges_of, sibling_edges, next_of, walk, check_no_cycle,
}
use rs_runvault.Verify.Walk.Acyclic.{Mark-cases}

-- A run to enter weighs two, a run to leave one.
weight : List (Text × Bool) → ℕ
weight [] = 0
weight ((u, true) ∷ stack) = 1 + weight stack
weight ((u, false) ∷ stack) = 2 + weight stack

weight-push_all :
    (vs : List Text) (stack : List (Text × Bool))
    → weight (push_all vs stack) ≡ 2 * length vs + weight stack
unfolding push_all weight
weight-push_all [] stack = omega arith
weight-push_all (v ∷ vs) stack = omega (arith, weight-push_all vs ((v, false) ∷ stack))

-- How many of some runs have no mark.
unmarked : List (Text × Mark) → List Text → ℕ
unmarked marks [] = 0
unmarked marks (u ∷ us) = elim (get u marks) [
  | none ↦ 1 + unmarked marks us
  | some m ↦ unmarked marks us
]

unmarked-cons :
    (u : Text) (m : Mark) (marks : List (Text × Mark)) (us : List Text)
    → unmarked ((u, m) ∷ marks) us ≤ unmarked marks us
unfolding unmarked get
unmarked-cons u m marks [] = omega arith
unmarked-cons u m marks (v ∷ us) = ground (arith, unmarked-cons u m marks us)

unmarked-cons_new :
    (u : Text) (m : Mark) (marks : List (Text × Mark)) (us : List Text)
    → get u marks ≡ none
    → contains us u ≡ true
    → suc (unmarked ((u, m) ∷ marks) us) ≤ unmarked marks us
unfolding unmarked get
unmarked-cons_new u m marks [] e c = absurd (ground arith)
unmarked-cons_new u m marks (v ∷ us) e c =
    ground (arith, unmarked-cons u m marks us, unmarked-cons_new u m marks us)

length-edges_of : (l : Lineage) → length (edges_of l) ≤ 3
unfolding edges_of
length-edges_of l = ground arith

length-sibling_edges : (r : Option (Result (Option Lineage))) → length (sibling_edges r) ≤ 3
length-sibling_edges (some (ok (some l))) = length-edges_of l
length-sibling_edges (some (ok none)) = omega arith
length-sibling_edges (some (err e)) = omega arith
length-sibling_edges none = omega arith

keys : List (Text × Result (Option Lineage)) → List Text
keys [] = []
keys ((k, r) ∷ rest) = k ∷ keys rest

length-keys : (s : List (Text × Result (Option Lineage))) → length (keys s) ≡ length s
unfolding keys
length-keys [] = refl
length-keys ((k, r) ∷ rest) = omega (arith, length-keys rest)

get-keys :
    (u : Text) (s : List (Text × Result (Option Lineage)))
    → contains (keys s) u ≡ false
    → get u s ≡ none
unfolding keys get
get-keys u [] h = refl
get-keys u ((k, r) ∷ rest) h = ground (arith, get-keys u rest)

unmarked-nil : (us : List Text) → unmarked [] us ≡ length us
unfolding unmarked get
unmarked-nil [] = refl
unmarked-nil (u ∷ us) = omega (arith, unmarked-nil us)

module _ (run_uid : Text) (lineage : Lineage)
    (siblings : List (Text × Result (Option Lineage))) where
  abbrev next : Text → List Text
  next = next_of run_uid lineage siblings

  -- The runs that can have edges.
  abbrev runs : List Text
  runs = run_uid ∷ keys siblings

  length-next : (u : Text) → length (next u) ≤ 3
  unfolding next_of
  length-next u = ground (arith, length-edges_of lineage, length-sibling_edges (get u siblings))

  next-outside : (u : Text) → contains runs u ≡ false → length (next u) ≡ 0
  unfolding next_of
  next-outside u h = ground (arith, get-keys u siblings)

  abbrev measure : List (Text × Mark) → List (Text × Bool) → ℕ
  measure marks stack = weight stack + 6 * unmarked marks runs

  measure-enter :
      (u : Text) (marks : List (Text × Mark)) (stack : List (Text × Bool))
      → get u marks ≡ none
      → measure ((u, on_path) ∷ marks) (push_all (next u) ((u, true) ∷ stack))
        < measure marks ((u, false) ∷ stack)
  unfolding weight
  measure-enter u marks stack e = elim (Bool-cases (contains runs u)) [
    | inl c ↦ omega (
      arith,
      weight-push_all (next u) ((u, true) ∷ stack),
      length-next u,
      unmarked-cons_new u on_path marks runs e c,
    )
    | inr c ↦ omega (
      arith,
      weight-push_all (next u) ((u, true) ∷ stack),
      next-outside u c,
      unmarked-cons u on_path marks runs,
    )
  ]

  walk-ends :
      (n : ℕ) (marks : List (Text × Mark)) (stack : List (Text × Bool))
      → measure marks stack < n
      → (r : Result (Unit {0})) × (walk run_uid lineage siblings n marks stack ≡ some r)
  unfolding walk weight
  walk-ends zero marks stack h = absurd (omega arith)
  walk-ends (suc n) marks [] h = (ok tt, refl)
  walk-ends (suc n) marks ((u, true) ∷ stack) h =
      walk-ends n ((u, done) ∷ marks) stack (omega (arith, unmarked-cons u done marks runs))
  walk-ends (suc n) marks ((u, false) ∷ stack) h = elim (Mark-cases (get u marks)) [
    | inl e ↦
        let (r, p) =
          walk-ends n ((u, on_path) ∷ marks) (push_all (next u) ((u, true) ∷ stack))
            (omega (arith, measure-enter u marks stack e)) in
        (r, rw (e, walk) p)
    | inr (inl e) ↦ (err (verify cyclic_lineage), rw (e, walk) refl)
    | inr (inr e) ↦ let (r, p) = walk-ends n marks stack (omega arith) in (r, rw (e, walk) p)
  ]

  -- The walk ends, whatever the lineages are.
  pub check_no_cycle_ends :
      (r : Result (Unit {0})) × (check_no_cycle run_uid lineage siblings ≡ some r)
  unfolding check_no_cycle weight
  check_no_cycle_ends =
      walk-ends (9 + 6 * length siblings) [] ((run_uid, false) ∷ [])
        (omega (arith, unmarked-nil runs, length-keys siblings))
