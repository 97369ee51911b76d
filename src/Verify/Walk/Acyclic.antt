-- ===== src/Verify/Walk/Acyclic.antt =====
-- What `check_no_cycle` shows when it accepts.
use rs_runvault.Base.{
  ℕ, length, ◌+◌, ◌*◌, zero, suc, Bool, true, false, List, [], ◌∷◌, Option, none, some, Text,
  nat_eq, list_eq, contains, arith, ◌≡◌, ◌⊎◌, inl, inr, refl, sym, subst, All,
}
use rs_runvault.Error.{Result, ok}
use rs_runvault.Meta.{Lineage}
use rs_runvault.Verify.Walk.{Mark, on_path, done, get, push_all, next_of, walk, check_no_cycle}

-- The finished runs, the last one first.
finished_of : List (Text × Mark) → List Text
finished_of [] = []
finished_of ((u, done) ∷ marks) = u ∷ finished_of marks
finished_of ((u, on_path) ∷ marks) = finished_of marks

pub Mark-cases : (m : Option Mark) → (m ≡ none) ⊎ ((m ≡ some on_path) ⊎ (m ≡ some done))
Mark-cases none = inl refl
Mark-cases (some on_path) = inr (inl refl)
Mark-cases (some done) = inr (inr refl)

All-contains :
    (ds vs : List Text) (v : Text)
    → All (λ x. contains ds x ≡ true) vs
    → contains vs v ≡ true
    → contains ds v ≡ true
All-contains ds [] v h c = cc
All-contains ds (x ∷ vs) v (p, h) c = ground (arith, All-contains ds vs v h)

get-done :
    (u : Text) (marks : List (Text × Mark))
    → get u marks ≡ some done
    → contains (finished_of marks) u ≡ true
unfolding get finished_of
get-done u [] h = cc
get-done u ((k, done) ∷ marks) h = ground (arith, get-done u marks)
get-done u ((k, on_path) ∷ marks) h = ground (arith, get-done u marks)

abbrev Within : List Text → List Text → Type 0
Within a b = (v : Text) → contains a v ≡ true → contains b v ≡ true

All-Within :
    (a b vs : List Text)
    → Within a b
    → All (λ v. contains a v ≡ true) vs
    → All (λ v. contains b v ≡ true) vs
All-Within a b [] w h = tt
All-Within a b (v ∷ vs) w (p, h) = (w v p, All-Within a b vs w h)

Within-cons : (u : Text) (a b : List Text) → Within a b → Within (u ∷ a) (u ∷ b)
Within-cons u a b w v h = ground (arith, w v)

module _ (run_uid : Text) (lineage : Lineage)
    (siblings : List (Text × Result (Option Lineage))) where
  abbrev next : Text → List Text
  next = next_of run_uid lineage siblings

  -- Each finished run comes after the runs that it leads to.
  abbrev Ordered : List Text → Type 0
  Ordered [] = Unit
  Ordered (u ∷ ds) = All (λ v. contains ds v ≡ true) (next u) × Ordered ds

  -- Below each run that is left are only runs that it leads to and that are known: finished, or
  -- higher on the stack.
  abbrev Pending : List Text → List (Text × Bool) → Type 0
  Pending known [] = Unit
  Pending known ((u, true) ∷ stack) =
      All (λ v. contains known v ≡ true) (next u) × Pending (u ∷ known) stack
  Pending known ((u, false) ∷ stack) = Pending (u ∷ known) stack

  Pending-Within :
      (a b : List Text) (stack : List (Text × Bool))
      → Within a b
      → Pending a stack
      → Pending b stack
  Pending-Within a b [] w h = tt
  Pending-Within a b ((u, true) ∷ stack) w (p, h) =
      (All-Within a b (next u) w p, Pending-Within (u ∷ a) (u ∷ b) stack (Within-cons u a b w) h)
  Pending-Within a b ((u, false) ∷ stack) w h =
      Pending-Within (u ∷ a) (u ∷ b) stack (Within-cons u a b w) h

  -- The runs that `push_all` has put on the stack.
  abbrev above : List Text → List Text → List Text
  above [] known = known
  above (v ∷ vs) known = v ∷ above vs known

  Pending-push_all :
      (vs known : List Text) (stack : List (Text × Bool))
      → ((k : List Text) → Within known k → All (λ v. contains k v ≡ true) vs → Pending k stack)
      → Pending known (push_all vs stack)
  unfolding push_all
  Pending-push_all [] known stack h = h known (λ v c. c) tt
  Pending-push_all (v ∷ vs) known stack h = Pending-push_all vs known ((v, false) ∷ stack) (λ k w a.
      h (v ∷ k) (λ x c. ground (arith, w x c))
        (ground arith, All-Within k (v ∷ k) vs (λ x c. ground arith) a))

  All-push_all :
      (ds vs : List Text) (stack : List (Text × Bool))
      → All (λ (p : Text × Bool). contains ds p.0 ≡ true) (push_all vs stack)
      → All (λ (p : Text × Bool). contains ds p.0 ≡ true) stack
  unfolding push_all
  All-push_all ds [] stack h = h
  All-push_all ds (v ∷ vs) stack h = let (_, r) = All-push_all ds vs ((v, false) ∷ stack) h in r

  -- The runs of a stack that is worked off are finished in the end.
  walk-Ordered :
      (n : ℕ) (marks : List (Text × Mark)) (stack : List (Text × Bool))
      → walk run_uid lineage siblings n marks stack ≡ some (ok tt)
      → Ordered (finished_of marks)
      → Pending (finished_of marks) stack
      → (ds : List Text) × Ordered ds
        × Within (finished_of marks) ds
        × All (λ (p : Text × Bool). contains ds p.0 ≡ true) stack
  unfolding walk finished_of
  walk-Ordered zero marks stack h o p = cc
  walk-Ordered (suc n) marks [] h o p = (finished_of marks, o, (λ v c. c), tt)
  walk-Ordered (suc n) marks ((u, true) ∷ stack) h o (a, p) =
      let (ds, o', w, all) = walk-Ordered n ((u, done) ∷ marks) stack h (a, o) p in
      (ds, o', (λ v c. w v (ground arith)), (w u (ground arith), all))
  walk-Ordered (suc n) marks ((u, false) ∷ stack) h o p = elim (Mark-cases (get u marks)) [
    | inl e ↦
        let (ds, o', w, all) =
          walk-Ordered n ((u, on_path) ∷ marks) (push_all (next u) ((u, true) ∷ stack))
            (ground (arith, e)) o
            (Pending-push_all (next u) (finished_of marks) ((u, true) ∷ stack) (λ k w a.
              (a, Pending-Within (u ∷ finished_of marks) (u ∷ k) stack (Within-cons u _ k w) p))) in
        let (known, rest) = All-push_all ds (next u) ((u, true) ∷ stack) all in
        (ds, o', w, (known, rest))
    | inr (inl e) ↦ absurd (ground (arith, e))
    | inr (inr e) ↦
        let known : contains (finished_of marks) u ≡ true = get-done u marks e in
        let (ds, o', w, all) = walk-Ordered n marks stack (ground (arith, e)) o (
          Pending-Within (u ∷ finished_of marks) (finished_of marks) stack
            (λ v c. ground (arith, known)) p) in
        (ds, o', w, (w u known, all))
  ]

  -- There is a way of at least one edge.
  pub data Reaches : Text → Text → Type 0 where
    one : {u v : Text} → contains (next u) v ≡ true → Reaches u v
    more : {u v w : Text} → contains (next u) v ≡ true → Reaches v w → Reaches u w

  Ordered-next :
      (ds : List Text) (u v : Text)
      → Ordered ds
      → contains ds u ≡ true
      → contains (next u) v ≡ true
      → contains ds v ≡ true
  Ordered-next [] u v o c e = cc
  Ordered-next (d ∷ ds) u v (a, o) c e = elim (list_eq.dec u d) [
    | yes same ↦
        let k : contains ds v ≡ true =
          All-contains ds (next d) v a (subst (λ x. contains (next x) v ≡ true) same e) in
        ground (arith, k)
    | no n ↦ ground (arith, Ordered-next ds u v o, e)
  ]

  Ordered-Reaches :
      (ds : List Text) (u w : Text)
      → Ordered ds
      → contains ds u ≡ true
      → Reaches u w
      → contains ds w ≡ true
  Ordered-Reaches ds u w o c (one e) = Ordered-next ds u w o c e
  Ordered-Reaches ds u w o c (more {v = v} e r) =
      Ordered-Reaches ds v w o (Ordered-next ds u v o c e) r

  -- Behind the head of an ordered list lies only its tail.
  head-Reaches :
      (d w : Text) (ds : List Text) → Ordered (d ∷ ds) → Reaches d w → contains ds w ≡ true
  head-Reaches d w ds (a, o) (one e) = All-contains ds (next d) w a e
  head-Reaches d w ds (a, o) (more {v = v} e r) =
      Ordered-Reaches ds v w o (All-contains ds (next d) v a e) r

  Ordered-no_cycle : (ds : List Text) (u : Text) → Ordered ds → contains ds u ≡ true → ¬ Reaches u u
  Ordered-no_cycle [] u o c r = cc
  Ordered-no_cycle (d ∷ ds) u (a, o) c r = elim (list_eq.dec u d) [
    | yes same ↦
        Ordered-no_cycle ds u o
          (subst (λ x. contains ds x ≡ true) (sym same)
            (head-Reaches d d ds (a, o) (subst (λ x. Reaches x x) same r)))
          r
    | no n ↦ Ordered-no_cycle ds u o (ground arith) r
  ]

  -- If the walk accepts, no run that the lineage leads to leads back to itself, and neither does
  -- the run that was walked from.
  pub check_no_cycle_sound :
      check_no_cycle run_uid lineage siblings ≡ some (ok tt)
      → (w : Text) → (w ≡ run_uid) ⊎ Reaches run_uid w
      → ¬ Reaches w w
  unfolding check_no_cycle finished_of
  check_no_cycle_sound h w from =
      let (ds, o, _, (c, _)) =
        walk-Ordered (9 + 6 * length siblings) [] ((run_uid, false) ∷ []) h tt tt in
      elim from [
        | inl same ↦ Ordered-no_cycle ds w o (subst (λ x. contains ds x ≡ true) (sym same) c)
        | inr r ↦ Ordered-no_cycle ds w o (Ordered-Reaches ds run_uid w o c r)
      ]
