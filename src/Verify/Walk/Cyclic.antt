-- ===== src/Verify/Walk/Cyclic.antt =====
-- What `check_no_cycle` shows when it refuses.
use rs_runvault.Base.{
  ℕ, zero, suc, ◌+◌, ◌*◌, Bool, true, false, List, [], ◌∷◌, Option, some, Text, nat_eq, list_eq,
  contains, arith, ◌≡◌, ◌⊎◌, inl, inr, refl, sym, subst, length, ◌↔◌,
}
use rs_runvault.Error.{Result, Error, ok, err}
use rs_runvault.Meta.{Lineage}
use rs_runvault.Verify.Walk.{Mark, on_path, done, get, push_all, next_of, walk, check_no_cycle}
use rs_runvault.Verify.Walk.Acyclic.{Mark-cases, Reaches, check_no_cycle_sound}
use rs_runvault.Verify.Walk.Acyclic.Reaches.{one, more}
use rs_runvault.Verify.Walk.Ends.{check_no_cycle_ends}

-- The runs of the stack that are on the path.
leaving : List (Text × Bool) → List Text
leaving [] = []
leaving ((u, true) ∷ stack) = u ∷ leaving stack
leaving ((u, false) ∷ stack) = leaving stack

leaving-push_all :
    (vs : List Text) (stack : List (Text × Bool)) → leaving (push_all vs stack) ≡ leaving stack
unfolding leaving push_all
leaving-push_all [] stack = refl
leaving-push_all (v ∷ vs) stack = leaving-push_all vs ((v, false) ∷ stack)

module _ (run_uid : Text) (lineage : Lineage)
    (siblings : List (Text × Result (Option Lineage))) where
  abbrev next : Text → List Text
  next = next_of run_uid lineage siblings

  abbrev Leads : Text → Text → Type 0
  Leads = Reaches run_uid lineage siblings

  -- The lineage leads to a run, or it is where the walk began.
  abbrev pub Found : Text → Type 0
  Found w = (w ≡ run_uid) ⊎ Leads run_uid w

  Leads-next : (u v w : Text) → Leads u v → contains (next v) w ≡ true → Leads u w
  Leads-next u v w (one e) h = more e (one h)
  Leads-next u v w (more {v = x} e r) h = more e (Leads-next x v w r h)

  Found-next : (v w : Text) → Found v → contains (next v) w ≡ true → Found w
  Found-next v w (inl e) h = inr (one (subst (λ x. contains (next x) w ≡ true) e h))
  Found-next v w (inr r) h = inr (Leads-next run_uid v w r h)

  -- Every run on the path leads to this one.
  abbrev Led : Text → List (Text × Bool) → Type 0
  Led x [] = Unit
  Led x ((u, true) ∷ stack) = Leads u x × Led x stack
  Led x ((u, false) ∷ stack) = Led x stack

  -- A run on the stack is led to by the runs on the path below it, and by the first one.
  abbrev Chain : List (Text × Bool) → Type 0
  Chain [] = Unit
  Chain ((x, b) ∷ stack) = Found x × Led x stack × Chain stack

  Led-leaving :
      (u x : Text) (stack : List (Text × Bool))
      → Led x stack
      → contains (leaving stack) u ≡ true
      → Leads u x
  unfolding leaving
  Led-leaving u x [] h c = cc
  Led-leaving u x ((v, true) ∷ stack) (r, h) c = elim (list_eq.dec u v) [
    | yes e ↦ subst (λ y. Leads y x) (sym e) r
    | no n ↦ Led-leaving u x stack h (ground arith)
  ]
  Led-leaving u x ((v, false) ∷ stack) h c = Led-leaving u x stack h c

  Led-next :
      (u v : Text) (stack : List (Text × Bool))
      → Led u stack
      → contains (next u) v ≡ true
      → Led v stack
  Led-next u v [] h e = tt
  Led-next u v ((x, true) ∷ stack) (r, h) e = (Leads-next x u v r e, Led-next u v stack h e)
  Led-next u v ((x, false) ∷ stack) h e = Led-next u v stack h e

  Chain-push_all :
      (vs : List Text) (stack : List (Text × Bool))
      → ((v : Text) → contains vs v ≡ true → Found v × Led v stack)
      → Chain stack
      → Chain (push_all vs stack)
  unfolding push_all
  Chain-push_all [] stack h c = c
  Chain-push_all (v ∷ vs) stack h c =
      let (f, l) = h v (ground arith) in
      Chain-push_all vs ((v, false) ∷ stack) (λ x e. h x (ground arith)) (f, l, c)

  walk-cycle :
      (n : ℕ) (marks : List (Text × Mark)) (stack : List (Text × Bool)) (x : Error)
      → walk run_uid lineage siblings n marks stack ≡ some (err x)
      → ((u : Text) → get u marks ≡ some on_path → contains (leaving stack) u ≡ true)
      → Chain stack
      → (w : Text) × Found w × Leads w w
  unfolding walk leaving get
  walk-cycle zero marks stack x h on c = cc
  walk-cycle (suc n) marks [] x h on c = cc
  walk-cycle (suc n) marks ((u, true) ∷ stack) x h on (f, l, c) =
      walk-cycle n ((u, done) ∷ marks) stack x h (λ v e. ground (arith, on v)) c
  walk-cycle (suc n) marks ((u, false) ∷ stack) x h on (f, l, c) = elim (Mark-cases (get u marks)) [
    | inl e ↦
        walk-cycle n ((u, on_path) ∷ marks) (push_all (next u) ((u, true) ∷ stack)) x
          (ground (arith, e))
          (λ v g. rw (leaving-push_all (next u) ((u, true) ∷ stack)) (ground (arith, on v)))
          (Chain-push_all (next u) ((u, true) ∷ stack)
            (λ v k. (Found-next u v f k, (one k, Led-next u v stack l k))) (f, l, c))
    | inr (inl e) ↦ (u, f, Led-leaving u u stack l (on u e))
    | inr (inr e) ↦ walk-cycle n marks stack x (ground (arith, e)) on c
  ]

  -- If the walk refuses, a run that the lineage leads to, or the run that was walked from, leads
  -- back to itself.
  pub check_no_cycle_complete :
      {x : Error}
      → check_no_cycle run_uid lineage siblings ≡ some (err x)
      → (w : Text) × Found w × Leads w w
  unfolding check_no_cycle get
  check_no_cycle_complete {x} h =
      walk-cycle (9 + 6 * length siblings) [] ((run_uid, false) ∷ []) x h (λ u e. cc)
        (inl refl, tt, tt)

  -- The walk always ends. It accepts exactly the lineages in which no run that can be reached, the
  -- first one included, leads back to itself along the three kinds of edges.
  pub check_no_cycle_iff :
      (check_no_cycle run_uid lineage siblings ≡ some (ok tt))
      ↔ ((w : Text) → Found w → ¬ Leads w w)
  check_no_cycle_iff = (check_no_cycle_sound run_uid lineage siblings, back)
    where
      decided :
          (r : Result (Unit {0}))
          → check_no_cycle run_uid lineage siblings ≡ some r
          → ((w : Text) → Found w → ¬ Leads w w)
          → check_no_cycle run_uid lineage siblings ≡ some (ok tt)
      decided (ok u) e h = e
      decided (err x) e h = let (w, f, l) = check_no_cycle_complete e in absurd (h w f l)

      back :
          ((w : Text) → Found w → ¬ Leads w w)
          → check_no_cycle run_uid lineage siblings ≡ some (ok tt)
      back h = let (r, e) = check_no_cycle_ends run_uid lineage siblings in decided r e h
