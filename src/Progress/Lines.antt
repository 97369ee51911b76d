-- ===== src/Progress/Lines.antt =====
-- How many lines a stage writes.
use rs_runvault.Base.{
  ℕ, zero, suc, ◌+◌, ◌*◌, ◌≤◌, ◌<◌, Bool, true, false, List, [], ◌∷◌, Option, some, Text, length,
  leb, ◌≡◌, ◌⊎◌, refl, sym, subst, ap, ◌∙◌, arith, Bool-cases, inl, inr, ◌||◌,
}
use rs_runvault.Progress.{
  Stage, step_for, step_of, first_next, line, open_stage, advance, reaches, reports, counted,
  report, tick,
}

multiple : ℕ → ℕ → ℕ
multiple zero step = 0
multiple (suc k) step = multiple k step + step

multiple_mono : (j k step : ℕ) → j ≤ k → multiple j step ≤ multiple k step
unfolding multiple
multiple_mono zero k step h = omega arith
multiple_mono (suc j) zero step h = absurd (omega arith)
multiple_mono (suc j) (suc k) step h = omega (arith, multiple_mono j k step (omega arith))

multiple_bound : (k step : ℕ) → 1 ≤ step → multiple k step ≤ 21 * step → k ≤ 21
unfolding multiple
multiple_bound k step h b = elim (Bool-cases (leb k 21)) [
  | inl e ↦ ground arith
  | inr e ↦ let more = multiple_mono 22 k step (ground arith) in absurd (omega (arith, more))
]

-- The ticks of a stage, each with the age of its last line.
abbrev pub ticks : (Stage → Text) → Text → List Bool → Stage → Stage
ticks text outlived [] s = s
ticks text outlived (late ∷ lates) s = ticks text outlived lates (tick text outlived late s)

abbrev pub late_ticks : List Bool → ℕ
late_ticks [] = 0
late_ticks (true ∷ lates) = suc (late_ticks lates)
late_ticks (false ∷ lates) = late_ticks lates

-- The loop moves to a multiple of the step that is beyond the count, by no more than the step.
record Moved (done step next k after : ℕ) : Type 0 where
  index : ℕ
  aligned : after ≡ multiple index step
  beyond : done < after
  near : (after ≡ next) ⊎ (after ≤ done + step)
  further : (done < next) ⊎ (suc k ≤ index)
  no_less : k ≤ index

advance-Moved :
    (fuel done step next k : ℕ)
    → 1 ≤ step
    → next ≡ multiple k step
    → done < next + fuel
    → Moved done step next k (advance fuel done step next)
unfolding advance multiple
advance-Moved zero done step next k p e h = record {
  index = k;
  aligned = e;
  beyond = omega arith;
  near = inl refl;
  further = inl (omega arith);
  no_less = omega arith;
}
advance-Moved (suc fuel) done step next k p e h = elim (Bool-cases (leb next done)) [
  | inr f ↦ rw f (record {
    index = k;
    aligned = e;
    beyond = ground arith;
    near = inl refl;
    further = inl (ground arith);
    no_less = omega arith;
  })
  | inl f ↦
      let m = advance-Moved fuel done step (next + step) (suc k) p (omega arith) (omega arith) in
      rw f (record {
        index = m.index;
        aligned = m.aligned;
        beyond = m.beyond;
        near = inr (ground (arith, m.near));
        further = inr m.no_less;
        no_less = omega (arith, m.no_less);
      })
]

bit : Bool → ℕ
bit true = 1
bit false = 0

-- The lines, and the one that lets the mirror go while it is held.
weight : Stage → ℕ
weight s = length s.written + bit s.file

line-weight : (t o : Text) (s : Stage) → weight (line t o s) ≡ suc (weight s)
unfolding weight line bit
line-weight t o s = elim (Bool-cases s.file) [
  | inl e ↦ ground (arith, e)
  | inr e ↦ ground (arith, e)
]

record Counted (total lates : ℕ) (s : Stage) : Type 0 where
  index : ℕ
  bounded : s.total ≡ some total
  positive : 1 ≤ s.step
  twentieth : total ≤ 20 * s.step
  aligned : s.next ≡ multiple index s.step
  few : weight s ≤ suc (lates + index)
  near : s.next ≤ total + s.step
  ahead : (s.done < s.next) ⊎ (total ≤ s.done)

module _ (text : Stage → Text) (outlived : Text) where
  line-rest :
      (t o : Text) (s : Stage)
      → ((line t o s).total ≡ s.total)
        × ((line t o s).step ≡ s.step)
        × ((line t o s).done ≡ s.done)
        × ((line t o s).next ≡ s.next)
  unfolding line
  line-rest t o s = ground arith

  reaches-some : (total done : ℕ) → reaches (some total) done ≡ leb total done
  unfolding reaches
  reaches-some total done = refl

  reports-either : (s : Stage) (late : Bool) → reports s late ≡ (leb s.next s.done || late)
  unfolding reports
  reports-either s late = refl

  counted-Counted :
      (late : Bool) (total lates : ℕ) (s : Stage)
      → (s.done + 1 < s.next) ⊎ (total ≤ s.done + 1)
      → Counted total lates s
      → Counted total (bit late + lates) (counted s)
  unfolding weight
  counted-Counted late total lates s h c = record {
    index = c.index;
    bounded = c.bounded;
    positive = c.positive;
    twentieth = c.twentieth;
    aligned = c.aligned;
    few = omega (arith, c.few);
    near = c.near;
    ahead = h;
  }

  report-Counted :
      (late : Bool) (total lates : ℕ) (s : Stage)
      → s.done + 1 < total
      → (leb s.next (s.done + 1) ≡ true) ⊎ (late ≡ true)
      → Counted total lates s
      → Counted total (bit late + lates) (report text outlived (counted s))
  unfolding bit weight
  report-Counted late total lates s h r c =
      let at = counted s in
      let (a, b, d, e) = line-rest (text at) outlived at in
      let m =
        advance-Moved (suc at.done) at.done s.step s.next c.index c.positive c.aligned
          (omega arith) in
      record {
        index = m.index;
        bounded = a ∙ c.bounded;
        positive = omega (arith, b, c.positive);
        twentieth = omega (arith, b, c.twentieth);
        aligned = m.aligned ∙ ap (multiple m.index) (sym b);
        few = few_enough late (line-weight (text at) outlived at) r m.further m.no_less;
        near = ground (arith, b, c.near, m.near);
        ahead = inl (ground (arith, d, m.beyond));
      }
    where
      few_enough :
          (late : Bool) {w index : ℕ}
          → w ≡ suc (weight s)
          → (leb s.next (s.done + 1) ≡ true) ⊎ (late ≡ true)
          → (s.done + 1 < s.next) ⊎ (suc c.index ≤ index)
          → c.index ≤ index
          → w ≤ suc (bit late + lates + index)
      few_enough true e r f g = omega (arith, c.few)
      few_enough false e (inl r) (inl f) g = absurd (ground arith)
      few_enough false e (inl r) (inr f) g = omega (arith, c.few)
      few_enough false e (inr r) f g = cc

  tick-Counted :
      (late : Bool) (total lates : ℕ) (s : Stage)
      → Counted total lates s
      → Counted total (bit late + lates) (tick text outlived late s)
  unfolding tick
  tick-Counted late total lates s c = elim (Bool-cases (reaches s.total (s.done + 1))) [
    | inl e ↦ rw e (counted-Counted late total lates s (inr (reached e)) c)
    | inr e ↦ elim (Bool-cases (reports (counted s) late)) [
      | inl f ↦ rw (e, f) (report-Counted late total lates s (not_reached e) (reported f) c)
      | inr f ↦ rw (e, f) (counted-Counted late total lates s (inl (not_reported f)) c)
    ]
  ]
    where
      ends : reaches s.total (s.done + 1) ≡ leb total (s.done + 1)
      ends = ap (λ t. reaches t (s.done + 1)) c.bounded ∙ reaches-some total (s.done + 1)

      reached : reaches s.total (s.done + 1) ≡ true → total ≤ s.done + 1
      reached e = ground (arith, ends, e)

      not_reached : reaches s.total (s.done + 1) ≡ false → s.done + 1 < total
      not_reached e = ground (arith, ends, e)

      reported : reports (counted s) late ≡ true → (leb s.next (s.done + 1) ≡ true) ⊎ (late ≡ true)
      reported f = ground (arith, reports-either (counted s) late, f)

      not_reported : reports (counted s) late ≡ false → s.done + 1 < s.next
      not_reported f = ground (arith, reports-either (counted s) late, f)

  ticks-Counted :
      (lates : List Bool) (total before : ℕ) (s : Stage)
      → Counted total before s
      → Counted total (late_ticks lates + before) (ticks text outlived lates s)
  unfolding bit
  ticks-Counted [] total before s c = subst (λ n. Counted total n s) (omega arith) c
  ticks-Counted (late ∷ lates) total before s c =
      subst (λ n. Counted total n (ticks text outlived lates (tick text outlived late s)))
        (later late)
        (ticks-Counted lates total (bit late + before) (tick text outlived late s)
          (tick-Counted late total before s c))
    where
      later :
          (late : Bool)
          → late_ticks lates + (bit late + before) ≡ late_ticks (late ∷ lates) + before
      later true = omega arith
      later false = omega arith

  step_for-positive : (five_per_cent : ℕ → ℕ) (total : ℕ) → 1 ≤ step_for five_per_cent total
  unfolding step_for
  step_for-positive five_per_cent total = ground arith

  step_for-twentieth :
      (five_per_cent : ℕ → ℕ) (total : ℕ)
      → total ≤ 20 * five_per_cent total
      → total ≤ 20 * step_for five_per_cent total
  unfolding step_for
  step_for-twentieth five_per_cent total h = ground (arith, h)

  open_stage-Counted :
      (five_per_cent : ℕ → ℕ) (file : Bool) (open_run : Option Bool) (total : ℕ)
      → total ≤ 20 * five_per_cent total
      → Counted total 0 (open_stage text outlived five_per_cent file open_run (some total))
  unfolding open_stage step_of first_next weight multiple bit
  open_stage-Counted five_per_cent file open_run total h =
      let step = step_for five_per_cent total in
      let s : Stage = record {
        file = file;
        open_run = open_run;
        total = some total;
        done = 0;
        step = step;
        next = step;
        closed = false;
        written = [];
        mirrored = [];
      } in
      let (a, b, d, e) = line-rest (text s) outlived s in
      let positive = step_for-positive five_per_cent total in
      let twentieth = step_for-twentieth five_per_cent total h in
      record {
        index = 1;
        bounded = a;
        positive = omega (arith, b, positive);
        twentieth = omega (arith, b, twentieth);
        aligned = omega (arith, b, e);
        few = first_line file (line-weight (text s) outlived s);
        near = omega (arith, b, e);
        ahead = inl (omega (arith, d, e, positive));
      }
    where
      first_line : (b : Bool) {w : ℕ} → w ≡ suc (0 + bit b) → w ≤ suc (0 + 1)
      first_line true h = omega arith
      first_line false h = omega arith

few_lines :
    (s : Stage) (lates total : ℕ) → Counted total (lates + 0) s → length s.written ≤ 22 + lates
unfolding weight
few_lines s lates total c =
    let top =
      multiple_bound c.index s.step c.positive (omega (arith, c.aligned, c.near, c.twentieth)) in
    omega (arith, c.few, top)

-- A stage of a known number of conditions, of which five per cent are a twentieth or more, writes a
-- line when it is opened, at most twenty lines at its steps, one line for each tick whose last line
-- is old, and at most one line that says that the run has been sealed. After any ticks, the next line
-- is due at a greater count, unless all conditions have been counted.
pub ticks_bounded :
    (text : Stage → Text) (outlived : Text) (five_per_cent : ℕ → ℕ) (file : Bool)
    (open_run : Option Bool) (total : ℕ) (lates : List Bool)
    → total ≤ 20 * five_per_cent total
    → let s =
        ticks text outlived lates
          (open_stage text outlived five_per_cent file open_run (some total)) in
      (length s.written ≤ 22 + late_ticks lates) × ((s.done < s.next) ⊎ (total ≤ s.done))
ticks_bounded text outlived five_per_cent file open_run total lates h =
    let c =
      ticks-Counted text outlived lates total 0
        (open_stage text outlived five_per_cent file open_run (some total))
        (open_stage-Counted text outlived five_per_cent file open_run total h) in
    (few_lines _ (late_ticks lates) total c, c.ahead)
