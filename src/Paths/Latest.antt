-- ===== src/Paths/Latest.antt =====
-- The link points at the run that finished last, in whichever order the runs are recorded.
use rs_runvault.Base.{
  ℕ, ◌≤◌, true, false, List, [], ◌∷◌, Option, none, some, Text, leb, if◌then◌else◌, arith, ◌≡◌,
  refl, All, Bool-cases, inl, inr,
}
use mathlib.Core.List.{Memᴰ}
use mathlib.Core.List.Memᴰ as MemD
use rs_runvault.Error.{Result, ok, ◌>>=◌}
use rs_runvault.Paths.{
  Calendar, Statuses, parse_finished_at, read_link_status, update_latest_finished,
}

-- A run that finished: its slug, its date and the instant of it.
pub record Finished : Type 0 where
  pub slug : Text
  pub date : Text
  pub instant : ℕ

module _ (calendar : Calendar) (statuses : Statuses) where
  -- The `status.json` of the run has the date, which can be read.
  abbrev pub Recorded : Finished → Type 0
  Recorded r =
      (statuses.finished_at r.slug ≡ some (ok r.date)) × (calendar.instant r.date ≡ some r.instant)

  -- The runs are recorded one after the other.
  unfoldable pub update_all : Option Text → List Finished → Result (Option Text)
  update_all link [] = ok link
  update_all link (r ∷ rs) = do
    moved ← update_latest_finished calendar statuses link r.slug r.date
    update_all moved.1 rs

  step :
      (c r : Finished) (rs : List Finished)
      → Recorded c
      → Recorded r
      → update_all (some c.slug) (r ∷ rs) ≡ (
          if leb r.instant c.instant
          then update_all (some c.slug) rs
          else update_all (some r.slug) rs)
  unfolding update_all update_latest_finished read_link_status parse_finished_at
  step c r rs (p, q) (x, y) = ground (arith, p, q, x, y)

  latest_from :
      (c : Finished) (rs : List Finished)
      → Recorded c
      → All Recorded rs
      → (l : Finished) × (update_all (some c.slug) rs ≡ ok (some l.slug))
        × Memᴰ l (c ∷ rs)
        × Recorded l
        × (c.instant ≤ l.instant)
        × All (λ r. r.instant ≤ l.instant) rs
  unfolding update_all
  latest_from c [] h a = (c, refl, MemD.head refl, h, omega arith, tt)
  latest_from c (r ∷ rs) h (k, a) = elim (Bool-cases (leb r.instant c.instant)) [
    | inl e ↦
        let (l, p, i, q, m, n) = latest_from c rs h a in
        (l, rw (step c r rs h k, e) p, skipped i, q, m, (omega (arith, le e, m), n))
    | inr e ↦
        let (l, p, i, q, m, n) = latest_from r rs k a in
        (l, rw (step c r rs h k, e) p, MemD.tail i, q, omega (arith, gt e, m), (m, n))
  ]
    where
      skipped : {l : Finished} → Memᴰ l (c ∷ rs) → Memᴰ l (c ∷ r ∷ rs)
      skipped (MemD.head same) = MemD.head same
      skipped (MemD.tail i) = MemD.tail (MemD.tail i)

      le : leb r.instant c.instant ≡ true → r.instant ≤ c.instant
      le e = ground arith

      gt : leb r.instant c.instant ≡ false → c.instant ≤ r.instant
      gt e = ground arith

  -- When runs with a readable date have been recorded in any order, beginning without a link, the
  -- link points at one of them, and it finished no earlier than any.
  pub update_all_latest :
      (r : Finished) (rs : List Finished)
      → All Recorded (r ∷ rs)
      → (l : Finished) × (update_all none (r ∷ rs) ≡ ok (some l.slug))
        × Memᴰ l (r ∷ rs)
        × Recorded l
        × All (λ x. x.instant ≤ l.instant) (r ∷ rs)
  unfolding update_all update_latest_finished read_link_status parse_finished_at
  update_all_latest r rs ((p, q), a) =
      let (l, e, i, k, m, n) = latest_from r rs (p, q) a in (l, ground (arith, q, e), i, k, (m, n))
