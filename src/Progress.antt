-- ===== src/Progress.antt =====
-- crates/runvault/src/progress.rs: the count of a stage, when it reports, and where its lines go. The
-- text of a line is a parameter (its share and its estimate are floating-point numbers), and so is
-- five per cent of a count, rounded up. Whether the last line is thirty seconds old is an input of
-- each tick.
pub mod Lines
mod Tests
use rs_runvault.Base.{
  ℕ, zero, suc, ◌+◌, ◌-◌, ◌*◌, ◌/◌, ◌%◌, ◌^◌, Bool, true, false, not, ◌&&◌, ◌||◌, List, [], ◌∷◌,
  ◌++◌, Option, none, some, Text, codes, ltb, leb, if◌then◌else◌,
}
use rs_runvault.Base.Decimal.{decimal}

pub record Stage : Type 0 where
  -- Whether the mirror is held, and whether the run that it answers to is open.
  pub file : Bool
  -- Of the run of the stage, as it is when the stage is opened; the source asks at each line.
  pub open_run : Option Bool
  pub total : Option ℕ
  pub done : ℕ
  pub step : ℕ
  pub next : ℕ
  pub closed : Bool
  -- The lines on standard error, and the lines of the mirror, each the latest first.
  pub written : List Text
  pub mirrored : List Text

module _ (five_per_cent : ℕ → ℕ) where
  unfoldable pub step_for : ℕ → ℕ
  step_for total = if ltb (five_per_cent total) 1 then 1 else five_per_cent total

  unfoldable pub step_of : Option ℕ → ℕ
  step_of none = 1
  step_of (some total) = step_for total

  -- `usize::MAX` where there is no share to cross.
  unfoldable pub first_next : Option ℕ → ℕ
  first_next none = 2 ^ 64 - 1
  first_next (some total) = step_for total

-- `self.open.as_ref().is_some_and(|o| !o.load(…))`
unfoldable pub is_sealed : Option Bool → Bool
is_sealed none = false
is_sealed (some is_open) = not is_open

-- The line goes to standard error, and to the mirror unless the run is sealed: then the mirror is let
-- go, with a line that says so.
unfoldable pub line : Text → Text → Stage → Stage
line text outlived s =
    if s.file && is_sealed s.open_run
    then record s { file = false; written = outlived ∷ text ∷ s.written }
    else if s.file
    then record s { written = text ∷ s.written; mirrored = text ∷ s.mirrored }
    else record s { written = text ∷ s.written }

-- `while self.next <= self.done { self.next += self.step }`, on fuel
unfoldable pub advance : ℕ → ℕ → ℕ → ℕ → ℕ
advance zero done step next = next
advance (suc fuel) done step next =
    let further = advance fuel done step (next + step) in if leb next done then further else next

unfoldable pub reaches : Option ℕ → ℕ → Bool
reaches none done = false
reaches (some total) done = leb total done

unfoldable pub reports : Stage → Bool → Bool
reports s late = leb s.next s.done || late

abbrev pub counted : Stage → Stage
counted s = record s { done = s.done + 1 }

module _ (text : Stage → Text) (outlived : Text) where
  abbrev pub emit : Stage → Stage
  emit s = line (text s) outlived s

  -- `file` says whether a mirror could be opened.
  unfoldable pub open_stage : (ℕ → ℕ) → Bool → Option Bool → Option ℕ → Stage
  open_stage five_per_cent file open_run total = emit (record {
    file = file;
    open_run = open_run;
    total = total;
    done = 0;
    step = step_of five_per_cent total;
    next = first_next five_per_cent total;
    closed = false;
    written = [];
    mirrored = [];
  })

  abbrev pub report : Stage → Stage
  report s = record (emit s) { next = advance (suc s.done) s.done s.step s.next }

  unfoldable pub tick : Bool → Stage → Stage
  tick late s =
      if reaches s.total (s.done + 1)
      then counted s
      else if reports (counted s) late
      then report (counted s)
      else counted s

  unfoldable pub close : Stage → Stage
  close s = emit (record s { closed = true })

unfoldable pub two_digits : ℕ → Text
two_digits n = if ltb n 10 then b'0' ∷ decimal n else decimal n

unfoldable pub duration : ℕ → Text
duration s =
    if leb 3600 s
    then decimal (s / 3600)
      ++ codes "h"
      ++ two_digits (s % 3600 / 60)
      ++ codes "m"
      ++ two_digits (s % 60)
      ++ codes "s"
    else if leb 60 s
    then decimal (s / 60) ++ codes "m" ++ two_digits (s % 60) ++ codes "s"
    else decimal s ++ codes "s"
