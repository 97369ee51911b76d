-- ===== src/Paths.antt =====
-- crates/runvault/src/paths.rs: the link `latest_finished` of an experiment. Updates are
-- taken one after the other, as the mutex of the directory has them unless a holder stalls.
pub mod Latest
mod Tests
use rs_runvault.Base.{ℕ, Bool, true, false, Option, none, some, Text, leb, if◌then◌else◌}
use rs_runvault.Error.{Result, ok, err, spec, unreadable_date, ◌>>=◌}

-- What chrono's `parse_from_rfc3339` gives: the instant of a date, if it can be read.
pub record Calendar : Type 0 where
  pub instant : Text → Option ℕ

-- `finished_at` in the `status.json` of the directory of a slug, as it is read, where there is one.
pub record Statuses : Type 0 where
  pub finished_at : Text → Option (Result Text)

module _ (calendar : Calendar) (statuses : Statuses) where
  unfoldable pub parse_finished_at : Text → Result ℕ
  parse_finished_at date = elim (calendar.instant date) [
    | some at ↦ ok at
    | none ↦ err (spec unreadable_date)
  ]

  -- Of the directory that the link points at, where there is a link.
  unfoldable pub read_link_status : Option Text → Result (Option Text)
  read_link_status none = ok none
  read_link_status (some slug) = elim (statuses.finished_at slug) [
    | none ↦ ok none
    | some (ok date) ↦ ok (some date)
    | some (err e) ↦ err e
  ]

  -- The link afterwards, and whether it was moved.
  unfoldable pub update_latest_finished : Option Text → Text → Text → Result (Bool × Option Text)
  update_latest_finished link slug date = do
    at ← parse_finished_at date
    current ← read_link_status link
    elim current [
      | none ↦ ok (true, some slug)
      | some old ↦ do
        then' ← parse_finished_at old
        ok (if leb at then' then (false, link) else (true, some slug))
    ]
