-- ===== src/Paths/Tests.antt =====
-- Two runs of an experiment, recorded in the other order than they finished.
use rs_runvault.Base.{
  nat_eq, ◌≤◌, [], ◌∷◌, none, some, codes, ◌==◌, list_eq, ◌≡◌, refl, ℕ_discrete, if◌then◌else◌, All,
}
use mathlib.Core.List.{Memᴰ}
use rs_runvault.Error.{ok}
use rs_runvault.Paths.{Calendar, Statuses}
use rs_runvault.Paths.Latest.{Finished, Recorded, update_all, update_all_latest}

-- In the tests a date is one byte, its instant.
abbrev calendar : Calendar
calendar = record { instant = λ t. elim t [ [] ↦ none | c ∷ s ↦ some c ] }

abbrev late : Finished
late = record { slug = codes "late"; date = 9 ∷ []; instant = 9 }

abbrev early : Finished
early = record { slug = codes "early"; date = 4 ∷ []; instant = 4 }

abbrev statuses : Statuses
statuses = record {
  finished_at = λ s. if s == codes "late" then some (ok late.date) else some (ok early.date);
}

late-Recorded : Recorded calendar statuses late
unfolding list_eq ℕ_discrete
late-Recorded = (refl, refl)

early-Recorded : Recorded calendar statuses early
unfolding list_eq ℕ_discrete
early-Recorded = (refl, refl)

update_all_latest_example :
    (l : Finished) × (update_all calendar statuses none (late ∷ early ∷ []) ≡ ok (some l.slug))
    × Memᴰ l (late ∷ early ∷ [])
    × Recorded calendar statuses l
    × All (λ x. x.instant ≤ l.instant) (late ∷ early ∷ [])
update_all_latest_example =
    update_all_latest calendar statuses late (early ∷ []) (late-Recorded, (early-Recorded, tt))
