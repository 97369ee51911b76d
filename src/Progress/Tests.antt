-- ===== src/Progress/Tests.antt =====
-- A stage of forty conditions, reported every second one, with one slow condition.
use rs_runvault.Base.{
  ◌+◌, ◌/◌, ◌≤◌, ◌<◌, ◌⊎◌, Bool, true, false, List, [], ◌∷◌, some, Text, codes, length, ◌≡◌, refl,
  arith,
}
use rs_runvault.Base.Decimal.{decimal}
use rs_runvault.Progress.{Stage, open_stage, duration, two_digits}
use rs_runvault.Progress.Lines.{ticks, ticks_bounded}

abbrev text : Stage → Text
text s = codes "progress"

abbrev lates : List Bool
lates = false ∷ true ∷ false ∷ false ∷ []

abbrev stage : Stage
stage =
    ticks text (codes "outlived") lates
      (open_stage text (codes "outlived") (λ n. (n + 19) / 20) true (some true) (some 40))

ticks_bounded_example :
    (length stage.written ≤ 22 + 1) × ((stage.done < stage.next) ⊎ (40 ≤ stage.done))
ticks_bounded_example =
    ticks_bounded text (codes "outlived") (λ n. (n + 19) / 20) true (some true) 40 lates
      (omega arith)

an_hour_and_more : duration 5696 ≡ codes "1h34m56s"
unfolding duration two_digits decimal
an_hour_and_more = refl
