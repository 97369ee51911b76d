-- ===== src/Verify/Walk/Tests.antt =====
-- The walk along concrete lineages.
use rs_runvault.Base.{
  [], ◌∷◌, ◌≡◌, ◌↔◌, refl, List, none, some, Option, Text, codes, list_eq, option_eq, ℕ_discrete,
}
use rs_runvault.Error.{Result, ok, err, verify, cyclic_lineage}
use rs_runvault.Meta.{Lineage}
use rs_runvault.Status.{failed}
use rs_runvault.Verify.Walk.{edges_of, next_of, get, walk, push_all, check_no_cycle, check_lineage}
use rs_runvault.Verify.Walk.Acyclic.{Reaches}
use rs_runvault.Verify.Walk.Cyclic.{Found}
use rs_runvault.Verify.Walk.Accepts.{IsEdges, check_lineage_iff}

abbrev from : Text → Lineage
from uid = record {
  sweep_id = none;
  parent_run_uid = none;
  sweep_index = none;
  sweep_total = none;
  resumed_from = some uid;
  derived_from = none;
}

abbrev straight : List (Text × Result (Option Lineage))
straight = (codes "b", ok (some (from (codes "c")))) ∷ (codes "c", ok none) ∷ []

-- The runs `b` and `c` name each other.
abbrev looped : List (Text × Result (Option Lineage))
looped = (codes "b", ok (some (from (codes "c")))) ∷ (codes "c", ok (some (from (codes "b")))) ∷ []

straight_accepted : check_no_cycle (codes "a") (from (codes "b")) straight ≡ some (ok tt)
unfolding check_no_cycle walk next_of edges_of get push_all list_eq ℕ_discrete
straight_accepted = refl

looped_refused :
    check_no_cycle (codes "a") (from (codes "b")) looped ≡ some (err (verify cyclic_lineage))
unfolding check_no_cycle walk next_of edges_of get push_all list_eq ℕ_discrete
looped_refused = refl

check_lineage_iff_example :
    ((r : Result (Unit {0})) × (check_lineage
          (codes "a")
          (some (from (codes "b")))
          straight
          ((codes "b", ok failed) ∷ [])
        ≡ some r))
    × ((check_lineage (codes "a") (some (from (codes "b"))) straight ((codes "b", ok failed) ∷ [])
          ≡ some (ok tt))
        ↔ (IsEdges (codes "a") (from (codes "b")) ((codes "b", ok failed) ∷ [])
            × ((w : Text)
                → Found (codes "a") (from (codes "b")) straight w
                → ¬ Reaches (codes "a") (from (codes "b")) straight w w)))
check_lineage_iff_example =
    check_lineage_iff (codes "a") (from (codes "b")) straight ((codes "b", ok failed) ∷ [])
