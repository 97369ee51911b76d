-- ===== src/Verify/Walk/Accepts.antt =====
-- What `check_lineage` accepts.
use rs_runvault.Base.{
  false, List, Option, none, some, Text, ◌==◌, nat_eq, list_eq, option_eq, arith, ◌≡◌, ◌≢◌, ◌↔◌,
  refl, ◌⊎◌, inl, inr,
}
use rs_runvault.Error.{Result, Result-cases, ok, err, >>=-eq-ok}
use rs_runvault.Meta.{Lineage}
use rs_runvault.Status.{State, failed}
use rs_runvault.Verify.Records.{IsLineage, check_lineage_shape_iff}
use rs_runvault.Verify.{check_lineage_shape}
use rs_runvault.Verify.Walk.{get, check_resumed, check_edges, check_no_cycle, check_lineage}
use rs_runvault.Verify.Walk.Acyclic.{Reaches}
use rs_runvault.Verify.Walk.Cyclic.{Found, check_no_cycle_iff}
use rs_runvault.Verify.Walk.Ends.{check_no_cycle_ends}

-- No edge of the lineage is the run itself, and the run that it resumes, if it is found, failed.
pub record IsEdges (run_uid : Text) (l : Lineage) (statuses : List (Text × Result State))
    : Type 0 where
  pub shape : IsLineage l
  pub no_own_parent : l.parent_run_uid ≢ some run_uid
  pub no_own_resumed : l.resumed_from ≢ some run_uid
  pub no_own_derived : l.derived_from ≢ some run_uid
  pub resumes_failed :
      (from : Text)
      → l.resumed_from ≡ some from
      → (get from statuses ≡ none) ⊎ (get from statuses ≡ some (ok failed))

resumed_sound :
    (o : Option Text) (statuses : List (Text × Result State))
    → check_resumed o statuses ≡ ok tt
    → (from : Text) → o ≡ some from
    → (get from statuses ≡ none) ⊎ (get from statuses ≡ some (ok failed))
unfolding check_resumed
resumed_sound o statuses h from e = ground arith

resumed_complete :
    (o : Option Text) (statuses : List (Text × Result State))
    → ((from : Text)
        → o ≡ some from
        → (get from statuses ≡ none) ⊎ (get from statuses ≡ some (ok failed)))
    → check_resumed o statuses ≡ ok tt
unfolding check_resumed
resumed_complete none statuses h = refl
resumed_complete (some from) statuses h = ground (arith, h from refl)

IsEdges-sound :
    (run_uid : Text) (l : Lineage) (statuses : List (Text × Result State))
    → check_edges run_uid l statuses ≡ ok tt
    → IsEdges run_uid l statuses
unfolding check_edges
IsEdges-sound run_uid l statuses h =
    let (_, shape, rest) = >>=-eq-ok (check_lineage_shape (some l)) _ h in
    record {
      shape = (check_lineage_shape_iff (some l)).0 shape;
      no_own_parent = λ e. ground (arith, e, rest);
      no_own_resumed = λ e. ground (arith, e, rest);
      no_own_derived = λ e. ground (arith, e, rest);
      resumes_failed = resumed_sound l.resumed_from statuses (ground (arith, rest));
    }

apart : (o : Option Text) (t : Text) → o ≢ some t → (o == some t) ≡ false
apart o t n = ground (arith, n)

IsEdges-complete :
    (run_uid : Text) (l : Lineage) (statuses : List (Text × Result State))
    → IsEdges run_uid l statuses
    → check_edges run_uid l statuses ≡ ok tt
unfolding check_edges
IsEdges-complete run_uid l statuses h =
    rw
      (
        (check_lineage_shape_iff (some l)).1 h.shape,
        apart l.parent_run_uid run_uid h.no_own_parent,
        apart l.resumed_from run_uid h.no_own_resumed,
        apart l.derived_from run_uid h.no_own_derived,
        resumed_complete l.resumed_from statuses h.resumes_failed,
      )
      refl

check_lineage_ends :
    (run_uid : Text) (l : Lineage) (siblings : List (Text × Result (Option Lineage)))
    (statuses : List (Text × Result State))
    → (r : Result (Unit {0})) × (check_lineage run_uid (some l) siblings statuses ≡ some r)
unfolding check_lineage
check_lineage_ends run_uid l siblings statuses =
    elim (Result-cases (check_edges run_uid l statuses)) [
      | inr (e, p) ↦ (err e, ground (arith, p))
      | inl (_, p) ↦
          let (r, q) = check_no_cycle_ends run_uid l siblings in (r, ground (arith, p, q))
    ]

-- `check_lineage` ends with a result, whether the lineage has a cycle or not, and accepts exactly the lineages that keep the rules, name no run as its
-- own origin, resume a failed run where the run is found, and from which no run that can be reached
-- leads back to itself.
pub check_lineage_iff :
    (run_uid : Text) (l : Lineage) (siblings : List (Text × Result (Option Lineage)))
    (statuses : List (Text × Result State))
    → ((r : Result (Unit {0})) × (check_lineage run_uid (some l) siblings statuses ≡ some r))
      × ((check_lineage run_uid (some l) siblings statuses ≡ some (ok tt)) ↔ (
          IsEdges run_uid l statuses
          × ((w : Text) → Found run_uid l siblings w → ¬ Reaches run_uid l siblings w w)))
unfolding check_lineage
check_lineage_iff run_uid l siblings statuses =
    (check_lineage_ends run_uid l siblings statuses, (to, from))
  where
    split :
        (r : Result (Unit {0}))
        → check_edges run_uid l statuses ≡ r
        → check_lineage run_uid (some l) siblings statuses ≡ some (ok tt)
        → (check_edges run_uid l statuses ≡ ok tt)
          × (check_no_cycle run_uid l siblings ≡ some (ok tt))
    split (err e) p h = absurd (ground (arith, p, h))
    split (ok u) p h = (p, ground (arith, p, h))

    to :
        check_lineage run_uid (some l) siblings statuses ≡ some (ok tt)
        → IsEdges run_uid l statuses
          × ((w : Text) → Found run_uid l siblings w → ¬ Reaches run_uid l siblings w w)
    to h =
        let (p, q) = split (check_edges run_uid l statuses) refl h in
        (IsEdges-sound run_uid l statuses p, (check_no_cycle_iff run_uid l siblings).0 q)

    from :
        IsEdges run_uid l statuses
          × ((w : Text) → Found run_uid l siblings w → ¬ Reaches run_uid l siblings w w)
        → check_lineage run_uid (some l) siblings statuses ≡ some (ok tt)
    from (e, n) =
        rw (IsEdges-complete run_uid l statuses e, check_lineage)
          ((check_no_cycle_iff run_uid l siblings).1 n)
