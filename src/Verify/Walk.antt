-- ===== src/Verify/Walk.antt =====
-- crates/runvault/src/verify.rs: `check_lineage` and `check_no_cycle`, the walk along the lineage of
-- a run. A sibling enters as what is read of its `run.json`, and of the state in its `status.json`.
pub mod Accepts
pub mod Acyclic
pub mod Cyclic
pub mod Ends
mod Tests
use rs_runvault.Base.{
  ℕ, zero, suc, ◌+◌, ◌*◌, Bool, true, false, List, [], ◌∷◌, ◌++◌, Option, none, some, Text, ◌==◌,
  nat_eq, list_eq, option_eq, if◌then◌else◌, length,
}
use rs_runvault.Error.{
  Result, ok, err, verify, cyclic_lineage, self_reference, resumed_from_finished,
  unconfirmed_failure, refuse_if, ◌>>=◌, ◌>>◌,
}
use rs_runvault.Status.{State, finished, failed}
use rs_runvault.Verify.{check_lineage_shape}
use rs_runvault.Meta.{Lineage}

pub data Mark : Type 0 where
  on_path done : Mark

-- `HashMap::insert` puts an entry in front, where `get` finds it first.
unfoldable pub get {ℓ} : {A : Type ℓ} → Text → List (Text × A) → Option A
get key [] = none
get key ((k, a) ∷ rest) = let later = get key rest in if k == key then some a else later

-- The closure `edges_of`.
abbrev pub edge : Option Text → List Text → List Text
edge none rest = rest
edge (some uid) rest = uid ∷ rest

unfoldable pub edges_of : Lineage → List Text
edges_of l = edge l.parent_run_uid (edge l.resumed_from (edge l.derived_from []))

-- The edges of the `run.json` of a sibling, as it is read.
abbrev pub sibling_edges : Option (Result (Option Lineage)) → List Text
sibling_edges (some (ok (some l))) = edges_of l
sibling_edges (some (ok none)) = []
sibling_edges (some (err e)) = []
sibling_edges none = []

-- `for edge in next { stack.push((edge, false)) }`: the top of the stack is the head.
push_all : List Text → List (Text × Bool) → List (Text × Bool)
push_all [] stack = stack
push_all (uid ∷ next) stack = push_all next ((uid, false) ∷ stack)

module _ (run_uid : Text) (lineage : Lineage)
    (siblings : List (Text × Result (Option Lineage))) where
  unfoldable pub next_of : Text → List Text
  next_of uid = if uid == run_uid then edges_of lineage else sibling_edges (get uid siblings)

  -- The loop, on fuel: `none` is a loop that has not ended.
  unfoldable pub walk : ℕ → List (Text × Mark) → List (Text × Bool) → Option (Result (Unit {0}))
  unfolding push_all
  walk zero marks stack = none
  walk (suc n) marks [] = some (ok tt)
  walk (suc n) marks ((uid, true) ∷ stack) = walk n ((uid, done) ∷ marks) stack
  walk (suc n) marks ((uid, false) ∷ stack) = elim (get uid marks) [
    | some on_path ↦ some (err (verify cyclic_lineage))
    | some done ↦ walk n marks stack
    | none ↦ walk n ((uid, on_path) ∷ marks) (push_all (next_of uid) ((uid, true) ∷ stack))
  ]

  -- Each run is entered once, and has at most three edges.
  unfoldable pub check_no_cycle : Option (Result (Unit {0}))
  check_no_cycle = walk (9 + 6 * length siblings) [] ((run_uid, false) ∷ [])

-- `resumed_from` of a sibling that is found says that it failed.
unfoldable pub check_resumed : Option Text → List (Text × Result State) → Result (Unit {0})
check_resumed none statuses = ok tt
check_resumed (some from) statuses = elim (get from statuses) [
  | none ↦ ok tt
  | some (ok failed) ↦ ok tt
  | some (ok finished) ↦ err (verify resumed_from_finished)
  | some (err e) ↦ err (verify unconfirmed_failure)
]

-- The part of `check_lineage` before the walk.
unfoldable pub check_edges : Text → Lineage → List (Text × Result State) → Result (Unit {0})
check_edges run_uid l statuses = do
  check_lineage_shape (some l)
  refuse_if (l.parent_run_uid == some run_uid) (verify self_reference)
  refuse_if (l.resumed_from == some run_uid) (verify self_reference)
  refuse_if (l.derived_from == some run_uid) (verify self_reference)
  check_resumed l.resumed_from statuses

unfoldable pub check_lineage :
    Text
    → Option Lineage
    → List (Text × Result (Option Lineage))
    → List (Text × Result State)
    → Option (Result (Unit {0}))
check_lineage run_uid none siblings statuses = some (ok tt)
check_lineage run_uid (some l) siblings statuses = elim (check_edges run_uid l statuses) [
  | err e ↦ some (err e)
  | ok _ ↦ check_no_cycle run_uid l siblings
]
