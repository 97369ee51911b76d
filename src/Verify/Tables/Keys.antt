-- ===== src/Verify/Tables/Keys.antt =====
-- What the checks of the CSV tables accept.
use rs_runvault.Base.{
  true, false, List, [], ◌∷◌, some, Text, codes, nat_eq, list_eq, contains, map, arith, ◌≡◌, ◌≢◌,
  ◌↔◌, refl, All,
}
use rs_runvault.Error.{ok}
use rs_runvault.Meta.{Target}
use rs_runvault.Verify.Tables.{
  CsvTable, column, check_uid_rows, check_uid_column, check_unique_loop, check_unique, keys_of,
  reference_key, check_targets, check_reference,
}

-- No key stands twice.
abbrev pub NoRepeat : List (List Text) → Type 0
NoRepeat [] = Unit
NoRepeat (k ∷ ks) = All (λ x. k ≢ x) ks × NoRepeat ks

abbrev Fresh : List (List Text) → List (List Text) → Type 0
Fresh seen ks = All (λ k. contains seen k ≡ false) ks

Fresh-nil : (ks : List (List Text)) → Fresh [] ks
Fresh-nil [] = tt
Fresh-nil (k ∷ ks) = (refl, Fresh-nil ks)

Fresh-cons :
    (seen : List (List Text)) (k : List Text) (ks : List (List Text))
    → Fresh (k ∷ seen) ks ↔ (All (λ x. k ≢ x) ks × Fresh seen ks)
Fresh-cons seen k [] = (λ h. (tt, tt), λ h. tt)
Fresh-cons seen k (x ∷ ks) =
    let (to, from) = Fresh-cons seen k ks in
    (
      λ (h, hs). (((λ e. ground arith), (to hs).0), (ground arith, (to hs).1)),
      λ ((n, ns), (h, hs)). (ground arith, from (ns, hs)),
    )

unique_sound :
    (seen ks : List (List Text)) → check_unique_loop seen ks ≡ ok tt → Fresh seen ks × NoRepeat ks
unfolding check_unique_loop
unique_sound seen [] h = (tt, tt)
unique_sound seen (k ∷ ks) h =
    let (fresh, rest) = unique_sound (k ∷ seen) ks (ground arith) in
    let (apart, others) = (Fresh-cons seen k ks).0 fresh in ((ground arith, others), (apart, rest))

unique_complete :
    (seen ks : List (List Text)) → Fresh seen ks → NoRepeat ks → check_unique_loop seen ks ≡ ok tt
unfolding check_unique_loop
unique_complete seen [] f n = refl
unique_complete seen (k ∷ ks) (f, fs) (n, ns) =
    let rest = unique_complete (k ∷ seen) ks ((Fresh-cons seen k ks).1 (n, fs)) ns in
    ground (arith, rest)

-- Every row belongs to the run.
abbrev pub OfRun : Text → CsvTable → Type 0
OfRun uid t = All (λ row. column t.header row (codes "run_uid") ≡ uid) t.rows

uid_rows_iff :
    (header : List Text) (rows : List (List Text)) (uid : Text)
    → (check_uid_rows header rows uid ≡ ok tt)
      ↔ All (λ row. column header row (codes "run_uid") ≡ uid) rows
unfolding check_uid_rows
uid_rows_iff header [] uid = (λ h. tt, λ h. refl)
uid_rows_iff header (row ∷ rows) uid =
    let (to, from) = uid_rows_iff header rows uid in
    (λ h. (ground arith, to (ground arith)), λ (h, hs). ground (arith, from hs))

targets_iff :
    (known header : List Text) (rows : List (List Text))
    → (check_targets known header rows ≡ ok tt)
      ↔ All (λ row. contains known (column header row (codes "target_id")) ≡ true) rows
unfolding check_targets
targets_iff known header [] = (λ h. tt, λ h. refl)
targets_iff known header (row ∷ rows) =
    let (to, from) = targets_iff known header rows in
    (λ h. (ground arith, to (ground arith)), λ (h, hs). ground (arith, from hs))

-- A reference table of a run: its rows belong to the run, no primary key stands twice, and every
-- row names a target of the run.
pub record IsReference (uid : Text) (targets : List Target) (t : CsvTable) : Type 0 where
  pub of_run : OfRun uid t
  pub unique : NoRepeat (keys_of reference_key t)
  pub known :
      All
        (λ row.
          contains
            (map (λ (x : Target). x.target_id) targets)
            (column t.header row (codes "target_id"))
          ≡ true)
        t.rows

-- `check_reference` accepts exactly the reference tables of the run.
pub check_reference_iff :
    (t : CsvTable) (uid : Text) (targets : List Target)
    → (check_reference (ok (some t)) uid targets ≡ ok tt) ↔ IsReference uid targets t
unfolding check_reference check_uid_column check_unique
check_reference_iff t uid targets = (
  λ h. record {
    of_run = (uid_rows_iff t.header t.rows uid).0 (ground arith);
    unique = (unique_sound [] (keys_of reference_key t) (ground arith)).1;
    known = (targets_iff _ t.header t.rows).0 (ground arith);
  },
  λ h. ground (
    arith,
    (uid_rows_iff t.header t.rows uid).1 h.of_run,
    unique_complete [] (keys_of reference_key t) (Fresh-nil _) h.unique,
    (targets_iff (map (λ (x : Target). x.target_id) targets) t.header t.rows).1 h.known,
  ),
)
