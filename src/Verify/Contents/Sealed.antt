-- ===== src/Verify/Contents/Sealed.antt =====
-- Which run directories `check_manifest_contents` accepts.
use rs_runvault.Base.{
  true, List, [], ◌∷◌, Option, none, some, Text, codes, length, contains, nat_eq, list_eq, ◌≡◌, ◌↔◌,
  refl, All, arith, Option-cases, inl, inr,
}
use rs_runvault.Base.Decimal.{decimal}
use rs_runvault.Error.{Result, ok, err, >>=-eq-ok}
use rs_runvault.Meta.{Algorithm}
use rs_runvault.Status.{State, finished, failed}
use rs_runvault.Verify.Tables.{CsvTable, column}
use rs_runvault.Verify.Contents.{
  RunFiles, parse_algorithm, inside_run, compare_file, check_row, check_rows, recorded_paths,
  recorded_as_failed, check_recorded, check_walks, check_manifest_contents,
}

-- The row names a file inside the run, and has the length and the digest of its bytes.
pub record IsRecorded (digest_as : Algorithm → Text → Text) (files : RunFiles)
    (header row : List Text) : Type 0 where
  pub inside : inside_run (column header row (codes "path")) ≡ ok tt
  pub bytes : Text
  pub found : files.content (column header row (codes "path")) ≡ some bytes
  pub algorithm : Algorithm
  pub named : parse_algorithm (column header row (codes "algorithm")) ≡ some algorithm
  pub size : column header row (codes "bytes") ≡ decimal (length bytes)
  pub digest : column header row (codes "digest") ≡ digest_as algorithm bytes

-- Every file that is listed is in the list.
abbrev pub Covers : List Text → List Text → Type 0
Covers recorded rels = All (λ rel. contains recorded rel ≡ true) rels

-- Both walks succeed, and every file that they list is recorded.
pub record Covered (files : RunFiles) (recorded : List Text) : Type 0 where
  pub artifacts : List Text
  pub listed_artifacts : files.artifacts ≡ ok artifacts
  pub covers_artifacts : Covers recorded artifacts
  pub logs : List Text
  pub listed_logs : files.logs ≡ ok logs
  pub covers_logs : Covers recorded logs

check_recorded_iff :
    (recorded rels : List Text) → (check_recorded recorded rels ≡ ok tt) ↔ Covers recorded rels
unfolding check_recorded
check_recorded_iff recorded [] = (λ h. tt, λ h. refl)
check_recorded_iff recorded (rel ∷ rels) =
    let (to, from) = check_recorded_iff recorded rels in
    (λ h. (ground arith, to (ground arith)), λ (h, hs). ground (arith, from hs))

check_walks_iff :
    (files : RunFiles) (recorded : List Text)
    → (check_walks files recorded ≡ ok tt) ↔ Covered files recorded
unfolding check_walks
check_walks_iff files recorded = (
  λ h.
      let (artifacts, a, h1) = >>=-eq-ok files.artifacts _ h in
      let (_, b, h2) = >>=-eq-ok (check_recorded recorded artifacts) _ h1 in
      let (logs, c, h3) = >>=-eq-ok files.logs _ h2 in
      record {
        artifacts = artifacts;
        listed_artifacts = a;
        covers_artifacts = (check_recorded_iff recorded artifacts).0 b;
        logs = logs;
        listed_logs = c;
        covers_logs = (check_recorded_iff recorded logs).0 h3;
      },
  λ h. ground (
    arith,
    h.listed_artifacts,
    h.listed_logs,
    (check_recorded_iff recorded h.artifacts).1 h.covers_artifacts,
    (check_recorded_iff recorded h.logs).1 h.covers_logs,
  ),
)

module _ (digest_as : Algorithm → Text → Text) (files : RunFiles) where
  check_row_sound :
      (header row : List Text)
      → check_row digest_as files.content header row ≡ ok tt
      → IsRecorded digest_as files header row
  unfolding check_row compare_file
  check_row_sound header row h =
      let (_, a, h1) = >>=-eq-ok (inside_run (column header row (codes "path"))) _ h in
      elim (Option-cases (files.content (column header row (codes "path")))) [
        | inl e ↦ absurd (ground (arith, h1, e))
        | inr (bytes, e) ↦
            elim (Option-cases (parse_algorithm (column header row (codes "algorithm")))) [
              | inl f ↦ absurd (ground (arith, h1, e, f))
              | inr (algorithm, f) ↦ record {
                inside = a;
                bytes = bytes;
                found = e;
                algorithm = algorithm;
                named = f;
                size = ground (arith, h1, e, f);
                digest = ground (arith, h1, e, f);
              }
            ]
      ]

  check_row_complete :
      (header row : List Text)
      → IsRecorded digest_as files header row
      → check_row digest_as files.content header row ≡ ok tt
  unfolding check_row compare_file
  check_row_complete header row h = ground (arith, h.inside, h.found, h.named, h.size, h.digest)

  pub check_rows_iff :
      (header : List Text) (rows : List (List Text))
      → (check_rows digest_as files.content header rows ≡ ok tt)
        ↔ All (λ row. IsRecorded digest_as files header row) rows
  unfolding check_rows
  check_rows_iff header [] = (λ h. tt, λ h. refl)
  check_rows_iff header (row ∷ rows) =
      let (to, from) = check_rows_iff header rows in
      (
        λ h.
            let (_, a, b) = >>=-eq-ok (check_row digest_as files.content header row) _ h in
            (check_row_sound header row a, to b),
        λ (h, hs). ground (arith, check_row_complete header row h, from hs),
      )

  -- What the manifest says agrees with the files, both ways. Without a manifest nothing is asked of
  -- a run that is recorded as failed, and of any other that there is no file to record.
  abbrev pub IsSealed : Option CsvTable → Option (Result State) → Type 0
  IsSealed (some t) status =
      All (λ row. IsRecorded digest_as files t.header row) t.rows × Covered files (recorded_paths t)
  IsSealed none (some (ok failed)) = Unit
  IsSealed none (some (err e)) = ⊥
  IsSealed none (some (ok finished)) = Covered files []
  IsSealed none none = Covered files []

-- `check_manifest_contents` accepts exactly a manifest whose rows have the length and the digest of
-- files inside the run, and name every file below artifacts/ and logs/; and, where there is no
-- manifest, a run that is recorded as failed, or has no such files and a status that can be read or
-- none.
pub check_manifest_contents_iff :
    (digest_as : Algorithm → Text → Text) (files : RunFiles) (manifest : Option CsvTable)
    (status : Option (Result State))
    → (check_manifest_contents digest_as files (ok manifest) status ≡ ok tt)
      ↔ IsSealed digest_as files manifest status
unfolding check_manifest_contents recorded_as_failed
check_manifest_contents_iff digest_as files (some t) status = (
  λ h.
      let (_, a, b) = >>=-eq-ok (check_rows digest_as files.content t.header t.rows) _ h in
      (
        (check_rows_iff digest_as files t.header t.rows).0 a,
        (check_walks_iff files (recorded_paths t)).0 b,
      ),
  λ (h, k). ground (
    arith,
    (check_rows_iff digest_as files t.header t.rows).1 h,
    (check_walks_iff files (recorded_paths t)).1 k,
  ),
)
check_manifest_contents_iff digest_as files none none = check_walks_iff files []
check_manifest_contents_iff digest_as files none (some (err e)) = (λ h. cc, λ h. absurd h)
check_manifest_contents_iff digest_as files none (some (ok finished)) = check_walks_iff files []
check_manifest_contents_iff digest_as files none (some (ok failed)) = (λ h. tt, λ h. refl)
