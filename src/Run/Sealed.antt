-- ===== src/Run/Sealed.antt =====
-- The manifest that a run writes agrees with the files of its directory.
use mathlib.Core.List.Permᴰ as PermD
use rs_runvault.Base.{
  true, List, [], ◌∷◌, ◌++◌, Option, some, Text, contains, map, nat_eq, list_eq, ℕ_discrete, ◌≡◌,
  refl, subst, ap, All, All-map, arith, Option-cases, inl, inr,
}
use rs_runvault.Base.Order.{text_ord}
use rs_runvault.Base.Sort.{sort_on, sort_on-Perm, All-perm}
use rs_runvault.Error.{Result, ok, err, >>=-eq-ok}
use rs_runvault.Meta.{Algorithm, blake3}
use rs_runvault.Status.{State}
use rs_runvault.Verify.Tables.{column}
use rs_runvault.Verify.Contents.{
  RunFiles, parse_algorithm, inside_run, recorded_paths, check_manifest_contents,
}
use rs_runvault.Verify.Contents.Sealed.{IsRecorded, Covers, check_manifest_contents_iff}
use rs_runvault.Run.Finish.{manifest_header, manifest_row, read_each, manifest_rows}

-- What the walks list lies inside the run.
abbrev pub Within : Result (List Text) → Type 0
Within (ok rels) = All (λ rel. inside_run rel ≡ ok tt) rels
Within (err e) = Unit

contains-cons : (xs : List Text) (x y : Text) → contains xs y ≡ true → contains (x ∷ xs) y ≡ true
contains-cons xs x y h = ground (arith, h)

contains_self : (x : Text) (xs : List Text) → contains (x ∷ xs) x ≡ true
contains_self x xs = ground arith

-- Every pair is found by its first part.
paths_found :
    (l : List (Text × Text)) → All (λ x. contains (map (λ (y : Text × Text). y.0) l) x.0 ≡ true) l
paths_found [] = tt
paths_found (x ∷ l) = (
  contains_self x.0 (map (λ (y : Text × Text). y.0) l),
  All-map _ _ l (λ y. contains-cons (map (λ (z : Text × Text). z.0) l) x.0 y.0) (paths_found l),
)

All-append_left {ℓ κ} :
    {A : Type ℓ} (P : A → Type κ) (xs ys : List A) → All P (xs ++ ys) → All P xs × All P ys
All-append_left P [] ys h = (tt, h)
All-append_left P (x ∷ xs) ys (p, h) = let (a, b) = All-append_left P xs ys h in ((p, a), b)

All-append_right {ℓ κ} :
    {A : Type ℓ} (P : A → Type κ) (xs ys : List A) → All P xs → All P ys → All P (xs ++ ys)
All-append_right P [] ys a b = b
All-append_right P (x ∷ xs) ys (p, a) b = (p, All-append_right P xs ys a b)

-- The list of the paths of the manifest has everything that the walks list.
covers :
    (recorded : List Text) (l : List (Text × Text)) (rels : List Text)
    → map (λ (x : Text × Text). x.0) l ≡ rels
    → All (λ x. contains recorded x.0 ≡ true) l
    → Covers recorded rels
covers recorded [] rels e h = subst (Covers recorded) e tt
covers recorded (x ∷ l) [] e h = cc
covers recorded (x ∷ l) (rel ∷ rels) e (p, h) =
    (ground (arith, p, e), covers recorded l rels (ground (arith, e)) h)

sorted : List (Text × Text) → List (Text × Text)
sorted l = sort_on (λ (x : Text × Text). x.0) l

sorted-found :
    (l : List (Text × Text))
    → All (λ x. contains (map (λ (y : Text × Text). y.0) (sorted l)) x.0 ≡ true) l
unfolding sorted
sorted-found l =
    All-perm (λ (x : Text × Text). x.0) _ (sort_on-Perm (λ (x : Text × Text). x.0) l)
      (paths_found (sorted l))

module _ (digest_as : Algorithm → Text → Text) (files : RunFiles) where
  -- The bytes are those of the file at the path, which lies inside the run.
  abbrev IsRead : Text × Text → Type 0
  IsRead x = (inside_run x.0 ≡ ok tt) × (files.content x.0 ≡ some x.1)

  read_each-All :
      (rels : List Text) {l : List (Text × Text)}
      → All (λ rel. inside_run rel ≡ ok tt) rels
      → read_each digest_as files rels ≡ ok l
      → All IsRead l × (map (λ (x : Text × Text). x.0) l ≡ rels)
  unfolding read_each
  read_each-All [] {l} h e =
      subst (λ l. All IsRead l × (map (λ (x : Text × Text). x.0) l ≡ [])) {x = []} {y = l}
        (ground arith) (tt, refl)
  read_each-All (rel ∷ rels) {l} (p, h) e = elim (Option-cases (files.content rel)) [
    | inl a ↦ absurd (ground (arith, a, e))
    | inr (bytes, a) ↦
        let (rest, b, c) =
          >>=-eq-ok (read_each digest_as files rels) (λ rest. ok ((rel, bytes) ∷ rest)) {b = l}
            (ground (arith, a, e)) in
        let (d, f) = read_each-All rels h b in
        subst (λ l. All IsRead l × (map (λ (x : Text × Text). x.0) l ≡ rel ∷ rels))
          {x = (rel, bytes) ∷ rest} {y = l} (ground (arith, c)) (((p, a), d), ap (λ t. rel ∷ t) f)
  ]

  manifest_row-IsRecorded :
      (uid : Text) (x : Text × Text)
      → IsRead x
      → IsRecorded digest_as files manifest_header (manifest_row digest_as files uid x)
  unfolding manifest_row column list_eq ℕ_discrete parse_algorithm
  manifest_row-IsRecorded uid (rel, bytes) (p, a) = record {
    inside = p;
    bytes = bytes;
    found = a;
    algorithm = blake3;
    named = refl;
    size = refl;
    digest = refl;
  }

  rows-IsRecorded :
      (uid : Text) (l : List (Text × Text))
      → All IsRead l
      → All
          (λ row. IsRecorded digest_as files manifest_header row)
          (map (manifest_row digest_as files uid) l)
  rows-IsRecorded uid [] h = tt
  rows-IsRecorded uid (x ∷ l) (p, h) = (manifest_row-IsRecorded uid x p, rows-IsRecorded uid l h)

  rows-paths :
      (uid : Text) (l : List (Text × Text))
      → recorded_paths
          (record { header = manifest_header; rows = map (manifest_row digest_as files uid) l })
        ≡ map (λ (x : Text × Text). x.0) l
  unfolding manifest_row column list_eq ℕ_discrete
  rows-paths uid [] = refl
  rows-paths uid ((rel, bytes) ∷ l) = ap (λ t. rel ∷ t) (rows-paths uid l)

-- `check_manifest_contents` accepts the manifest that `write_manifest` writes, while the files stay
-- what they were and what the walks list lies inside the run.
pub manifest_rows-sealed :
    (digest_as : Algorithm → Text → Text) (files : RunFiles) (uid : Text)
    (status : Option (Result State)) {rows : List (List Text)}
    → Within files.artifacts
    → Within files.logs
    → manifest_rows digest_as files uid ≡ ok rows
    → check_manifest_contents digest_as files
        (ok (some (record { header = manifest_header; rows = rows })))
        status
      ≡ ok tt
unfolding manifest_rows sorted
manifest_rows-sealed digest_as files uid status {rows} p q e =
    let (artifacts, a, e1) = >>=-eq-ok files.artifacts _ e in
    let (generated, b, e2) = >>=-eq-ok (read_each digest_as files artifacts) _ e1 in
    let (logs, c, e3) = >>=-eq-ok files.logs _ e2 in
    let (logged, d, e4) = >>=-eq-ok (read_each digest_as files logs) _ e3 in
    let l = sorted (generated ++ logged) in
    let (f, g) = read_each-All digest_as files artifacts (subst Within a p) b in
    let (h, k) = read_each-All digest_as files logs (subst Within c q) d in
    let found = sorted-found (generated ++ logged) in
    let (m, n) = All-append_left _ generated logged found in
    let path_list = rows-paths digest_as files uid l in
    subst
      (λ rows.
        check_manifest_contents digest_as files
          (ok (some (record { header = manifest_header; rows = rows }))) status
        ≡ ok tt)
      {x = map (manifest_row digest_as files uid) l} {y = rows} (ground (arith, e4))
      ((check_manifest_contents_iff digest_as files _ status).1 (
        rows-IsRecorded digest_as files uid l (
            All-perm (λ (x : Text × Text). x.0) _
              (PermD.symm (sort_on-Perm (λ (x : Text × Text). x.0) (generated ++ logged)))
              (All-append_right _ generated logged f h)),
        record {
          artifacts = artifacts;
          listed_artifacts = a;
          covers_artifacts = rw path_list (covers _ generated artifacts g m);
          logs = logs;
          listed_logs = c;
          covers_logs = rw path_list (covers _ logged logs k n);
        },
      ))
