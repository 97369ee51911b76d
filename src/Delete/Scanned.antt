-- ===== src/Delete/Scanned.antt =====
-- The records that the scans find have been checked, and stand under their own identifier.
use rs_runvault.Base.{
  not, ◌||◌, List, [], ◌∷◌, Option, none, some, Text, codes, All, ◌≡◌, refl, subst, arith,
  Bool-cases, Option-cases, inl, inr, ◌==◌, nat_eq, list_eq,
}
use rs_runvault.Error.{Result, ok, err, spec, wrong_repo, refuse_if, >>=-eq-ok}
use rs_runvault.Ids.{is_run_uid}
use rs_runvault.Canonical.{Library}
use rs_runvault.Meta.Run.{RunMeta}
use rs_runvault.Status.{RunStatus}
use rs_runvault.Verify.Walk.{get}
use rs_runvault.Delete.{
  Selection, selected, validate_meta_path_fields, Found, merge_meta, merge_status,
}
use rs_runvault.Delete.Tombstones.{is_some}
use rs_runvault.Delete.Scan.{
  SourceRun, VaultRun, update, entry, scan_source, scan_sources, scan_vault_run, scan_vault,
  transpose, take_source, take_vault,
}

update-All {ℓ κ} :
    {A : Type ℓ} (P : Text → A → Type κ) (key : Text) (a : A) (xs : List (Text × A))
    → P key a
    → All (λ x. P x.0 x.1) xs
    → All (λ x. P x.0 x.1) (update key a xs)
unfolding update
update-All P key a [] p h = (p, tt)
update-All P key a ((k, b) ∷ xs) p (q, h) = elim (Bool-cases (k == key)) [
  | inl e ↦ rw e (subst (λ k. P k a) (ground arith) p, h)
  | inr e ↦ rw e (q, update-All P key a xs p h)
]

pub get-All {ℓ κ} :
    {A : Type ℓ} (P : Text → A → Type κ) (key : Text) (xs : List (Text × A)) {a : A}
    → All (λ x. P x.0 x.1) xs
    → get key xs ≡ some a
    → P key a
unfolding get
get-All P key [] h e = cc
get-All P key ((k, b) ∷ xs) {a} (q, h) e = elim (Bool-cases (k == key)) [
  | inl f ↦ subst (λ k. P k a) (ground arith) (subst (P k) (ground arith) q)
  | inr f ↦ get-All P key xs h (ground arith)
]

module _ (lib : Library) where
  -- The record that is found under an identifier carries it, and has been checked.
  abbrev pub Sound : Text → Found lib → Type 0
  Sound uid f =
      (m : RunMeta lib)
      → f.found_meta ≡ some m
      → (m.run_uid ≡ uid) × (validate_meta_path_fields lib m ≡ ok tt)

  pub entry-Sound :
      (uid : Text) (found : List (Text × Found lib))
      → All (λ x. Sound x.0 x.1) found
      → Sound uid (entry lib uid found)
  unfolding entry
  entry-Sound uid found h = elim (Option-cases (get uid found)) [
    | inl e ↦ rw (e, entry) (λ m k. cc)
    | inr (f, e) ↦ rw (e, entry) (get-All Sound uid found h e)
  ]

  merged-meta :
      (f : Found lib) (m : RunMeta lib) (s : Option (RunStatus lib.Float)) {g h : Found lib}
      → merge_meta lib f m ≡ ok g
      → merge_status lib g s ≡ ok h
      → h.found_meta ≡ some m
  unfolding merge_meta merge_status
  merged-meta f m none e k = ground arith
  merged-meta f m (some s) e k = ground arith

  recorded-Sound :
      (uid : Text) (found : List (Text × Found lib)) (m : RunMeta lib)
      (s : Option (RunStatus lib.Float)) (merged f g : Found lib)
      → All (λ x. Sound x.0 x.1) found
      → m.run_uid ≡ uid
      → validate_meta_path_fields lib m ≡ ok tt
      → merge_meta lib (entry lib uid found) m ≡ ok merged
      → merge_status lib merged s ≡ ok f
      → g.found_meta ≡ f.found_meta
      → All (λ x. Sound x.0 x.1) (update uid g found)
  recorded-Sound uid found m s merged f g h u v a b c =
      update-All Sound uid g found
        (λ n k.
          let same : m ≡ n = ground (arith, c, k, merged-meta (entry lib uid found) m s a b) in
          (
            subst (λ x. x.run_uid ≡ uid) same u,
            subst (λ x. validate_meta_path_fields lib x ≡ ok tt) same v,
          ))
        h

  take_source-Sound :
      (repo_id : Text) (run : SourceRun lib) (m : RunMeta lib) (found : List (Text × Found lib))
      {next : List (Text × Found lib)}
      → All (λ x. Sound x.0 x.1) found
      → take_source lib repo_id run m found ≡ ok next
      → All (λ x. Sound x.0 x.1) next
  unfolding take_source
  take_source-Sound repo_id run m found h e =
      let (_, _, e1) = >>=-eq-ok (refuse_if (not (m.repo_id == repo_id)) (spec wrong_repo)) _ e in
      let (_, v, e2) = >>=-eq-ok (validate_meta_path_fields lib m) _ e1 in
      let (status, _, e3) = >>=-eq-ok (transpose run.status_json) _ e2 in
      let (merged, a, e4) = >>=-eq-ok (merge_meta lib (entry lib m.run_uid found) m) _ e3 in
      let (f, b, e5) = >>=-eq-ok (merge_status lib merged status) _ e4 in
      subst (All (λ x. Sound x.0 x.1)) (ground (arith, e5)) (
        recorded-Sound m.run_uid found m status merged f
          (record f { source = some run.dir; source_unfinished = not (is_some run.status_json) }) h
          refl v a b refl)

  take_vault-Sound :
      (repo_id : Text) (run : VaultRun lib) (m : RunMeta lib) (found : List (Text × Found lib))
      {next : List (Text × Found lib)}
      → All (λ x. Sound x.0 x.1) found
      → take_vault lib repo_id run m found ≡ ok next
      → All (λ x. Sound x.0 x.1) next
  unfolding take_vault
  take_vault-Sound repo_id run m found h e =
      let (_, n, e1) =
        >>=-eq-ok
          (refuse_if (not (m.repo_id == repo_id) || not (m.run_uid == run.name)) (spec wrong_repo))
          _ e in
      let (_, v, e2) = >>=-eq-ok (validate_meta_path_fields lib m) _ e1 in
      let (status, _, e3) = >>=-eq-ok run.status_json _ e2 in
      let (merged, a, e4) = >>=-eq-ok (merge_meta lib (entry lib run.name found) m) _ e3 in
      let (f, b, e5) = >>=-eq-ok (merge_status lib merged status) _ e4 in
      subst (All (λ x. Sound x.0 x.1)) (ground (arith, e5)) (
        recorded-Sound run.name found m status merged f (record f { vault = some run.dir }) h
          (ground (arith, n)) v a b refl)

  scan_source-Sound :
      (repo_id : Text) (selection : Selection) (run : SourceRun lib)
      (r : Option (Result (RunMeta lib))) (found : List (Text × Found lib))
      {next : List (Text × Found lib)}
      → All (λ x. Sound x.0 x.1) found
      → scan_source lib repo_id selection run r found ≡ ok next
      → All (λ x. Sound x.0 x.1) next
  unfolding scan_source
  scan_source-Sound repo_id selection run none found h e =
      subst (All (λ x. Sound x.0 x.1)) (ground arith) h
  scan_source-Sound repo_id selection run (some (err _)) found h e = cc
  scan_source-Sound repo_id selection run (some (ok m)) found h e =
      elim (Bool-cases (selected selection m.run_uid m.experiment)) [
        | inl f ↦ take_source-Sound repo_id run m found h (ground arith)
        | inr f ↦ subst (All (λ x. Sound x.0 x.1)) (ground arith) h
      ]

  scan_vault_run-Sound :
      (repo_id : Text) (selection : Selection) (run : VaultRun lib)
      (found : List (Text × Found lib)) {next : List (Text × Found lib)}
      → All (λ x. Sound x.0 x.1) found
      → scan_vault_run lib repo_id selection run found ≡ ok next
      → All (λ x. Sound x.0 x.1) next
  unfolding scan_vault_run
  scan_vault_run-Sound repo_id selection run found h e =
      elim (Bool-cases (
        run.name == codes "by-slug"
        || not (selected selection run.name run.experiment)
        || not (is_run_uid run.name))) [
          | inl f ↦ subst (All (λ x. Sound x.0 x.1)) (ground arith) h
          | inr f ↦
              let (m, _, g) =
                >>=-eq-ok run.run_json (λ m. take_vault lib repo_id run m found) (ground arith) in
              take_vault-Sound repo_id run m found h g
        ]

  pub scan_sources-Sound :
      (repo_id : Text) (selection : Selection) (runs : List (SourceRun lib))
      (found : List (Text × Found lib)) {next : List (Text × Found lib)}
      → All (λ x. Sound x.0 x.1) found
      → scan_sources lib repo_id selection runs found ≡ ok next
      → All (λ x. Sound x.0 x.1) next
  unfolding scan_sources
  scan_sources-Sound repo_id selection [] found h e = subst (All (λ x. Sound x.0 x.1)) (cc) h
  scan_sources-Sound repo_id selection (run ∷ runs) found h e =
      let (later, f, g) =
        >>=-eq-ok (scan_source lib repo_id selection run run.run_json found) _ e in
      scan_sources-Sound repo_id selection runs later
        (scan_source-Sound repo_id selection run run.run_json found h f) g

  pub scan_vault-Sound :
      (repo_id : Text) (selection : Selection) (runs : List (VaultRun lib))
      (found : List (Text × Found lib)) {next : List (Text × Found lib)}
      → All (λ x. Sound x.0 x.1) found
      → scan_vault lib repo_id selection runs found ≡ ok next
      → All (λ x. Sound x.0 x.1) next
  unfolding scan_vault
  scan_vault-Sound repo_id selection [] found h e = subst (All (λ x. Sound x.0 x.1)) (cc) h
  scan_vault-Sound repo_id selection (run ∷ runs) found h e =
      let (later, f, g) = >>=-eq-ok (scan_vault_run lib repo_id selection run found) _ e in
      scan_vault-Sound repo_id selection runs later
        (scan_vault_run-Sound repo_id selection run found h f) g
