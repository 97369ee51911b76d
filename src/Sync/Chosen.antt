-- ===== src/Sync/Chosen.antt =====
-- What is chosen of a run has the names and the places that the copying asks for.
use mathlib.Core.List.Permᴰ as PermD
use rs_runvault.Base.{
  ℕ, Bool, false, not, List, [], ◌∷◌, ◌++◌, some, Text, codes, contains, All, get_elem?, length,
  length-append, append_cancel, ◌≡◌, ◌≢◌, inl, inr, refl, sym, subst, ap, ◌∙◌, arith, Bool-cases,
  Option-cases, ◌==◌, nat_eq, list_eq, filter,
}
use rs_runvault.Base.Order.{text_ord}
use rs_runvault.Base.Sort.{Distinct, Distinct-perm, sort_on-Perm}
use rs_runvault.Error.{ok, err, spec, required_excluded, wrong_repo, refuse_if, Result, >>=-eq-ok}
use rs_runvault.Verify.Walk.{get}
use rs_runvault.Delete.Plan.{without_repeats, to_set}
use rs_runvault.Sync.{
  PlannedFile, SyncPlan, Outside, Dest, execute, read_synced_optional, compressed_name,
  planned_file,
}
use rs_runvault.Sync.Kept.{Lossless, execute_refines}
use rs_runvault.Sync.Apart.{Apart, Pairwise, WellNamed}
use rs_runvault.Canonical.{Library}
use rs_runvault.Meta.Run.{RunMeta}
use rs_runvault.Sync.Plan.{
  Globs, included, without_excluded, default_files, missing, plan_each, canonical_files, Planned,
  send, send_run, held_back, plan_canonical,
}

compressed_name-injective : (p q : Text) → compressed_name p ≡ compressed_name q → p ≡ q
unfolding compressed_name
compressed_name-injective p q e =
    (append_cancel p q (codes ".zst") (codes ".zst")
      (omega (arith, ap length e, length-append p (codes ".zst"), length-append q (codes ".zst")))
      e).0

-- Two files are apart if their paths differ and neither is the compressed name of the other.
Apart-paths :
    (f g : PlannedFile)
    → f.path ≢ g.path
    → g.path ≢ compressed_name f.path
    → f.path ≢ compressed_name g.path
    → Apart f g
Apart-paths f g a b c p (inl x) (inl y) = a (sym x ∙ y)
Apart-paths f g a b c p (inl x) (inr y) = c (sym x ∙ y)
Apart-paths f g a b c p (inr x) (inl y) = b (sym y ∙ x)
Apart-paths f g a b c p (inr x) (inr y) = a (compressed_name-injective f.path g.path (sym x ∙ y))

-- No file is planned under the compressed name of another.
abbrev pub NoneCompressed : List PlannedFile → Type 0
NoneCompressed [] = Unit
NoneCompressed (f ∷ fs) =
    All (λ g. (g.path ≢ compressed_name f.path) × (f.path ≢ compressed_name g.path)) fs
    × NoneCompressed fs

All-Apart :
    (f : PlannedFile) (fs : List PlannedFile)
    → All (λ g. f.path ≢ g.path) fs
    → All (λ g. (g.path ≢ compressed_name f.path) × (f.path ≢ compressed_name g.path)) fs
    → All (λ g. Apart f g) fs
All-Apart f [] d n = tt
All-Apart f (g ∷ fs) (a, d) ((b, c), n) = (Apart-paths f g a b c, All-Apart f fs d n)

pub Distinct-Pairwise :
    (fs : List PlannedFile) → Distinct (λ f. f.path) fs → NoneCompressed fs → Pairwise fs
Distinct-Pairwise [] d n = tt
Distinct-Pairwise (f ∷ fs) (d, ds) (n, ns) = (All-Apart f fs d n, Distinct-Pairwise fs ds ns)

contains-apart : (x : Text) (xs : List Text) → contains xs x ≡ false → All (λ y. x ≢ y) xs
contains-apart x [] h = tt
contains-apart x (y ∷ xs) h = (ground arith, contains-apart x xs (ground arith))

All-without_repeats {κ} :
    (P : Text → Type κ) (xs : List Text) → All P xs → All P (without_repeats xs)
unfolding without_repeats
All-without_repeats P [] h = tt
All-without_repeats P (x ∷ xs) (p, h) = elim (Bool-cases (contains xs x)) [
  | inl e ↦ rw e (All-without_repeats P xs h)
  | inr e ↦ rw e (p, All-without_repeats P xs h)
]

without_repeats-Distinct : (xs : List Text) → Distinct (λ t. t) (without_repeats xs)
unfolding without_repeats
without_repeats-Distinct [] = tt
without_repeats-Distinct (x ∷ xs) = elim (Bool-cases (contains xs x)) [
  | inl e ↦ rw e (without_repeats-Distinct xs)
  | inr e ↦
      rw e
        (All-without_repeats (λ y. x ≢ y) xs (contains-apart x xs e), without_repeats-Distinct xs)
]

All-filter {κ} :
    (P : Text → Type κ) (p : Text → Bool) (xs : List Text) → All P xs → All P (filter p xs)
All-filter P p [] h = tt
All-filter P p (x ∷ xs) (a, h) = elim (Bool-cases (p x)) [
  | inl e ↦ rw e (a, All-filter P p xs h)
  | inr e ↦ rw e (All-filter P p xs h)
]

filter-Distinct :
    (p : Text → Bool) (xs : List Text) → Distinct (λ t. t) xs → Distinct (λ t. t) (filter p xs)
filter-Distinct p [] h = tt
filter-Distinct p (x ∷ xs) (a, h) = elim (Bool-cases (p x)) [
  | inl e ↦ rw e (All-filter (λ y. x ≢ y) p xs a, filter-Distinct p xs h)
  | inr e ↦ rw e (filter-Distinct p xs h)
]

to_set-Distinct : (xs : List Text) → Distinct (λ t. t) (to_set xs)
unfolding to_set
to_set-Distinct xs =
    Distinct-perm (λ t. t) (PermD.symm (sort_on-Perm (λ t. t) (without_repeats xs)))
      (without_repeats-Distinct xs)

module _ (globs : Globs) (source : List (Text × Text)) (limit : ℕ) where
  plan_each-All {κ} :
      (P : Text → Type κ) (rels : List Text) {fs : List PlannedFile}
      → All P rels
      → plan_each globs source limit rels ≡ ok fs
      → All (λ f. P f.path) fs
  unfolding plan_each planned_file
  plan_each-All P [] {fs} h e = subst (All (λ f. P f.path)) {x = []} {y = fs} (ground arith) tt
  plan_each-All P (rel ∷ rels) {fs} (p, h) e = elim (Option-cases (get rel source)) [
    | inl a ↦ absurd (ground arith)
    | inr (content, a) ↦
        let (rest, b, c) =
          >>=-eq-ok (plan_each globs source limit rels)
            (λ rest. ok (planned_file limit rel content ∷ rest)) {b = fs} (ground arith) in
        subst (All (λ f. P f.path)) {x = planned_file limit rel content ∷ rest} {y = fs}
          (ground (arith, c)) (p, plan_each-All P rels h b)
  ]

  plan_each-Distinct :
      (rels : List Text) {fs : List PlannedFile}
      → Distinct (λ t. t) rels
      → plan_each globs source limit rels ≡ ok fs
      → All WellNamed fs × Distinct (λ f. f.path) fs
  unfolding plan_each planned_file
  plan_each-Distinct [] {fs} h e =
      subst (λ x. All WellNamed x × Distinct (λ f. f.path) x) {x = []} {y = fs} (ground arith)
        (tt, tt)
  plan_each-Distinct (rel ∷ rels) {fs} (p, h) e = elim (Option-cases (get rel source)) [
    | inl a ↦ absurd (ground arith)
    | inr (content, a) ↦
        let (rest, b, c) =
          >>=-eq-ok (plan_each globs source limit rels)
            (λ rest. ok (planned_file limit rel content ∷ rest)) {b = fs} (ground arith) in
        let (w, d) = plan_each-Distinct rels h b in
        subst (λ x. All WellNamed x × Distinct (λ f. f.path) x)
          {x = planned_file limit rel content ∷ rest} {y = fs} (ground (arith, c))
          ((refl, w), (plan_each-All (λ y. rel ≢ y) rels p b, d))
  ]

  without_excluded-Distinct :
      (patterns chosen : List Text) {rels : List Text}
      → Distinct (λ t. t) chosen
      → without_excluded globs source patterns chosen ≡ ok rels
      → Distinct (λ t. t) rels
  unfolding without_excluded
  without_excluded-Distinct [] chosen {rels} d e =
      subst (Distinct (λ t. t)) {x = chosen} {y = rels} (ground arith) d
  without_excluded-Distinct (p ∷ patterns) chosen {rels} d e =
      let (matches, _, f) = >>=-eq-ok (globs (p ∷ patterns)) _ e in
      subst (Distinct (λ t. t)) {x = filter (λ rel. not (matches rel)) chosen} {y = rels}
        (ground (arith, f)) (filter-Distinct (λ rel. not (matches rel)) chosen d)

  canonical_files-Distinct :
      (sync_include sync_exclude : List Text) {fs : List PlannedFile}
      → canonical_files globs source sync_include sync_exclude limit ≡ ok fs
      → All WellNamed fs × Distinct (λ f. f.path) fs
  unfolding canonical_files
  canonical_files-Distinct sync_include sync_exclude e =
      let (more, _, e1) = >>=-eq-ok (included globs source sync_include) _ e in
      let (chosen, b, e2) =
        >>=-eq-ok
          (without_excluded globs source sync_exclude (to_set (default_files globs source ++ more)))
          _ e1 in
      let (_, _, e3) =
        >>=-eq-ok
          (refuse_if (missing globs source chosen (codes "run.json")) (spec required_excluded)) _
          e2 in
      let (_, _, e4) =
        >>=-eq-ok
          (refuse_if (missing globs source chosen (codes "config.json")) (spec required_excluded)) _
          e3 in
      plan_each-Distinct chosen
        (without_excluded-Distinct sync_exclude (to_set (default_files globs source ++ more))
          (to_set-Distinct (default_files globs source ++ more)) b)
        e4

abbrev files_of : Result Planned → List PlannedFile
files_of (ok (send p)) = p.files
files_of (ok _) = []
files_of (err _) = []

module _ (lib : Library) (globs : Globs) (source : List (Text × Text))
    (sync_include sync_exclude : List Text) (limit : ℕ) (plan : SyncPlan) where
  send_run-files :
      (m : RunMeta lib) (deep : Result (Unit {0}))
      → send_run lib globs source sync_include sync_exclude limit m deep ≡ ok (send plan)
      → canonical_files globs source sync_include sync_exclude limit ≡ ok plan.files
  unfolding send_run
  send_run-files m (err _) e = absurd (ground arith)
  send_run-files m (ok _) e =
      let (files, a, b) =
        >>=-eq-ok (canonical_files globs source sync_include sync_exclude limit) _ e in
      a ∙ ap ok (ap files_of b)

  plan_canonical-files :
      (run_json : Result (RunMeta lib)) (deep : Result (Unit {0})) (repo_id : Text)
      (allow_internal : Bool)
      → plan_canonical lib globs source sync_include sync_exclude limit run_json deep repo_id
          allow_internal
        ≡ ok (send plan)
      → canonical_files globs source sync_include sync_exclude limit ≡ ok plan.files
  unfolding plan_canonical
  plan_canonical-files run_json deep repo_id allow_internal e =
      let (m, _, e1) = >>=-eq-ok run_json _ e in
      let (_, _, e2) = >>=-eq-ok (refuse_if (not (m.repo_id == repo_id)) (spec wrong_repo)) _ e1 in
      elim (Bool-cases (held_back m.visibility allow_internal)) [
        | inl f ↦ absurd (ground (arith, e2))
        | inr f ↦ send_run-files m deep (ground (arith, e2))
      ]

pub planned_refines :
    (lib : Library) (globs : Globs) (source : List (Text × Text))
    (sync_include sync_exclude : List Text) (limit : ℕ) (plan : SyncPlan)
    (run_json : Result (RunMeta lib)) (deep : Result (Unit {0})) (repo_id : Text)
    (allow_internal : Bool) (outside : Outside) (dest sent : Dest) (i : ℕ) (f : PlannedFile)
    → plan_canonical lib globs source sync_include sync_exclude limit run_json deep repo_id
        allow_internal
      ≡ ok (send plan)
    → NoneCompressed plan.files
    → Lossless outside
    → get_elem? plan.files i ≡ some f
    → execute outside plan source dest ≡ (sent, ok tt)
    → (c : Text) × (get f.path source ≡ some c)
      × (read_synced_optional outside sent f.path ≡ ok (some c))
planned_refines lib globs source sync_include sync_exclude limit plan run_json deep repo_id
      allow_internal outside dest sent i f e n lossless m h =
    let (w, d) = canonical_files-Distinct globs source limit sync_include sync_exclude (
      plan_canonical-files lib globs source sync_include sync_exclude limit plan run_json deep
        repo_id allow_internal e) in
    execute_refines outside lossless plan source dest sent i f w (Distinct-Pairwise plan.files d n)
      m h
