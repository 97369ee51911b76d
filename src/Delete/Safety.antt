-- ===== src/Delete/Safety.antt =====
-- The names from which a deletion builds its paths, and what may be deleted.
use rs_runvault.Base.{
  Bool, true, false, [], ◌∷◌, Option, none, some, Text, codes, all, nat_eq, arith, ◌≡◌, ◌≢◌, ◌⊎◌,
  refl, Lacks, ℕ_discrete, list_eq,
}
use rs_runvault.Error.{ok, >>=-eq-ok}
use rs_runvault.Ids.{validate_slug, is_run_uid, slug_char, slug_hash_prefixes, is_lower, is_digit}
use rs_runvault.Ids.Grammar.{validate_slug_safe}
use rs_runvault.Canonical.{Library}
use rs_runvault.Meta.Run.{RunMeta}
use rs_runvault.Status.{State, failed, RunStatus}
use rs_runvault.Delete.{valid_run_slug, validate_meta_path_fields, eligible_status}

slug_chars-Lacks : (s : Text) → all slug_char s ≡ true → Lacks b'/' s
unfolding slug_char is_lower is_digit
slug_chars-Lacks [] h = tt
slug_chars-Lacks (c ∷ s) h = (ground arith, slug_chars-Lacks s (ground arith))

-- One plain element of a path: not empty, without a `/`, and neither `.` nor `..`.
abbrev pub IsElement : Text → Type 0
IsElement s = (s ≢ []) × Lacks b'/' s × (s ≢ codes ".") × (s ≢ codes "..")

pub valid_run_slug-IsElement : (s : Text) → valid_run_slug s ≡ true → IsElement s
unfolding valid_run_slug slug_hash_prefixes slug_char ℕ_discrete
valid_run_slug-IsElement s h = (
  apart [] refl,
  slug_chars-Lacks s (ground arith),
  apart (codes ".") refl,
  apart (codes "..") refl,
)
  where
    apart : (t : Text) → valid_run_slug t ≡ false → s ≢ t
    apart t k e = ground (arith, h, k, e)

-- The experiment and the slug of a record that `validate_meta_path_fields` accepts are plain
-- elements of a path, and its identifier is one of a run.
pub validate_meta_path_fields_safe :
    (lib : Library) (m : RunMeta lib)
    → validate_meta_path_fields lib m ≡ ok tt
    → IsElement m.experiment × IsElement m.run_slug × (is_run_uid m.run_uid ≡ true)
unfolding validate_meta_path_fields
validate_meta_path_fields_safe lib m h =
    let (_, slug, rest) = >>=-eq-ok (validate_slug (codes "experiment") m.experiment) _ h in
    let (filled, no_separator, _, no_dot, no_dots) =
      validate_slug_safe (codes "experiment") m.experiment slug in
    (
      (filled, no_separator, no_dot, no_dots),
      valid_run_slug-IsElement m.run_slug (ground (arith, rest)),
      ground (arith, rest),
    )

-- A run that did not fail is deleted only if the caller asked for it, or if its deletion had begun.
pub eligible_status_sound :
    (lib : Library) (s : Option (RunStatus lib.Float)) (include_succeeded tombstoned : Bool)
    {t : State}
    → eligible_status lib s include_succeeded tombstoned ≡ ok t
    → (t ≡ failed) ⊎ ((include_succeeded ≡ true) ⊎ (tombstoned ≡ true))
unfolding eligible_status
eligible_status_sound lib none i t h = cc
eligible_status_sound lib (some s) i t h = ground arith
