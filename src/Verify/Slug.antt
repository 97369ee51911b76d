-- ===== src/Verify/Slug.antt =====
-- `check_slug_matches_hashes` accepts what `run_slug` builds.
use rs_runvault.Base.{
  ℕ, zero, suc, ◌≤◌, true, [], ◌∷◌, Option, some, Text, nat_eq, list_eq, arith, ◌≡◌, refl, subst,
  take, All, length,
}
use rs_runvault.Error.{ok}
use rs_runvault.Canonical.{Library}
use rs_runvault.Meta.Run.{RunMeta}
use rs_runvault.Ids.{run_slug, slug_hash_prefixes}
use rs_runvault.Ids.Prefixes.{IsHexDigit, slug_hash_prefixes-run_slug}
use rs_runvault.Verify.{starts_with, check_slug_matches_hashes}

starts_with-take : (n : ℕ) (s : Text) → starts_with s (take n s) ≡ true
unfolding starts_with
starts_with-take zero [] = refl
starts_with-take zero (c ∷ s) = refl
starts_with-take (suc n) [] = refl
starts_with-take (suc n) (c ∷ s) = ground (arith, starts_with-take n s)

-- A directory that carries the name that `run_slug` builds of the recorded hashes, hexadecimal and of
-- at least eight and four digits, is accepted, whatever the subcommand, the time stamp and the
-- collision index.
pub check_slug-run_slug :
    (lib : Library) (m : RunMeta lib) (subcommand timestamp : Text) (collision : Option ℕ)
    → All IsHexDigit m.config_hash
    → All IsHexDigit m.execution_hash
    → 8 ≤ length m.config_hash
    → 4 ≤ length m.execution_hash
    → run_slug subcommand timestamp m.config_hash m.execution_hash collision ≡ some m.run_slug
    → check_slug_matches_hashes lib m.run_slug m ≡ ok tt
unfolding check_slug_matches_hashes
check_slug-run_slug lib m sub ts coll h k p q e =
    let (s, built, read) =
      slug_hash_prefixes-run_slug sub ts m.config_hash m.execution_hash coll h k p q in
    let prefixes : slug_hash_prefixes m.run_slug
        ≡ some (take 8 m.config_hash, take 4 m.execution_hash) =
      subst (λ u. slug_hash_prefixes u ≡ some (take 8 m.config_hash, take 4 m.execution_hash))
        (cc (built, e)) read in
    rw (prefixes, starts_with-take 8 m.config_hash, starts_with-take 4 m.execution_hash)
      (ground arith)
