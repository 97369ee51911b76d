-- ===== src/Sync/Vault.antt =====
-- crates/runvault/src/sync.rs: `VaultConfig` and `load_vault_config`, the declaration that a
-- destination makes. `toml` is a parameter, and so are the two tests of an `f64`.
use rs_runvault.Base.{Bool, not, ◌||◌, List, [], ◌∷◌, Option, Text, codes, ◌==◌, nat_eq, list_eq}
use rs_runvault.Error.{
  Result, ok, err, spec, wrong_schema_version, not_private, threshold_not_positive, no_declaration,
  linked_declaration, refuse_if, ◌>>=◌, ◌>>◌,
}

pub record VaultConfig (Float : Type 0) : Type 0 where
  pub schema_version : Text
  pub visibility : Text
  pub compress_over_mib : Float
  pub allow_internal : Bool
  pub note : Option Text

-- What the program calls of `f64` and of `toml`.
pub record Toml (Float : Type 0) : Type 0 where
  pub is_finite : Float → Bool
  -- `f <= 0.0`
  pub at_most_zero : Float → Bool
  pub from_str : Text → Result (VaultConfig Float)

-- What `symlink_metadata` finds under the name of the declaration, and for a file what reading it
-- gives.
pub data Candidate : Type 0 where
  absent symlink other : Candidate
  file : Result Text → Candidate

module _ {Float : Type 0} (toml : Toml Float) where
  unfoldable pub validate : VaultConfig Float → Result (Unit {0})
  validate c =
      refuse_if (not (c.schema_version == codes "1.0")) (spec wrong_schema_version)
      >> (refuse_if (not (c.visibility == codes "private")) (spec not_private)
          >> refuse_if
              (not (toml.is_finite c.compress_over_mib) || toml.at_most_zero c.compress_over_mib)
              (spec threshold_not_positive))

  unfoldable pub read_config : Text → Result Text → Result (Text × VaultConfig Float)
  read_config dir content = do
    text ← content
    config ← toml.from_str text
    validate config
    ok (dir, config)

  -- The destination and its ancestors, each with what is under the name.
  unfoldable pub load_vault_config : List (Text × Candidate) → Result (Text × VaultConfig Float)
  load_vault_config [] = err (spec no_declaration)
  load_vault_config ((dir, absent) ∷ dirs) = load_vault_config dirs
  load_vault_config ((dir, symlink) ∷ dirs) = err (spec linked_declaration)
  load_vault_config ((dir, other) ∷ dirs) = load_vault_config dirs
  load_vault_config ((dir, file content) ∷ dirs) = read_config dir content
