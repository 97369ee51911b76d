-- ===== src/Sync/Declared/Tests.antt =====
-- A destination below a directory that declares itself private, beside one that a link would open.
use rs_runvault.Base.{
  Bool, true, false, List, [], ◌∷◌, none, Text, codes, list_eq, ℕ_discrete, ◌≡◌, ◌↔◌, refl,
}
use rs_runvault.Error.{ok, err, spec, linked_declaration}
use rs_runvault.Sync.Vault.{
  VaultConfig, Toml, Candidate, absent, symlink, other, file, validate, read_config,
  load_vault_config,
}
use rs_runvault.Sync.Declared.{Declared, load_vault_config_iff}

abbrev config : VaultConfig Bool
config = record {
  schema_version = codes "1.0";
  visibility = codes "private";
  compress_over_mib = true;
  allow_internal = false;
  note = none;
}

-- A threshold is told by whether it is positive, and every text declares the same.
abbrev reader : Toml Bool
reader = record {
  is_finite = λ f. true;
  at_most_zero = λ f. elim f [ true ↦ false | false ↦ true ];
  from_str = λ text. ok config;
}

abbrev directories : List (Text × Candidate)
directories =
    (codes "/vault/runs/x", absent)
    ∷ (codes "/vault/runs", other)
    ∷ (codes "/vault", file (ok (codes "visibility = \"private\"")))
    ∷ (codes "/", symlink)
    ∷ []

found : load_vault_config reader directories ≡ ok (codes "/vault", config)
unfolding load_vault_config read_config validate list_eq ℕ_discrete
found = refl

link_stops :
    load_vault_config reader ((codes "/vault/link", symlink) ∷ directories)
    ≡ err (spec linked_declaration)
unfolding load_vault_config
link_stops = refl

load_vault_config_iff_example :
    (load_vault_config reader directories ≡ ok (codes "/vault", config))
    ↔ Declared reader directories (codes "/vault") config
load_vault_config_iff_example = load_vault_config_iff reader directories (codes "/vault") config
