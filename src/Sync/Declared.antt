-- ===== src/Sync/Declared.antt =====
-- Which destinations `load_vault_config` lets a sync write to.
mod Tests
use rs_runvault.Base.{
  Bool, true, false, not, ◌||◌, List, [], ◌∷◌, ◌++◌, Text, codes, All, ◌==◌, nat_eq, list_eq, ◌≡◌,
  ◌≢◌, ◌↔◌, ◌⊎◌, inl, inr, refl, sym, ap, ◌∙◌, subst, arith,
}
use rs_runvault.Error.{
  Result, ok, err, spec, wrong_schema_version, not_private, threshold_not_positive, refuse_if,
  ◌>>=◌, ◌>>◌, >>=-eq-ok,
}
use rs_runvault.Sync.Vault.{
  VaultConfig, Toml, Candidate, absent, symlink, other, file, validate, read_config,
  load_vault_config,
}

-- Nothing of the name, or something that is neither a link nor a file.
abbrev pub Passed : Text × Candidate → Type 0
Passed (dir, e) = (e ≡ absent) ⊎ (e ≡ other)

module _ {Float : Type 0} (toml : Toml Float) where
  pub record IsPrivate (c : VaultConfig Float) : Type 0 where
    pub version : c.schema_version ≡ codes "1.0"
    pub visibility : c.visibility ≡ codes "private"
    pub finite : toml.is_finite c.compress_over_mib ≡ true
    pub positive : toml.at_most_zero c.compress_over_mib ≡ false

  -- The nearest of the directories in which a link or a file has the name holds a file, which
  -- declares the destination private.
  pub record Declared (dirs : List (Text × Candidate)) (dir : Text) (c : VaultConfig Float)
      : Type 0 where
    pub nearer : List (Text × Candidate)
    pub farther : List (Text × Candidate)
    pub text : Text
    pub parts : dirs ≡ nearer ++ ((dir, file (ok text)) ∷ farther)
    pub passed : All Passed nearer
    pub parsed : toml.from_str text ≡ ok c
    pub is_private : IsPrivate c

  validate_iff : (c : VaultConfig Float) → (validate toml c ≡ ok tt) ↔ IsPrivate c
  unfolding validate
  validate_iff c = (
    λ h. record {
      version = ground arith;
      visibility = ground arith;
      finite = ground arith;
      positive = ground arith;
    },
    λ h. ground (arith, h.version, h.visibility, h.finite, h.positive),
  )

  read_config-Declared :
      (dir at : Text) (content : Result Text) (dirs : List (Text × Candidate))
      {c : VaultConfig Float}
      → read_config toml dir content ≡ ok (at, c)
      → Declared ((dir, file content) ∷ dirs) at c
  unfolding read_config
  read_config-Declared dir at content dirs {c} e =
      let (text, a, e1) = >>=-eq-ok content _ e in
      let (config, b, e2) = >>=-eq-ok (toml.from_str text) _ e1 in
      let (_, v, e3) = >>=-eq-ok (validate toml config) _ e2 in
      subst (λ (x : Text × VaultConfig Float). Declared ((dir, file content) ∷ dirs) x.0 x.1)
        {x = (dir, config)} {y = (at, c)} (ground (arith, e3))
        (record {
          nearer = [];
          farther = dirs;
          text = text;
          parts = ap (λ r. (dir, file r) ∷ dirs) a;
          passed = tt;
          parsed = b;
          is_private = (validate_iff config).0 v;
        })

  further :
      {dirs : List (Text × Candidate)} {dir : Text} {c : VaultConfig Float} (x : Text × Candidate)
      → Passed x
      → Declared dirs dir c
      → Declared (x ∷ dirs) dir c
  further x p d = record {
    nearer = x ∷ d.nearer;
    farther = d.farther;
    text = d.text;
    parts = ap (λ ys. x ∷ ys) d.parts;
    passed = (p, d.passed);
    parsed = d.parsed;
    is_private = d.is_private;
  }

  load_sound :
      (dirs : List (Text × Candidate)) (dir : Text) (c : VaultConfig Float)
      → load_vault_config toml dirs ≡ ok (dir, c)
      → Declared dirs dir c
  unfolding load_vault_config
  load_sound [] dir c e = cc
  load_sound ((at, absent) ∷ dirs) dir c e =
      further (at, absent) (inl refl) (load_sound dirs dir c e)
  load_sound ((at, symlink) ∷ dirs) dir c e = cc
  load_sound ((at, other) ∷ dirs) dir c e = further (at, other) (inr refl) (load_sound dirs dir c e)
  load_sound ((at, file content) ∷ dirs) dir c e = read_config-Declared at dir content dirs e

  load_complete :
      (nearer farther : List (Text × Candidate)) (dir text : Text) (c : VaultConfig Float)
      → All Passed nearer
      → toml.from_str text ≡ ok c
      → IsPrivate c
      → load_vault_config toml (nearer ++ ((dir, file (ok text)) ∷ farther)) ≡ ok (dir, c)
  unfolding load_vault_config read_config
  load_complete [] farther dir text c p e h = ground (arith, (validate_iff c).1 h)
  load_complete ((at, absent) ∷ xs) farther dir text c (p, ps) e h =
      load_complete xs farther dir text c ps e h
  load_complete ((at, other) ∷ xs) farther dir text c (p, ps) e h =
      load_complete xs farther dir text c ps e h
  load_complete ((at, symlink) ∷ xs) farther dir text c (inl p, ps) e h = cc
  load_complete ((at, symlink) ∷ xs) farther dir text c (inr p, ps) e h = cc
  load_complete ((at, file content) ∷ xs) farther dir text c (inl p, ps) e h = cc
  load_complete ((at, file content) ∷ xs) farther dir text c (inr p, ps) e h = cc

-- `load_vault_config` finds exactly a declaration that is a file and says, in the version and with a
-- threshold that are accepted, that the destination is private, where no nearer directory holds a
-- file or a link of that name.
pub load_vault_config_iff :
    {Float : Type 0} (toml : Toml Float) (dirs : List (Text × Candidate)) (dir : Text)
    (c : VaultConfig Float)
    → (load_vault_config toml dirs ≡ ok (dir, c)) ↔ Declared toml dirs dir c
load_vault_config_iff toml dirs dir c = (
  load_sound toml dirs dir c,
  λ d.
      ap (load_vault_config toml) d.parts
      ∙ load_complete toml d.nearer d.farther dir d.text c d.passed d.parsed d.is_private,
)
