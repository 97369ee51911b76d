-- ===== src/Verify/Hashes.antt =====
-- What the recomputation of the hashes shows of a run directory.
use rs_runvault.Base.{Text, nat_eq, list_eq, arith, ◌≡◌, ◌⊎◌, inl, inr, sym, ◌∙◌, ap, subst}
use rs_runvault.Error.{Result, ok, >>=-eq-ok}
use rs_runvault.Config.{ConfigEnvelope, Exclusions, resolve, removed_from_config}
use rs_runvault.Pointer.{prune}
use rs_runvault.Canonical.{Library, canonicalize}
use rs_runvault.Meta.Run.{RunMeta}
use rs_runvault.Hash.{or_empty, env_hash, config_hash, execution_hash}
use rs_runvault.Hash.Collisions.{
  Collision, locks_said, data_said, env_hash-injective, config_hash-injective,
}
use rs_runvault.Hash.Executions.{SameCode, seeds_said, execution_hash-injective}
use rs_runvault.Verify.{compare_hash, locks_of, check_hashes}

compare_hash-ok : (s t : Text) → compare_hash s t ≡ ok tt → s ≡ t
unfolding compare_hash
compare_hash-ok s t h = ground arith

pub compare_hash_same : (s : Text) → compare_hash s s ≡ ok tt
unfolding compare_hash
compare_hash_same s = ground arith

ok-injective {ℓ} : {A : Type ℓ} {a b : A} → ok a ≡ ok b → a ≡ b
ok-injective h = cc

module _ (lib : Library) where
  open lib use {Number}

  -- The environment hash of the recorded environment.
  abbrev pub env_of : RunMeta lib → Text
  env_of m =
      env_hash lib m.env.os m.env.arch m.env.rustc_version m.env.python_version (locks_of m.code)

  -- The recorded hashes are the hashes of the recorded environment, configuration and data.
  pub record Consistent (c : ConfigEnvelope Number) (e : Exclusions) (m : RunMeta lib)
      : Type 0 where
    pub resolved : resolve c.runvault c.parameters ≡ ok e
    pub env_said : m.env.env_hash ≡ env_of m
    pub config_said : config_hash lib c.parameters e m.data_used ≡ ok m.config_hash
    pub execution_said :
        execution_hash lib m.config_hash c.parameters e m.code m.env.env_hash ≡ ok m.execution_hash

  same_execution :
      (m : RunMeta lib) (c : ConfigEnvelope Number) (e : Exclusions) (condition execution : Text)
      → m.config_hash ≡ condition
      → m.env.env_hash ≡ env_of m
      → m.execution_hash ≡ execution
      → execution_hash lib condition c.parameters e m.code (env_of m) ≡ ok execution
      → execution_hash lib m.config_hash c.parameters e m.code m.env.env_hash ≡ ok m.execution_hash
  same_execution m c e condition execution p q r h = rw (p, q, r) h

  -- If `check_hashes` accepts, `config.json` was read and resolves, and the three recorded hashes
  -- are the hashes of the recorded environment, configuration and data.
  pub check_hashes_sound :
      (file : Result (ConfigEnvelope Number)) (m : RunMeta lib)
      → check_hashes lib file m ≡ ok tt
      → (c : ConfigEnvelope Number) × (e : Exclusions) × (file ≡ ok c) × Consistent c e m
  unfolding check_hashes
  check_hashes_sound file m h =
      let (c, read, h1) = >>=-eq-ok file _ h in
      let (e, resolved, h2) = >>=-eq-ok (resolve c.runvault c.parameters) _ h1 in
      let (_, env_same, h3) = >>=-eq-ok (compare_hash m.env.env_hash (env_of m)) _ h2 in
      let (condition, config, h4) = >>=-eq-ok (config_hash lib c.parameters e m.data_used) _ h3 in
      let (_, config_same, h5) = >>=-eq-ok (compare_hash m.config_hash condition) _ h4 in
      let (execution, executed, last) =
        >>=-eq-ok (execution_hash lib condition c.parameters e m.code (env_of m)) _ h5 in
      (
        c,
        e,
        read,
        record {
          resolved = resolved;
          env_said = compare_hash-ok _ _ env_same;
          config_said = config ∙ ap ok (sym (compare_hash-ok _ _ config_same));
          execution_said =
              same_execution m c e condition execution (compare_hash-ok _ _ config_same)
                (compare_hash-ok _ _ env_same) (compare_hash-ok _ _ last) executed;
        },
      )

  -- What two runs have in common that are one execution: the canonical parameters after the
  -- exclusions, the datasets, the seeds, the code, the system, the toolchain and the locks.
  pub record SameRun (c : ConfigEnvelope Number) (e : Exclusions) (m : RunMeta lib)
      (d : ConfigEnvelope Number) (f : Exclusions) (n : RunMeta lib) : Type 0 where
    pub parameters :
        canonicalize lib (prune c.parameters (removed_from_config e))
        ≡ canonicalize lib (prune d.parameters (removed_from_config f))
    pub datasets : data_said m.data_used ≡ data_said n.data_used
    pub seeds : seeds_said lib c.parameters e ≡ seeds_said lib d.parameters f
    pub code : SameCode m.code n.code
    pub system : (m.env.os ≡ n.env.os) × (m.env.arch ≡ n.env.arch)
    pub toolchain :
        (or_empty m.env.rustc_version ≡ or_empty n.env.rustc_version)
        × (or_empty m.env.python_version ≡ or_empty n.env.python_version)
    pub locks : locks_said (locks_of m.code) ≡ locks_said (locks_of n.code)

  Consistent-same :
      (c d : ConfigEnvelope Number) (e f : Exclusions) (m n : RunMeta lib)
      → Consistent c e m
      → Consistent d f n
      → m.execution_hash ≡ n.execution_hash
      → SameRun c e m d f n ⊎ Collision lib
  Consistent-same c d e f m n p q h =
      elim (execution_hash-injective lib m.config_hash n.config_hash m.env.env_hash n.env.env_hash
        c.parameters d.parameters e f m.code n.code m.execution_hash p.execution_said
        (q.execution_said ∙ ap ok (sym h))) [
          | inr x ↦ inr x
          | inl (config, seeds, code, env) ↦
              elim (config_hash-injective lib c.parameters d.parameters e f m.data_used n.data_used
                m.config_hash p.config_said (q.config_said ∙ ap ok (sym config))) [
                  | inr x ↦ inr x
                  | inl (parameters, datasets) ↦
                      elim (env_hash-injective lib m.env.os m.env.arch n.env.os n.env.arch
                        m.env.rustc_version m.env.python_version n.env.rustc_version
                        n.env.python_version (locks_of m.code) (locks_of n.code)
                        (sym p.env_said ∙ env ∙ q.env_said)) [
                          | inr x ↦ inr x
                          | inl (os, arch, rustc, python, locks) ↦ inl (record {
                            parameters = parameters;
                            datasets = datasets;
                            seeds = seeds;
                            code = code;
                            system = (os, arch);
                            toolchain = (rustc, python);
                            locks = locks;
                          })
                        ]
                ]
        ]

  -- Two run directories that pass `check_hashes` and record one execution hash are the same
  -- execution, as far as it is hashed, or else they show a collision.
  pub check_hashes-same :
      (c d : ConfigEnvelope Number) (m n : RunMeta lib)
      → check_hashes lib (ok c) m ≡ ok tt
      → check_hashes lib (ok d) n ≡ ok tt
      → m.execution_hash ≡ n.execution_hash
      → ((e : Exclusions) × (f : Exclusions) × (resolve c.runvault c.parameters ≡ ok e)
          × (resolve d.runvault d.parameters ≡ ok f)
          × SameRun c e m d f n)
        ⊎ Collision lib
  check_hashes-same c d m n h k same =
      let (c', e, p, x) = check_hashes_sound (ok c) m h in
      let (d', f, q, y) = check_hashes_sound (ok d) n k in
      let x' : Consistent c e m = subst (λ u. Consistent u e m) (sym (ok-injective p)) x in
      let y' : Consistent d f n = subst (λ u. Consistent u f n) (sym (ok-injective q)) y in
      elim (Consistent-same c d e f m n x' y' same) [
        | inl r ↦ inl (e, f, x'.resolved, y'.resolved, r)
        | inr r ↦ inr r
      ]
