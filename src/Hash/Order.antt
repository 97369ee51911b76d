-- ===== src/Hash/Order.antt =====
-- The order in which lock files and datasets are listed does not matter.
use mathlib.Core.Logic.{∥∥₁_elim}
use mathlib.Core.List.{Perm}
use rs_runvault.Base.{List, [], Option, Text, ap, ◌≡◌}
use rs_runvault.Base.Order.{pair_ord}
use rs_runvault.Base.Sort.{Distinct, sort_on-perm}
use rs_runvault.Json.{Value}
use rs_runvault.Config.{Exclusions}
use rs_runvault.Meta.{Lock, Dataset}
use rs_runvault.Canonical.{Library}
use rs_runvault.Hash.{
  lock_key, push_locks, locks_blob, dataset_key, push_data, data_identity, env_hash, env_input,
  config_hash,
}

Text-set : IsSet Text
Text-set = hlevel

locks_blob-perm : {a b : List Lock} → Perm a b → Distinct lock_key a → locks_blob a ≡ locks_blob b
unfolding locks_blob
locks_blob-perm p h =
    ∥∥₁_elim p (Text-set _ _) (λ d. ap (push_locks []) (sort_on-perm lock_key d h))

data_identity-perm :
    {a b : List Dataset} → Perm a b → Distinct dataset_key a → data_identity a ≡ data_identity b
unfolding data_identity
data_identity-perm p h =
    ∥∥₁_elim p (Text-set _ _) (λ d. ap (push_data []) (sort_on-perm dataset_key d h))

-- Two listings of the same lock files give the same environment hash, if no two of the locks agree
-- in both kind and file.
pub env_hash-perm :
    (lib : Library) (os arch : Text) (rustc python : Option Text) {a b : List Lock}
    → Perm a b
    → Distinct lock_key a
    → env_hash lib os arch rustc python a ≡ env_hash lib os arch rustc python b
unfolding env_hash env_input
env_hash-perm lib os arch rustc python p h = rw (locks_blob-perm p h, env_hash, env_input)

-- Two listings of the same datasets give the same condition hash, if no two of the datasets agree
-- in both role and name.
pub config_hash-perm :
    (lib : Library) (parameters : Value lib.Number) (e : Exclusions) {a b : List Dataset}
    → Perm a b
    → Distinct dataset_key a
    → config_hash lib parameters e a ≡ config_hash lib parameters e b
unfolding config_hash
config_hash-perm lib parameters e p h = rw (data_identity-perm p h)
