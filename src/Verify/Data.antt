-- ===== src/Verify/Data.antt =====
-- What `check_data` accepts, and what that means for the condition hash.
use mathlib.Core.List.{Perm}
use rs_runvault.Base.{
  nat_eq, Bool, true, false, List, [], ◌∷◌, Text, list_eq, pair_eq, contains, arith, ◌≡◌, ◌≢◌, ◌↔◌,
  refl, sym, All,
}
use rs_runvault.Error.{ok}
use rs_runvault.Base.Sort.{Distinct}
use rs_runvault.Base.Order.{pair_ord}
use rs_runvault.Json.{Value}
use rs_runvault.Config.{Exclusions}
use rs_runvault.Canonical.{Library}
use rs_runvault.Meta.{Dataset}
use rs_runvault.Hash.{dataset_key, config_hash}
use rs_runvault.Hash.Order.{config_hash-perm}
use rs_runvault.Verify.{check_data, check_data_loop, is_some, differ}

-- A digest and its scope come together.
abbrev pub IsPaired : Dataset → Type 0
IsPaired d = is_some d.hash ≡ is_some d.hash_scope

-- No dataset of a list has a key that was seen.
abbrev Fresh : List (Text × Text) → List Dataset → Type 0
Fresh seen ds = All (λ d. contains seen (dataset_key d) ≡ false) ds

Fresh-nil : (ds : List Dataset) → Fresh [] ds
Fresh-nil [] = tt
Fresh-nil (d ∷ ds) = (refl, Fresh-nil ds)

Fresh-cons :
    (seen : List (Text × Text)) (k : Text × Text) (ds : List Dataset)
    → Fresh (k ∷ seen) ds ↔ (All (λ d. k ≢ dataset_key d) ds × Fresh seen ds)
Fresh-cons seen k [] = (λ h. (tt, tt), λ h. tt)
Fresh-cons seen k (d ∷ ds) =
    let (to, from) = Fresh-cons seen k ds in
    (
      λ (h, hs). (((λ e. ground arith), (to hs).0), (ground arith, (to hs).1)),
      λ ((n, ns), (h, hs)). (ground arith, from (ns, hs)),
    )

differ-false : (b c : Bool) → differ b c ≡ false → b ≡ c
differ-false true c h = ground arith
differ-false false c h = sym h

loop_sound :
    (seen : List (Text × Text)) (ds : List Dataset)
    → check_data_loop seen ds ≡ ok tt
    → Fresh seen ds × Distinct dataset_key ds × All IsPaired ds
unfolding check_data_loop dataset_key
loop_sound seen [] h = (tt, tt, tt)
loop_sound seen (d ∷ ds) h =
    let (fresh, distinct, paired) = loop_sound ((d.role, d.name) ∷ seen) ds (ground arith) in
    let (apart, rest) = (Fresh-cons seen (d.role, d.name) ds).0 fresh in
    ((ground arith, rest), (apart, distinct), (differ-false _ _ (ground arith), paired))

loop_complete :
    (seen : List (Text × Text)) (ds : List Dataset)
    → Fresh seen ds
    → Distinct dataset_key ds
    → All IsPaired ds
    → check_data_loop seen ds ≡ ok tt
unfolding check_data_loop dataset_key
loop_complete seen [] f d p = refl
loop_complete seen (d ∷ ds) (f, fs) (n, ns) (p, ps) =
    let rest =
      loop_complete ((d.role, d.name) ∷ seen) ds ((Fresh-cons seen (d.role, d.name) ds).1 (n, fs))
        ns ps in
    ground (arith, rest)

-- `check_data` accepts exactly the lists of datasets of which no two agree in both role and name,
-- and in which a digest and its scope come together.
pub check_data_iff :
    (ds : List Dataset) → (check_data ds ≡ ok tt) ↔ (Distinct dataset_key ds × All IsPaired ds)
unfolding check_data
check_data_iff ds = (
  λ h. (let (_, d, p) = loop_sound [] ds h in (d, p)),
  λ (d, p). loop_complete [] ds (Fresh-nil ds) d p,
)

-- The condition hash of datasets that `check_data` accepts does not depend on their order.
pub check_data-config_hash :
    (lib : Library) (parameters : Value lib.Number) (e : Exclusions) {a b : List Dataset}
    → check_data a ≡ ok tt
    → Perm a b
    → config_hash lib parameters e a ≡ config_hash lib parameters e b
check_data-config_hash lib parameters e {a} h p =
    config_hash-perm lib parameters e p ((check_data_iff a).0 h).0
