-- ===== src/Ids/Tests.antt =====
-- The theorems about identifiers at concrete names.
use rs_runvault.Base.{◌≡◌, refl, true, false, some, Text, codes, arith, ℕ_discrete, list_eq}
use rs_runvault.Base.Decimal.{decimal}
use rs_runvault.Error.{ok}
use rs_runvault.Ids.{validate_slug, is_run_uid, run_slug, slug_hash_prefixes}
use rs_runvault.Ids.Prefixes.{slug_hash_prefixes-run_slug}

abbrev cfg : Text
cfg = codes "90dbd20f11"

abbrev exec : Text
exec = codes "cd76aa"

slug_accepted : validate_slug (codes "experiment") (codes "eq-1.b_c") ≡ ok tt
unfolding validate_slug ℕ_discrete
slug_accepted = refl

uid_accepted : is_run_uid (codes "01ARZ3NDEKTSV4RRFFQ69G5FAV") ≡ true
unfolding is_run_uid ℕ_discrete
uid_accepted = refl

uid_refused : is_run_uid (codes "81ARZ3NDEKTSV4RRFFQ69G5FAV") ≡ false
unfolding is_run_uid ℕ_discrete
uid_refused = refl

slug_runs :
    run_slug (codes "run-2") (codes "20260830_224952") cfg exec (some 2)
    ≡ some (codes "run-2_20260830_224952_90dbd20f_cd76-2")
unfolding run_slug decimal
slug_runs = refl

prefixes_run :
    slug_hash_prefixes (codes "run-2_20260830_224952_90dbd20f_cd76-2")
    ≡ some (codes "90dbd20f", codes "cd76")
unfolding slug_hash_prefixes ℕ_discrete list_eq
prefixes_run = refl

slug_hash_prefixes-run_slug_example :
    (s : Text) × (run_slug (codes "run-2") (codes "20260830_224952") cfg exec (some 2) ≡ some s)
    × (slug_hash_prefixes s ≡ some (codes "90dbd20f", codes "cd76"))
slug_hash_prefixes-run_slug_example =
    slug_hash_prefixes-run_slug (codes "run-2") (codes "20260830_224952") cfg exec (some 2)
      (omega arith) (omega arith) (omega arith) (omega arith)
