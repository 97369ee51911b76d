-- ===== src/Delete/Tests.antt =====
-- The path fields of a concrete record.
use rs_runvault.Base.{◌≡◌, refl, some, true, false, codes, list_eq, ℕ_discrete}
use rs_runvault.Error.{ok}
use rs_runvault.Ids.{validate_slug, is_run_uid, slug_char, slug_hash_prefixes}
use rs_runvault.Canonical.Tests.{plain}
use rs_runvault.Meta.Run.{RunMeta}
use rs_runvault.Verify.Tests.{meta, slug, status}
use rs_runvault.Status.{finished}
use rs_runvault.Delete.{valid_run_slug, validate_meta_path_fields, eligible_status}

abbrev record_read : RunMeta plain
record_read = meta slug (codes "90dbd20f11") (codes "cd76aa")

fields_accepted : validate_meta_path_fields plain record_read ≡ ok tt
unfolding validate_meta_path_fields validate_slug is_run_uid valid_run_slug slug_char
    slug_hash_prefixes list_eq ℕ_discrete
fields_accepted = refl

status_accepted : eligible_status plain (some status) true false ≡ ok finished
unfolding eligible_status
status_accepted = refl
