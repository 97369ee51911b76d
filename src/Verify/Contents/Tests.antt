-- ===== src/Verify/Contents/Tests.antt =====
-- A run directory with one figure, and digests that are the bytes.
use rs_runvault.Base.{
  [], ◌∷◌, none, some, Text, codes, list_eq, ℕ_discrete, ◌==◌, nat_eq, ◌≡◌, ◌↔◌, refl,
  if◌then◌else◌,
}
use rs_runvault.Base.Decimal.{decimal}
use rs_runvault.Error.{ok, err, verify, digest_differs}
use rs_runvault.Pointer.{split}
use rs_runvault.Meta.{Algorithm}
use rs_runvault.Status.{finished}
use rs_runvault.Verify.{starts_with}
use rs_runvault.Verify.Tables.{CsvTable, column}
use rs_runvault.Verify.Contents.{
  RunFiles, parse_algorithm, inside_run, compare_file, check_row, check_rows,
  check_manifest_contents,
}
use rs_runvault.Verify.Contents.Sealed.{IsSealed, check_manifest_contents_iff}

abbrev pub digest_as : Algorithm → Text → Text
digest_as algorithm bytes = bytes

abbrev pub figure : Text
figure = codes "artifacts/p.png"

abbrev pub files : RunFiles
files = record {
  content = λ rel. if rel == figure then some (codes "px") else none;
  artifacts = ok (figure ∷ []);
  logs = ok [];
}

abbrev manifest : Text → CsvTable
manifest digest = record {
  header = codes "path" ∷ codes "algorithm" ∷ codes "digest" ∷ codes "bytes" ∷ [];
  rows = (figure ∷ codes "blake3" ∷ digest ∷ codes "2" ∷ []) ∷ [];
}

rewritten_file :
    check_manifest_contents digest_as files (ok (some (manifest (codes "py")))) none
    ≡ err (verify digest_differs)
unfolding check_manifest_contents check_rows check_row inside_run compare_file parse_algorithm
    column split starts_with decimal list_eq ℕ_discrete
rewritten_file = refl

check_manifest_contents_iff_example :
    (check_manifest_contents digest_as files
        (ok (some (manifest (codes "px"))))
        (some (ok finished))
      ≡ ok tt)
    ↔ IsSealed digest_as files (some (manifest (codes "px"))) (some (ok finished))
check_manifest_contents_iff_example =
    check_manifest_contents_iff digest_as files (some (manifest (codes "px"))) (some (ok finished))
