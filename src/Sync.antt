-- ===== src/Sync.antt =====
-- crates/runvault/src/sync.rs: what may be sent, the receipt, and the copying of one run into the
-- vault. The files of a directory enter as a map of their relative paths; zstd, BLAKE3 and the clock
-- are parameters.
pub mod Apart
pub mod Chosen
pub mod Declared
pub mod Kept
pub mod Loop
pub mod Plan
pub mod Prefix
pub mod Reader
pub mod Vault
mod Tests
use rs_runvault.Base.{
  ℕ, zero, suc, ◌+◌, Bool, true, false, not, ◌&&◌, ◌||◌, List, [], ◌∷◌, ◌++◌, Option, none, some,
  Text, codes, contains, length, filter, map, ltb, ◌==◌, nat_eq, list_eq, option_eq, if◌then◌else◌,
}
use rs_runvault.Error.{
  Result, ok, err, Effect, and_then, verify, spec, plain_io, io, json, rewritten,
  differs_from_vault, wrong_schema_version, not_private, threshold_not_positive, refuse_if, ◌>>=◌,
  ◌>>◌,
}
use rs_runvault.Meta.{Hash, blake3}
use rs_runvault.Verify.Walk.{get}
use rs_runvault.Delete.Scan.{update}
use rs_runvault.Sync.Reader.{stored_is_prefix_of}

heavy_below : Text → Text → Bool
heavy_below part [] = false
heavy_below part (c ∷ rest) =
    let same = heavy_below (part ++ c ∷ []) rest in
    let next = heavy_below [] rest in
    if c == b'/'
    then contains (codes "artifacts" ∷ codes "logs" ∷ codes "snapshots" ∷ codes "figures" ∷ []) part
      || next
    else same

-- The components before the last `/`.
unfoldable pub is_heavy_half : Text → Bool
unfolding heavy_below
is_heavy_half rel = heavy_below [] rel

unfoldable pub is_append_only : Text → Bool
is_append_only rel = contains (codes "events.jsonl" ∷ codes "metrics.csv" ∷ []) rel

unfoldable pub is_immutable : Text → Bool
is_immutable rel = contains (codes "run.json" ∷ codes "config.json" ∷ []) rel

pub data Compression : Type 0 where
  plain zstd : Compression

pub record FileDigest : Type 0 where
  pub hash : Hash
  pub bytes : ℕ

pub record SyncedFile : Type 0 where
  pub path : Text
  pub stored_path : Text
  pub compression : Compression
  pub source : FileDigest
  pub stored : FileDigest

pub record SyncSource : Type 0 where
  pub host : Text
  pub repo_id : Text
  pub path : Text

pub record SyncReceipt : Type 0 where
  pub schema_version : Text
  pub run_uid : Option Text
  pub run_key : Text
  pub generation : ℕ
  pub synced_at : Text
  pub verified : Option Bool
  pub source : SyncSource
  pub files : List SyncedFile

pub record PlannedFile : Type 0 where
  pub path : Text
  pub stored_path : Text
  pub compression : Compression
  pub bytes : ℕ

pub record SyncPlan : Type 0 where
  pub run_key : Text
  pub run_uid : Option Text
  pub run_slug : Option Text
  pub repo_id : Text
  pub verified : Option Bool
  pub files : List PlannedFile

-- What is outside: zstd, BLAKE3, how many bytes each read gives, the host, the time, and the path of
-- the source as it is written in the receipt.
pub record Outside : Type 0 where
  pub compress : Text → Text
  pub decompress : Text → Option Text
  pub blake3_hex : Text → Text
  pub sizes : Text → List ℕ
  pub host : Text
  pub synced_at : Text
  pub source_path : Text

unfoldable pub compressed_name : Text → Text
compressed_name rel = rel ++ codes ".zst"

abbrev pub stored_as : Compression → Text → Text
stored_as plain path = path
stored_as zstd path = compressed_name path

unfoldable pub compression_of : ℕ → Text → Compression
compression_of compress_over_bytes content =
    if ltb compress_over_bytes (length content) then zstd else plain

unfoldable pub planned_file : ℕ → Text → Text → PlannedFile
planned_file compress_over_bytes rel content = record {
  path = rel;
  stored_path = stored_as (compression_of compress_over_bytes content) rel;
  compression = compression_of compress_over_bytes content;
  bytes = length content;
}

-- The directory of the run in the vault: its files but the receipt, the receipt, and where the link
-- by its slug points.
pub record Dest : Type 0 where
  pub files : List (Text × Text)
  pub receipt : Option SyncReceipt
  pub link : Option Text

unfoldable pub find_file : Text → List SyncedFile → Option SyncedFile
find_file path [] = none
find_file path (f ∷ fs) = let later = find_file path fs in if f.path == path then some f else later

unfoldable pub previous_form : Option SyncReceipt → Text → Option SyncedFile
previous_form none path = none
previous_form (some r) path = find_file path r.files

-- `remove_file`
unfoldable pub without : Text → List (Text × Text) → List (Text × Text)
without path files = filter (λ e. not (e.0 == path)) files

abbrev pub other_as : Compression → Text → Text
other_as plain path = compressed_name path
other_as zstd path = path

-- The name that `remove_other_form` takes away.
unfoldable pub other_form : PlannedFile → Text
other_form f = other_as f.compression f.path

module _ (outside : Outside) where
  unfoldable pub read_stored : Compression → Text → Result Text
  read_stored plain content = ok content
  read_stored zstd content = elim (outside.decompress content) [
    | none ↦ err plain_io
    | some bytes ↦ ok bytes
  ]

  abbrev prefix_verdict : Option Bool → Result (Unit {0})
  prefix_verdict (some true) = ok tt
  prefix_verdict (some false) = err (verify rewritten)
  prefix_verdict none = err (verify rewritten)

  -- The stored bytes are decompressed as a whole, where the code decompresses them as it reads.
  unfoldable pub guard_rewrite : Text → Compression → Text → Text → Result (Unit {0})
  guard_rewrite rel compression existing source =
      if is_append_only rel
      then (read_stored compression existing >>= (λ stored. prefix_verdict (
          stored_is_prefix_of (suc (length stored)) 65536
            (record { content = stored; sizes = outside.sizes rel })
            (record { content = source; sizes = outside.sizes rel }))))
      else if is_immutable rel
      then (read_stored compression existing
          >>= (λ stored. refuse_if (not (stored == source)) (verify differs_from_vault)))
      else ok tt

  -- The guard, where the vault holds the file in a form that the receipt names.
  unfoldable pub check_previous :
      Option SyncedFile → Text → List (Text × Text) → Text → Result (Unit {0})
  check_previous none rel files source = ok tt
  check_previous (some previous) rel files source = elim (get previous.stored_path files) [
    | none ↦ ok tt
    | some existing ↦ guard_rewrite rel previous.compression existing source
  ]

  unfoldable pub copy_into : Compression → Text → Text
  copy_into plain source = source
  copy_into zstd source = outside.compress source

  unfoldable pub digest : Text → FileDigest
  digest content = record {
    hash = record { algorithm = blake3; value = outside.blake3_hex content };
    bytes = length content;
  }

  pub record Copying : Type 0 where
    pub placed : List (Text × Text)
    pub written : List SyncedFile

  abbrev pub synced_file : PlannedFile → Text → SyncedFile
  synced_file f source = record {
    path = f.path;
    stored_path = f.stored_path;
    compression = f.compression;
    source = digest source;
    stored = digest (copy_into f.compression source);
  }

  -- The file is stored, and the other spelling of it is removed.
  unfoldable pub place : PlannedFile → Text → Copying → Copying
  place f source st = record {
    placed =
        without (other_form f) (update f.stored_path (copy_into f.compression source) st.placed);
    written = st.written ++ synced_file f source ∷ [];
  }

  -- The body of the loop over the files. The guard of a file that the source does not have fails as
  -- its digest does.
  unfoldable pub send_file :
      Option SyncReceipt → List (Text × Text) → PlannedFile → Copying → Effect Copying
  send_file previous source f st = elim (get f.path source) [
    | none ↦ (st, err (io f.path))
    | some content ↦
        elim (check_previous (previous_form previous f.path) f.path st.placed content) [
          | err e ↦ (st, err e)
          | ok _ ↦ (place f content st, ok tt)
        ]
  ]

  unfoldable pub send_files :
      Option SyncReceipt → List (Text × Text) → List PlannedFile → Copying → Effect Copying
  send_files previous source [] st = (st, ok tt)
  send_files previous source (f ∷ fs) st =
      and_then (send_file previous source f st) (send_files previous source fs)

  abbrev pub generation_of : Option SyncReceipt → ℕ
  generation_of none = 0
  generation_of (some r) = r.generation

  unfoldable pub left_behind : List (Text × Text) → Option SyncReceipt → List SyncedFile → List Text
  left_behind files none written = []
  left_behind files (some previous) written =
      map (λ f. f.stored_path)
        (filter (λ f. not (get f.stored_path files == none))
          (filter (λ f. not (contains (map (λ g. g.stored_path) written) f.stored_path))
            previous.files))

  -- `link_by_slug`
  unfoldable pub link_by_slug : SyncPlan → Option Text → Option Text
  link_by_slug plan old = elim plan.run_slug [
    | none ↦ old
    | some slug ↦ elim plan.run_uid [ none ↦ old | some uid ↦ some (codes "../../" ++ uid) ]
  ]

  abbrev pub new_receipt : SyncPlan → Option SyncReceipt → List SyncedFile → SyncReceipt
  new_receipt plan previous written = record {
    schema_version = codes "1.0";
    run_uid = plan.run_uid;
    run_key = plan.run_key;
    generation = generation_of previous + 1;
    synced_at = outside.synced_at;
    verified = plan.verified;
    source = record { host = outside.host; repo_id = plan.repo_id; path = outside.source_path };
    files = written;
  }

  -- The receipt is written when all the files are.
  unfoldable pub seal : SyncPlan → Dest → Effect Copying → Effect Dest
  seal plan dest (st, err e) = (record dest { files = st.placed }, err e)
  seal plan dest (st, ok _) = (
    record {
      files = st.placed;
      receipt = some (new_receipt plan dest.receipt st.written);
      link = link_by_slug plan dest.link;
    },
    ok tt,
  )

  unfoldable pub execute : SyncPlan → List (Text × Text) → Dest → Effect Dest
  execute plan source dest =
      seal plan dest
        (send_files dest.receipt source plan.files (record { placed = dest.files; written = [] }))

  -- `read_synced_optional` of delete.rs: a file as the receipt says it is stored.
  unfoldable pub read_synced_optional : Dest → Text → Result (Option Text)
  read_synced_optional dest name = elim dest.receipt [
    | none ↦ err (io (codes "sync.json"))
    | some r ↦ elim (find_file name r.files) [
      | none ↦ ok none
      | some f ↦ elim (get f.stored_path dest.files) [
        | none ↦ err (io f.stored_path)
        | some content ↦ read_stored f.compression content >>= (λ bytes. ok (some bytes))
      ]
    ]
  ]
