-- ===== src/Sync/Kept.antt =====
-- What can be read back of the vault after a run has been sent, and what of it a second sending keeps.
use rs_runvault.Base.{
  ℕ, suc, true, false, List, [], none, some, Text, All, get_elem?, length, ◌≡◌, ◌⊎◌, inl, inr, refl,
  sym, ap, ◌∙◌, arith, Option-cases, nat_eq, list_eq, ℕ_discrete,
}
use rs_runvault.Error.{ok, err, Effect}
use rs_runvault.Verify.{starts_with}
use rs_runvault.Verify.Walk.{get}
use rs_runvault.Sync.{
  Compression, plain, zstd, SyncReceipt, SyncedFile, PlannedFile, SyncPlan, Dest, find_file,
  previous_form, Outside, read_stored, guard_rewrite, copy_into, check_previous, Copying,
  synced_file, send_files, seal, execute, new_receipt, read_synced_optional, is_append_only,
  is_immutable,
}
use rs_runvault.Sync.Prefix.{stored_is_prefix_of-starts_with}
use rs_runvault.Sync.Apart.{Named, Pairwise, WellNamed}
use rs_runvault.Sync.Loop.{Sent, send_files-Sent}

-- What is compressed is decompressed to what it was.
pub record Lossless (outside : Outside) : Type 0 where
  pub decompress_compress : (s : Text) → outside.decompress (outside.compress s) ≡ some s

module _ (outside : Outside) (lossless : Lossless outside) where
  read_stored-copy_into :
      (k : Compression) (c : Text) → read_stored outside k (copy_into outside k c) ≡ ok c
  unfolding read_stored copy_into
  read_stored-copy_into plain c = refl
  read_stored-copy_into zstd c = rw (read_stored, lossless.decompress_compress c) refl

  seal-parts :
      (plan : SyncPlan) (dest : Dest) (r : Effect (Copying outside)) {sent : Dest}
      → seal outside plan dest r ≡ (sent, ok tt)
      → (r ≡ (r.0, ok tt))
        × (sent.files ≡ r.0.placed)
        × (sent.receipt ≡ some (new_receipt outside plan dest.receipt r.0.written))
  unfolding seal
  seal-parts plan dest (st, err e) h = absurd (ground arith)
  seal-parts plan dest (st, ok _) h =
      (refl, ap (λ x. x.0.files) (sym h), ap (λ x. x.0.receipt) (sym h))

  -- An execution that succeeds is a loop that succeeds, and a receipt of it.
  execute-parts :
      (plan : SyncPlan) (source : List (Text × Text)) (dest : Dest) {sent : Dest}
      → execute outside plan source dest ≡ (sent, ok tt)
      → (last : Copying outside) × (send_files outside dest.receipt source plan.files
            (record { placed = dest.files; written = [] })
          ≡ (last, ok tt))
        × (sent.files ≡ last.placed)
        × (sent.receipt ≡ some (new_receipt outside plan dest.receipt last.written))
  unfolding execute
  execute-parts plan source dest h =
      let sent =
        send_files outside dest.receipt source plan.files
          (record { placed = dest.files; written = [] }) in
      let (a, b, c) = seal-parts plan dest sent h in (sent.0, a, b, c)

  find_file-nil : (q : Text) → find_file q [] ≡ none
  unfolding find_file
  find_file-nil q = refl

  -- What is read of the vault, by its parts.
  read_found :
      (dest : Dest) (name : Text) (r : SyncReceipt) (o : SyncedFile) (content bytes : Text)
      → dest.receipt ≡ some r
      → find_file name r.files ≡ some o
      → get o.stored_path dest.files ≡ some content
      → read_stored outside o.compression content ≡ ok bytes
      → read_synced_optional outside dest name ≡ ok (some bytes)
  unfolding read_synced_optional
  read_found dest name r o content bytes a b c d = ground (arith, a, b, c, d)

  read-found :
      (dest : Dest) (name bytes : Text)
      → read_synced_optional outside dest name ≡ ok (some bytes)
      → (r : SyncReceipt) × (o : SyncedFile) × (content : Text) × (dest.receipt ≡ some r)
        × (find_file name r.files ≡ some o)
        × (get o.stored_path dest.files ≡ some content)
        × (read_stored outside o.compression content ≡ ok bytes)
  unfolding read_synced_optional
  read-found dest name bytes h = elim (Option-cases dest.receipt) [
    | inl a ↦ absurd (ground arith)
    | inr (r, a) ↦ elim (Option-cases (find_file name r.files)) [
      | inl b ↦ absurd (ground arith)
      | inr (o, b) ↦ elim (Option-cases (get o.stored_path dest.files)) [
        | inl c ↦ absurd (ground arith)
        | inr (content, c) ↦ (r, o, content, a, b, c, ground arith)
      ]
    ]
  ]

  -- A file that has been sent is read as the source has it, and what was read of it before the guard
  -- is a prefix, or the same.
  pub execute-Sent :
      (plan : SyncPlan) (source : List (Text × Text)) (dest sent : Dest) (i : ℕ) (f : PlannedFile)
      → All WellNamed plan.files
      → Pairwise plan.files
      → get_elem? plan.files i ≡ some f
      → execute outside plan source dest ≡ (sent, ok tt)
      → (last : Copying outside) × (s : Sent outside dest.receipt source f
          (record { placed = dest.files; written = [] })
          last)
        × (read_synced_optional outside sent f.path ≡ ok (some s.content))
  execute-Sent plan source dest sent i f w p e h =
      let (last, a, b, r) = execute-parts plan source dest h in
      let s =
        send_files-Sent outside dest.receipt source plan.files
          (record { placed = dest.files; written = [] }) last i w p e (find_file-nil f.path) a in
      (
        last,
        s,
        read_found sent f.path (new_receipt outside plan dest.receipt last.written)
            (synced_file outside f s.content) (copy_into outside f.compression s.content) s.content
            r s.listed (ap (get f.stored_path) b ∙ s.stored)
            (read_stored-copy_into f.compression s.content),
      )

  guard_prefix :
      (rel : Text) (k : Compression) (existing source stored : Text)
      → read_stored outside k existing ≡ ok stored
      → guard_rewrite outside rel k existing source ≡ ok tt
      → ((is_append_only rel ≡ false) ⊎ (starts_with source stored ≡ true))
        × ((is_immutable rel ≡ false) ⊎ (source ≡ stored))
  unfolding guard_rewrite is_append_only is_immutable ℕ_discrete
  guard_prefix rel k existing source stored r h =
      let loop =
        stored_is_prefix_of-starts_with (suc (length stored)) 65536
          (record { content = stored; sizes = outside.sizes rel })
          (record { content = source; sizes = outside.sizes rel }) (omega arith) (omega arith) in
      (ground (arith, r, h, loop), ground (arith, r, h, loop))

-- Every file that an execution which succeeds has sent is read back, by the receipt and the form that
-- it names, as the source has it. The planned names follow the compression, no place in the vault is
-- one of two planned files, and what is compressed is decompressed to what it was.
pub execute_refines :
    (outside : Outside)
    → Lossless outside
    → (plan : SyncPlan) (source : List (Text × Text)) (dest sent : Dest) (i : ℕ) (f : PlannedFile)
    → All WellNamed plan.files
    → Pairwise plan.files
    → get_elem? plan.files i ≡ some f
    → execute outside plan source dest ≡ (sent, ok tt)
    → (c : Text) × (get f.path source ≡ some c)
      × (read_synced_optional outside sent f.path ≡ ok (some c))
execute_refines outside lossless plan source dest sent i f w p e h =
    let (_, s, r) = execute-Sent outside lossless plan source dest sent i f w p e h in
    (s.content, s.at_source, r)

-- Of a file that could be read back before an execution which succeeds, the new contents that are
-- read back begin with the old ones if the file is append-only, and are the old ones if it identifies
-- the run. The planned names follow the compression, no place in the vault is one of two planned
-- files, the old receipt stores the file in one of its places, and what is compressed is decompressed
-- to what it was.
pub execute_keeps :
    (outside : Outside)
    → Lossless outside
    → (plan : SyncPlan) (source : List (Text × Text)) (dest sent : Dest) (i : ℕ) (f : PlannedFile)
      (old : Text)
    → All WellNamed plan.files
    → Pairwise plan.files
    → get_elem? plan.files i ≡ some f
    → ((o : SyncedFile) → previous_form dest.receipt f.path ≡ some o → Named f o.stored_path)
    → read_synced_optional outside dest f.path ≡ ok (some old)
    → execute outside plan source dest ≡ (sent, ok tt)
    → (new : Text) × (read_synced_optional outside sent f.path ≡ ok (some new))
      × ((is_append_only f.path ≡ false) ⊎ (starts_with new old ≡ true))
      × ((is_immutable f.path ≡ false) ⊎ (new ≡ old))
unfolding previous_form check_previous
execute_keeps outside lossless plan source dest sent i f old w p e m g h =
    let (_, s, r) = execute-Sent outside lossless plan source dest sent i f w p e h in
    let (receipt, o, content, a, b, c, d) = read-found outside lossless dest f.path old g in
    let form : previous_form dest.receipt f.path ≡ some o =
      ap (λ x. previous_form x f.path) a ∙ b in
    let asked : guard_rewrite outside f.path o.compression content s.content ≡ ok tt =
      ground (arith, c, s.guarded o form (m o form)) in
    let (x, y) = guard_prefix outside lossless f.path o.compression content s.content old d asked in
    (s.content, r, x, y)
