-- ===== src/Sync/Loop.antt =====
-- What the loop over the files does to the vault and to the list of what is written.
use mathlib.Core.Option.{some-injective}
use rs_runvault.Base.{
  ℕ, zero, suc, List, [], ◌∷◌, Option, none, some, Text, All, All-map, All-get_elem, get_elem?, ◌≡◌,
  ◌≢◌, inl, inr, refl, sym, subst, ap, ◌∙◌, arith, Option-cases, nat_eq, list_eq,
}
use rs_runvault.Error.{ok, and_then-ok}
use rs_runvault.Verify.Walk.{get}
use rs_runvault.Sync.{
  SyncReceipt, SyncedFile, PlannedFile, find_file, previous_form, Outside, copy_into,
  check_previous, Copying, place, synced_file, send_file, send_files,
}
use rs_runvault.Sync.Apart.{
  Named, Apart, Pairwise, WellNamed, stored-Named, place-keeps, place-stores, find_file-last,
  find_file-kept,
}

module _ (outside : Outside) (previous : Option SyncReceipt) (source : List (Text × Text)) where
  -- A file is sent only if the source has it and the guard lets it pass.
  send_file-ok :
      (f : PlannedFile) (st : Copying outside) {next : Copying outside}
      → send_file outside previous source f st ≡ (next, ok tt)
      → (c : Text) × (get f.path source ≡ some c)
        × (check_previous outside (previous_form previous f.path) f.path st.placed c ≡ ok tt)
        × (next ≡ place outside f c st)
  unfolding send_file
  send_file-ok f st h = elim (Option-cases (get f.path source)) [
    | inl e ↦ absurd (ground arith)
    | inr (c, e) ↦ (c, e, ground arith, ground arith)
  ]

  send_files-kept :
      (fs : List PlannedFile) (st : Copying outside) {last : Copying outside} (p : Text)
      → All WellNamed fs
      → All (λ g. ¬ (Named g p)) fs
      → send_files outside previous source fs st ≡ (last, ok tt)
      → get p last.placed ≡ get p st.placed
  unfolding send_files
  send_files-kept [] st p w n h = ap (λ x. get p x.0.placed) (sym h)
  send_files-kept (f ∷ fs) st p (w, ws) (n, ns) h =
      let (a, b) =
        and_then-ok (send_file outside previous source f st) (send_files outside previous source fs)
          h in
      let (c, _, _, e) = send_file-ok f st a in
      send_files-kept fs (send_file outside previous source f st).0 p ws ns b
      ∙ ap (λ x. get p x.placed) e
      ∙ place-keeps outside f w c st p n

  send_files-found :
      (fs : List PlannedFile) (st : Copying outside) {last : Copying outside} (q : Text)
      → All (λ g. g.path ≢ q) fs
      → send_files outside previous source fs st ≡ (last, ok tt)
      → find_file q last.written ≡ find_file q st.written
  unfolding send_files place
  send_files-found [] st q n h = ap (λ x. find_file q x.0.written) (sym h)
  send_files-found (f ∷ fs) st q (n, ns) h =
      let (a, b) =
        and_then-ok (send_file outside previous source f st) (send_files outside previous source fs)
          h in
      let (c, _, _, e) = send_file-ok f st a in
      send_files-found fs (send_file outside previous source f st).0 q ns b
      ∙ ap (λ x. find_file q x.written) e
      ∙ find_file-kept q st.written (synced_file outside f c) n

  -- How a file stands when the loop has ended, and what the guard was asked.
  pub record Sent (f : PlannedFile) (before last : Copying outside) : Type 0 where
    pub content : Text
    pub at_source : get f.path source ≡ some content
    pub stored : get f.stored_path last.placed ≡ some (copy_into outside f.compression content)
    pub listed : find_file f.path last.written ≡ some (synced_file outside f content)
    pub guarded :
        (o : SyncedFile)
        → previous_form previous f.path ≡ some o
        → Named f o.stored_path
        → check_previous outside (some o) f.path before.placed content ≡ ok tt

  Apart-path : (f g : PlannedFile) → Apart f g → g.path ≢ f.path
  Apart-path f g a e = a f.path (inl refl) (inl (sym e))

  check_previous-same :
      (o : SyncedFile) (rel : Text) (m n : List (Text × Text)) (c : Text)
      → get o.stored_path m ≡ get o.stored_path n
      → check_previous outside (some o) rel m c ≡ check_previous outside (some o) rel n c
  unfolding check_previous
  check_previous-same o rel m n c e = rw (e, check_previous) refl

  head_Sent :
      (f : PlannedFile) (fs : List PlannedFile) (st last : Copying outside)
      → All WellNamed (f ∷ fs)
      → Pairwise (f ∷ fs)
      → find_file f.path st.written ≡ none
      → send_files outside previous source (f ∷ fs) st ≡ (last, ok tt)
      → Sent f st last
  unfolding send_files place
  head_Sent f fs st last (w, ws) (p, ps) n h =
      let (a, b) =
        and_then-ok (send_file outside previous source f st) (send_files outside previous source fs)
          h in
      let (c, s, k, e) = send_file-ok f st a in
      let next = (send_file outside previous source f st).0 in
      record {
        content = c;
        at_source = s;
        stored =
            send_files-kept fs next f.stored_path ws
              (All-map (λ g. Apart f g) (λ g. ¬ (Named g f.stored_path)) fs
                (λ g x. x f.stored_path (stored-Named f w)) p)
              b
            ∙ ap (λ x. get f.stored_path x.placed) e
            ∙ place-stores outside f w c st;
        listed =
            send_files-found fs next f.path
              (All-map (λ g. Apart f g) (λ g. g.path ≢ f.path) fs (Apart-path f) p) b
            ∙ ap (λ x. find_file f.path x.written) e
            ∙ find_file-last f.path st.written (synced_file outside f c) n refl;
        guarded = λ o q m. ap (λ x. check_previous outside x f.path st.placed c) (sym q) ∙ k;
      }

  pub send_files-Sent :
      (fs : List PlannedFile) (st last : Copying outside) (i : ℕ) {f : PlannedFile}
      → All WellNamed fs
      → Pairwise fs
      → get_elem? fs i ≡ some f
      → find_file f.path st.written ≡ none
      → send_files outside previous source fs st ≡ (last, ok tt)
      → Sent f st last
  unfolding send_files place
  send_files-Sent [] st last i w p e n h = cc
  send_files-Sent (g ∷ fs) st last zero {f} w p e n h =
      let same : g ≡ f = some-injective g f e in
      subst (λ x. Sent x st last) same
        (head_Sent g fs st last w p (subst (λ x. find_file x.path st.written ≡ none) (sym same) n)
          h)
  send_files-Sent (g ∷ fs) st last (suc i) {f} (w, ws) (p, ps) e n h =
      let (a, b) =
        and_then-ok (send_file outside previous source g st) (send_files outside previous source fs)
          h in
      let (c, _, _, q) = send_file-ok g st a in
      let next = (send_file outside previous source g st).0 in
      let apart = All-get_elem (λ g'. Apart g g') fs i p e in
      let later =
        send_files-Sent fs next last i ws ps e
          (ap (λ x. find_file f.path x.written) q
            ∙ find_file-kept f.path st.written (synced_file outside g c)
                (λ r. apart g.path (inl refl) (inl r))
            ∙ n)
          b in
      record {
        content = later.content;
        at_source = later.at_source;
        stored = later.stored;
        listed = later.listed;
        guarded = λ o r m.
            check_previous-same o f.path st.placed next.placed later.content (
              sym (
                ap (λ x. get o.stored_path x.placed) q
                ∙ place-keeps outside g w c st o.stored_path (λ x. apart o.stored_path x m)))
            ∙ later.guarded o r m;
      }
