-- ===== src/Sync/Apart.antt =====
-- The places that a file can take in the vault, and what else they leave alone.
use rs_runvault.Base.{
  List, [], ◌∷◌, ◌++◌, none, some, Text, codes, All, length, length-append, ◌≡◌, ◌≢◌, ◌⊎◌, inl, inr,
  refl, sym, subst, ap, ◌∙◌, arith, nat_eq, list_eq,
}
use rs_runvault.Verify.Walk.{get}
use rs_runvault.Delete.Scan.{update}
use rs_runvault.Sync.{
  Compression, zstd, SyncedFile, PlannedFile, compressed_name, without, stored_as, other_as,
  other_form, find_file, Outside, copy_into, Copying, place, synced_file,
}
use rs_runvault.Sync as S

-- A place of the file: its path, or the name under which it is compressed.
abbrev pub Named : PlannedFile → Text → Type 0
Named f p = (p ≡ f.path) ⊎ (p ≡ compressed_name f.path)

-- No place is one of both files.
abbrev pub Apart : PlannedFile → PlannedFile → Type 0
Apart f g = (p : Text) → Named f p → ¬ (Named g p)

abbrev pub Pairwise : List PlannedFile → Type 0
Pairwise [] = Unit
Pairwise (f ∷ fs) = All (λ g. Apart f g) fs × Pairwise fs

get-update {ℓ} :
    {A : Type ℓ} (p : Text) (a : A) (m : List (Text × A)) → get p (update p a m) ≡ some a
unfolding get update
get-update p a [] = ground arith
get-update p a ((q, b) ∷ m) = ground (arith, get-update p a m)

get-update_apart {ℓ} :
    {A : Type ℓ} (p q : Text) (a : A) (m : List (Text × A)) → p ≢ q → get p (update q a m) ≡ get p m
unfolding get update
get-update_apart p q a [] h = ground arith
get-update_apart p q a ((r, b) ∷ m) h = ground (arith, get-update_apart p q a m h)

get-without_apart : (p q : Text) (m : List (Text × Text)) → p ≢ q → get p (without q m) ≡ get p m
unfolding get without
get-without_apart p q [] h = refl
get-without_apart p q ((r, b) ∷ m) h = ground (arith, get-without_apart p q m h)

path-ne-compressed : (p : Text) → p ≢ compressed_name p
unfolding compressed_name
path-ne-compressed p e = omega (arith, ap length e, length-append p (codes ".zst"))

-- The stored name follows the compression.
abbrev pub WellNamed : PlannedFile → Type 0
WellNamed f = f.stored_path ≡ stored_as f.compression f.path

stored-ne-other : (k : Compression) (p : Text) → stored_as k p ≢ other_as k p
stored-ne-other S.plain p e = path-ne-compressed p e
stored-ne-other zstd p e = path-ne-compressed p (sym e)

named_stored :
    (k : Compression) (p : Text) → (stored_as k p ≡ p) ⊎ (stored_as k p ≡ compressed_name p)
named_stored S.plain p = inl refl
named_stored zstd p = inr refl

named_other : (k : Compression) (p : Text) → (other_as k p ≡ p) ⊎ (other_as k p ≡ compressed_name p)
named_other S.plain p = inr refl
named_other zstd p = inl refl

pub stored-Named : (f : PlannedFile) → WellNamed f → Named f f.stored_path
stored-Named f w = subst (Named f) (sym w) (named_stored f.compression f.path)

module _ (outside : Outside) (f : PlannedFile) (w : WellNamed f) (content : Text)
    (st : Copying outside) where
  -- What a file leaves alone, and that it is stored.
  pub place-keeps :
      (p : Text) → ¬ (Named f p) → get p (place outside f content st).placed ≡ get p st.placed
  unfolding place other_form
  place-keeps p h =
      get-without_apart p (other_as f.compression f.path) _
        (λ e. h (subst (Named f) (sym e) (named_other f.compression f.path)))
      ∙ get-update_apart p f.stored_path _ st.placed
          (λ e. h (subst (Named f) (sym e) (stored-Named f w)))

  pub place-stores :
      get f.stored_path (place outside f content st).placed
      ≡ some (copy_into outside f.compression content)
  unfolding place other_form
  place-stores =
      get-without_apart f.stored_path (other_as f.compression f.path) _
        (λ e. stored-ne-other f.compression f.path (sym w ∙ e))
      ∙ get-update f.stored_path _ st.placed

pub find_file-last :
    (q : Text) (w : List SyncedFile) (x : SyncedFile)
    → find_file q w ≡ none
    → x.path ≡ q
    → find_file q (w ++ x ∷ []) ≡ some x
unfolding find_file
find_file-last q [] x h e = ground arith
find_file-last q (y ∷ w) x h e = ground (arith, find_file-last q w x)

pub find_file-kept :
    (q : Text) (w : List SyncedFile) (x : SyncedFile)
    → x.path ≢ q
    → find_file q (w ++ x ∷ []) ≡ find_file q w
unfolding find_file
find_file-kept q [] x h = ground arith
find_file-kept q (y ∷ w) x h = ground (arith, find_file-kept q w x h)
