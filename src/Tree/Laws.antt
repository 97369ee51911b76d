-- ===== src/Tree/Laws.antt =====
-- What is in a file tree after entries have been taken away.
use rs_runvault.Base.{
  true, false, not, [], ◌∷◌, ◌++◌, none, some, ◌==◌, nat_eq, list_eq, filter, ◌≡◌, ◌≢◌, refl, arith,
}
use rs_runvault.Tree.{
  FilePath, Kind, directory, Tree, at, under, is_empty, make_dirs, create_dir_all,
}

-- Entries below a directory have gone, others not, and the directory itself has not.
pub data Emptied (p : FilePath) : Tree → Tree → Type 0 where
  all_seen : Emptied p [] []
  keep :
      (q : FilePath) (k : Kind) {t u : Tree} → Emptied p t u → Emptied p ((q, k) ∷ t) ((q, k) ∷ u)
  drop :
      (q : FilePath) (k : Kind) {t u : Tree}
      → under p q ≡ true
      → q ≢ p
      → Emptied p t u
      → Emptied p ((q, k) ∷ t) u

abbrev pub outside : FilePath → Tree → Tree
outside p t = filter (λ e. not (under p e.0)) t

pub Emptied-outside : {p : FilePath} {t u : Tree} → Emptied p t u → outside p u ≡ outside p t
Emptied-outside all_seen = refl
Emptied-outside (keep q k e) = ground (arith, Emptied-outside e)
Emptied-outside (drop q k h n e) = ground (arith, Emptied-outside e)

pub Emptied-at : {p : FilePath} {t u : Tree} → Emptied p t u → at p u ≡ at p t
unfolding at
Emptied-at all_seen = refl
Emptied-at (keep q k e) = ground (arith, Emptied-at e)
Emptied-at (drop q k h n e) = ground (arith, Emptied-at e)

-- A place that is not below the directory is as it was.
pub Emptied-at_apart :
    {p : FilePath} {t u : Tree} (q : FilePath) → under p q ≡ false → Emptied p t u → at q u ≡ at q t
unfolding at
Emptied-at_apart q h all_seen = refl
Emptied-at_apart q h (keep r k e) = ground (arith, Emptied-at_apart q h e)
Emptied-at_apart q h (drop r k g n e) = ground (arith, Emptied-at_apart q h e)

pub Emptied-is_empty :
    {p : FilePath} {t u : Tree} (q : FilePath)
    → ((r : FilePath) → under q r ≡ true → under p r ≡ false)
    → Emptied p t u
    → is_empty q u ≡ is_empty q t
unfolding is_empty
Emptied-is_empty q h all_seen = refl
Emptied-is_empty q h (keep r k e) = ground (arith, Emptied-is_empty q h e)
Emptied-is_empty q h (drop r k g n e) = ground (arith, Emptied-is_empty q h e, h r)

pub under-same : (p : FilePath) → under p p ≡ true
unfolding under
under-same [] = refl
under-same (x ∷ p) = ground (arith, under-same p)

pub at-outside : (p q : FilePath) (t : Tree) → under p q ≡ true → at q (outside p t) ≡ none
unfolding at
at-outside p q [] h = refl
at-outside p q ((r, k) ∷ t) h = ground (arith, at-outside p q t)

pub at-outside_apart : (p q : FilePath) (t : Tree) → under p q ≡ false → at q (outside p t) ≡ at q t
unfolding at
at-outside_apart p q [] h = refl
at-outside_apart p q ((r, k) ∷ t) h = ground (arith, at-outside_apart p q t)

abbrev pub lacking : FilePath → Tree → Tree
lacking p t = filter (λ e. not (e.0 == p)) t

pub at-lacking : (p : FilePath) (t : Tree) → at p (lacking p t) ≡ none
unfolding at
at-lacking p [] = refl
at-lacking p ((r, k) ∷ t) = ground (arith, at-lacking p t)

pub at-lacking_apart : (p q : FilePath) (t : Tree) → q ≢ p → at q (lacking p t) ≡ at q t
unfolding at
at-lacking_apart p q [] h = refl
at-lacking_apart p q ((r, k) ∷ t) h = ground (arith, at-lacking_apart p q t)

-- Where an entry has gone, it stays gone.
pub Emptied-at-none :
    {p : FilePath} {t u : Tree} (q : FilePath) → at q t ≡ none → Emptied p t u → at q u ≡ none
unfolding at
Emptied-at-none q h all_seen = refl
Emptied-at-none q h (keep r k e) = ground (arith, Emptied-at-none q _ e)
Emptied-at-none q h (drop r k g n e) = ground (arith, Emptied-at-none q _ e)

pub outside-none : (q p : FilePath) (t : Tree) → at q t ≡ none → at q (outside p t) ≡ none
unfolding at
outside-none q p [] h = refl
outside-none q p ((r, k) ∷ t) h = ground (arith, outside-none q p t)

pub is_empty-outside :
    (p q : FilePath) (t : Tree)
    → ((r : FilePath) → under q r ≡ true → under p r ≡ false)
    → is_empty q (outside p t) ≡ is_empty q t
unfolding is_empty
is_empty-outside p q [] h = refl
is_empty-outside p q ((r, k) ∷ t) h = ground (arith, is_empty-outside p q t h, h r)

make_dirs-keeps :
    (base p q : FilePath) (t : Tree) (k : Kind)
    → at q t ≡ some k
    → at q (make_dirs base p t).0 ≡ some k
unfolding make_dirs at
make_dirs-keeps base [] q t k h = h
make_dirs-keeps base (x ∷ p) q t k h = ground (
  arith,
  make_dirs-keeps (base ++ x ∷ []) p q t k,
  make_dirs-keeps (base ++ x ∷ []) p q ((base ++ x ∷ [], directory) ∷ t) k,
)

pub create_dir_all-keeps :
    (p q : FilePath) (t : Tree) (k : Kind) → at q t ≡ some k → at q (create_dir_all p t).0 ≡ some k
unfolding create_dir_all
create_dir_all-keeps p q t k h = make_dirs-keeps [] p q t k h
