-- ===== src/Tree.antt =====
-- The part of `std::fs` that the crate uses to look at a file tree and to take parts of it away. A
-- tree lists its entries, each with its path. Contents are not kept.
pub mod Laws
use rs_runvault.Base.{
  Bool, true, false, not, ◌&&◌, ◌||◌, List, [], ◌∷◌, ◌++◌, Option, none, some, Text, ◌==◌, nat_eq,
  list_eq, filter, all, if◌then◌else◌,
}
use rs_runvault.Error.{Result, ok, err, io, Effect}

-- A path, by its components.
abbrev pub FilePath : Type 0
FilePath = List Text

-- What is not a directory, a symbolic link too, is a leaf.
pub data Kind : Type 0 where
  directory leaf : Kind

abbrev pub Tree : Type 0
Tree = List (FilePath × Kind)

abbrev pub shown : FilePath → Text
shown [] = []
shown (x ∷ p) = x ++ b'/' ∷ shown p

unfoldable pub at : FilePath → Tree → Option Kind
at p [] = none
at p ((q, k) ∷ t) = let later = at p t in if q == p then some k else later

abbrev present : Option Kind → Bool
present none = false
present (some k) = true

-- `FilePath::exists`
unfoldable pub exists : FilePath → Tree → Bool
exists p t = present (at p t)

abbrev dir_kind : Option Kind → Bool
dir_kind (some directory) = true
dir_kind (some leaf) = false
dir_kind none = false

-- `FilePath::is_dir`
unfoldable pub is_dir : FilePath → Tree → Bool
is_dir p t = dir_kind (at p t)

-- `under p q`: q is p, or stands below it.
unfoldable pub under : FilePath → FilePath → Bool
under [] q = true
under (x ∷ p) [] = false
under (x ∷ p) (y ∷ q) = x == y && under p q

-- `remove_dir_all`
unfoldable pub remove_dir_all : FilePath → Tree → Effect Tree
remove_dir_all p t =
    if is_dir p t then (filter (λ e. not (under p e.0)) t, ok tt) else (t, err (io (shown p)))

-- `remove_file`, where `NotFound` is success
unfoldable pub unlink : FilePath → Tree → Effect Tree
unlink p t = elim (at p t) [
  | none ↦ (t, ok tt)
  | some directory ↦ (t, err (io (shown p)))
  | some leaf ↦ (filter (λ e. not (e.0 == p)) t, ok tt)
]

-- `read_dir(p).next().is_none()`
unfoldable pub is_empty : FilePath → Tree → Bool
is_empty p t = all (λ e. not (under p e.0) || e.0 == p) t

-- `remove_dir` of an empty directory
unfoldable pub remove_dir : FilePath → Tree → Effect Tree
remove_dir p t = (filter (λ e. not (e.0 == p)) t, ok tt)

make_dirs : FilePath → FilePath → Tree → Effect Tree
make_dirs base [] t = (t, ok tt)
make_dirs base (x ∷ p) t = elim (at (base ++ x ∷ []) t) [
  | none ↦ make_dirs (base ++ x ∷ []) p ((base ++ x ∷ [], directory) ∷ t)
  | some directory ↦ make_dirs (base ++ x ∷ []) p t
  | some leaf ↦ (t, err (io (shown (base ++ x ∷ []))))
]

-- `create_dir_all`
unfoldable pub create_dir_all : FilePath → Tree → Effect Tree
unfolding make_dirs
create_dir_all p t = make_dirs [] p t
