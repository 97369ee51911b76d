-- ===== src/Canonical/Order.antt =====
-- `canonicalize` of crates/runvault/src/canonical.rs does not look at the order of the members.
use mathlib.Core.Logic.{∥∥₁_elim}
use mathlib.Core.List
use mathlib.Core.List.{Perm, Permᴰ}
use mathlib.Core.List.Permᴰ as PermD
use rs_runvault.Base.{
  true, false, List, [], ◌∷◌, ◌++◌, Text, list_eq, if◌then◌else◌, ◌≡◌, ◌≢◌, refl, sym, ◌∙◌, ap,
  subst, arith, All, Bool-cases, inl, inr,
}
use rs_runvault.Base.Order.{text_ord}
use rs_runvault.Base.Sort.{
  sort_on, Distinct, Sorted, sort_on-perm, sort_on-Perm, sort_on-Sorted, Distinct-perm,
}
use rs_runvault.Error.{Result, ok, err, canonical, duplicate_key, ◌>>=◌}
use rs_runvault.Json.{Value, object, Members, end, member}
use rs_runvault.Canonical.{
  Library, has_duplicate, write_each, write_member, write_value, write_members, canonicalize,
}

Result-set : IsSet (Result Text)
Result-set = hlevel

abbrev Entry : Type 0
Entry = Text × Result Text

abbrev key : Entry → Text
key p = p.0

-- A key below the least of some keys is none of them.
below-apart :
    (j k : Text) (l : List Entry)
    → j ≢ k
    → text_ord.le j k ≡ true
    → All (λ y. text_ord.le k (key y) ≡ true) l
    → All (λ y. j ≢ key y) l
below-apart j k [] n h a = tt
below-apart j k (y ∷ l) n h (p, a) = (
  (λ e. n (text_ord.antisym j k h (subst (λ t. text_ord.le k t ≡ true) (sym e) p))),
  below-apart j k l n h a,
)

has_duplicate-Distinct : (l : List Entry) → Sorted key l → has_duplicate l ≡ false → Distinct key l
unfolding has_duplicate
has_duplicate-Distinct [] h n = tt
has_duplicate-Distinct (x ∷ []) h n = (tt, tt)
has_duplicate-Distinct ((j, s) ∷ (k, t) ∷ l) ((a, b), (c, h)) n = (
  ((λ e. ground arith), below-apart j k l (λ e. ground arith) a c),
  has_duplicate-Distinct ((k, t) ∷ l) (c, h) (ground arith),
)

same_or_repeat :
    {a b : List Entry}
    → Permᴰ a b
    → has_duplicate (sort_on key a) ≡ false
    → sort_on key a ≡ sort_on key b
same_or_repeat {a} d n = sort_on-perm key d (
    Distinct-perm key (sort_on-Perm key a)
      (has_duplicate-Distinct (sort_on key a) (sort_on-Sorted key a) n))

module _ (lib : Library) where
  open lib use {Number}

  -- An object of the members of a list.
  abbrev pub members : List (Text × Value Number) → Members Number
  members [] = end
  members ((k, v) ∷ l) = member k v (members l)

  abbrev entry : Text × Value Number → Entry
  entry p = (lib.nfc p.0, write_value lib p.1)

  write_members-map :
      (l : List (Text × Value Number)) → write_members lib (members l) ≡ List.map entry l
  unfolding write_members
  write_members-map [] = refl
  write_members-map ((k, v) ∷ l) =
      ap (λ r. (lib.nfc k, write_value lib v) ∷ r) (write_members-map l)

  -- What is written of an object, of the entries of its members.
  abbrev write_entries : List Entry → Result Text
  write_entries entries =
      let keys = sort_on key entries in
      if has_duplicate keys
      then err (canonical duplicate_key)
      else do text ← write_each true (List.map write_member keys); ok (b'{' ∷ (text ++ b'}' ∷ []))

  write_entries-perm : {a b : List Entry} → Permᴰ a b → write_entries a ≡ write_entries b
  write_entries-perm {a} {b} d = elim (Bool-cases (has_duplicate (sort_on key a))) [
    | inr e ↦ rw (same_or_repeat d e)
    | inl e ↦ elim (Bool-cases (has_duplicate (sort_on key b))) [
      | inr f ↦ rw (same_or_repeat (PermD.symm d) f)
      | inl f ↦ rw (e, f)
    ]
  ]

  canonicalize-members :
      (l : List (Text × Value Number))
      → canonicalize lib (object (members l)) ≡ write_entries (List.map entry l)
  unfolding canonicalize write_value
  canonicalize-members l = ap write_entries (write_members-map l)

  -- The order in which an object lists its members does not matter, neither for the text nor for
  -- the error.
  pub canonicalize-perm :
      {a b : List (Text × Value Number)}
      → Perm a b
      → canonicalize lib (object (members a)) ≡ canonicalize lib (object (members b))
  canonicalize-perm {a} {b} p =
      canonicalize-members a
      ∙ ∥∥₁_elim p (Result-set _ _) (λ d. write_entries-perm (PermD.map entry d))
      ∙ sym (canonicalize-members b)
