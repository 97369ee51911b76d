-- ===== src/Hash/Collisions.antt =====
-- Equal hashes mean equal inputs, but for a collision of BLAKE3.
use mathlib.Core.Path.{ap₂}
use mathlib.Core.List.{flat_map}
use rs_runvault.Base.{
  ℕ, suc, length-append, List, [], ◌∷◌, ◌++◌, Option, Text, arith, ap, ◌≡◌, ◌≢◌, ◌⊎◌, inl, inr,
  refl, sym, ◌∙◌, nat_eq, list_eq, length, append_cancel, append-nil, map,
}
use rs_runvault.Base.Sort.{sort_on}
use rs_runvault.Base.Order.{pair_ord}
use rs_runvault.Error.{ok, >>=-eq-ok}
use rs_runvault.Json.{Value}
use rs_runvault.Pointer.{prune}
use rs_runvault.Config.{Exclusions, removed_from_config}
use rs_runvault.Meta.{algorithm_str, kind_str, Lock, Dataset, hash_scope_str}
use rs_runvault.Canonical.{Library, canonicalize}
use rs_runvault.Canonical.Framing.{
  join_loop, join_lp, frames, join_loop-append, frames-nil, frames-injective, join_lp-injective,
}
use rs_runvault.Hash.{
  or_empty, lock_key, push_locks, locks_blob, dataset_key, hash_algorithm, hash_value, count_text,
  push_data, data_identity, env_hash, env_input, config_hash,
}

-- Two byte strings with one digest.
abbrev pub Collision : Library → Type 0
Collision lib = (a : Text) × (b : Text) × (a ≢ b) × (lib.blake3_hex a ≡ lib.blake3_hex b)

-- Inputs with one digest of their length-prefixed concatenation are equal, or show a collision.
pub inputs-eq :
    (lib : Library) (xs ys : List Text)
    → lib.blake3_hex (join_lp xs) ≡ lib.blake3_hex (join_lp ys)
    → (xs ≡ ys) ⊎ Collision lib
inputs-eq lib xs ys e = elim (list_eq.dec (join_lp xs) (join_lp ys)) [
  | yes p ↦ inl (join_lp-injective xs ys p)
  | no n ↦ inr (join_lp xs, join_lp ys, n, e)
]

lock_fields : Lock → List Text
lock_fields l = kind_str l.kind ∷ l.file ∷ algorithm_str l.hash.algorithm ∷ l.hash.value ∷ []

push_locks-frames :
    (ls : List Lock) (blob : Text) → push_locks blob ls ≡ blob ++ frames (flat_map lock_fields ls)
unfolding push_locks join_loop flat_map lock_fields
push_locks-frames [] blob = rw (frames-nil, append-nil)
push_locks-frames (l ∷ ls) blob =
    push_locks-frames ls (join_loop blob (lock_fields l))
    ∙ join_loop-append blob (lock_fields l) (flat_map lock_fields ls)

dataset_fields : Dataset → List Text
dataset_fields d =
    d.role
    ∷ d.name
    ∷ or_empty d.dataset_id
    ∷ or_empty d.version
    ∷ or_empty d.split
    ∷ hash_algorithm d.hash
    ∷ hash_value d.hash
    ∷ hash_scope_str d.hash_scope
    ∷ or_empty d.uri
    ∷ count_text d.n
    ∷ []

push_data-frames :
    (ds : List Dataset) (blob : Text)
    → push_data blob ds ≡ blob ++ frames (flat_map dataset_fields ds)
unfolding push_data join_loop flat_map dataset_fields
push_data-frames [] blob = rw (frames-nil, append-nil)
push_data-frames (d ∷ ds) blob =
    push_data-frames ds (join_loop blob (dataset_fields d))
    ∙ join_loop-append blob (dataset_fields d) (flat_map dataset_fields ds)

-- Concatenated records of one size are taken apart again.
chunks {ℓ} :
    {A : Type ℓ} (f : A → List Text) (k : ℕ)
    → ((a : A) → length (f a) ≡ suc k)
    → (xs ys : List A) → flat_map f xs ≡ flat_map f ys
    → map f xs ≡ map f ys
unfolding flat_map
chunks f k h [] [] e = refl
chunks f k h [] (y ∷ ys) e =
    absurd (omega (arith, h y, ap length e, length-append (f y) (flat_map f ys)))
chunks f k h (x ∷ xs) [] e =
    absurd (omega (arith, h x, ap length e, length-append (f x) (flat_map f xs)))
chunks f k h (x ∷ xs) (y ∷ ys) e =
    let (p, q) = append_cancel (f x) (f y) (flat_map f xs) (flat_map f ys) (h x ∙ sym (h y)) e in
    ap₂ ◌∷◌ p (chunks f k h xs ys q)

-- What the blob of some locks says: kind, file, algorithm and digest of each, in order.
pub locks_said : List Lock → List (List Text)
locks_said ls = map lock_fields (sort_on lock_key ls)

locks_blob-injective : (a b : List Lock) → locks_blob a ≡ locks_blob b → locks_said a ≡ locks_said b
unfolding locks_blob locks_said lock_fields
locks_blob-injective a b e =
    chunks lock_fields 3 (λ l. refl) _ _
      (frames-injective _ _ (sym (push_locks-frames _ []) ∙ e ∙ push_locks-frames _ []))

-- What the identity of some datasets says: the ten fields of each, in order.
pub data_said : List Dataset → List (List Text)
data_said ds = map dataset_fields (sort_on dataset_key ds)

data_identity-injective :
    (a b : List Dataset) → data_identity a ≡ data_identity b → data_said a ≡ data_said b
unfolding data_identity data_said dataset_fields
data_identity-injective a b e =
    chunks dataset_fields 9 (λ d. refl) _ _
      (frames-injective _ _ (sym (push_data-frames _ []) ∙ e ∙ push_data-frames _ []))

module _ (lib : Library) where
  -- Equal environment hashes mean the same system, architecture and toolchain versions, where an
  -- absent version counts as an empty one, and the same locks, or else they show a collision.
  pub env_hash-injective :
      (os arch os' arch' : Text) (rustc python rustc' python' : Option Text) (a b : List Lock)
      → env_hash lib os arch rustc python a ≡ env_hash lib os' arch' rustc' python' b
      → ((os ≡ os')
          × (arch ≡ arch')
          × (or_empty rustc ≡ or_empty rustc')
          × (or_empty python ≡ or_empty python')
          × (locks_said a ≡ locks_said b))
        ⊎ Collision lib
  unfolding env_hash env_input
  env_hash-injective os arch os' arch' rustc python rustc' python' a b e =
      elim (inputs-eq lib _ _ e) [
        | inl p ↦ inl ((cc), (cc), (cc), (cc), locks_blob-injective a b (cc))
        | inr c ↦ inr c
      ]

  -- Two conditions with one hash have the same canonical parameters after the exclusions and the
  -- same datasets in every field that is hashed, or else they show a collision.
  pub config_hash-injective :
      (v w : Value lib.Number) (e f : Exclusions) (a b : List Dataset) (h : Text)
      → config_hash lib v e a ≡ ok h
      → config_hash lib w f b ≡ ok h
      → ((canonicalize lib (prune v (removed_from_config e))
            ≡ canonicalize lib (prune w (removed_from_config f)))
          × (data_said a ≡ data_said b))
        ⊎ Collision lib
  unfolding config_hash
  config_hash-injective v w e f a b h p q =
      let (s, x, y) = >>=-eq-ok (canonicalize lib (prune v (removed_from_config e))) _ p in
      let (t, z, u) = >>=-eq-ok (canonicalize lib (prune w (removed_from_config f))) _ q in
      elim (inputs-eq lib (s ∷ data_identity a ∷ []) (t ∷ data_identity b ∷ []) (cc (y, u))) [
        | inl r ↦ inl (x ∙ ap ok (cc r) ∙ sym z, data_identity-injective a b (cc r))
        | inr c ↦ inr c
      ]
