-- ===== src/Pointer/Prune.antt =====
-- What `prune` takes away, and what it leaves.
use mathlib.Core.Option
use rs_runvault.Base.{
  ℕ, suc, Bool, true, false, ◌||◌, List, [], ◌∷◌, ◌++◌, append_assoc, Option, none, some, Text,
  arith, map, ◌==◌, nat_eq, list_eq, contains, if◌then◌else◌, ◌≡◌, ◌≢◌, refl, ap, subst, append-nil,
  Option-cases, inl, inr,
}
use rs_runvault.Base.Decimal.{decimal}
use rs_runvault.Json.{
  Value, null, bool, number, string, array, object, Items, nil, cons, Members, end, member,
}
use rs_runvault.Pointer.{Pointer, pointer_eq, get, rebuild, rebuild_members, rebuild_items, prune}

module _ {N : Type 0} (w : Value N) where
  -- The document with the value `w` in the place that a path names, and the same document where
  -- the path leads nowhere. An array is entered by the decimal index.
  unfoldable mutual
    pub replace : List Text → Value N → Value N
    replace [] v = w
    replace (t ∷ ts) (object map) = object (replace_members t ts map)
    replace (t ∷ ts) (array items) = array (replace_items t ts 0 items)
    replace (t ∷ ts) null = null
    replace (t ∷ ts) (bool b) = bool b
    replace (t ∷ ts) (number n) = number n
    replace (t ∷ ts) (string s) = string s

    replace_members : Text → List Text → Members N → Members N
    replace_members t ts end = end
    replace_members t ts (member key item rest) =
        member key (if t == key then replace ts item else item) (replace_members t ts rest)

    replace_items : Text → List Text → ℕ → Items N → Items N
    replace_items t ts i nil = nil
    replace_items t ts i (cons item rest) =
        cons (if t == decimal i then replace ts item else item) (replace_items t ts (suc i) rest)

  module _ (remove : List (List Text)) where
    mutual
      unfolding rebuild replace

      rebuild-replace :
          (path : List Text) (t : Text) (ts : List Text) (v : Value N)
          → contains remove (path ++ t ∷ ts) ≡ true
          → rebuild remove path (replace (t ∷ ts) v) ≡ rebuild remove path v
      rebuild-replace path t ts (object map) h = ap object (rebuild-replace_members path t ts map h)
      rebuild-replace path t ts (array items) h =
          ap array (rebuild-replace_items path t ts 0 items h)
      rebuild-replace path t ts null h = refl
      rebuild-replace path t ts (bool b) h = refl
      rebuild-replace path t ts (number n) h = refl
      rebuild-replace path t ts (string s) h = refl

      rebuild-replace_members :
          (path : List Text) (t : Text) (ts : List Text) (map : Members N)
          → contains remove (path ++ t ∷ ts) ≡ true
          → rebuild_members remove path (replace_members t ts map) ≡ rebuild_members remove path map
      rebuild-replace_members path t ts end h = refl
      rebuild-replace_members path t [] (member key item rest) h =
          ground (arith, rebuild-replace_members path t [] rest h)
      rebuild-replace_members path t (u ∷ us) (member key item rest) h = ground (
        arith,
        rebuild-replace_members path t (u ∷ us) rest h,
        rebuild-replace (path ++ key ∷ []) u us item,
        append_assoc path (key ∷ []) (u ∷ us),
      )

      rebuild-replace_items :
          (path : List Text) (t : Text) (ts : List Text) (i : ℕ) (items : Items N)
          → contains remove (path ++ t ∷ ts) ≡ true
          → rebuild_items remove path i (replace_items t ts i items)
            ≡ rebuild_items remove path i items
      rebuild-replace_items path t ts i nil h = refl
      rebuild-replace_items path t [] i (cons item rest) h =
          ground (arith, rebuild-replace_items path t [] (suc i) rest h)
      rebuild-replace_items path t (u ∷ us) i (cons item rest) h = ground (
        arith,
        rebuild-replace_items path t (u ∷ us) (suc i) rest h,
        rebuild-replace (path ++ decimal i ∷ []) u us item,
        append_assoc path (decimal i ∷ []) (u ∷ us),
      )

contains-map :
    (remove : List Pointer) (p : Pointer)
    → contains remove p ≡ true
    → contains (map (λ q. q.tokens) remove) p.tokens ≡ true
contains-map [] p h = h
contains-map (q ∷ remove) p h = ground (arith, contains-map remove p)

pub prune-replace :
    {N : Type 0} (w root : Value N) (remove : List Pointer) (p : Pointer)
    → contains remove p ≡ true
    → p.tokens ≢ []
    → prune (replace w p.tokens root) remove ≡ prune root remove
unfolding prune
prune-replace w root remove p h n = go p.tokens refl
  where
    go :
        (ts : List Text)
        → p.tokens ≡ ts
        → prune (replace w p.tokens root) remove ≡ prune root remove
    go [] e = absurd (n e)
    go (t ∷ ts) e = rw e (
        rebuild-replace w (map (λ q. q.tokens) remove) [] t ts root
          (subst (λ u. contains (map (λ q. q.tokens) remove) u ≡ true) e (contains-map remove p h)))

module _ (remove : List (List Text)) where
  -- Whether a removed path stands between `path` and its extension by the tokens.
  pub blocked : List Text → List Text → Bool
  blocked path [] = false
  blocked path (t ∷ ts) =
      let deeper = blocked (path ++ t ∷ []) ts in contains remove (path ++ t ∷ []) || deeper

module _ {N : Type 0} where
  -- The value at a path of object keys.
  pub walk : List Text → Value N → Option (Value N)
  walk [] v = some v
  walk (t ∷ ts) (object map) = elim (get t map) [ none ↦ none | some next ↦ walk ts next ]
  walk (t ∷ ts) _ = none

  module _ (remove : List (List Text)) where
    get-rebuild_members :
        (path : List Text) (t : Text) (map : Members N)
        → get t (rebuild_members remove path map) ≡ (
            if contains remove (path ++ t ∷ [])
            then none
            else Option.map (rebuild remove (path ++ t ∷ [])) (get t map))
    unfolding rebuild get
    get-rebuild_members path t end = ground arith
    get-rebuild_members path t (member key item rest) =
        ground (arith, get-rebuild_members path t rest)

    walk-rebuild :
        (ts path : List Text) (v : Value N)
        → walk ts (rebuild remove path v) ≡ (
            if blocked remove path ts
            then none
            else Option.map (rebuild remove (path ++ ts)) (walk ts v))
    unfolding rebuild walk blocked
    walk-rebuild [] path v = rw append-nil
    walk-rebuild (t ∷ ts) path (object m) = elim (Option-cases (get t m)) [
      | inl e ↦ ground (arith, e, get-rebuild_members path t m)
      | inr (v, e) ↦ ground (
        arith,
        e,
        get-rebuild_members path t m,
        append_assoc path (t ∷ []) ts,
        walk-rebuild ts (path ++ t ∷ []) v,
      )
    ]
    walk-rebuild (t ∷ ts) path _ = ground arith

abbrev pub tokens_of : List Pointer → List (List Text)
tokens_of = map (λ p. p.tokens)

-- Along object keys, `prune` takes away the places that a removed pointer names or leads to, keeps
-- every other place, and what it keeps there is the pruned value.
pub walk-prune :
    {N : Type 0} (ts : List Text) (root : Value N) (remove : List Pointer)
    → walk ts (prune root remove) ≡ (
        if blocked (tokens_of remove) [] ts
        then none
        else Option.map (rebuild (tokens_of remove) ts) (walk ts root))
unfolding prune
walk-prune ts root remove = walk-rebuild (tokens_of remove) ts [] root
