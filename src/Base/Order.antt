-- ===== src/Base/Order.antt =====
-- Total orders given by a Boolean test: bytes, byte strings and pairs of keys.
use rs_runvault.Base.{
  ◌≡◌, refl, ◌⊎◌, inl, inr, Bool, true, false, ◌||◌, ◌&&◌, [], ◌∷◌, arith, Text, ltb, ◌==◌, nat_eq,
  list_eq, if◌then◌else◌,
}

pub record Ord {ℓ} (K : Type ℓ) : Type ℓ where
  pub le : K → K → Bool
  pub total : (a b : K) → (le a b ≡ true) ⊎ (le b a ≡ true)
  pub antisym : (a b : K) → le a b ≡ true → le b a ≡ true → a ≡ b
  pub le_trans : (a b c : K) → le a b ≡ true → le b c ≡ true → le a c ≡ true

-- The lexicographic order of bytes, `Ord for str`.
unfoldable pub text_le : Text → Text → Bool
text_le [] t = true
text_le (a ∷ s) [] = false
text_le (a ∷ s) (b ∷ t) = ltb a b || (a == b && text_le s t)

pub text_le-total : (s t : Text) → (text_le s t ≡ true) ⊎ (text_le t s ≡ true)
unfolding text_le
text_le-total [] t = inl refl
text_le-total (a ∷ s) [] = inr refl
text_le-total (a ∷ s) (b ∷ t) = ground (arith, text_le-total s t)

pub text_le-antisym : (s t : Text) → text_le s t ≡ true → text_le t s ≡ true → s ≡ t
unfolding text_le
text_le-antisym [] [] h k = refl
text_le-antisym [] (b ∷ t) h k = cc
text_le-antisym (a ∷ s) [] h k = cc
text_le-antisym (a ∷ s) (b ∷ t) h k = ground (arith, text_le-antisym s t)

pub text_le_trans : (s t u : Text) → text_le s t ≡ true → text_le t u ≡ true → text_le s u ≡ true
unfolding text_le
text_le_trans [] t u h k = refl
text_le_trans (a ∷ s) [] u h k = cc
text_le_trans (a ∷ s) (b ∷ t) [] h k = cc
text_le_trans (a ∷ s) (b ∷ t) (c ∷ u) h k = ground (arith, text_le_trans s t u)

instance unfoldable pub text_ord : Ord Text
unfolding text_le
text_ord = record {
  le = text_le;
  total = text_le-total;
  antisym = text_le-antisym;
  le_trans = text_le_trans;
}

-- The order of a tuple of two keys: the first decides unless it is equal.
unfoldable pub pair_le : Text × Text → Text × Text → Bool
pair_le (a, b) (c, d) = if a == c then text_le b d else text_le a c

pub pair_le-total : (p q : Text × Text) → (pair_le p q ≡ true) ⊎ (pair_le q p ≡ true)
unfolding pair_le
pair_le-total (a, b) (c, d) = ground (arith, text_le-total a c, text_le-total b d)

pub pair_le-antisym : (p q : Text × Text) → pair_le p q ≡ true → pair_le q p ≡ true → p ≡ q
unfolding pair_le
pair_le-antisym (a, b) (c, d) h k = ground (arith, text_le-antisym a c, text_le-antisym b d)

pub pair_le_trans :
    (p q r : Text × Text) → pair_le p q ≡ true → pair_le q r ≡ true → pair_le p r ≡ true
unfolding pair_le
pair_le_trans (a, b) (c, d) (e, f) h k =
    ground (arith, text_le_trans a c e, text_le_trans b d f, text_le-antisym a c)

instance unfoldable pub pair_ord : Ord (Text × Text)
unfolding pair_le
pair_ord = record {
  le = pair_le;
  total = pair_le-total;
  antisym = pair_le-antisym;
  le_trans = pair_le_trans;
}
