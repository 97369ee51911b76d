-- ===== src/Base/Sort.antt =====
-- `sort_by` on a key. A stable sort has one result, so insertion sort stands for Rust's.
use mathlib.Core.Path.{ap₂}
use mathlib.Core.List.{Permᴰ}
use mathlib.Core.List.Permᴰ as PermD
use rs_runvault.Base.{
  ◌≡◌, ◌≢◌, refl, sym, ◌∙◌, ap, subst, List, [], ◌∷◌, arith, All, Bool-cases, inl, inr, true,
  if◌then◌else◌,
}
use rs_runvault.Base.Order.{Ord}

module _ {ℓ κ} {A : Type ℓ} {K : Type κ} ⦃o : Ord K⦄ (key : A → K) where
  pub insert : A → List A → List A
  insert x [] = x ∷ []
  insert x (y ∷ l) = if o.le (key x) (key y) then x ∷ y ∷ l else y ∷ insert x l

  unfoldable pub sort_on : List A → List A
  unfolding insert
  sort_on [] = []
  sort_on (x ∷ l) = insert x (sort_on l)

  -- No two keys are equal.
  abbrev pub Distinct : List A → Type κ
  Distinct [] = Unit
  Distinct (x ∷ l) = All (λ y. key x ≢ key y) l × Distinct l

  insert_comm :
      (x y : A) (l : List A) → key x ≢ key y → insert x (insert y l) ≡ insert y (insert x l)
  unfolding insert
  insert_comm x y [] h = ground (arith, o.total (key x) (key y), o.antisym (key x) (key y))
  insert_comm x y (z ∷ l) h = ground (
    arith,
    insert_comm x y l,
    o.total (key x) (key y),
    o.antisym (key x) (key y),
    o.le_trans (key x) (key y) (key z),
    o.le_trans (key y) (key x) (key z),
  )

  pub All-perm {μ} : (P : A → Type μ) {xs ys : List A} → Permᴰ xs ys → All P xs → All P ys
  All-perm P PermD.nil h = h
  All-perm P (PermD.cons e d) (p, h) = (subst P e p, All-perm P d h)
  All-perm P (PermD.swap e f) (p, (q, h)) = (subst P f q, (subst P e p, h))
  All-perm P (PermD.trans d f) h = All-perm P f (All-perm P d h)

  pub Distinct-perm : {xs ys : List A} → Permᴰ xs ys → Distinct xs → Distinct ys
  Distinct-perm PermD.nil h = h
  Distinct-perm (PermD.cons {l₂ = l₂} e d) (p, h) = (
    subst (λ a. All (λ y. key a ≢ key y) l₂) e (All-perm (λ y. key _ ≢ key y) d p),
    Distinct-perm d h,
  )
  Distinct-perm (PermD.swap {l = l} e f) ((n, p), (q, h)) = (
    (λ r. n (ap key e ∙ sym r ∙ ap key (sym f)), subst (λ a. All (λ y. key a ≢ key y) l) f q),
    (subst (λ a. All (λ y. key a ≢ key y) l) e p, h),
  )
  Distinct-perm (PermD.trans d f) h = Distinct-perm f (Distinct-perm d h)

  -- The order of the input does not matter where no two keys are equal.
  pub sort_on-perm : {xs ys : List A} → Permᴰ xs ys → Distinct xs → sort_on xs ≡ sort_on ys
  unfolding sort_on
  sort_on-perm PermD.nil h = refl
  sort_on-perm (PermD.cons e d) (p, h) = ap₂ insert e (sort_on-perm d h)
  sort_on-perm (PermD.swap {a} {b} {l = l} e f) ((n, p), (q, h)) =
      insert_comm a b (sort_on l) n ∙ ap₂ (λ x y. insert x (insert y (sort_on l))) f e
  sort_on-perm (PermD.trans d f) h = sort_on-perm d h ∙ sort_on-perm f (Distinct-perm d h)

  -- Each key is at most every later one.
  abbrev pub Sorted : List A → Type κ
  Sorted [] = Unit
  Sorted (x ∷ l) = All (λ y. o.le (key x) (key y) ≡ true) l × Sorted l

  pub insert-perm : (x : A) (l : List A) → Permᴰ (insert x l) (x ∷ l)
  unfolding insert
  insert-perm x [] = PermD.refl (x ∷ [])
  insert-perm x (y ∷ l) = elim (Bool-cases (o.le (key x) (key y))) [
    | inl e ↦ rw e (PermD.refl (x ∷ y ∷ l))
    | inr e ↦ rw e (PermD.trans (PermD.cons refl (insert-perm x l)) (PermD.swap refl refl))
  ]

  -- Sorting keeps the elements.
  pub sort_on-Perm : (l : List A) → Permᴰ (sort_on l) l
  unfolding sort_on
  sort_on-Perm [] = PermD.nil
  sort_on-Perm (x ∷ l) = PermD.trans (insert-perm x (sort_on l)) (PermD.cons refl (sort_on-Perm l))

  All-le :
      (x y : A) (l : List A)
      → o.le (key x) (key y) ≡ true
      → All (λ z. o.le (key y) (key z) ≡ true) l
      → All (λ z. o.le (key x) (key z) ≡ true) l
  All-le x y [] h k = tt
  All-le x y (z ∷ l) h (p, k) = (o.le_trans _ _ _ h p, All-le x y l h k)

  insert-Sorted : (x : A) (l : List A) → Sorted l → Sorted (insert x l)
  unfolding insert
  insert-Sorted x [] h = (tt, tt)
  insert-Sorted x (y ∷ l) (p, h) = elim (Bool-cases (o.le (key x) (key y))) [
    | inl e ↦ rw e (((e, All-le x y l e p), (p, h)))
    | inr e ↦ rw e (
      All-perm (λ z. o.le (key y) (key z) ≡ true) (PermD.symm (insert-perm x l))
          (ground (arith, o.total (key x) (key y), e), p),
      insert-Sorted x l h,
    )
  ]

  -- Sorting puts the keys in order.
  pub sort_on-Sorted : (l : List A) → Sorted (sort_on l)
  unfolding sort_on
  sort_on-Sorted [] = tt
  sort_on-Sorted (x ∷ l) = insert-Sorted x (sort_on l) (sort_on-Sorted l)
