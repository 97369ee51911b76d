-- ===== src/Run/Names.antt =====
-- Which name the directory of a run gets.
use rs_runvault.Base.{
  ℕ, zero, suc, ◌+◌, ◌≤◌, ◌<◌, Option, none, some, Text, ◌≡◌, ◌≢◌, ◌⊎◌, inl, inr, refl, sym, subst,
  ℕ_discrete, arith, Option-cases,
}
use rs_runvault.Error.{ok, Error}
use rs_runvault.Run.Start.{
  Creation, created, already_exists, create_failed, slug_of, try_suffixes, create_run_dir,
}

Creation-cases :
    (c : Creation) → (c ≡ created) ⊎ (c ≡ already_exists) ⊎ ((e : Error) × (c ≡ create_failed e))
Creation-cases created = inl refl
Creation-cases already_exists = inr (inl refl)
Creation-cases (create_failed e) = inr (inr (e, refl))

module _ (create_dir : Text → Creation)
    (subcommand timestamp config_hash execution_hash : Text) where
  -- A directory with this suffix is there already.
  abbrev pub Taken : Option ℕ → Type 0
  Taken index =
      (slug : Text) × (slug_of create_dir subcommand timestamp config_hash execution_hash index
        ≡ some slug)
      × (create_dir slug ≡ already_exists)

  -- The directory that was made, with the first suffix that was free.
  pub record IsFirst (slug : Text) (index : Option ℕ) : Type 0 where
    pub named : slug_of create_dir subcommand timestamp config_hash execution_hash index ≡ some slug
    pub made : create_dir slug ≡ created
    pub plain_taken : index ≢ none → Taken none
    pub in_range : (n : ℕ) → index ≡ some n → (2 ≤ n) × (n ≤ 999)
    pub earlier_taken : (n k : ℕ) → index ≡ some n → 2 ≤ k → k < n → Taken (some k)

  try_suffixes-first :
      (left n : ℕ) {slug : Text} {index : Option ℕ}
      → try_suffixes create_dir subcommand timestamp config_hash execution_hash left n
        ≡ some (ok (slug, index))
      → (m : ℕ) × (index ≡ some m)
        × (n ≤ m)
        × (m < n + left)
        × (slug_of create_dir subcommand timestamp config_hash execution_hash (some m) ≡ some slug)
        × (create_dir slug ≡ created)
        × ((k : ℕ) → n ≤ k → k < m → Taken (some k))
  unfolding try_suffixes
  try_suffixes-first zero n e = cc
  try_suffixes-first (suc left) n {slug} {index} e =
      elim (Option-cases
        (slug_of create_dir subcommand timestamp config_hash execution_hash (some n))) [
          | inl a ↦ absurd (ground (arith, a, e))
          | inr (name, a) ↦ elim (Creation-cases (create_dir name)) [
            | inl b ↦ (
              n,
              ground (arith, a, b, e),
              omega arith,
              omega arith,
              ground (arith, a, b, e),
              ground (arith, a, b, e),
              λ k p q. absurd (omega arith),
            )
            | inr (inl b) ↦
                let (m, c, d, f, g, h, l) =
                  try_suffixes-first left (suc n) {slug = slug} {index = index}
                    (ground (arith, a, b, e)) in
                (
                  m,
                  c,
                  omega arith,
                  omega arith,
                  g,
                  h,
                  λ k p q. elim (ℕ_discrete k n) [
                    | yes r ↦ subst (λ i. Taken (some i)) (sym r) (name, a, b)
                    | no r ↦ l k (omega arith) q
                  ],
                )
            | inr (inr (x, b)) ↦ absurd (ground (arith, a, b, e))
          ]
        ]

-- When `create_run_dir` succeeds, it has made the directory of the name that it returns, without a
-- suffix or with one from 2 to 999, and the directories of the names that come before are all there
-- already: the one without a suffix, and those with a smaller one.
pub create_run_dir-IsFirst :
    (create_dir : Text → Creation) (subcommand timestamp config_hash execution_hash slug : Text)
    (index : Option ℕ)
    → create_run_dir create_dir subcommand timestamp config_hash execution_hash
      ≡ some (ok (slug, index))
    → IsFirst create_dir subcommand timestamp config_hash execution_hash slug index
unfolding create_run_dir
create_run_dir-IsFirst create_dir subcommand timestamp config_hash execution_hash slug index e =
    elim (Option-cases (slug_of create_dir subcommand timestamp config_hash execution_hash none)) [
      | inl a ↦ absurd (ground (arith, a, e))
      | inr (name, a) ↦ elim (Creation-cases (create_dir name)) [
        | inl b ↦ record {
          named =
              subst
                (λ i.
                  slug_of create_dir subcommand timestamp config_hash execution_hash i ≡ some slug)
                {x = none} {y = index} (ground (arith, a, b, e)) (ground (arith, a, b, e));
          made = ground (arith, a, b, e);
          plain_taken = λ p. absurd (p (ground (arith, a, b, e)));
          in_range = λ n p. absurd (ground (arith, a, b, e, p));
          earlier_taken = λ n k p q r. absurd (ground (arith, a, b, e, p));
        }
        | inr (inl b) ↦
            let (m, c, d, f, g, h, l) =
              try_suffixes-first create_dir subcommand timestamp config_hash execution_hash 998 2
                {slug = slug} {index = index} (ground (arith, a, b, e)) in
            record {
              named = rw c g;
              made = h;
              plain_taken = λ p. (name, a, b);
              in_range = λ n p. let s : n ≡ m = ground (arith, p, c) in (omega arith, omega arith);
              earlier_taken =
                  λ n k p q r. l k q (let s : n ≡ m = ground (arith, p, c) in omega arith);
            }
        | inr (inr (x, b)) ↦ absurd (ground (arith, a, b, e))
      ]
    ]
