-- ===== src/Hash/Executions.antt =====
-- What two executions with one `execution_hash` have in common.
use rs_runvault.Base.{
  List, [], ◌∷◌, ◌++◌, Option, none, some, Text, arith, ap, ◌≡◌, ◌⊎◌, inl, inr, sym, ◌∙◌,
  append-nil,
}
use rs_runvault.Error.{Result-cases, Result, ok, ◌>>=◌, >>=-eq-ok}
use rs_runvault.Json.{Value}
use rs_runvault.Pointer.{Pointer}
use rs_runvault.Config.{Exclusions, ordered_seeds}
use rs_runvault.Meta.{Hash, Code}
use rs_runvault.Canonical.{Library, canonicalize}
use rs_runvault.Canonical.Framing.{
  join_loop, frames, frames-nil, join_loop-append, frames-injective,
}
use rs_runvault.Hash.{seed_value, seed_loop, seed_blob, code_inputs, execution_hash}
use rs_runvault.Hash.Collisions.{Collision, inputs-eq}

abbrev dirty_digest : Option Hash → Text
dirty_digest none = []
dirty_digest (some h) = h.value

-- Both runs came from code, with the same commit, dirty flag and digest of the working tree, or
-- neither did.
abbrev pub SameCode : Option Code → Option Code → Type 0
SameCode none none = Unit
SameCode none (some d) = ⊥
SameCode (some c) none = ⊥
SameCode (some c) (some d) =
    (c.git_commit ≡ d.git_commit)
    × (c.git_dirty ≡ d.git_dirty)
    × (dirty_digest c.dirty_hash ≡ dirty_digest d.dirty_hash)

code_inputs-injective : (a b : Option Code) → code_inputs a ≡ code_inputs b → SameCode a b
unfolding code_inputs
code_inputs-injective none none e = tt
code_inputs-injective none (some d) e = ground arith
code_inputs-injective (some c) none e = ground arith
code_inputs-injective (some c) (some d) e = (ground arith, ground arith, ground arith)

abbrev six_inputs : Text → Text → Option Code → Text → List Text
six_inputs config seeds code env =
    config ∷ seeds ∷ (code_inputs code).0 ∷ (code_inputs code).1 ∷ (code_inputs code).2 ∷ env ∷ []

same_inputs :
    (a b : Option Code)
    → (code_inputs a).0 ≡ (code_inputs b).0
    → (code_inputs a).1 ≡ (code_inputs b).1
    → (code_inputs a).2 ≡ (code_inputs b).2
    → code_inputs a ≡ code_inputs b
same_inputs a b p q r = λ i. (p i, q i, r i)

module _ (lib : Library) where
  -- The pointer and the canonical value of each seed, in order.
  seed_texts : Value lib.Number → List Pointer → Result (List Text)
  seed_texts v [] = ok []
  seed_texts v (p ∷ ps) = do
    text ← canonicalize lib (seed_value lib v p)
    rest ← seed_texts v ps
    ok (p.raw ∷ text ∷ rest)

  pub seeds_said : Value lib.Number → Exclusions → Result (List Text)
  seeds_said v e = seed_texts v (ordered_seeds e)

  seed_loop-frames :
      (v : Value lib.Number) (ps : List Pointer) (blob : Text)
      → seed_loop lib v blob ps ≡ (seed_texts v ps >>= λ ts. ok (blob ++ frames ts))
  unfolding seed_loop seed_texts join_loop
  seed_loop-frames v [] blob = ap ok (sym (ap (λ t. blob ++ t) frames-nil ∙ append-nil blob))
  seed_loop-frames v (p ∷ ps) blob = elim (Result-cases (canonicalize lib (seed_value lib v p))) [
    | inr (e, x) ↦ ground (arith, x)
    | inl (text, x) ↦ elim (Result-cases (seed_texts v ps)) [
      | inr (e, y) ↦
          ground (arith, x, y, seed_loop-frames v ps (join_loop blob (p.raw ∷ text ∷ [])))
      | inl (ts, y) ↦ ground (
        arith,
        x,
        y,
        seed_loop-frames v ps (join_loop blob (p.raw ∷ text ∷ [])),
        join_loop-append blob (p.raw ∷ text ∷ []) ts,
      )
    ]
  ]

  seed_blob-injective :
      (v w : Value lib.Number) (e f : Exclusions) (s : Text)
      → seed_blob lib v e ≡ ok s
      → seed_blob lib w f ≡ ok s
      → seeds_said v e ≡ seeds_said w f
  unfolding seed_blob seeds_said
  seed_blob-injective v w e f s p q =
      let (ts, x, y) =
        >>=-eq-ok (seed_texts v (ordered_seeds e)) _
          (sym (seed_loop-frames v (ordered_seeds e) []) ∙ p) in
      let (us, z, u) =
        >>=-eq-ok (seed_texts w (ordered_seeds f)) _
          (sym (seed_loop-frames w (ordered_seeds f) []) ∙ q) in
      x ∙ ap ok (frames-injective ts us (cc (y, u))) ∙ sym z

  -- Two executions with one hash have the same condition hash, the same seeds by pointer and
  -- canonical value, the same code (a run without code is never one with code) and the same
  -- environment hash, or else they show a collision.
  pub execution_hash-injective :
      (config config' env env' : Text) (v w : Value lib.Number) (e f : Exclusions)
      (a b : Option Code) (h : Text)
      → execution_hash lib config v e a env ≡ ok h
      → execution_hash lib config' w f b env' ≡ ok h
      → ((config ≡ config') × (seeds_said v e ≡ seeds_said w f) × SameCode a b × (env ≡ env'))
        ⊎ Collision lib
  unfolding execution_hash
  execution_hash-injective config config' env env' v w e f a b h p q =
      let (s, x, y) = >>=-eq-ok (seed_blob lib v e) _ p in
      let (t, z, u) = >>=-eq-ok (seed_blob lib w f) _ q in
      elim (inputs-eq lib (six_inputs config s a env) (six_inputs config' t b env') (cc (y, u))) [
        | inl r ↦ inl (
          cc r,
          seed_blob-injective v w e f s x (z ∙ cc r),
          code_inputs-injective a b (same_inputs a b (cc r) (cc r) (cc r)),
          cc r,
        )
        | inr c ↦ inr c
      ]
