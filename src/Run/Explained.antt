-- ===== src/Run/Explained.antt =====
-- Where descriptions are required, a run says what all of its metrics mean.
use rs_runvault.Base.{
  Bool, true, false, List, [], ◌∷◌, some, Text, filter, ◌≡◌, refl, ◌∙◌, All, arith, Bool-cases, inl,
  inr,
}
use rs_runvault.Error.{ok}
use rs_runvault.Canonical.{Library}
use rs_runvault.Verify.Lines.{Jsonl, Comparison}
use rs_runvault.Vocabulary.{Vocabulary, is_reserved}
use rs_runvault.Metrics.{Declaration, describes, resolve}
use rs_runvault.Metrics.Described.{undescribed, resolve_accounts}
use rs_runvault.Run.{Run, check_metric_described}
use rs_runvault.Run.Recorded.{IsConsistent}

filter-none {κ} :
    (p : Text → Bool) (P : Text → Type κ) (xs : List Text)
    → ((x : Text) → P x → p x ≡ false)
    → All P xs
    → filter p xs ≡ []
filter-none p P [] f h = refl
filter-none p P (x ∷ xs) f (a, h) = ground (arith, f x a, filter-none p P xs f h)

described_name :
    (lib : Library) (v : Vocabulary) (r : Run lib) (d : Declaration lib.Float) (name : Text)
    → r.declaration ≡ some d
    → r.root_known ≡ true
    → d.require_docs ≡ true
    → check_metric_described lib v r name ≡ ok tt
    → undescribed v d name ≡ false
unfolding check_metric_described
described_name lib v r d name e k q h = elim (Bool-cases (is_reserved v name)) [
  | inl a ↦ ground (arith, a)
  | inr a ↦ elim (Bool-cases (describes d name)) [
    | inl b ↦ ground (arith, a, b)
    | inr b ↦ absurd (ground (arith, e, k, q, h, a, b))
  ]
]

-- If a run is consistent, and its repository is known and requires descriptions, then the metadata
-- of its metrics leaves no name undescribed.
pub resolve-explained :
    (lib : Library) (v : Vocabulary) (comparison : Comparison lib.Float) (lines : Jsonl lib.Number)
    (r : Run lib) (d : Declaration lib.Float)
    → IsConsistent lib v comparison lines r
    → r.declaration ≡ some d
    → r.root_known ≡ true
    → d.require_docs ≡ true
    → (resolve v d r.metric_names).undescribed ≡ []
resolve-explained lib v comparison lines r d h e k q =
    (resolve_accounts v d r.metric_names).2
    ∙ filter-none (undescribed v d) (λ name. check_metric_described lib v r name ≡ ok tt)
        r.metric_names (λ name. described_name lib v r d name e k q) h.named
