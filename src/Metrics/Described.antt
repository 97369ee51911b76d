-- ===== src/Metrics/Described.antt =====
-- What a run says of its metrics agrees with what it was allowed to record.
use rs_runvault.Base.{
  Bool, not, ◌&&◌, List, [], ◌∷◌, ◌++◌, append_assoc, append-nil, some, none, Text, length, filter,
  ◌≡◌, refl, sym, ap, ◌∙◌, arith, Bool-cases, Option-cases, inl, inr, if◌then◌else◌,
}
use rs_runvault.Verify.{is_some}
use rs_runvault.Verify.Walk.{get}
use rs_runvault.Vocabulary.{Vocabulary, is_reserved}
use rs_runvault.Metrics.Tally.{
  tally, tally_counts, matched-tally_counts, bump, bump_closed, bump-none, bump-count_at, add,
  add-bump, add-none, add-zeroes, length-bump, zeroes-length,
}
use rs_runvault.Metrics.{
  MetricDoc, MetricPattern, Declaration, Gathered, position, any_matches, zeroes, matched,
  describes, gather, gather_all, resolve,
}

position-any_matches :
    (name : Text) (patterns : List MetricPattern)
    → is_some (position name patterns) ≡ any_matches name patterns
unfolding position any_matches
position-any_matches name [] = refl
position-any_matches name (p ∷ patterns) = elim (Option-cases (position name patterns)) [
  | inl e ↦ ground (arith, e, position-any_matches name patterns)
  | inr (i, e) ↦ ground (arith, e, position-any_matches name patterns)
]

module _ {Float : Type 0} (v : Vocabulary) (d : Declaration Float) where
  -- A name that the repository has described by itself stands with its description.
  abbrev pub own_descriptions : List Text → List (Text × MetricDoc Float)
  own_descriptions [] = []
  own_descriptions (name ∷ names) = elim (get name d.metrics) [
    | none ↦ own_descriptions names
    | some doc ↦ (name, doc) ∷ own_descriptions names
  ]

  -- A name that is left to the patterns: without a description of its own, and not reserved.
  abbrev pub left_to_patterns : Text → Bool
  left_to_patterns name = not (is_some (get name d.metrics)) && not (is_reserved v name)

  -- A name that nobody has described.
  abbrev pub undescribed : Text → Bool
  undescribed name = not (describes d name) && not (is_reserved v name)

  gather-undescribed :
      (g : Gathered Float) (name : Text)
      → (gather v d g name).undescribed
        ≡ (if undescribed name then g.undescribed ++ name ∷ [] else g.undescribed)
  unfolding gather describes
  gather-undescribed g name = ground (arith, position-any_matches name d.metric_patterns)

  gather_all-undescribed :
      (g : Gathered Float) (names : List Text)
      → (gather_all v d g names).undescribed ≡ g.undescribed ++ filter undescribed names
  unfolding gather_all
  gather_all-undescribed g [] = sym (append-nil _)
  gather_all-undescribed g (name ∷ names) = elim (Bool-cases (undescribed name)) [
    | inl e ↦
        gather_all-undescribed (gather v d g name) names
        ∙ ap (λ u. u ++ filter undescribed names) (gather-undescribed g name)
        ∙ rw e (append_assoc g.undescribed (name ∷ []) (filter undescribed names))
    | inr e ↦
        gather_all-undescribed (gather v d g name) names
        ∙ ap (λ u. u ++ filter undescribed names) (gather-undescribed g name)
        ∙ rw e refl
  ]

  gather-metrics :
      (g : Gathered Float) (name : Text) (names : List Text)
      → (gather v d g name).metrics ++ own_descriptions names
        ≡ g.metrics ++ own_descriptions (name ∷ names)
  unfolding gather
  gather-metrics g name names = elim (Option-cases (get name d.metrics)) [
    | inr (doc, e) ↦
        ground (arith, e, append_assoc g.metrics ((name, doc) ∷ []) (own_descriptions names))
    | inl e ↦ elim (Bool-cases (is_reserved v name)) [
      | inl r ↦ ground (arith, e, r)
      | inr r ↦ elim (Option-cases (position name d.metric_patterns)) [
        | inl f ↦ ground (arith, e, r, f)
        | inr (i, f) ↦ ground (arith, e, r, f)
      ]
    ]
  ]

  gather_all-metrics :
      (g : Gathered Float) (names : List Text)
      → (gather_all v d g names).metrics ≡ g.metrics ++ own_descriptions names
  unfolding gather_all
  gather_all-metrics g [] = sym (append-nil _)
  gather_all-metrics g (name ∷ names) =
      gather_all-metrics (gather v d g name) names ∙ gather-metrics g name names

  gather-counts :
      (g : Gathered Float) (name : Text)
      → (gather v d g name).counts ≡ bump left_to_patterns d.metric_patterns name g.counts
  unfolding gather
  gather-counts g name = elim (Option-cases (get name d.metrics)) [
    | inr (doc, e) ↦ ground (arith, e, bump_closed left_to_patterns d.metric_patterns name g.counts)
    | inl e ↦ elim (Bool-cases (is_reserved v name)) [
      | inl r ↦ ground (arith, e, r, bump_closed left_to_patterns d.metric_patterns name g.counts)
      | inr r ↦ elim (Option-cases (position name d.metric_patterns)) [
        | inl f ↦
            ground (arith, e, r, f, bump-none left_to_patterns d.metric_patterns name g.counts f)
        | inr (i, f) ↦ ground (
          arith,
          e,
          r,
          f,
          bump-count_at left_to_patterns d.metric_patterns name g.counts i (ground (arith, e, r)) f,
        )
      ]
    ]
  ]

  gather_all-counts :
      (g : Gathered Float) (names : List Text)
      → length g.counts ≡ length d.metric_patterns
      → (gather_all v d g names).counts
        ≡ add g.counts (tally_counts left_to_patterns d.metric_patterns names)
  unfolding gather_all
  gather_all-counts g [] h = sym (add-none left_to_patterns d.metric_patterns g.counts h)
  gather_all-counts g (name ∷ names) h =
      gather_all-counts (gather v d g name) names (
        ap length (gather-counts g name)
        ∙ length-bump left_to_patterns d.metric_patterns name g.counts
        ∙ h)
      ∙ ap (λ counts. add counts (tally_counts left_to_patterns d.metric_patterns names))
          (gather-counts g name)
      ∙ add-bump left_to_patterns d.metric_patterns name names g.counts

-- What a run says of its metrics, exactly: the names that the repository has described by themselves,
-- in their order, with these descriptions; of the others that are not reserved, how many match each
-- pattern and none in front of it, for the patterns where there are any; and, in their order, the names
-- that are neither described, by themselves or by a pattern, nor reserved.
pub resolve_accounts :
    {Float : Type 0} (v : Vocabulary) (d : Declaration Float) (names : List Text)
    → ((resolve v d names).metrics ≡ own_descriptions v d names)
      × ((resolve v d names).patterns ≡ tally (left_to_patterns v d) d.metric_patterns names)
      × ((resolve v d names).undescribed ≡ filter (undescribed v d) names)
unfolding resolve
resolve_accounts {Float} v d names =
    let start : Gathered Float = record {
      metrics = [];
      counts = zeroes d.metric_patterns;
      undescribed = [];
    } in
    (
      gather_all-metrics v d start names,
      ap (matched d.metric_patterns) (
            gather_all-counts v d start names (zeroes-length d.metric_patterns)
            ∙ add-zeroes (left_to_patterns v d) d.metric_patterns names)
          ∙ matched-tally_counts (left_to_patterns v d) d.metric_patterns names,
      gather_all-undescribed v d start names,
    )
