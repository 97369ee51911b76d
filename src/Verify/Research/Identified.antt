-- ===== src/Verify/Research/Identified.antt =====
-- What `check_research` accepts.
use rs_runvault.Base.{
  ℕ, true, false, List, [], ◌∷◌, ◌++◌, Option, none, some, Text, codes, ◌==◌, nat_eq, list_eq,
  contains, arith, Option-cases, if◌then◌else◌, ◌≡◌, ◌≢◌, ◌⊎◌, inl, inr, ◌∙◌, ap, All,
}
use rs_runvault.Error.{ok, err, spec, unknown_work_prefix, >>=-eq-ok}
use rs_runvault.Ids.{validate_slug}
use rs_runvault.Meta.{Target}
use rs_runvault.Meta.Run.{Work, Research}
use rs_runvault.Verify.Research.{
  blank, blank_option, split_once, check_target_ids, compare_id, check_work_id, check_replication,
  check_research, is_empty,
}

-- One of the three identifiers is there, and the `work_id` is its prefix, a colon and it.
abbrev pub Identified : Work → Type 0
Identified w =
    ((id : Text) × (w.doi ≡ some id) × (w.work_id ≡ codes "doi:" ++ id))
    ⊎ (((id : Text) × (w.arxiv_id ≡ some id) × (w.work_id ≡ codes "arxiv:" ++ id))
        ⊎ ((id : Text) × (w.paper_id ≡ some id) × (w.work_id ≡ codes "paperid:" ++ id)))

split_once-append : (sep : ℕ) (s p q : Text) → split_once sep s ≡ some (p, q) → s ≡ p ++ sep ∷ q
unfolding split_once
split_once-append sep [] p q h = cc
split_once-append sep (c ∷ s) p q h = elim (Option-cases (split_once sep s)) [
  | inl e ↦ ground (arith, e)
  | inr ((x, y), e) ↦ ground (arith, e, split_once-append sep s x y e)
]

compare_id-some : (o : Option Text) (rest : Text) → compare_id o rest ≡ ok tt → o ≡ some rest
unfolding compare_id
compare_id-some none rest h = cc
compare_id-some (some v) rest h = ground arith

check_work_id_sound : (w : Work) → check_work_id w ≡ ok tt → Identified w
unfolding check_work_id
check_work_id_sound w h = elim (Option-cases (split_once b':' w.work_id)) [
  | inl e ↦ absurd (ground (arith, e))
  | inr ((prefix, rest), e) ↦
      by_prefix prefix rest (split_once-append b':' w.work_id prefix rest e) (ground (arith, e, h))
]
  where
    by_prefix :
        (prefix rest : Text)
        → w.work_id ≡ prefix ++ b':' ∷ rest
        → (if prefix == codes "doi"
            then compare_id w.doi rest
            else if prefix == codes "arxiv"
            then compare_id w.arxiv_id rest
            else if prefix == codes "paperid"
            then compare_id w.paper_id rest
            else err (spec unknown_work_prefix))
          ≡ ok tt
        → Identified w
    by_prefix prefix rest same k = elim (list_eq.dec prefix (codes "doi")) [
      | yes p ↦ inl (
        rest,
        compare_id-some w.doi rest (ground (arith, p, k)),
        same ∙ ap (λ x. x ++ b':' ∷ rest) p,
      )
      | no n ↦ elim (list_eq.dec prefix (codes "arxiv")) [
        | yes p ↦ inr (
            inl (
              rest,
              compare_id-some w.arxiv_id rest (ground (arith, p, k)),
              same ∙ ap (λ x. x ++ b':' ∷ rest) p,
            ))
        | no m ↦ elim (list_eq.dec prefix (codes "paperid")) [
          | yes p ↦ inr (
              inr (
                rest,
                compare_id-some w.paper_id rest (ground (arith, p, k)),
                same ∙ ap (λ x. x ++ b':' ∷ rest) p,
              ))
          | no l ↦ absurd (ground arith)
        ]
      ]
    ]

-- Every target has a slug for its name, and no two have one name.
abbrev pub AreNamed : List Target → Type 0
AreNamed [] = Unit
AreNamed (t ∷ ts) =
    (validate_slug (codes "target_id") t.target_id ≡ ok tt)
    × All (λ u. t.target_id ≢ u.target_id) ts
    × AreNamed ts

abbrev Fresh : List Text → List Target → Type 0
Fresh seen ts = All (λ u. contains seen u.target_id ≡ false) ts

Fresh-apart :
    (seen : List Text) (k : Text) (ts : List Target)
    → Fresh (k ∷ seen) ts
    → All (λ u. k ≢ u.target_id) ts × Fresh seen ts
Fresh-apart seen k [] h = (tt, tt)
Fresh-apart seen k (u ∷ ts) (h, hs) =
    let (n, r) = Fresh-apart seen k ts hs in (((λ e. ground arith), n), (ground arith, r))

target_ids_sound :
    (seen : List Text) (ts : List Target)
    → check_target_ids seen ts ≡ ok tt
    → Fresh seen ts × AreNamed ts
unfolding check_target_ids
target_ids_sound seen [] h = (tt, tt)
target_ids_sound seen (t ∷ ts) h =
    let (_, valid, rest) = >>=-eq-ok (validate_slug (codes "target_id") t.target_id) _ h in
    let (fresh, named) = target_ids_sound (t.target_id ∷ seen) ts (ground (arith, rest)) in
    let (apart, others) = Fresh-apart seen t.target_id ts fresh in
    ((ground (arith, rest), others), (valid, apart, named))

-- What a replication has that `check_research` accepts.
pub record IsReplication (r : Research) (w : Work) : Type 0 where
  pub title : blank w.title ≡ false
  pub version : blank_option w.source_version ≡ false
  pub some_target : r.targets ≢ []
  pub note : blank_option r.obsidian_note ≡ false
  pub identified : Identified w

IsReplication-sound : (r : Research) (w : Work) → check_replication r w ≡ ok tt → IsReplication r w
unfolding check_replication
IsReplication-sound r w h = record {
  title = ground arith;
  version = ground arith;
  some_target = λ e. ground (arith, e, ap is_empty e);
  note = ground arith;
  identified = check_work_id_sound w (ground arith);
}

-- If `check_research` accepts, the targets have slugs for names, no two the same. If the run is
-- a replication, its work is there, with a title, a version and a note that are not blank, it has a
-- target, and the work is named by one of the identifiers that it carries.
pub check_research_sound :
    (r : Research)
    → check_research r ≡ ok tt
    → AreNamed r.targets
      × (r.is_replication ≡ true → (w : Work) × (r.work ≡ some w) × IsReplication r w)
unfolding check_research
check_research_sound r h =
    let (_, ids, rest) = >>=-eq-ok (check_target_ids [] r.targets) _ h in
    let (_, named) = target_ids_sound [] r.targets ids in
    (
      named,
      λ e. elim (Option-cases r.work) [
        | inl n ↦ absurd (ground (arith, e, n, rest))
        | inr (w, p) ↦ (w, p, IsReplication-sound r w (ground (arith, e, p, rest)))
      ],
    )
