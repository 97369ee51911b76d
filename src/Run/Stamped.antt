-- ===== src/Run/Stamped.antt =====
-- A line that `log_event` writes passes `check_events`.
use rs_runvault.Base.{
  false, List, [], ◌∷◌, ◌++◌, Option, none, some, Text, codes, nat_eq, list_eq, ℕ_discrete, ◌==◌,
  ◌≡◌, refl, ◌∙◌, arith, Bool-cases, Option-cases, inl, inr, if◌then◌else◌,
}
use rs_runvault.Error.{Result, ok, ◌>>=◌, Result-cases}
use rs_runvault.Json.{Value, object, string, Members, end, member}
use rs_runvault.Pointer
use rs_runvault.Verify.Research.{blank}
use rs_runvault.Verify.Lines.{Jsonl, for_each_event, same_uid, check_events, field_of, text_of}
use rs_runvault.Run.{append_line}
use rs_runvault.Run.Event.{insert, entry_or_insert}

uid_is_not_ts : (codes "ts" == codes "run_uid") ≡ false
unfolding list_eq ℕ_discrete
uid_is_not_ts = refl

module _ {N : Type 0} where
  get-insert :
      (j k : Text) (value : Value N) (members : Members N)
      → Pointer.get j (insert k value members)
        ≡ (if k == j then some value else Pointer.get j members)
  unfolding Pointer.get insert
  get-insert j k value end = refl
  get-insert j k value (member i old rest) = ground (arith, get-insert j k value rest)

  pub stamped-run_uid :
      (uid : Text) (now : Value N) (members : Members N)
      → Pointer.get
          (codes "run_uid")
          (entry_or_insert (codes "ts") now (insert (codes "run_uid") (string uid) members))
        ≡ some (string uid)
  unfolding entry_or_insert
  stamped-run_uid uid now members =
      let m = insert (codes "run_uid") (string uid) members in
      let here : Pointer.get (codes "run_uid") m ≡ some (string uid) =
        ground (arith, get-insert (codes "run_uid") (codes "run_uid") (string uid) members) in
      elim (Option-cases (Pointer.get (codes "ts") m)) [
        | inl e ↦
            rw (e, entry_or_insert)
              (get-insert (codes "run_uid") (codes "ts") now m ∙ rw uid_is_not_ts here)
        | inr (old, e) ↦ rw (e, entry_or_insert) here
      ]

  module _ (lines : Jsonl N) where
    -- Of an object that is written and read again, the identifier of the run is still there, and the
    -- line is not blank.
    pub record ReadsBack : Type 0 where
      pub from_to :
          (members : Members N) (uid : Text)
          → Pointer.get (codes "run_uid") members ≡ some (string uid)
          → (back : Members N) × (lines.from_str (lines.to_string (object members))
              ≡ some (object back))
            × (Pointer.get (codes "run_uid") back ≡ some (string uid))
      pub not_blank : (members : Members N) → blank (lines.to_string (object members)) ≡ false

    for_each_event-append :
        {S : Type 0} (f : S → Value N → Result S) (s : S) (xs ys : List Text)
        → for_each_event lines f s (xs ++ ys)
          ≡ (for_each_event lines f s xs >>= (λ t. for_each_event lines f t ys))
    unfolding for_each_event
    for_each_event-append f s [] ys = refl
    for_each_event-append f s (x ∷ xs) ys = elim (Bool-cases (blank x)) [
      | inl e ↦ rw e (for_each_event-append f s xs ys)
      | inr e ↦ elim (Option-cases (lines.from_str x)) [
        | inl g ↦ rw (e, g) refl
        | inr (value, g) ↦ elim (Result-cases (f s value)) [
          | inr (failure, k) ↦ rw (e, g, k) refl
          | inl (next, k) ↦ rw (e, g, k) (for_each_event-append f next xs ys)
        ]
      ]
    ]

    line_accepted :
        (uid : Text) (members : Members N)
        → ReadsBack
        → Pointer.get (codes "run_uid") members ≡ some (string uid)
        → for_each_event lines (same_uid uid) tt (lines.to_string (object members) ∷ []) ≡ ok tt
    unfolding for_each_event same_uid field_of text_of
    line_accepted uid members h e =
        let (back, a, b) = h.from_to members uid e in ground (arith, a, b, h.not_blank members)

    pub append_line-check_events :
        (events : Option (List Text)) (uid : Text) (members : Members N)
        → ReadsBack
        → Pointer.get (codes "run_uid") members ≡ some (string uid)
        → check_events lines events uid ≡ ok tt
        → check_events lines (some (append_line events (lines.to_string (object members)))) uid
          ≡ ok tt
    unfolding check_events append_line
    append_line-check_events none uid members h e p = line_accepted uid members h e
    append_line-check_events (some events) uid members h e p =
        for_each_event-append (same_uid uid) tt events (lines.to_string (object members) ∷ [])
        ∙ rw p (line_accepted uid members h e)
