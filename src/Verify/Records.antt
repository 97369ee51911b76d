-- ===== src/Verify/Records.antt =====
-- What the checks of `status.json`, of the lineage and of the datasets accept.
use mathlib.Core.Option.{some-ne-none}
use rs_runvault.Base.{
  ℕ, ◌≤◌, ◌<◌, Bool, true, false, not, ◌&&◌, ◌⊎◌, [], Option, none, some, Text, codes, ltb, leb,
  ◌==◌, nat_eq, list_eq, pair_eq, arith, ◌≡◌, ◌≢◌, ◌↔◌, refl, sym,
}
use rs_runvault.Error.{
  Result, Error, ok, verify, failed_without_error, finished_with_error, finished_with_exit_code,
  wrong_schema_version, not_a_run_uid, not_a_date, negative_duration, low_collision_index,
  empty_error_kind, ◌>>◌, refuse_if,
}
use rs_runvault.Ids.{is_run_uid}
use rs_runvault.Canonical.{ℤ, pos, negsuc}
use rs_runvault.Base.Order.{pair_ord}
use rs_runvault.Meta.{Lineage}
use rs_runvault.Status.{State, finished, failed, RunStatus}
use rs_runvault.Verify.{
  Clock, check_status_schema, check_lineage_shape, check_lineage_fields, is_some, some_and,
  is_failed, is_zero_code,
}

refuse_if-ok :
    (b : Bool) (e : Error) {r : Result (Unit {0})}
    → (refuse_if b e >> r) ≡ ok tt
    → (b ≡ false) × (r ≡ ok tt)
refuse_if-ok true e h = cc
refuse_if-ok false e h = (refl, h)

refuse_if-pass :
    (b : Bool) (e : Error) {r : Result (Unit {0})}
    → b ≡ false
    → r ≡ ok tt
    → (refuse_if b e >> r) ≡ ok tt
refuse_if-pass true e h k = cc
refuse_if-pass false e h k = k

-- A member that, where it is there, has a property.
abbrev pub IfSome {ℓ κ} : {A : Type ℓ} → (A → Type κ) → Option A → Type κ
IfSome P none = Unit
IfSome P (some a) = P a

-- The value-level constraints of `schema/v1/status.json`.
pub record IsStatus {Float : Type 0} (clock : Clock Float) (s : RunStatus Float) : Type 0 where
  pub failed_has_error : s.state ≡ failed → s.error ≢ none
  pub finished_has_no_error : s.state ≡ finished → s.error ≡ none
  pub finished_exit_code : s.state ≡ finished → IfSome (λ c. c ≡ pos 0) s.exit_code
  pub version : s.schema_version ≡ codes "1.0"
  pub uid : is_run_uid s.run_uid ≡ true
  pub started : clock.is_rfc3339 s.started_at ≡ true
  pub ended : clock.is_rfc3339 s.finished_at ≡ true
  pub duration : clock.is_negative s.duration_sec ≡ false
  pub collision : IfSome (λ i. 2 ≤ i) s.collision_index
  pub error_kind : IfSome (λ e. e.kind ≢ []) s.error
  pub error_message : IfSome (λ e. e.message ≢ []) s.error

IfSome-some_and {ℓ κ} :
    {A : Type ℓ} (P : A → Type κ) (f : A → Bool)
    → ((a : A) → f a ≡ false → P a)
    → (o : Option A) → some_and o f ≡ false
    → IfSome P o
IfSome-some_and P f g none h = tt
IfSome-some_and P f g (some a) h = g a h

some_and-IfSome {ℓ κ} :
    {A : Type ℓ} (P : A → Type κ) (f : A → Bool)
    → ((a : A) → P a → f a ≡ false)
    → (o : Option A) → IfSome P o
    → some_and o f ≡ false
some_and-IfSome P f g none h = refl
some_and-IfSome P f g (some a) h = g a h

zero_code : (c : ℤ) → not (is_zero_code c) ≡ false → c ≡ pos 0
zero_code (pos n) h = ground arith
zero_code (negsuc n) h = cc

same_text : (s t : Text) → s ≡ t → (s == t) ≡ true
same_text s t e = ground arith

filled : (t : Text) → (t == []) ≡ false → t ≢ []
filled t h e = ground arith

at_least_two : (i : ℕ) → ltb i 2 ≡ false → 2 ≤ i
at_least_two i h = ground arith

not-false : (b : Bool) → not b ≡ false → b ≡ true
not-false true h = refl
not-false false h = sym h

state_needs_error :
    {E : Type 0} (s : State) (o : Option E)
    → (s ≡ failed → o ≢ none)
    → (is_failed s && not (is_some o)) ≡ false
state_needs_error finished o h = refl
state_needs_error failed none h = absurd (h refl refl)
state_needs_error failed (some e) h = refl

state_refuses_error :
    {E : Type 0} (s : State) (o : Option E)
    → (s ≡ finished → o ≡ none)
    → (not (is_failed s) && is_some o) ≡ false
state_refuses_error finished none h = refl
state_refuses_error finished (some e) h = absurd (some-ne-none e (h refl))
state_refuses_error failed o h = refl

state_refuses_code :
    (s : State) (o : Option ℤ)
    → (s ≡ finished → IfSome (λ c. c ≡ pos 0) o)
    → (not (is_failed s) && some_and o (λ c. not (is_zero_code c))) ≡ false
state_refuses_code finished none h = refl
state_refuses_code finished (some (pos n)) h = ground (arith, h refl)
state_refuses_code finished (some (negsuc n)) h = absurd (ground (arith, h refl))
state_refuses_code failed o h = refl

module _ {Float : Type 0} (clock : Clock Float) where
  check_status_schema_sound :
      (s : RunStatus Float) → check_status_schema clock s ≡ ok tt → IsStatus clock s
  unfolding check_status_schema
  check_status_schema_sound s h =
      let (a, h1) =
        refuse_if-ok (is_failed s.state && not (is_some s.error)) (verify failed_without_error) h in
      let (b, h2) =
        refuse_if-ok (not (is_failed s.state) && is_some s.error) (verify finished_with_error) h1 in
      let (c, h3) =
        refuse_if-ok (not (is_failed s.state) && some_and s.exit_code (λ c. not (is_zero_code c)))
          (verify finished_with_exit_code) h2 in
      let (d, h4) =
        refuse_if-ok (not (s.schema_version == codes "1.0")) (verify wrong_schema_version) h3 in
      let (e, h5) = refuse_if-ok (not (is_run_uid s.run_uid)) (verify not_a_run_uid) h4 in
      let (f, h6) = refuse_if-ok (not (clock.is_rfc3339 s.started_at)) (verify not_a_date) h5 in
      let (g, h7) = refuse_if-ok (not (clock.is_rfc3339 s.finished_at)) (verify not_a_date) h6 in
      let (i, h8) = refuse_if-ok (clock.is_negative s.duration_sec) (verify negative_duration) h7 in
      let (j, h9) =
        refuse_if-ok (some_and s.collision_index (λ i. ltb i 2)) (verify low_collision_index) h8 in
      let (k, h10) =
        refuse_if-ok (some_and s.error (λ e. e.kind == [])) (verify empty_error_kind) h9 in
      record {
        failed_has_error = λ x n. ground arith;
        finished_has_no_error = λ x. ground arith;
        finished_exit_code = λ x. IfSome-some_and _ _ zero_code s.exit_code (ground arith);
        version = ground arith;
        uid = not-false _ e;
        started = not-false _ f;
        ended = not-false _ g;
        duration = i;
        collision = IfSome-some_and _ _ at_least_two s.collision_index j;
        error_kind = IfSome-some_and _ _ (λ x p. filled x.kind p) s.error k;
        error_message = IfSome-some_and _ _ (λ x p. filled x.message p) s.error (ground arith);
      }

  check_status_schema_complete :
      (s : RunStatus Float) → IsStatus clock s → check_status_schema clock s ≡ ok tt
  unfolding check_status_schema
  check_status_schema_complete s h =
      rw
        (
          state_needs_error s.state s.error h.failed_has_error,
          state_refuses_error s.state s.error h.finished_has_no_error,
          state_refuses_code s.state s.exit_code h.finished_exit_code,
          same_text s.schema_version (codes "1.0") h.version,
          h.uid,
          h.started,
          h.ended,
          h.duration,
          some_and-IfSome (λ i. 2 ≤ i) (λ i. ltb i 2) (λ i p. ground arith) s.collision_index
              h.collision,
          some_and-IfSome (λ e. e.kind ≢ []) (λ e. e.kind == []) (λ e p. ground arith) s.error
              h.error_kind,
          some_and-IfSome (λ e. e.message ≢ []) (λ e. e.message == []) (λ e p. ground arith) s.error
              h.error_message,
        )
        refl

  -- `check_status_schema` accepts exactly the records that keep the constraints of the schema: a
  -- failed run has an error, a finished one has none and no exit code but zero, the version and the
  -- identifier are right, both dates can be read, the duration is not negative, a collision index
  -- is at least two, and an error has a kind and a message.
  pub check_status_schema_iff :
      (s : RunStatus Float) → (check_status_schema clock s ≡ ok tt) ↔ IsStatus clock s
  check_status_schema_iff s = (check_status_schema_sound s, check_status_schema_complete s)

index_fits :
    (o p : Option ℕ)
    → ((i n : ℕ) → o ≡ some i → p ≡ some n → i < n)
    → some_and o (λ i. some_and p (λ n. leb n i)) ≡ false
index_fits none p h = refl
index_fits (some i) none h = refl
index_fits (some i) (some n) h = ground (arith, h i n refl refl)

-- The rules of a lineage: what belongs to a sweep names it, a total comes with an index below it,
-- and a run is not both resumed and derived.
pub record IsLineage (l : Lineage) : Type 0 where
  pub parent_in_sweep : l.sweep_id ≡ none → l.parent_run_uid ≡ none
  pub index_in_sweep : l.sweep_id ≡ none → l.sweep_index ≡ none
  pub total_with_index : l.sweep_index ≡ none → l.sweep_total ≡ none
  pub index_below_total : (i n : ℕ) → l.sweep_index ≡ some i → l.sweep_total ≡ some n → i < n
  pub one_origin : (l.resumed_from ≡ none) ⊎ (l.derived_from ≡ none)

-- `check_lineage_shape` accepts a run without a lineage, and exactly the lineages that keep the
-- rules.
pub check_lineage_shape_iff :
    (l : Option Lineage) → (check_lineage_shape l ≡ ok tt) ↔ IfSome IsLineage l
unfolding check_lineage_shape check_lineage_fields
check_lineage_shape_iff none = (λ h. tt, λ h. refl)
check_lineage_shape_iff (some l) = (sound, complete)
  where
    sound : check_lineage_fields l ≡ ok tt → IsLineage l
    sound h = record {
      parent_in_sweep = λ e. ground arith;
      index_in_sweep = λ e. ground arith;
      total_with_index = λ e. ground arith;
      index_below_total = λ i n e f. ground arith;
      one_origin = ground arith;
    }

    complete : IsLineage l → check_lineage_fields l ≡ ok tt
    complete h = ground (
      arith,
      h.parent_in_sweep,
      h.index_in_sweep,
      h.total_with_index,
      index_fits l.sweep_index l.sweep_total h.index_below_total,
      h.one_origin,
    )
