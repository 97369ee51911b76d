-- ===== src/Error.antt =====
-- crates/runvault/src/error.rs: `Error` and `Result`. The messages are for people and are not
-- modelled: a `Reason` names the check that failed, and stands for the format string. The errors of
-- the libraries carry nothing.
use rs_runvault.Base.{◌≡◌, ◌⊎◌, inl, inr, refl, Bool, true, false, Text}

pub data Reason : Type 0 where
  not_finite not_a_number duplicate_key : Reason
  slug_differs no_hash_prefixes cfg8_differs exec4_differs config_uid_differs : Reason
  status_uid_differs failed_without_error finished_with_error finished_with_exit_code : Reason
  wrong_schema_version not_a_run_uid not_a_date negative_duration low_collision_index : Reason
  empty_error_kind empty_error_message stale_lock uid_column_differs repeated_key : Reason
  unknown_target repeated_dataset hash_without_scope repeated_target no_work no_title : Reason
  no_source_version no_targets no_obsidian_note no_work_prefix unknown_work_prefix : Reason
  work_differs no_declared_id parent_without_sweep index_without_sweep : Reason
  total_without_index index_past_total resumed_and_derived hash_differs cyclic_lineage : Reason
  self_reference resumed_from_finished unconfirmed_failure unreadable_date : Reason
  bad_path_fields runs_differ uid_differs states_differ no_state not_failed : Reason
  empty_reason no_run_uid unreadable_tombstone bad_tombstone not_found_anywhere no_lock : Reason
  still_running lock_is_stale wrong_repo legacy_selected not_synced rewritten differs_from_vault :
      Reason
  not_private threshold_not_positive no_declaration linked_declaration required_excluded : Reason
  outside_run missing_file unknown_algorithm bytes_differ digest_differs unrecorded_file : Reason
  not_json event_uid_differs no_text_field no_number_field no_censored unobserved_unit : Reason
  last_differs budget_differs censored_without_budget no_repo_id no_domain : Reason
  reserved_experiment sweep_id_given parent_of_parent no_master_seed no_llm : Reason
  unidentified_dataset point_without_sweep no_points index_past_points metric_not_finite : Reason
  wrong_scope undescribed_metric no_declaration_file unknown_event_kind payload_not_object : Reason
  missing_event_keys past_budget no_target no_source target_not_listed no_free_name bad_relpath :
      Reason

pub data Error : Type 0 where
  canonical : Reason → Error
  pointer_not_found pointer_syntax : Text → Error
  slug : Text → Text → Error
  spec verify : Reason → Error
  io : Text → Error
  plain_io json csv : Error

pub data Result {ℓ} (A : Type ℓ) : Type ℓ where
  ok : A → Result A
  err : Error → Result A

-- To split on a computed result and keep the equation.
pub Result-cases {ℓ} :
    {A : Type ℓ} (r : Result A) → ((a : A) × (r ≡ ok a)) ⊎ ((e : Error) × (r ≡ err e))
Result-cases (ok a) = inl (a, refl)
Result-cases (err e) = inr (e, refl)

-- `if bad { return Err(e) }`
abbrev pub refuse_if : Bool → Error → Result (Unit {0})
refuse_if bad e = elim bad [ true ↦ err e | false ↦ ok tt ]

module _ {ℓ κ} {A : Type ℓ} {B : Type κ} where
  infixl 5 ◌>>=◌
  -- `?`
  abbrev pub ◌>>=◌ : Result A → (A → Result B) → Result B
  err failure >>= next = err failure
  ok value >>= next = next value

  -- Inversion of a successful `?`.
  pub >>=-eq-ok :
      (r : Result A) (next : A → Result B) {b : B}
      → (r >>= next) ≡ ok b
      → (a : A) × (r ≡ ok a) × (next a ≡ ok b)
  >>=-eq-ok (err failure) next e = cc
  >>=-eq-ok (ok value) next e = (value, refl, e)

infixl 5 ◌>>◌
-- `?` of a check, which gives nothing.
abbrev pub ◌>>◌ {κ} : {B : Type κ} → Result (Unit {0}) → Result B → Result B
check >> later = check >>= (λ nothing. later)

-- A step that changes a state and may fail. What it has changed stays when it fails.
abbrev pub Effect {ℓ} : Type ℓ → Type ℓ
Effect S = S × Result (Unit {0})

-- `first?; next`
abbrev pub and_then {ℓ} : {S : Type ℓ} → Effect S → (S → Effect S) → Effect S
and_then (s, err e) next = (s, err e)
and_then (s, ok _) next = next s

-- Inversion of two steps that succeed.
pub and_then-ok {ℓ} :
    {S : Type ℓ} (first : Effect S) (next : S → Effect S) {s : S}
    → and_then first next ≡ (s, ok tt)
    → (first ≡ (first.0, ok tt)) × (next first.0 ≡ (s, ok tt))
and_then-ok (t, err e) next h = cc
and_then-ok (t, ok _) next h = (refl, h)
