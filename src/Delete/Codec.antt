-- ===== src/Delete/Codec.antt =====
-- A concrete way of writing tombstones: field by field, each byte raised by one and each field closed
-- by 0.
use rs_runvault.Base.{
  ℕ, zero, suc, false, List, [], ◌∷◌, Option, none, some, Text, ◌≡◌, refl, list_eq, ℕ_discrete,
  length,
}
use rs_runvault.Status.{State, finished, failed}
use rs_runvault.Verify.Research.{blank}
use rs_runvault.Delete.Tombstones.{Tombstone, Lines}
use rs_runvault.Delete.Stages.{Faithful}

write_field : Text → Text → Text
write_field [] rest = 0 ∷ rest
write_field (c ∷ t) rest = suc c ∷ write_field t rest

read_field : Text → Option (Text × Text)
read_field [] = none
read_field (zero ∷ rest) = some ([], rest)
read_field (suc c ∷ rest) = elim (read_field rest) [
  | none ↦ none
  | some (t, later) ↦ some (c ∷ t, later)
]

read_field-write_field : (t rest : Text) → read_field (write_field t rest) ≡ some (t, rest)
unfolding read_field write_field
read_field-write_field [] rest = refl
read_field-write_field (c ∷ t) rest = rw (read_field-write_field t rest) refl

write_fields : List Text → Text
unfolding write_field
write_fields [] = []
write_fields (t ∷ ts) = write_field t (write_fields ts)

read_fields : ℕ → Text → Option (List Text)
unfolding read_field
read_fields zero s = some []
read_fields (suc n) s = elim (read_field s) [
  | none ↦ none
  | some (t, rest) ↦ elim (read_fields n rest) [ none ↦ none | some ts ↦ some (t ∷ ts) ]
]

read_fields-write_fields : (ts : List Text) → read_fields (length ts) (write_fields ts) ≡ some ts
unfolding read_fields write_fields
read_fields-write_fields [] = refl
read_fields-write_fields (t ∷ ts) =
    rw (read_fields, read_field-write_field t (write_fields ts), read_fields-write_fields ts) refl

of_fields : State → Option (List Text) → Option Tombstone
of_fields state (some (a ∷ b ∷ c ∷ d ∷ e ∷ f ∷ g ∷ h ∷ i ∷ [])) = some (record {
  schema_version = a;
  run_uid = b;
  repo_id = c;
  experiment = d;
  run_slug = e;
  state = state;
  deleted_at = f;
  host = g;
  reason = h;
  runvault_version = i;
})
of_fields state _ = none

state_code : State → ℕ
state_code finished = 0
state_code failed = 1

of_code : ℕ → State
of_code zero = finished
of_code (suc n) = failed

fields : Tombstone → List Text
fields t =
    t.schema_version ∷ t.run_uid ∷ t.repo_id ∷ t.experiment ∷ t.run_slug ∷ t.deleted_at ∷ t.host
    ∷ t.reason ∷ t.runvault_version ∷ []

unfoldable pub read_tombstone : Text → Option Tombstone
unfolding read_fields of_code of_fields
read_tombstone (_ ∷ c ∷ s) = of_fields (of_code c) (read_fields 9 s)
read_tombstone _ = none

unfoldable pub write_tombstone : Tombstone → Text
unfolding state_code write_fields fields
write_tombstone t = b'{' ∷ state_code t.state ∷ write_fields (fields t)

abbrev pub lines : Lines
lines = record { read_line = read_tombstone; write_line = write_tombstone }

of_code-state_code : (s : State) → of_code (state_code s) ≡ s
unfolding of_code state_code
of_code-state_code finished = refl
of_code-state_code failed = refl

blank-brace : (a : ℕ) (s : Text) → blank (b'{' ∷ a ∷ s) ≡ false
unfolding blank ℕ_discrete
blank-brace a [] = refl
blank-brace a (b ∷ s) = refl

pub faithful : Faithful lines
unfolding read_tombstone write_tombstone fields of_fields
faithful = record {
  read_written = λ t. rw (read_fields-write_fields (fields t), of_code-state_code t.state) refl;
  not_blank = λ t. blank-brace (state_code t.state) (write_fields (fields t));
}
