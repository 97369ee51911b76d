-- ===== src/Legacy/Rows.antt =====
-- crates/runvault/src/legacy.rs: the numbers that are read out of one CSV file, and what is said of
-- them. A text of a note or of a table that people read is a constructor.
use rs_runvault.Base.{
  ℕ, zero, suc, ◌+◌, ◌*◌, ◌-◌, Bool, List, [], ◌∷◌, ◌++◌, Option, none, some, Text, codes, ltb,
  contains, Eq, ◌==◌, nat_eq, list_eq, option_eq, ap, ℕ_discrete, if◌then◌else◌,
}
use rs_runvault.Base.Order.{text_ord}
use rs_runvault.Base.Sort.{sort_on}
use rs_runvault.Canonical.{ℤ, pos, negsuc}
use rs_runvault.Ids.{is_digit}

magnitude_of : ℤ → ℕ
magnitude_of (pos n) = n
magnitude_of (negsuc n) = n

i64_dec : Discrete ℤ
unfolding magnitude_of
i64_dec (pos m) (pos n) = elim (ℕ_discrete m n) [
  | yes p ↦ yes (ap pos p)
  | no p ↦ no (λ q. p (ap magnitude_of q))
]
i64_dec (pos m) (negsuc n) = no (λ p. cc)
i64_dec (negsuc m) (pos n) = no (λ p. cc)
i64_dec (negsuc m) (negsuc n) = elim (ℕ_discrete m n) [
  | yes p ↦ yes (ap negsuc p)
  | no p ↦ no (λ q. p (ap magnitude_of q))
]

instance unfoldable pub i64_eq : Eq ℤ
unfolding i64_dec
i64_eq = record { dec = i64_dec }

abbrev pub digits_from : ℕ → Text → Option ℕ
digits_from n [] = some n
digits_from n (c ∷ s) =
    let rest = digits_from (n * 10 + (c - b'0')) s in if is_digit c then rest else none

abbrev pub magnitude : Text → Option ℕ
magnitude [] = none
magnitude (c ∷ s) = digits_from 0 (c ∷ s)

abbrev pub non_negative : Option ℕ → Option ℤ
non_negative none = none
non_negative (some n) = if ltb n 0x8000000000000000 then some (pos n) else none

abbrev pub non_positive : Option ℕ → Option ℤ
non_positive none = none
non_positive (some zero) = some (pos 0)
non_positive (some (suc n)) = if ltb n 0x8000000000000000 then some (negsuc n) else none

-- `str::parse::<i64>`: a sign that may be left out, and digits whose number fits.
unfoldable pub parse_i64 : Text → Option ℤ
parse_i64 [] = none
parse_i64 (c ∷ s) =
    if c == b'-'
    then non_positive (magnitude s)
    else if c == b'+'
    then non_negative (magnitude s)
    else non_negative (magnitude (c ∷ s))

pub record LegacyMetric (Float : Type 0) : Type 0 where
  pub step : Option ℤ
  pub step_unit : Option Text
  pub scope : Text
  pub name : Text
  pub value : Float
  pub source : Text

-- Why a file stays a table.
pub data Why : Type 0 where
  no_axis nothing_read long_nothing_read : Why
  key_repeated : Text → Option ℤ → List Text → Why
  long_key_repeated : Text → Why

pub record LegacyTable : Type 0 where
  pub file : Text
  pub header : List Text
  pub rows : ℕ
  pub reason : Why

pub data Converted (Float : Type 0) : Type 0 where
  metrics : List (LegacyMetric Float) → Converted Float
  table : LegacyTable → Converted Float

-- A note on the file.
pub data FileNote : Type 0 where
  many_axes : ℕ → Text → FileNote
  unit_unregistered unit_renamed : Text → Text → FileNote
  not_converted long_dropped : List Text → FileNote
  read_as_long : FileNote

pub record Axis : Type 0 where
  pub index : ℕ
  pub column : Text
  pub unit : Text

-- `TIME_AXIS`
abbrev pub time_axis : List (Text × Text)
time_axis =
    (codes "step", codes "step")
    ∷ (codes "t", codes "step")
    ∷ (codes "iteration", codes "step")
    ∷ (codes "round", codes "round")
    ∷ (codes "epoch", codes "epoch")
    ∷ (codes "turn", codes "turn")
    ∷ (codes "generation", codes "generation")
    ∷ (codes "day", codes "day")
    ∷ (codes "month", codes "month")
    ∷ (codes "year", codes "year")
    ∷ []

abbrev pub unregistered_units : List Text
unregistered_units = codes "day" ∷ codes "month" ∷ codes "year" ∷ []

abbrev pub long_name_columns : List Text
long_name_columns = codes "name" ∷ codes "metric" ∷ []

unfoldable pub unit_of : Text → List (Text × Text) → Option Text
unit_of name [] = none
unit_of name ((column, unit) ∷ rest) =
    let later = unit_of name rest in if column == name then some unit else later

unfoldable pub axes_from : ℕ → List Text → List Axis
axes_from i [] = []
axes_from i (name ∷ names) = elim (unit_of name time_axis) [
  | none ↦ axes_from (suc i) names
  | some unit ↦ record { index = i; column = name; unit = unit } ∷ axes_from (suc i) names
]

-- `iter().position(p)`
abbrev pub index_where : (Text → Bool) → List Text → Option ℕ
index_where p [] = none
index_where p (x ∷ xs) =
    let later = index_where p xs in
    if p x then some 0 else elim later [ none ↦ none | some i ↦ some (suc i) ]

-- `(stem != "metrics").then(..)`, and what is put in front of a name.
unfoldable pub prefixed : Text → Text → Text
prefixed stem column = if stem == codes "metrics" then column else stem ++ b'.' ∷ column

abbrev pub no_repeats : List Text → List Text
no_repeats [] = []
no_repeats (s ∷ skipped) =
    let rest = no_repeats skipped in if contains rest s then rest else s ∷ rest

abbrev pub sorted_unique : List Text → List Text
sorted_unique skipped = sort_on (λ s. s) (no_repeats skipped)

-- The label of a name in a message of `validate_slug`, and that of a scope.
abbrev pub name_label : Text
name_label =
    codes "legacy "
    ++ (0xE3 ∷ 0x81 ∷ 0xAE ∷ 0xE6 ∷ 0x8C ∷ 0x87 ∷ 0xE6 ∷ 0xA8 ∷ 0x99 ∷ 0xE5 ∷ 0x90 ∷ 0x8D ∷ [])

abbrev pub scope_label : Text
scope_label = codes "legacy " ++ (0xE3 ∷ 0x81 ∷ 0xAE ∷ 0x20 ∷ 0x73 ∷ 0x63 ∷ 0x6F ∷ 0x70 ∷ 0x65 ∷ [])

-- `out`, `seen` and `skipped`.
pub record Gathering (Float K : Type 0) : Type 0 where
  pub out : List (LegacyMetric Float)
  pub seen : List K
  pub skipped : List Text

pub data Progressed (S : Type 0) : Type 0 where
  refused : Why → Progressed S
  going : S → Progressed S

abbrev pub and_going : {S : Type 0} → Progressed S → (S → Progressed S) → Progressed S
and_going (refused w) next = refused w
and_going (going s) next = next s

module _ {Float K : Type 0} ⦃e : Eq K⦄ (key : LegacyMetric Float → K) where
  abbrev pub skip : Text → Gathering Float K → Progressed (Gathering Float K)
  skip text s = going (record s { skipped = s.skipped ++ text ∷ [] })

  abbrev pub pushed : LegacyMetric Float → Gathering Float K → Gathering Float K
  pushed m s = record s { out = s.out ++ m ∷ []; seen = key m ∷ s.seen }

  -- `seen.insert(..)`, and `out.push(..)` where it is new.
  unfoldable pub push_new :
      LegacyMetric Float → Why → Gathering Float K → Progressed (Gathering Float K)
  push_new m why s = if contains s.seen (key m) then refused why else going (pushed m s)
