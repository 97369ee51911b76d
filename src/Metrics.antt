-- ===== src/Metrics.antt =====
-- crates/runvault/src/metrics_meta.rs: what a repository declares of its metrics and parameters, and
-- the part of it that a run carries. A map is the list of its entries, and a set that of its elements,
-- in the order of iteration.
pub mod Described
pub mod Tally
pub mod Tests
use rs_runvault.Base.{
  ℕ, zero, suc, Bool, true, false, not, ◌&&◌, ◌||◌, List, [], ◌∷◌, ◌++◌, Option, none, some, Text,
  codes, length, ltb, filter, map, ◌==◌, nat_eq, list_eq, if◌then◌else◌,
}
use rs_runvault.Error.{Result, ok, err}
use rs_runvault.Json.{Value, null, bool, number, string, array, object, Members, end, member}
use rs_runvault.Pointer
use rs_runvault.Pointer.{split, parse}
use rs_runvault.Verify.{is_some}
use rs_runvault.Verify.Walk.{get}
use rs_runvault.Vocabulary.{Vocabulary, is_reserved}

pub data Direction : Type 0 where
  up down neither : Direction

pub record MetricDoc (Float : Type 0) : Type 0 where
  pub meaning : Text
  pub unit : Option Text
  pub direction : Option Direction
  pub range : Option (Float × Float)
  pub scope : List Text

pub record MetricPattern : Type 0 where
  pub pattern : Text
  pub meaning : Option Text
  pub unit : Option Text
  pub direction : Option Direction
  pub axes : List (Text × Text)

pub record ParameterDoc (Float : Type 0) : Type 0 where
  pub meaning : Text
  pub unit : Option Text
  pub range : Option (Float × Float)

pub record Declaration (Float : Type 0) : Type 0 where
  pub require_docs : Bool
  pub metrics : List (Text × MetricDoc Float)
  pub metric_patterns : List MetricPattern
  pub parameters : List (Text × ParameterDoc Float)

pub record MatchedPattern : Type 0 where
  pub pattern : MetricPattern
  pub n_matched : ℕ

pub record MetricsMeta (Float : Type 0) : Type 0 where
  pub schema_version : Text
  pub metrics : List (Text × MetricDoc Float)
  pub patterns : List MatchedPattern
  pub undescribed : List Text

pub record ParametersMeta (Float : Type 0) : Type 0 where
  pub schema_version : Text
  pub parameters : List (Text × ParameterDoc Float)
  pub undescribed : List Text

-- The last byte, which is a character of its own where it is ASCII.
ends_with : ℕ → Text → Bool
ends_with b [] = false
ends_with b (c ∷ []) = c == b
ends_with b (c ∷ d ∷ s) = ends_with b (d ∷ s)

first_is : ℕ → Text → Bool
first_is b [] = false
first_is b (c ∷ s) = c == b

unfoldable pub is_axis : Text → Bool
unfolding ends_with first_is
is_axis segment = ltb 2 (length segment) && first_is b'{' segment && ends_with b'}' segment

-- `zip` and `all`, where the lengths have been compared.
segments_match : List Text → List Text → Bool
unfolding is_axis
segments_match [] got = true
segments_match (w ∷ want) [] = true
segments_match (w ∷ want) (g ∷ got) = (is_axis w || w == g) && segments_match want got

unfoldable pub matches : MetricPattern → Text → Bool
unfolding segments_match
matches p name =
    let want = split b'.' p.pattern in
    let got = split b'.' name in
    if not (length want == length got) then false else segments_match want got

without_last : Text → Text
without_last [] = []
without_last (c ∷ []) = []
without_last (c ∷ d ∷ s) = c ∷ without_last (d ∷ s)

-- `s[1..s.len() - 1]`
inner : Text → Text
unfolding without_last
inner [] = []
inner (c ∷ s) = without_last s

unfoldable pub axis_order : MetricPattern → List Text
unfolding inner
axis_order p = map inner (filter is_axis (split b'.' p.pattern))

-- `position(|p| p.matches(name))`
unfoldable pub position : Text → List MetricPattern → Option ℕ
position name [] = none
position name (p ∷ patterns) =
    let later = position name patterns in
    if matches p name then some 0 else elim later [ none ↦ none | some i ↦ some (suc i) ]

-- `any(|p| p.matches(name))`
unfoldable pub any_matches : Text → List MetricPattern → Bool
any_matches name [] = false
any_matches name (p ∷ patterns) = matches p name || any_matches name patterns

-- `counts[i] += 1`
unfoldable pub count_at : ℕ → List ℕ → List ℕ
count_at i [] = []
count_at zero (n ∷ counts) = suc n ∷ counts
count_at (suc i) (n ∷ counts) = n ∷ count_at i counts

-- `vec![0; len]`
unfoldable pub zeroes : List MetricPattern → List ℕ
zeroes [] = []
zeroes (p ∷ patterns) = 0 ∷ zeroes patterns

-- `zip(counts)`, what was counted at least once
unfoldable pub matched : List MetricPattern → List ℕ → List MatchedPattern
matched [] counts = []
matched (p ∷ patterns) [] = []
matched (p ∷ patterns) (n ∷ counts) =
    let rest = matched patterns counts in
    if ltb 0 n then record { pattern = p; n_matched = n } ∷ rest else rest

-- What the loop over the names has gathered.
pub record Gathered (Float : Type 0) : Type 0 where
  pub metrics : List (Text × MetricDoc Float)
  pub counts : List ℕ
  pub undescribed : List Text

module _ {Float : Type 0} where
  unfoldable pub describes : Declaration Float → Text → Bool
  describes d name = is_some (get name d.metrics) || any_matches name d.metric_patterns

  -- One round of the loop. The names come in order, so what is inserted comes last.
  unfoldable pub gather : Vocabulary → Declaration Float → Gathered Float → Text → Gathered Float
  gather v d g name = elim (get name d.metrics) [
    | some doc ↦ record g { metrics = g.metrics ++ (name, doc) ∷ [] }
    | none ↦ elim (is_reserved v name) [
      | true ↦ g
      | false ↦ elim (position name d.metric_patterns) [
        | some i ↦ record g { counts = count_at i g.counts }
        | none ↦ record g { undescribed = g.undescribed ++ name ∷ [] }
      ]
    ]
  ]

  unfoldable pub gather_all :
      Vocabulary → Declaration Float → Gathered Float → List Text → Gathered Float
  gather_all v d g [] = g
  gather_all v d g (name ∷ names) = gather_all v d (gather v d g name) names

  unfoldable pub resolve : Vocabulary → Declaration Float → List Text → MetricsMeta Float
  resolve v d names =
      let start : Gathered Float = record {
        metrics = [];
        counts = zeroes d.metric_patterns;
        undescribed = [];
      } in
      let g = gather_all v d start names in
      record {
        schema_version = codes "1.0";
        metrics = g.metrics;
        patterns = matched d.metric_patterns g.counts;
        undescribed = g.undescribed;
      }

  -- `MetricsMeta::is_empty`
  unfoldable pub says_nothing : MetricsMeta Float → Bool
  says_nothing m = length m.metrics == 0 && length m.patterns == 0

  -- `ParametersMeta::is_empty`
  unfoldable pub has_nothing : ParametersMeta Float → Bool
  has_nothing m = length m.parameters == 0

-- `replace('~', "~0")` and then `replace('/', "~1")`
unfoldable pub escape_key : Text → Text
escape_key [] = []
escape_key (c ∷ key) =
    let rest = escape_key key in
    if c == b'~' then codes "~0" ++ rest else if c == b'/' then codes "~1" ++ rest else c ∷ rest

module _ {Float N : Type 0} where
  -- The loop over the declared pointers.
  unfoldable pub described_in :
      List (Text × ParameterDoc Float) → Value N → List (Text × ParameterDoc Float)
  described_in [] parameters = []
  described_in ((raw, doc) ∷ declared) parameters =
      let rest = described_in declared parameters in
      elim (parse raw) [
        | err _ ↦ rest
        | ok pointer ↦ elim (Pointer.resolve pointer parameters) [
          | none ↦ rest
          | some _ ↦ (raw, doc) ∷ rest
        ]
      ]

  unfoldable pub undescribed_keys : List (Text × ParameterDoc Float) → Members N → List Text
  undescribed_keys described end = []
  undescribed_keys described (member key _ members) =
      let rest = undescribed_keys described members in
      if is_some (get (b'/' ∷ escape_key key) described)
      then rest
      else (b'/' ∷ escape_key key) ∷ rest

  unfoldable pub top_level : List (Text × ParameterDoc Float) → Value N → List Text
  top_level described (object members) = undescribed_keys described members
  top_level described _ = []

  unfoldable pub resolve_parameters : Declaration Float → Value N → ParametersMeta Float
  resolve_parameters d parameters =
      let described = described_in d.parameters parameters in
      record {
        schema_version = codes "1.0";
        parameters = described;
        undescribed = top_level described parameters;
      }
