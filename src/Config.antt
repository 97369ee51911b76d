-- ===== src/Config.antt =====
-- crates/runvault/src/config.rs: the control block of `config.json`, and the pointer lists that it
-- resolves to.
pub mod Precedence
pub mod Tests
use rs_runvault.Base.{Bool, not, ◌&&◌, List, [], ◌∷◌, ◌++◌, Text, filter, contains, if◌then◌else◌}
use rs_runvault.Base.Order.{text_ord}
use rs_runvault.Base.Sort.{sort_on}
use rs_runvault.Error.{Result, ok, ◌>>=◌, ◌>>◌}
use rs_runvault.Json.{Value}
use rs_runvault.Pointer.{Pointer, pointer_eq, parse, require}

pub record Determinism : Type 0 where
  pub invariant_to : List Text

pub record RunvaultBlock : Type 0 where
  pub hash_exclude : List Text
  pub seed_pointers : List Text
  pub determinism : Determinism
  pub sync_include : List Text
  pub sync_exclude : List Text

pub record ConfigEnvelope (N : Type 0) : Type 0 where
  pub schema_version : Text
  pub run_uid : Text
  pub runvault : RunvaultBlock
  pub parameters : Value N

pub record Exclusions : Type 0 where
  pub hash_exclude : List Pointer
  pub seeds : List Pointer
  pub invariant_to : List Pointer

module _ {N : Type 0} (parameters : Value N) where
  -- The loop of the closure `parse` in `Exclusions::resolve`.
  parse_loop : List Pointer → List Text → Result (List Pointer)
  parse_loop out [] = ok out
  parse_loop out (raw ∷ raws) = do
    pointer ← parse raw
    require pointer parameters
    parse_loop (if not (contains out pointer) then out ++ pointer ∷ [] else out) raws

-- `Exclusions::resolve`
unfoldable pub resolve : {N : Type 0} → RunvaultBlock → Value N → Result Exclusions
unfolding parse_loop
resolve block parameters = do
  hash_exclude ← parse_loop parameters [] block.hash_exclude
  seed_pointers ← parse_loop parameters [] block.seed_pointers
  let seeds = filter (λ p. not (contains hash_exclude p)) seed_pointers
  invariant ← parse_loop parameters [] block.determinism.invariant_to
  let invariant_to = filter (λ p. not (contains hash_exclude p) && not (contains seeds p)) invariant
  ok (record { hash_exclude = hash_exclude; seeds = seeds; invariant_to = invariant_to })

unfoldable pub removed_from_config : Exclusions → List Pointer
removed_from_config e = (e.hash_exclude ++ e.seeds) ++ e.invariant_to

unfoldable pub ordered_seeds : Exclusions → List Pointer
ordered_seeds e = sort_on (λ (p : Pointer). p.raw) e.seeds
