-- ===== src/Config/Tests.antt =====
-- A control block and what it resolves to.
use rs_runvault.Base.{ℕ, [], ◌∷◌, Text, codes, ◌≡◌, refl, ℕ_discrete, list_eq}
use rs_runvault.Error.{ok}
use rs_runvault.Json.{Value, number, object, end, member}
use rs_runvault.Pointer.{Pointer, parse, require, resolve_tokens, child, pointer_eq}
use rs_runvault.Pointer as Pointer_module
use rs_runvault.Config.{RunvaultBlock, Exclusions, resolve}
use rs_runvault.Config.Precedence.{Precedence, resolve_sound}

-- `/seed` is declared twice, and the stronger list has it.
abbrev pub block : RunvaultBlock
block = record {
  hash_exclude = codes "/output_dir" ∷ [];
  seed_pointers = codes "/seed" ∷ codes "/output_dir" ∷ [];
  determinism = record { invariant_to = codes "/seed" ∷ [] };
  sync_include = [];
  sync_exclude = [];
}

abbrev pub pointer : Text → Pointer
pointer key = record { raw = b'/' ∷ key; tokens = key ∷ [] }

abbrev pub parameters : ℕ → ℕ → Value ℕ
parameters seed dir = object (
    member (codes "seed") (number seed)
      (member (codes "output_dir") (number dir) (member (codes "rows") (number 13) end)))

abbrev pub exclusions : Exclusions
exclusions = record {
  hash_exclude = pointer (codes "output_dir") ∷ [];
  seeds = pointer (codes "seed") ∷ [];
  invariant_to = [];
}

pub resolve_runs : (seed dir : ℕ) → resolve block (parameters seed dir) ≡ ok exclusions
unfolding resolve parse require Pointer_module.resolve resolve_tokens child pointer_eq list_eq
    ℕ_discrete
resolve_runs seed dir = refl

resolve_sound_example : Precedence (parameters 1 2) block exclusions
resolve_sound_example = resolve_sound block (parameters 1 2) exclusions (resolve_runs 1 2)
