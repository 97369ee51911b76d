-- ===== src/Hash/Conditions.antt =====
-- What is declared as excluded does not change the condition hash.
use rs_runvault.Base.{
  true, List, [], ◌∷◌, Text, arith, nat_eq, list_eq, contains, All, subst, sym, ◌≡◌, ◌⊎◌, inl, inr,
}
use rs_runvault.Error.{ok}
use rs_runvault.Json.{Value}
use rs_runvault.Pointer.{Pointer, pointer_eq, parse}
use rs_runvault.Pointer.Syntax.{parse_sound}
use rs_runvault.Pointer.Prune.{replace, prune-replace}
use rs_runvault.Config.{RunvaultBlock, Exclusions, resolve, removed_from_config}
use rs_runvault.Config.Precedence.{Listed, removed, removed_early, resolve_sound, resolve_same}
use rs_runvault.Meta.{Dataset}
use rs_runvault.Canonical.{Library}
use rs_runvault.Hash.{config_hash}

All-contains {ℓ} :
    (P : Text → Type ℓ) (xs : List Text) (x : Text) → All P xs → contains xs x ≡ true → P x
All-contains P [] x h c = absurd (ground arith)
All-contains P (y ∷ xs) x (p, h) c = elim (list_eq.dec x y) [
  | yes e ↦ subst P (sym e) p
  | no n ↦ All-contains P xs x h (ground arith)
]

-- A pointer that a control block declares, in whichever of the three lists.
abbrev pub Declared : RunvaultBlock → Text → Type 0
Declared block raw =
    (contains block.hash_exclude raw ≡ true)
    ⊎ ((contains block.seed_pointers raw ≡ true)
        ⊎ (contains block.determinism.invariant_to raw ≡ true))

Declared-removed :
    {N : Type 0} (block : RunvaultBlock) (v : Value N) (e : Exclusions) (raw : Text)
    → resolve block v ≡ ok e
    → Declared block raw
    → Listed v (removed_from_config e) raw
Declared-removed block v e raw h (inl c) =
    let (p, g, m) =
      All-contains _ block.hash_exclude raw (resolve_sound block v e h).exclude_listed c in
    (p, g, removed e p (inl m))
Declared-removed block v e raw h (inr (inl c)) =
    let (p, g, m) =
      All-contains _ block.seed_pointers raw (resolve_sound block v e h).seeds_listed c in
    (p, g, removed_early e p m)
Declared-removed block v e raw h (inr (inr c)) =
    All-contains _ block.determinism.invariant_to raw (resolve_sound block v e h).invariant_listed c

pub config_hash-replace :
    (lib : Library) (block : RunvaultBlock) (v w : Value lib.Number) (raw : Text) {p : Pointer}
    (e f : Exclusions) (ds : List Dataset)
    → Declared block raw
    → parse raw ≡ ok p
    → resolve block v ≡ ok e
    → resolve block (replace w p.tokens v) ≡ ok f
    → config_hash lib (replace w p.tokens v) f ds ≡ config_hash lib v e ds
unfolding config_hash
config_hash-replace lib block v w raw {p} e f ds d h r s =
    let same : f ≡ e = sym (resolve_same block v (replace w p.tokens v) e f r s) in
    let (q, g, c) = Declared-removed block v e raw r d in
    let at : q ≡ p = cc (g, h) in
    let (_, n, _) = parse_sound raw h in
    rw (same, prune-replace w v (removed_from_config e) p (rw at at c) n)
