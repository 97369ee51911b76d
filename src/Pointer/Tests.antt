-- ===== src/Pointer/Tests.antt =====
-- Pointers and pruning at concrete documents.
use mathlib.Core.Option
use rs_runvault.Base.{
  ℕ, [], ◌∷◌, none, List, Text, codes, ◌≡◌, ◌≢◌, refl, arith, ℕ_discrete, list_eq, if◌then◌else◌,
}
use rs_runvault.Base.Decimal.{decimal}
use rs_runvault.Error.{ok, err, pointer_syntax}
use rs_runvault.Json.{Value, number, array, object, Items, nil, cons, end, member}
use rs_runvault.Pointer.{Pointer, parse, require, rebuild, prune, get_item, pointer_eq}
use rs_runvault.Pointer.Syntax.{print, parse-print, parse_sound}
use rs_runvault.Pointer.Prune.{replace, walk, blocked, tokens_of, prune-replace, walk-prune}
use rs_runvault.Pointer.Indices.{plus_not_removed}

abbrev odd_tokens : List Text
odd_tokens = codes "a/b" ∷ codes "m~n" ∷ []

abbrev output_dir : Pointer
output_dir = record { raw = codes "/io/output_dir"; tokens = codes "io" ∷ codes "output_dir" ∷ [] }

abbrev io : Value ℕ → Value ℕ
io dir = object (member (codes "output_dir") dir (member (codes "level") (number 3) end))

abbrev document : Value ℕ → Value ℕ
document dir = object (member (codes "io") (io dir) (member (codes "rows") (number 13) end))

abbrev two_items : Items ℕ
two_items = cons (number 5) (cons (number 6) nil)

parse_runs :
    parse (codes "/a~1b/m~0n") ≡ ok (record { raw = codes "/a~1b/m~0n"; tokens = odd_tokens })
unfolding parse ℕ_discrete
parse_runs = refl

bad_escape : parse (codes "/a~2") ≡ err (pointer_syntax (codes "/a~2"))
unfolding parse ℕ_discrete
bad_escape = refl

prune_runs :
    prune (document (number 1)) (output_dir ∷ [])
    ≡ object (
        member
          (codes "io")
          (object (member (codes "level") (number 3) end))
          (member (codes "rows") (number 13) end))
unfolding prune list_eq ℕ_discrete
prune_runs = refl

parse-print_example :
    parse (print odd_tokens) ≡ ok (record { raw = print odd_tokens; tokens = odd_tokens })
parse-print_example = parse-print odd_tokens (cc)

parse_sound_example :
    (codes "/a~1b/m~0n" ≡ codes "/a~1b/m~0n")
    × (odd_tokens ≢ [])
    × (print odd_tokens ≡ codes "/a~1b/m~0n")
parse_sound_example = parse_sound (codes "/a~1b/m~0n") parse_runs

prune-replace_example :
    prune (replace (number 2) output_dir.tokens (document (number 1))) (output_dir ∷ [])
    ≡ prune (document (number 1)) (output_dir ∷ [])
prune-replace_example =
    prune-replace (number 2) (document (number 1)) (output_dir ∷ []) output_dir (ground arith) (cc)

walk-prune_example :
    walk (codes "io" ∷ codes "level" ∷ []) (prune (document (number 1)) (output_dir ∷ [])) ≡ (
      if blocked (tokens_of (output_dir ∷ [])) [] (codes "io" ∷ codes "level" ∷ [])
      then none
      else Option.map
          (rebuild (tokens_of (output_dir ∷ [])) (codes "io" ∷ codes "level" ∷ []))
          (walk (codes "io" ∷ codes "level" ∷ []) (document (number 1))))
walk-prune_example =
    walk-prune (codes "io" ∷ codes "level" ∷ []) (document (number 1)) (output_dir ∷ [])

plus_not_removed_example :
    let p : Pointer = record { raw = codes "/+1"; tokens = (b'+' ∷ decimal 1) ∷ [] } in
    (require p (array two_items) ≡ ok tt) × (prune (array two_items) (p ∷ []) ≡ array two_items)
unfolding get_item
plus_not_removed_example = plus_not_removed (codes "/+1") 1 two_items (omega arith) refl
