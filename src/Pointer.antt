-- ===== src/Pointer.antt =====
-- crates/runvault/src/pointer.rs: JSON pointers into the parameters, and the removal of the nodes
-- that they name.
pub mod Syntax
pub mod Prune
pub mod Indices
mod Tests
use rs_runvault.Base.{
  ℕ, zero, suc, ◌+◌, ◌-◌, ◌*◌, ◌^◌, Bool, true, false, not, ◌&&◌, ◌||◌, List, [], ◌∷◌, ◌++◌, Option,
  none, some, map, Text, codes, ltb, leb, ◌==◌, Eq, nat_eq, list_eq, contains, if◌then◌else◌, ◌≡◌,
  refl, ap, ℕ_discrete,
}
use rs_runvault.Base.Decimal.{decimal}
use rs_runvault.Error.{Result, ok, err, Error, pointer_not_found, pointer_syntax, ◌>>=◌, ◌>>◌}
use rs_runvault.Json.{
  Value, null, bool, number, string, array, object, Items, nil, cons, Members, end, member,
}

pub record Pointer : Type 0 where
  pub raw : Text
  pub tokens : List Text

-- The derived `PartialEq`: both fields are compared.
pointer_dec : Discrete Pointer
pointer_dec p q = elim (list_eq.dec p.raw q.raw) [
  | no n ↦ no (λ e. n (ap (λ (x : Pointer). x.raw) e))
  | yes e ↦ elim (tokens_eq.dec p.tokens q.tokens) [
    | no n ↦ no (λ f. n (ap (λ (x : Pointer). x.tokens) f))
    | yes f ↦ yes (λ i. record { raw = e i; tokens = f i })
  ]
]
  where
    tokens_eq : Eq (List Text)
    tokens_eq = list_eq

instance unfoldable pub pointer_eq : Eq Pointer
unfolding pointer_dec list_eq
pointer_eq = record { dec = pointer_dec }

push_head : ℕ → List Text → List Text
push_head c [] = (c ∷ []) ∷ []
push_head c (part ∷ parts) = (c ∷ part) ∷ parts

-- `str::split`
unfoldable pub split : ℕ → Text → List Text
unfolding push_head
split sep [] = [] ∷ []
split sep (c ∷ s) = let parts = split sep s in if c == sep then [] ∷ parts else push_head c parts

-- The loop over the characters of a segment. The flag is set behind a `~`.
read_token : Text → Bool → Text → Option Text
read_token token true [] = none
read_token token false [] = some token
read_token token true (c ∷ chars) =
    let tilde = read_token (token ++ b'~' ∷ []) false chars in
    let slash = read_token (token ++ b'/' ∷ []) false chars in
    if c == b'0' then tilde else if c == b'1' then slash else none
read_token token false (c ∷ chars) =
    let escape = read_token token true chars in
    let plain = read_token (token ++ c ∷ []) false chars in
    if not (c == b'~') then plain else escape

read_tokens : List Text → List Text → Option (List Text)
read_tokens tokens [] = some tokens
read_tokens tokens (segment ∷ segments) = elim (read_token [] false segment) [
  | none ↦ none
  | some token ↦ read_tokens (tokens ++ token ∷ []) segments
]

-- `Pointer::parse`
unfoldable pub parse : Text → Result Pointer
unfolding split read_token read_tokens
parse [] = err (pointer_syntax [])
parse (c ∷ rest) =
    if not (c == b'/')
    then err (pointer_syntax (c ∷ rest))
    else elim (read_tokens [] (split b'/' rest)) [
      | none ↦ err (pointer_syntax (c ∷ rest))
      | some tokens ↦ ok (record { raw = c ∷ rest; tokens = tokens })
    ]

-- The digits of `str::parse::<usize>`, which fails where the number passes 64 bits.
parse_digits : ℕ → Text → Option ℕ
parse_digits n [] = some n
parse_digits n (c ∷ s) =
    let m = n * 10 + (c - b'0') in
    if leb b'0' c && leb c b'9' && ltb m (2 ^ 64) then parse_digits m s else none

-- `str::parse::<usize>().ok()`: a leading `+` is accepted.
parse_usize : Text → Option ℕ
unfolding parse_digits
parse_usize [] = none
parse_usize (c ∷ []) = if c == b'+' then none else parse_digits 0 (c ∷ [])
parse_usize (c ∷ d ∷ s) = if c == b'+' then parse_digits 0 (d ∷ s) else parse_digits 0 (c ∷ d ∷ s)

starts_with_zero : Text → Bool
starts_with_zero [] = false
starts_with_zero (c ∷ s) = c == b'0'

unfoldable pub array_index : Text → Option ℕ
unfolding parse_usize starts_with_zero
array_index token =
    if not (token == b'0' ∷ []) && starts_with_zero token then none else parse_usize token

module _ {N : Type 0} where
  -- `Map::get`
  unfoldable pub get : Text → Members N → Option (Value N)
  get key end = none
  get key (member k v rest) = if k == key then some v else get key rest

  -- `Vec::get`
  unfoldable pub get_item : ℕ → Items N → Option (Value N)
  get_item i nil = none
  get_item zero (cons v rest) = some v
  get_item (suc i) (cons v rest) = get_item i rest

  -- One round of the loop of `resolve`.
  unfoldable pub child : Text → Value N → Option (Value N)
  unfolding get get_item array_index
  child token (object map) = get token map
  child token (array items) = elim (array_index token) [ none ↦ none | some i ↦ get_item i items ]
  child token _ = none

  unfoldable pub resolve_tokens : List Text → Value N → Option (Value N)
  resolve_tokens [] cursor = some cursor
  resolve_tokens (token ∷ tokens) cursor = elim (child token cursor) [
    | none ↦ none
    | some next ↦ resolve_tokens tokens next
  ]

  unfoldable pub resolve : Pointer → Value N → Option (Value N)
  resolve p root = resolve_tokens p.tokens root

  unfoldable pub require : Pointer → Value N → Result (Unit {0})
  require p root = elim (resolve p root) [ some _ ↦ ok tt | none ↦ err (pointer_not_found p.raw) ]

  -- `rebuild`: `path` is the stack of the keys and indices above the value.
  module _ (remove : List (List Text)) where
    unfoldable mutual
      pub rebuild : List Text → Value N → Value N
      rebuild path (object map) = object (rebuild_members path map)
      rebuild path (array items) = array (rebuild_items path 0 items)
      rebuild path null = null
      rebuild path (bool b) = bool b
      rebuild path (number n) = number n
      rebuild path (string s) = string s

      pub rebuild_members : List Text → Members N → Members N
      rebuild_members path end = end
      rebuild_members path (member key item rest) =
          let here = path ++ key ∷ [] in
          let kept = rebuild_members path rest in
          if not (contains remove here) then member key (rebuild here item) kept else kept

      pub rebuild_items : List Text → ℕ → Items N → Items N
      rebuild_items path i nil = nil
      rebuild_items path i (cons item rest) =
          let here = path ++ decimal i ∷ [] in
          let kept = rebuild_items path (suc i) rest in
          if not (contains remove here) then cons (rebuild here item) kept else kept

  unfoldable pub prune : Value N → List Pointer → Value N
  unfolding rebuild
  prune root remove = rebuild (map (λ p. p.tokens) remove) [] root
