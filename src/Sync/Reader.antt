-- ===== src/Sync/Reader.antt =====
-- crates/runvault/src/sync.rs: `read_full` and the loop of `stored_is_prefix_of`. A reader holds the
-- bytes that are left, and how many bytes each read is ready to give: never none before the end.
use rs_runvault.Base.{
  ℕ, zero, suc, ◌-◌, Bool, true, false, not, ◌||◌, List, [], ◌∷◌, ◌++◌, Option, none, some, Text,
  length, take, ltb, leb, ◌==◌, nat_eq, list_eq, if◌then◌else◌,
}

pub record Reader : Type 0 where
  pub content : Text
  pub sizes : List ℕ

abbrev pub drop {ℓ} : {A : Type ℓ} → ℕ → List A → List A
drop zero xs = xs
drop (suc n) [] = []
drop (suc n) (x ∷ xs) = drop n xs

-- The bytes of one read, into a buffer with some room.
unfoldable pub given : ℕ → List ℕ → ℕ
given room [] = room
given room (zero ∷ sizes) = if ltb room 1 then room else 1
given room (suc n ∷ sizes) = if ltb room (suc n) then room else suc n

abbrev pub tail_of : List ℕ → List ℕ
tail_of [] = []
tail_of (n ∷ ns) = ns

unfoldable pub read : ℕ → Reader → Text × Reader
read room r = (
  take (given room r.sizes) r.content,
  record { content = drop (given room r.sizes) r.content; sizes = tail_of r.sizes },
)

-- The loop, on fuel: each round but the last fills a byte or more.
unfoldable pub read_full : ℕ → ℕ → Reader → Text × Reader
read_full zero room r = ([], r)
read_full (suc fuel) zero r = ([], r)
read_full (suc fuel) (suc room) r =
    let now = read (suc room) r in
    let later = read_full fuel (suc room - length now.0) now.1 in
    if leb (length now.0) 0 then ([], now.1) else (now.0 ++ later.0, later.1)

-- The loop, on fuel: `none` is a loop that has not ended.
unfoldable pub stored_is_prefix_of : ℕ → ℕ → Reader → Reader → Option Bool
stored_is_prefix_of zero size stored fresh = none
stored_is_prefix_of (suc fuel) size stored fresh =
    let left = read_full size size stored in
    let right = read_full (length left.0) (length left.0) fresh in
    let later = stored_is_prefix_of fuel size left.1 right.1 in
    if leb (length left.0) 0
    then some true
    else if not (length right.0 == length left.0) || not (left.0 == right.0)
    then some false
    else later
