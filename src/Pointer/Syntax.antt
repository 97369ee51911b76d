-- ===== src/Pointer/Syntax.antt =====
-- RFC 6901 in both directions: a pointer's text and its tokens determine one another.
use mathlib.Core.Path.{ap₂}
use rs_runvault.Base.{
  ℕ, Bool, true, false, List, [], ◌∷◌, ◌++◌, append_assoc, append-nil, Option, none, some, Text,
  arith, All, All-append, Lacks, map, ℕ_discrete, ◌==◌, nat_eq, if◌then◌else◌, ◌≡◌, ◌≢◌, refl, ◌∙◌,
  ap, ℕ_discrete,
}
use rs_runvault.Error.{ok}
use rs_runvault.Pointer.{Pointer, push_head, split, read_token, read_tokens, parse}

-- How RFC 6901 writes one character of a token.
escape_char : ℕ → Text
escape_char c =
    if c == b'~' then b'~' ∷ b'0' ∷ [] else if c == b'/' then b'~' ∷ b'1' ∷ [] else c ∷ []

escape : Text → Text
escape [] = []
escape (c ∷ s) = escape_char c ++ escape s

-- Every segment behind a slash.
segments_text : List Text → Text
segments_text [] = []
segments_text (segment ∷ segments) = b'/' ∷ (segment ++ segments_text segments)

-- The pointer that RFC 6901 writes for some tokens.
pub print : List Text → Text
print tokens = segments_text (map escape tokens)

escape_char-Lacks : (c : ℕ) → Lacks b'/' (escape_char c)
unfolding escape_char
escape_char-Lacks c = ground arith

escape-Lacks : (s : Text) → Lacks b'/' (escape s)
unfolding escape
escape-Lacks [] = tt
escape-Lacks (c ∷ s) =
    All-append _ (escape_char c) (escape s) (escape_char-Lacks c) (escape-Lacks s)

read_token-escape_char :
    (c : ℕ) (token s : Text)
    → read_token token false (escape_char c ++ s) ≡ read_token (token ++ c ∷ []) false s
unfolding read_token escape_char
read_token-escape_char c token s = ground arith

read_token-escape : (s token : Text) → read_token token false (escape s) ≡ some (token ++ s)
unfolding escape
read_token-escape [] token = unfold read_token in rw append-nil
read_token-escape (c ∷ s) token =
    rw (read_token-escape_char c token (escape s), read_token-escape s (token ++ c ∷ []))
      (ap some (append_assoc token (c ∷ []) s))

-- What the loop has read of the rest of a segment: behind a `~` the tilde too.
unread : Bool → Text → Text
unread true chars = b'~' ∷ chars
unread false chars = chars

-- The loop over the characters adds a text to the token whose escape is what was read.
read_token_sound :
    (chars token : Text) (pending : Bool) (t : Text)
    → Lacks b'/' chars
    → read_token token pending chars ≡ some t
    → (s : Text) × (t ≡ token ++ s) × (escape s ≡ unread pending chars)
unfolding read_token unread escape escape_char
read_token_sound [] token true t l h = absurd (ground arith)
read_token_sound [] token false t l h = ([], ground (arith, append-nil token), refl)
read_token_sound (c ∷ chars) token true t (l, ls) h = elim (ℕ_discrete c b'0') [
  | yes e ↦
      let (s, p, q) = read_token_sound chars (token ++ b'~' ∷ []) false t ls (ground arith) in
      (b'~' ∷ s, ground (arith, append_assoc token (b'~' ∷ []) s), ground arith)
  | no n ↦
      let (s, p, q) = read_token_sound chars (token ++ b'/' ∷ []) false t ls (ground arith) in
      (b'/' ∷ s, ground (arith, append_assoc token (b'/' ∷ []) s), ground arith)
]
read_token_sound (c ∷ chars) token false t (l, ls) h = elim (ℕ_discrete c b'~') [
  | yes e ↦
      let (s, p, q) = read_token_sound chars token true t ls (ground arith) in (s, p, ground arith)
  | no n ↦
      let (s, p, q) = read_token_sound chars (token ++ c ∷ []) false t ls (ground arith) in
      (c ∷ s, ground (arith, append_assoc token (c ∷ []) s), ground arith)
]

split-segments :
    (p : Text) (qs : List Text)
    → Lacks b'/' p
    → All (Lacks b'/') qs
    → split b'/' (p ++ segments_text qs) ≡ p ∷ qs
unfolding split segments_text push_head
split-segments [] [] h hs = refl
split-segments [] (q ∷ qs) h (hq, hs) = ground (arith, split-segments q qs hq hs)
split-segments (c ∷ p) qs (n, h) hs = ground (arith, split-segments p qs h hs)

-- A split has a first part, its parts hold no separator, and put together they are the text.
split-cons :
    (s : Text)
    → (p : Text) × (ps : List Text) × (split b'/' s ≡ p ∷ ps)
      × (p ++ segments_text ps ≡ s)
      × All (Lacks b'/') (p ∷ ps)
unfolding split push_head segments_text
split-cons [] = ([], [], refl, refl, (tt, tt))
split-cons (c ∷ s) =
    let (p, ps, e, f, l) = split-cons s in
    elim (ℕ_discrete c b'/') [
      | yes h ↦ ([], p ∷ ps, ground arith, ground arith, (tt, l))
      | no h ↦ (c ∷ p, ps, ground arith, ground arith, ((h, l.0), l.1))
    ]

read_tokens-escape : (ts done : List Text) → read_tokens done (map escape ts) ≡ some (done ++ ts)
unfolding read_tokens
read_tokens-escape [] done = rw append-nil
read_tokens-escape (t ∷ ts) done =
    rw (read_token-escape t [], read_tokens, read_tokens-escape ts (done ++ t ∷ []))
      (ap some (append_assoc done (t ∷ []) ts))

map-escape-Lacks : (ts : List Text) → All (Lacks b'/') (map escape ts)
map-escape-Lacks [] = tt
map-escape-Lacks (t ∷ ts) = (escape-Lacks t, map-escape-Lacks ts)

-- Any tokens but none at all are read back from the pointer that RFC 6901 writes for them.
pub parse-print :
    (tokens : List Text)
    → tokens ≢ []
    → parse (print tokens) ≡ ok (record { raw = print tokens; tokens = tokens })
unfolding parse print segments_text ℕ_discrete escape
parse-print [] h = absurd (h refl)
parse-print (t ∷ ts) h = rw (
  split-segments (escape t) (map escape ts) (escape-Lacks t) (map-escape-Lacks ts),
  read_tokens-escape (t ∷ ts) [],
)

-- A round of the loop over the segments that does not fail.
read_tokens_round :
    (segment : Text) (segments done tokens : List Text)
    → read_tokens done (segment ∷ segments) ≡ some tokens
    → (t : Text) × (read_token [] false segment ≡ some t)
      × (read_tokens (done ++ t ∷ []) segments ≡ some tokens)
unfolding read_tokens
read_tokens_round segment segments done tokens h = go (read_token [] false segment) refl
  where
    go :
        (o : Option Text)
        → read_token [] false segment ≡ o
        → (t : Text) × (read_token [] false segment ≡ some t)
          × (read_tokens (done ++ t ∷ []) segments ≡ some tokens)
    go none e = absurd (ground arith)
    go (some t) e = (t, e, ground arith)

-- What `read_tokens` adds to the tokens spells the segments.
read_tokens_sound :
    (segments done : List Text) (tokens : List Text)
    → All (Lacks b'/') segments
    → read_tokens done segments ≡ some tokens
    → (ts : List Text) × (tokens ≡ done ++ ts) × (map escape ts ≡ segments)
unfolding read_tokens unread
read_tokens_sound [] done tokens l h = ([], ground (arith, append-nil done), refl)
read_tokens_sound (segment ∷ segments) done tokens (l, ls) h =
    let (t, e, rest) = read_tokens_round segment segments done tokens h in
    let (s, p, q) = read_token_sound segment [] false t l e in
    let (ts, f, g) = read_tokens_sound segments (done ++ t ∷ []) tokens ls rest in
    (t ∷ ts, ground (arith, append_assoc done (t ∷ []) ts), ap₂ ◌∷◌ (ap escape p ∙ q) g)

-- A parsed pointer keeps its text, has a token, and its text is what RFC 6901 writes for the
-- tokens: no two spellings have the same tokens.
pub parse_sound :
    (raw : Text) {p : Pointer}
    → parse raw ≡ ok p
    → (p.raw ≡ raw) × (p.tokens ≢ []) × (print p.tokens ≡ raw)
unfolding parse print segments_text
parse_sound [] h = absurd (ground arith)
parse_sound (c ∷ rest) {p} h =
    let (q, qs, e, f, l) = split-cons rest in go (read_tokens [] (q ∷ qs)) refl e f l
  where
    go :
        (o : Option (List Text)) {q : Text} {qs : List Text}
        → read_tokens [] (q ∷ qs) ≡ o
        → split b'/' rest ≡ q ∷ qs
        → q ++ segments_text qs ≡ rest
        → All (Lacks b'/') (q ∷ qs)
        → (p.raw ≡ c ∷ rest) × (p.tokens ≢ []) × (print p.tokens ≡ c ∷ rest)
    go none r e f l = absurd (ground arith)
    go (some ts) {q} {qs} r e f l =
        let (ts', a, b) = read_tokens_sound (q ∷ qs) [] ts l r in
        let same : p.tokens ≡ ts' = ground arith in
        (
          ground arith,
          (λ z. ground (arith, ap (map escape) z, ap (map escape) same)),
          rw (same, b) (ap (λ u. b'/' ∷ u) f ∙ ground arith),
        )
