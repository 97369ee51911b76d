-- ===== src/Config/Precedence.antt =====
-- The three lists that `Exclusions::resolve` returns.
use rs_runvault.Base.{
  Bool, true, false, not, ◌&&◌, List, [], ◌∷◌, ◌++◌, Text, filter, contains, if◌then◌else◌, ◌==◌,
  arith, ◌≡◌, refl, All, Bool-cases, inl, inr, ◌⊎◌, subst, All-map,
}
use rs_runvault.Error.{ok, >>=-eq-ok}
use rs_runvault.Json.{Value}
use rs_runvault.Pointer.{Pointer, pointer_eq, parse, require}
use rs_runvault.Config.{RunvaultBlock, Exclusions, parse_loop, resolve, removed_from_config}

-- No pointer is listed twice.
abbrev pub NoRepeat : List Pointer → Type 0
NoRepeat [] = Unit
NoRepeat (p ∷ ps) = (contains ps p ≡ false) × NoRepeat ps

contains-append :
    (xs ys : List Pointer) (p : Pointer) → contains xs p ≡ true → contains (xs ++ ys) p ≡ true
contains-append [] ys p h = cc
contains-append (x ∷ xs) ys p h = ground (arith, contains-append xs ys p)

contains-append_right :
    (xs ys : List Pointer) (p : Pointer) → contains ys p ≡ true → contains (xs ++ ys) p ≡ true
contains-append_right [] ys p h = h
contains-append_right (x ∷ xs) ys p h = ground (arith, contains-append_right xs ys p)

contains-snoc :
    (xs : List Pointer) (p q : Pointer)
    → contains xs q ≡ false
    → (p == q) ≡ false
    → contains (xs ++ p ∷ []) q ≡ false
contains-snoc [] p q h n = ground arith
contains-snoc (x ∷ xs) p q h n = ground (arith, contains-snoc xs p q)

NoRepeat-snoc :
    (xs : List Pointer) (p : Pointer)
    → contains xs p ≡ false
    → NoRepeat xs
    → NoRepeat (xs ++ p ∷ [])
NoRepeat-snoc [] p h n = (refl, tt)
NoRepeat-snoc (x ∷ xs) p h (a, n) =
    (contains-snoc xs p x a (ground arith), NoRepeat-snoc xs p (ground arith) n)

contains-filter :
    (f : Pointer → Bool) (xs : List Pointer) (p : Pointer)
    → contains xs p ≡ true
    → f p ≡ true
    → contains (filter f xs) p ≡ true
contains-filter f [] p h k = h
contains-filter f (x ∷ xs) p h k = ground (arith, contains-filter f xs p)

filter-contains :
    (f : Pointer → Bool) (xs : List Pointer) (p : Pointer)
    → contains xs p ≡ false
    → contains (filter f xs) p ≡ false
filter-contains f [] p h = h
filter-contains f (x ∷ xs) p h = ground (arith, filter-contains f xs p)

NoRepeat-filter : (f : Pointer → Bool) (xs : List Pointer) → NoRepeat xs → NoRepeat (filter f xs)
NoRepeat-filter f [] n = tt
NoRepeat-filter f (x ∷ xs) (a, n) = ground (arith, filter-contains f xs x a, NoRepeat-filter f xs n)

All-filter {ℓ} :
    (P : Pointer → Type ℓ) (f : Pointer → Bool) (xs : List Pointer) → All P xs → All P (filter f xs)
All-filter P f [] h = tt
All-filter P f (x ∷ xs) (p, h) =
    elim (f x) as (λ b. All P (if b then x ∷ filter f xs else filter f xs)) [
      | true ↦ (p, All-filter P f xs h)
      | false ↦ All-filter P f xs h
    ]

filter_kept : (f : Pointer → Bool) (xs : List Pointer) → All (λ p. f p ≡ true) (filter f xs)
filter_kept f [] = tt
filter_kept f (x ∷ xs) = ground (arith, filter_kept f xs)

-- The parts of `removed_from_config`.
pub removed :
    (e : Exclusions) (p : Pointer)
    → ((contains e.hash_exclude p ≡ true)
        ⊎ ((contains e.seeds p ≡ true) ⊎ (contains e.invariant_to p ≡ true)))
    → contains (removed_from_config e) p ≡ true
unfolding removed_from_config
removed e p (inl h) =
    contains-append (e.hash_exclude ++ e.seeds) e.invariant_to p
      (contains-append e.hash_exclude e.seeds p h)
removed e p (inr (inl h)) =
    contains-append (e.hash_exclude ++ e.seeds) e.invariant_to p
      (contains-append_right e.hash_exclude e.seeds p h)
removed e p (inr (inr h)) = contains-append_right (e.hash_exclude ++ e.seeds) e.invariant_to p h

pub removed_early :
    (e : Exclusions) (p : Pointer)
    → contains (e.hash_exclude ++ e.seeds) p ≡ true
    → contains (removed_from_config e) p ≡ true
unfolding removed_from_config
removed_early e p h = contains-append (e.hash_exclude ++ e.seeds) e.invariant_to p h

module _ {N : Type 0} (v : Value N) where
  abbrev pub Resolves : Pointer → Type 0
  Resolves p = require p v ≡ ok tt

  -- A text is declared in a list of pointers.
  abbrev pub Listed : List Pointer → Text → Type 0
  Listed ps raw = (p : Pointer) × (parse raw ≡ ok p) × (contains ps p ≡ true)

  -- One of the texts is the pointer.
  abbrev pub Declares : List Text → Pointer → Type 0
  Declares [] p = ⊥
  Declares (raw ∷ raws) p = (parse raw ≡ ok p) ⊎ Declares raws p

  record Collected (before : List Pointer) (raws : List Text) (after : List Pointer) : Type 0 where
    resolving : All Resolves after
    no_repeat : NoRepeat after
    kept : (p : Pointer) → contains before p ≡ true → contains after p ≡ true
    listed : All (Listed after) raws

  All-snoc :
      (P : Pointer → Type 0) (ps : List Pointer) (p : Pointer)
      → All P ps
      → P p
      → All P (ps ++ p ∷ [])
  All-snoc P [] p h r = (r, tt)
  All-snoc P (x ∷ xs) p (a, h) r = (a, All-snoc P xs p h r)

  -- One round of the loop, once the pointer is parsed and resolves.
  abbrev push : List Pointer → Pointer → List Pointer
  push out p = if not (contains out p) then out ++ p ∷ [] else out

  push-All :
      (P : Pointer → Type 0) (out : List Pointer) (p : Pointer)
      → All P out
      → P p
      → All P (push out p)
  push-All P out p h r = elim (Bool-cases (contains out p)) [
    | inl e ↦ rw e h
    | inr e ↦ rw e (All-snoc P out p h r)
  ]

  push-NoRepeat : (out : List Pointer) (p : Pointer) → NoRepeat out → NoRepeat (push out p)
  push-NoRepeat out p h = elim (Bool-cases (contains out p)) [
    | inl e ↦ rw e h
    | inr e ↦ rw e (NoRepeat-snoc out p e h)
  ]

  contains-push : (out : List Pointer) (p : Pointer) → contains (push out p) p ≡ true
  contains-push out p = elim (Bool-cases (contains out p)) [
    | inl e ↦ rw e e
    | inr e ↦ rw e (contains-append_right out (p ∷ []) p (ground arith))
  ]

  push_kept :
      (out : List Pointer) (p q : Pointer) → contains out q ≡ true → contains (push out p) q ≡ true
  push_kept out p q h = elim (Bool-cases (contains out p)) [
    | inl e ↦ rw e h
    | inr e ↦ rw e (contains-append out (p ∷ []) q h)
  ]

  parse_loop_sound :
      (raws : List Text) (out after : List Pointer)
      → All Resolves out
      → NoRepeat out
      → parse_loop v out raws ≡ ok after
      → Collected out raws after
  unfolding parse_loop
  parse_loop_sound [] out after r n h =
      let e : out ≡ after = ground arith in
      record {
        resolving = subst (All Resolves) e r;
        no_repeat = subst NoRepeat e n;
        kept = λ p c. rw e at c;
        listed = tt;
      }
  parse_loop_sound (raw ∷ raws) out after r n h =
      let (p, e, rest) = >>=-eq-ok (parse raw) _ h in
      let (_, q, more) = >>=-eq-ok (require p v) _ rest in
      let c =
        parse_loop_sound raws (push out p) after (push-All Resolves out p r q)
          (push-NoRepeat out p n) more in
      record {
        resolving = c.resolving;
        no_repeat = c.no_repeat;
        kept = λ x k. c.kept x (push_kept out p x k);
        listed = ((p, e, c.kept p (contains-push out p)), c.listed);
      }

  -- What holds of every pointer that is read holds of the list.
  parse_loop-All :
      (P : Pointer → Type 0) (raws : List Text) (out after : List Pointer)
      → All P out
      → ((p : Pointer) → Declares raws p → P p)
      → parse_loop v out raws ≡ ok after
      → All P after
  unfolding parse_loop
  parse_loop-All P [] out after a d h = let e : out ≡ after = ground arith in subst (All P) e a
  parse_loop-All P (raw ∷ raws) out after a d h =
      let (p, e, rest) = >>=-eq-ok (parse raw) _ h in
      let (_, _, more) = >>=-eq-ok (require p v) _ rest in
      parse_loop-All P raws (push out p) after (push-All P out p a (d p (inl e)))
        (λ q k. d q (inr k)) more

  -- What holds of the three lists that a control block resolves to.
  pub record Precedence (block : RunvaultBlock) (e : Exclusions) : Type 0 where
    pub exclude_resolves : All Resolves e.hash_exclude
    pub seeds_resolve : All Resolves e.seeds
    pub invariant_resolves : All Resolves e.invariant_to
    pub exclude_once : NoRepeat e.hash_exclude
    pub seeds_once : NoRepeat e.seeds
    pub invariant_once : NoRepeat e.invariant_to
    pub seeds_apart : All (λ p. contains e.hash_exclude p ≡ false) e.seeds
    pub invariant_apart :
        All (λ p. (contains e.hash_exclude p ≡ false) × (contains e.seeds p ≡ false)) e.invariant_to
    pub exclude_listed : All (Listed e.hash_exclude) block.hash_exclude
    pub seeds_listed : All (Listed (e.hash_exclude ++ e.seeds)) block.seed_pointers
    pub invariant_listed : All (Listed (removed_from_config e)) block.determinism.invariant_to
    pub exclude_declared : All (Declares block.hash_exclude) e.hash_exclude
    pub seeds_declared : All (Declares block.seed_pointers) e.seeds
    pub invariant_declared : All (Declares block.determinism.invariant_to) e.invariant_to

-- The lists without what the stronger lists hold.
abbrev layered : List Pointer → List Pointer → List Pointer → Exclusions
layered hs ss is' =
    let seeds = filter (λ p. not (contains hs p)) ss in
    record {
      hash_exclude = hs;
      seeds = seeds;
      invariant_to = filter (λ p. not (contains hs p) && not (contains seeds p)) is';
    }

resolve_parts :
    {N : Type 0} (block : RunvaultBlock) (v : Value N) (e : Exclusions)
    → resolve block v ≡ ok e
    → (hs : List Pointer) × (ss : List Pointer) × (is' : List Pointer) × (parse_loop v []
          block.hash_exclude
        ≡ ok hs)
      × (parse_loop v [] block.seed_pointers ≡ ok ss)
      × (parse_loop v [] block.determinism.invariant_to ≡ ok is')
      × (layered hs ss is' ≡ e)
unfolding resolve
resolve_parts block v e h =
    let (hs, p, rest) = >>=-eq-ok (parse_loop v [] block.hash_exclude) _ h in
    let (ss, q, rest') = >>=-eq-ok (parse_loop v [] block.seed_pointers) _ rest in
    let (is', r, done) = >>=-eq-ok (parse_loop v [] block.determinism.invariant_to) _ rest' in
    (hs, ss, is', p, q, r, ground arith)

module _ {N : Type 0} (v : Value N) (block : RunvaultBlock) where
  Precedence-layered :
      (hs ss is' : List Pointer)
      → Collected v [] block.hash_exclude hs
      → Collected v [] block.seed_pointers ss
      → Collected v [] block.determinism.invariant_to is'
      → All (Declares v block.hash_exclude) hs
      → All (Declares v block.seed_pointers) ss
      → All (Declares v block.determinism.invariant_to) is'
      → Precedence v block (layered hs ss is')
  Precedence-layered hs ss is' h s t a b c =
      let e = layered hs ss is' in
      record {
        exclude_resolves = h.resolving;
        seeds_resolve = All-filter _ _ ss s.resolving;
        invariant_resolves = All-filter _ _ is' t.resolving;
        exclude_once = h.no_repeat;
        seeds_once = NoRepeat-filter _ ss s.no_repeat;
        invariant_once = NoRepeat-filter _ is' t.no_repeat;
        seeds_apart = All-map _ _ _ (λ p k. ground arith) (filter_kept _ ss);
        invariant_apart = All-map _ _ _ (λ p k. ground arith) (filter_kept _ is');
        exclude_listed = h.listed;
        seeds_listed = All-map _ _ _ (λ raw (p, a, c). (p, a, seed_listed p c)) s.listed;
        invariant_listed = All-map _ _ _ (λ raw (p, a, c). (p, a, invariant_removed p c)) t.listed;
        exclude_declared = a;
        seeds_declared = All-filter _ _ ss b;
        invariant_declared = All-filter _ _ is' c;
      }
    where
      seed_listed :
          (p : Pointer) → contains ss p ≡ true → contains (hs ++ (layered hs ss is').seeds) p ≡ true
      seed_listed p c = elim (Bool-cases (contains hs p)) [
        | inl y ↦ contains-append hs _ p y
        | inr n ↦ contains-append_right hs _ p (contains-filter _ ss p c (ground arith))
      ]

      invariant_removed :
          (p : Pointer)
          → contains is' p ≡ true
          → contains (removed_from_config (layered hs ss is')) p ≡ true
      invariant_removed p c = elim (Bool-cases (contains hs p)) [
        | inl y ↦ removed (layered hs ss is') p (inl y)
        | inr n ↦ elim (Bool-cases (contains (layered hs ss is').seeds p)) [
          | inl y ↦ removed (layered hs ss is') p (inr (inl y))
          | inr m ↦
              removed (layered hs ss is') p (inr (inr (contains-filter _ is' p c (ground arith))))
        ]
      ]

-- A control block that resolves gives three lists of pointers that all resolve in the parameters.
-- No list repeats a pointer, and no pointer is in two of them. Each list holds only what the block
-- declares in the list of that name. Every pointer of `hash_exclude` is in its own list, every pointer
-- of `seed_pointers` in that of `hash_exclude` or in the seeds, and every pointer of `invariant_to` in
-- one of the three.
pub resolve_sound :
    {N : Type 0} (block : RunvaultBlock) (v : Value N) (e : Exclusions)
    → resolve block v ≡ ok e
    → Precedence v block e
resolve_sound block v e h =
    let (hs, ss, is', p, q, r, same) = resolve_parts block v e h in
    subst (Precedence v block) same (
      Precedence-layered v block hs ss is' (parse_loop_sound v _ [] hs tt tt p)
        (parse_loop_sound v _ [] ss tt tt q) (parse_loop_sound v _ [] is' tt tt r)
        (parse_loop-All v _ _ [] hs tt (λ x d. d) p) (parse_loop-All v _ _ [] ss tt (λ x d. d) q)
        (parse_loop-All v _ _ [] is' tt (λ x d. d) r))

module _ {N : Type 0} (v w : Value N) where
  parse_loop_same :
      (raws : List Text) (out a b : List Pointer)
      → parse_loop v out raws ≡ ok a
      → parse_loop w out raws ≡ ok b
      → a ≡ b
  unfolding parse_loop
  parse_loop_same [] out a b h k = ground arith
  parse_loop_same (raw ∷ raws) out a b h k =
      let (p, e, rest) = >>=-eq-ok (parse raw) _ h in
      let (q, f, rest') = >>=-eq-ok (parse raw) _ k in
      let same : q ≡ p = cc (e, f) in
      let (_, _, more) = >>=-eq-ok (require p v) _ rest in
      let (_, _, more') = >>=-eq-ok (require p w) _ (rw same at rest') in
      parse_loop_same raws _ a b more more'

-- Where a control block resolves in two documents, it resolves to the same lists.
pub resolve_same :
    {N : Type 0} (block : RunvaultBlock) (v w : Value N) (e f : Exclusions)
    → resolve block v ≡ ok e
    → resolve block w ≡ ok f
    → e ≡ f
resolve_same block v w e f h k =
    let (hs, ss, is', p, q, r, same) = resolve_parts block v e h in
    let (hs', ss', is'', p', q', r', same') = resolve_parts block w f k in
    cc (
      parse_loop_same v w _ [] hs hs' p p',
      parse_loop_same v w _ [] ss ss' q q',
      parse_loop_same v w _ [] is' is'' r r',
      same,
      same',
    )
