-- ===== src/Canonical/Framing.antt =====
-- `push_lp` and `join_lp` of crates/runvault/src/canonical.rs: length-prefixed concatenation.
use rs_runvault.Base.{
  ◌≡◌, ◌≢◌, refl, sym, append-nil, List, [], ◌∷◌, ◌++◌, arith, Text, length, length-append, ap,
  append_cancel, split_at_sep, append_assoc, All, Lacks,
}
use rs_runvault.Base.Decimal.{decimal, IsDigit, decimal-IsDigit, decimal-injective}

-- `push_lp`: what is appended to `out` is `<byte length in decimal>:<input>`.
unfoldable pub push_lp : Text → Text → Text
push_lp out input = ((out ++ decimal (length input)) ++ b':' ∷ []) ++ input

unfoldable pub join_loop : Text → List Text → Text
join_loop out [] = out
join_loop out (input ∷ inputs) = join_loop (push_lp out input) inputs

unfoldable pub join_lp : List Text → Text
unfolding join_loop
join_lp inputs = join_loop [] inputs

pub frame : Text → Text → Text
frame input rest = decimal (length input) ++ b':' ∷ (input ++ rest)

pub frames : List Text → Text
frames [] = []
frames (input ∷ inputs) = frame input (frames inputs)

push_lp-frame : (out input rest : Text) → push_lp out input ++ rest ≡ out ++ frame input rest
unfolding push_lp frame
push_lp-frame out input rest = simp append_assoc

pub join_loop-frames :
    (out : Text) (inputs : List Text) → join_loop out inputs ≡ out ++ frames inputs
unfolding join_loop frames
join_loop-frames out [] = rw append-nil
join_loop-frames out (input ∷ inputs) =
    rw (join_loop-frames (push_lp out input) inputs) (push_lp-frame out input (frames inputs))

pub join_lp-frames : (inputs : List Text) → join_lp inputs ≡ frames inputs
unfolding join_lp
join_lp-frames inputs = join_loop-frames [] inputs

pub frames-nil : frames [] ≡ []
unfolding frames
frames-nil = refl

pub frames-append : (xs ys : List Text) → frames (xs ++ ys) ≡ frames xs ++ frames ys
unfolding frames frame
frames-append [] ys = refl
frames-append (x ∷ xs) ys = simp (frames-append xs ys, append_assoc)

-- The loop followed by more frames is one sequence of frames.
pub join_loop-append :
    (out : Text) (xs ys : List Text) → join_loop out xs ++ frames ys ≡ out ++ frames (xs ++ ys)
join_loop-append out xs ys = simp (join_loop-frames, frames-append, append_assoc)

digits-Lacks_colon : (t : Text) → All IsDigit t → Lacks b':' t
digits-Lacks_colon [] h = tt
digits-Lacks_colon (c ∷ t) (d, h) = (omega arith, digits-Lacks_colon t h)

-- A frame and what follows it are determined by their text.
pub frame-injective : (s t q r : Text) → frame s q ≡ frame t r → (s ≡ t) × (q ≡ r)
unfolding frame
frame-injective s t q r e =
    let (n, tail) =
      split_at_sep b':' (decimal (length s)) (decimal (length t)) (s ++ q) (t ++ r)
        (digits-Lacks_colon _ (decimal-IsDigit (length s)))
        (digits-Lacks_colon _ (decimal-IsDigit (length t))) e in
    append_cancel s t q r (decimal-injective _ _ n) tail

frame-ne-nil : (s q : Text) → frame s q ≢ []
unfolding frame
frame-ne-nil s q e =
    absurd (omega (arith, ap length e, length-append (decimal (length s)) (b':' ∷ (s ++ q))))

pub frames-injective : (xs ys : List Text) → frames xs ≡ frames ys → xs ≡ ys
unfolding frames
frames-injective [] [] e = refl
frames-injective [] (y ∷ ys) e = absurd (frame-ne-nil y (frames ys) (sym e))
frames-injective (x ∷ xs) [] e = absurd (frame-ne-nil x (frames xs) e)
frames-injective (x ∷ xs) (y ∷ ys) e =
    let (p, q) = frame-injective x y (frames xs) (frames ys) e in cc (frames-injective xs ys q)

-- Two lists of inputs with the same length-prefixed concatenation are the same list, whatever
-- bytes the inputs hold.
pub join_lp-injective : (xs ys : List Text) → join_lp xs ≡ join_lp ys → xs ≡ ys
join_lp-injective xs ys e = frames-injective xs ys (cc (join_lp-frames xs, join_lp-frames ys))
