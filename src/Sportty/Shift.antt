-- ===== src/Sportty/Shift.antt =====
-- A code that keeps the promises of `Cobs`: every byte is one higher than it was. It shows that they
-- can be kept, and stands for the crate in the tests.
use mathlib.Core.Path.{ap₂}
use pellegrino.Base.{
  ℕ, suc, ◌-◌, ◌≤◌, ◌<◌, ◌≡◌, refl, List, [], ◌∷◌, ◌++◌, none, some, arith, leb, le→leb, length,
  take, take-all, length-append, length-splice, splice, NoZero, if◌then◌else◌, ap, true, false, inl,
  inr, Bool-cases,
}
use pellegrino.Sportty.Codec.{Cobs, CobsLaws, encode_two}

abbrev pub lift : List ℕ → List ℕ
lift [] = []
lift (x ∷ xs) = suc x ∷ lift xs

abbrev pub lower : List ℕ → List ℕ
lower [] = []
lower (x ∷ xs) = (x - 1) ∷ lower xs

abbrev pub shift : Cobs
shift = record {
  Encoder = List ℕ × List ℕ;
  new = λ dest. (dest, []);
  push = λ (dest, held) xs.
      if leb (length (held ++ xs)) (length dest) then some (dest, held ++ xs) else none;
  finalize = λ (dest, held). some (length held, splice dest 0 (lift held));
  decode = λ src dst.
      if leb (length src) (length dst) then some (length src, splice dst 0 (lower src)) else none;
  decode_in_place = λ src. some (length src, lower src);
  max_encoding_length = λ n. n;
}

length-lift : (xs : List ℕ) → length (lift xs) ≡ length xs
length-lift [] = refl
length-lift (x ∷ xs) = ap suc (length-lift xs)

length-lower : (xs : List ℕ) → length (lower xs) ≡ length xs
length-lower [] = refl
length-lower (x ∷ xs) = ap suc (length-lower xs)

pub NoZero-lift : (xs : List ℕ) → NoZero (lift xs)
NoZero-lift [] = tt
NoZero-lift (x ∷ xs) = (omega arith, NoZero-lift xs)

lower-lift : (xs : List ℕ) → lower (lift xs) ≡ xs
lower-lift [] = refl
lower-lift (x ∷ xs) = ap₂ ◌∷◌ (omega arith) (lower-lift xs)

pub shift-encodes :
    (dest xs ys : List ℕ)
    → length (lift (xs ++ ys)) ≤ length dest
    → encode_two shift dest xs ys ≡ some (length (lift (xs ++ ys)), splice dest 0 (lift (xs ++ ys)))
shift-encodes dest xs ys h =
    let first : leb (length xs) (length dest) ≡ true =
      ground (arith, length-lift (xs ++ ys), length-append xs ys) in
    let second : leb (length (xs ++ ys)) (length dest) ≡ true =
      ground (arith, length-lift (xs ++ ys)) in
    rw (first, second, length-lift (xs ++ ys))

pub shift-encode_full :
    (dest xs ys : List ℕ)
    → length dest < length (lift (xs ++ ys))
    → encode_two shift dest xs ys ≡ none
shift-encode_full dest xs ys h = elim (Bool-cases (leb (length xs) (length dest))) [
  | inl first ↦
      let second : leb (length (xs ++ ys)) (length dest) ≡ false =
        ground (arith, length-lift (xs ++ ys)) in
      rw (first, second)
  | inr first ↦ rw first
]

pub shift-decodes :
    (xs dst : List ℕ)
    → length xs ≤ length dst
    → shift.decode (lift xs) dst ≡ some (length xs, splice dst 0 xs)
shift-decodes xs dst h = rw (length-lift xs, le→leb _ _ h, lower-lift xs)

pub shift-within :
    (src dst : List ℕ) (n : ℕ) (buf : List ℕ)
    → shift.decode src dst ≡ some (n, buf)
    → (n ≤ length buf) × (length buf ≡ length dst)
shift-within src dst n buf e = ground (arith, length-lower src, length-splice dst 0 (lower src))

pub shift-length-encoded : (xs : List ℕ) → length (lift xs) ≤ length xs
shift-length-encoded xs = omega (arith, length-lift xs)

pub shift-max_grows : (n : ℕ) → n < suc n
shift-max_grows n = omega arith

pub shift-decodes_in_place :
    (xs : List ℕ)
    → (buf : List ℕ) × (shift.decode_in_place (lift xs) ≡ some (length xs, buf))
      × (take (length xs) buf ≡ xs)
shift-decodes_in_place xs = (
  lower (lift xs),
  rw (length-lift xs),
  rw (lower-lift xs) (take-all (length xs) xs (omega arith)),
)

pub shift-decode_in_place-within :
    (src : List ℕ) (n : ℕ) (buf : List ℕ)
    → shift.decode_in_place src ≡ some (n, buf)
    → (n ≤ length buf) × (length buf ≡ length src)
shift-decode_in_place-within src n buf e = ground (arith, length-lower src)

abbrev pub shift_laws : CobsLaws shift
shift_laws = record {
  encoded = lift;
  encoded-NoZero = NoZero-lift;
  length-encoded = shift-length-encoded;
  max_grows = shift-max_grows;
  encodes = shift-encodes;
  encode_full = shift-encode_full;
  decodes_in_place = shift-decodes_in_place;
  decodes = shift-decodes;
  decode_in_place-within = shift-decode_in_place-within;
  decode-within = shift-within;
}
