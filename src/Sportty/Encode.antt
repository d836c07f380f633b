-- ===== src/Sportty/Encode.antt =====
-- What `encode_to` writes, and when it fails.
use pellegrino.Base.{
  ℕ, suc, ◌+◌, ◌≤◌, ◌<◌, ◌≡◌, ◌∙◌, ap, inl, inr, List, [], ◌∷◌, ◌++◌, arith, length, take, splice,
  leb, ltb, leb→le, not-leb→lt, lt→ltb, le→not-ltb, Option-cases, if◌then◌else◌, Bool-cases,
  length-append, length-splice, take-splice, take-splice_zero, length-splice_zero,
}
use pellegrino.Sportty.{
  insufficient_space, ok, err, or_err, ◌>>=◌, Message, to_le_bytes, encode_to, max_encoding_length,
}
use pellegrino.Sportty.Codec.{Cobs, CobsLaws, encode_two}

module _ {c : Cobs} (laws : CobsLaws c) where
  open laws use {encoded}

  -- COBS adds one byte at most to up to 254 bytes.
  abbrev pub AddsOne : Type 0
  AddsOne = (xs : List ℕ) → length xs ≤ 254 → length (encoded xs) ≤ length xs + 1

  -- The frame of a message: the code of its port and data, and the sentinel.
  abbrev pub code_of : Message → List ℕ
  code_of m = encoded (to_le_bytes m.port ++ m.bytes)

  abbrev pub frame : Message → List ℕ
  frame m = code_of m ++ 0 ∷ []

-- The encoder's part of `encode_to`, taken at once.
encode_to-two :
    (c : Cobs) (m : Message) (dest : List ℕ)
    → encode_to c m dest ≡ (
        or_err (encode_two c dest (to_le_bytes m.port) m.bytes) insufficient_space
        >>= λ (used, out).
            if ltb used (length out)
            then ok (used + 1, splice out used (0 ∷ []))
            else err insufficient_space)
unfolding encode_to
encode_to-two c m dest = elim (Option-cases (c.push (c.new dest) (to_le_bytes m.port))) [
  | inl e ↦ rw e
  | inr (f, e) ↦
      rw e (elim (Option-cases (c.push f m.bytes)) [ inl e' ↦ rw e' | inr (g, e') ↦ rw e' ])
]

module _ {c : Cobs} (laws : CobsLaws c) (m : Message) (dest : List ℕ) where
  open laws use {encoded, encodes, encode_full, length-encoded, max_grows}

  -- Where the frame fits the destination, `encode_to` returns it as the start of the destination,
  -- which keeps its length.
  pub encode_to-frame :
      length (frame laws m) ≤ length dest
      → (out : List ℕ) × (encode_to c m dest ≡ ok (length (frame laws m), out))
        × (take (length (frame laws m)) out ≡ frame laws m)
        × (length out ≡ length dest)
  encode_to-frame fits =
      let code = code_of laws m in
      let size : length (frame laws m) ≡ length code + 1 = length-append code (0 ∷ []) in
      let coded = splice dest 0 code in
      let same = length-splice_zero dest code (omega arith) in
      (
        splice coded (length code) (0 ∷ []),
        rw (encode_to-two c m dest, encodes dest (to_le_bytes m.port) m.bytes (omega arith))
            (rw (lt→ltb (length code) (length coded) (omega arith), size)),
        rw size (
            take-splice coded (length code) (0 ∷ []) (omega arith)
            ∙ ap (λ h. h ++ 0 ∷ []) (take-splice_zero dest code)),
        length-splice coded (length code) (0 ∷ []) (omega arith) ∙ same,
      )

  -- Where it does not, `encode_to` fails.
  pub encode_to-full :
      length dest < length (frame laws m) → encode_to c m dest ≡ err insufficient_space
  encode_to-full full = elim (Bool-cases (leb (length code) (length dest))) [
    | inl fits ↦
        let same = length-splice_zero dest code (leb→le _ _ fits) in
        let none_left =
          le→not-ltb (length code) (length (splice dest 0 code)) (omega (arith, size)) in
        rw (
          encode_to-two c m dest,
          encodes dest (to_le_bytes m.port) m.bytes (leb→le _ _ fits),
          none_left,
        )
    | inr long ↦ rw (
      encode_to-two c m dest,
      encode_full dest (to_le_bytes m.port) m.bytes (not-leb→lt _ _ long),
    )
  ]
    where
      code : List ℕ
      code = code_of laws m

      size : length (frame laws m) ≡ length code + 1
      size = length-append code (0 ∷ [])

  -- A destination of `max_encoding_length` bytes always has room for the frame.
  pub max_encoding_length-frame :
      max_encoding_length c (length m.bytes) ≤ length dest → length (frame laws m) ≤ length dest
  unfolding max_encoding_length
  max_encoding_length-frame enough = omega (
    arith,
    length-append (code_of laws m) (0 ∷ []),
    length-encoded (to_le_bytes m.port ++ m.bytes),
    max_grows (suc (suc (length m.bytes))),
    ap c.max_encoding_length two_more,
  )
    where
      two_more : suc (suc (suc (length m.bytes))) ≡ length m.bytes + 2 + 1
      two_more = omega arith
