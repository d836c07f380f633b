-- ===== src/Sportty/Tests.antt =====
-- The format over a stand-in code: runs, and the theorems at concrete messages.
use pellegrino.Base.{ℕ, ◌≡◌, refl, List, [], ◌∷◌, arith, done, Returns}
use pellegrino.Sportty.{
  insufficient_space, decoding_error, ok, err, Message, encode_to, decode_in_place, decode_to,
}
use pellegrino.Sportty.Shift.{shift, shift_laws}
use pellegrino.Sportty.RoundTrip.{decode_in_place-encode_to, decode-total}

abbrev hello : Message
hello = record { port = 258; bytes = 7 ∷ 0 ∷ [] }

abbrev dest : List ℕ
dest = 9 ∷ 9 ∷ 9 ∷ 9 ∷ 9 ∷ 9 ∷ []

encode_hello : encode_to shift hello dest ≡ ok (5, 3 ∷ 2 ∷ 8 ∷ 1 ∷ 0 ∷ 9 ∷ [])
unfolding encode_to
encode_hello = refl

decode_empty : decode_in_place shift [] ≡ done (err insufficient_space)
unfolding decode_in_place
decode_empty = refl

decode_short : decode_in_place shift (5 ∷ 0 ∷ []) ≡ done (err decoding_error)
unfolding decode_in_place
decode_short = refl

decode_in_place-encode_to_example : decode_in_place shift (3 ∷ 2 ∷ 8 ∷ 1 ∷ 0 ∷ []) ≡ done (ok hello)
decode_in_place-encode_to_example =
    decode_in_place-encode_to shift_laws hello dest (3 ∷ 2 ∷ 8 ∷ 1 ∷ 0 ∷ 9 ∷ []) 5 (omega arith)
      encode_hello

decode-total_example :
    Returns (λ r. Unit {0}) (decode_in_place shift (4 ∷ 0 ∷ 4 ∷ []))
    × Returns (λ r. Unit {0}) (decode_to shift (4 ∷ 0 ∷ 4 ∷ []) [])
decode-total_example = decode-total shift_laws (4 ∷ 0 ∷ 4 ∷ []) []
