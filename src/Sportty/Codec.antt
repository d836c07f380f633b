-- ===== src/Sportty/Codec.antt =====
-- The crate `postcard_cobs`, which the repository does not hold, as far as common/sportty uses it: its
-- operations, and what their documentation promises of them.
use pellegrino.Base.{
  ℕ, suc, ◌≤◌, ◌<◌, ◌≡◌, List, ◌++◌, Option, some, none, ◌>>=◌, length, take, splice, NoZero,
}

-- An encoder holds its destination, which `finalize` gives back beside the number of bytes written.
-- The two ways to decode give the number of bytes decoded, and the buffer that they stand in.
pub record Cobs : Type 1 where
  pub Encoder : Type 0
  pub new : List ℕ → Encoder
  pub push : Encoder → List ℕ → Option Encoder
  pub finalize : Encoder → Option (ℕ × List ℕ)
  pub decode : List ℕ → List ℕ → Option (ℕ × List ℕ)
  pub decode_in_place : List ℕ → Option (ℕ × List ℕ)
  pub max_encoding_length : ℕ → ℕ

-- Two pushes into a new encoder, and its end.
abbrev pub encode_two : (c : Cobs) → List ℕ → List ℕ → List ℕ → Option (ℕ × List ℕ)
encode_two c dest xs ys = do e ← c.push (c.new dest) xs; f ← c.push e ys; c.finalize f

pub record CobsLaws (c : Cobs) : Type 0 where
  -- the encoding of a message: no zero byte, and no longer than promised
  pub encoded : List ℕ → List ℕ
  pub encoded-NoZero : (xs : List ℕ) → NoZero (encoded xs)
  pub length-encoded : (xs : List ℕ) → length (encoded xs) ≤ c.max_encoding_length (length xs)
  pub max_grows : (n : ℕ) → c.max_encoding_length n < c.max_encoding_length (suc n)
  -- the encoder writes the encoding of all that is pushed, or fails where there is no room for it
  pub encodes :
      (dest xs ys : List ℕ)
      → length (encoded (xs ++ ys)) ≤ length dest
      → encode_two c dest xs ys
        ≡ some (length (encoded (xs ++ ys)), splice dest 0 (encoded (xs ++ ys)))
  pub encode_full :
      (dest xs ys : List ℕ)
      → length dest < length (encoded (xs ++ ys))
      → encode_two c dest xs ys ≡ none
  -- decoding undoes encoding, and stays within its buffer whatever the bytes are
  pub decodes_in_place :
      (xs : List ℕ)
      → (buf : List ℕ) × (c.decode_in_place (encoded xs) ≡ some (length xs, buf))
        × (take (length xs) buf ≡ xs)
  pub decodes :
      (xs dst : List ℕ)
      → length xs ≤ length dst
      → c.decode (encoded xs) dst ≡ some (length xs, splice dst 0 xs)
  pub decode_in_place-within :
      (src : List ℕ) (n : ℕ) (buf : List ℕ)
      → c.decode_in_place src ≡ some (n, buf)
      → (n ≤ length buf) × (length buf ≡ length src)
  pub decode-within :
      (src dst : List ℕ) (n : ℕ) (buf : List ℕ)
      → c.decode src dst ≡ some (n, buf)
      → (n ≤ length buf) × (length buf ≡ length dst)
