-- ===== src/Sportty.antt =====
-- The message format of common/sportty/src/lib.rs: a port and data, as one COBS frame with a zero
-- byte behind it. A buffer that is written through a reference is returned beside the result.
pub mod Codec
pub mod Encode
pub mod RoundTrip
pub mod Shift
mod Tests
use pellegrino.Base.{
  ℕ, suc, ◌+◌, ◌*◌, ◌-◌, ◌/◌, ◌%◌, ◌||◌, ◌&&◌, List, [], ◌∷◌, Option, none, some, ltb, leb, ◌==◌,
  if◌then◌else◌, length, take, drop, splice, get_or, Outcome, done, panic,
}
use Codec.{Cobs}

pub data Error : Type 0 where
  insufficient_space decoding_error : Error

pub data Result (A : Type 0) : Type 0 where
  ok : A → Result A
  err : Error → Result A

abbrev pub or_err : {A : Type 0} → Option A → Error → Result A
or_err none e = err e
or_err (some a) e = ok a

infixl 5 ◌>>=◌
abbrev pub ◌>>=◌ : {A B : Type 0} → Result A → (A → Result B) → Result B
ok a >>= f = f a
err e >>= f = err e

pub record Message : Type 0 where
  pub port : ℕ
  pub bytes : List ℕ

-- `size_of::<Port>()`, for `Port = u16`.
abbrev pub port_size : ℕ
port_size = 2

-- `u16::to_le_bytes` and `u16::from_le_bytes`
abbrev pub to_le_bytes : ℕ → List ℕ
to_le_bytes p = (p % 256) ∷ (p / 256 % 256) ∷ []

abbrev pub from_le_bytes : List ℕ → ℕ
from_le_bytes b = get_or b 0 0 + 256 * get_or b 1 0

-- `src.last()`, and the slice before it where that is the sentinel. `none` for an empty slice.
unfoldable pub strip_sentinel : List ℕ → Option (List ℕ)
strip_sentinel [] = none
strip_sentinel (x ∷ xs) =
    let src = x ∷ xs in
    if get_or src (length xs) 0 == 0 then some (take (length xs) src) else some src

-- The end of both decoders: the port and the data of the first `used` bytes of `buf`. The slice
-- `buf[..used]` panics where it ends behind the buffer, and `split_at` where it is too short for a port.
unfoldable pub split_port : List ℕ → ℕ → Outcome (Result Message)
split_port buf used =
    if leb used (length buf) && leb port_size used
    then done (
        ok (record {
          port = from_le_bytes (take port_size (take used buf));
          bytes = drop port_size (take used buf);
        }))
    else panic

module _ (c : Cobs) where
  unfoldable pub max_encoding_length : ℕ → ℕ
  max_encoding_length len = c.max_encoding_length (len + port_size + 1)

  -- The length of the slice that is returned, and the buffer that it is the start of.
  unfoldable pub encode_to : Message → List ℕ → Result (ℕ × List ℕ)
  encode_to m dest = do
    e ← or_err (c.push (c.new dest) (to_le_bytes m.port)) insufficient_space
    f ← or_err (c.push e m.bytes) insufficient_space
    (used, out) ← or_err (c.finalize f) insufficient_space
    if ltb used (length out)
        then ok (used + 1, splice out used (0 ∷ []))
        else err insufficient_space

  decode_stripped : List ℕ → ℕ → Outcome (Result Message)
  decode_stripped src src_len = elim (c.decode_in_place src) [
    | none ↦ done (err decoding_error)
    | some (used, buf) ↦
        if ltb used port_size || ltb src_len used
        then done (err decoding_error)
        else split_port buf used
  ]

  unfoldable pub decode_in_place : List ℕ → Outcome (Result Message)
  unfolding strip_sentinel decode_stripped split_port
  decode_in_place src = elim (strip_sentinel src) [
    | none ↦ done (err insufficient_space)
    | some body ↦ decode_stripped body (length src)
  ]

  decode_stripped_to : List ℕ → List ℕ → Outcome (Result Message)
  decode_stripped_to src dst_buf = elim (c.decode src dst_buf) [
    | none ↦ done (err decoding_error)
    | some (used, buf) ↦
        if ltb used port_size || ltb (length buf) used
        then done (err decoding_error)
        else split_port buf used
  ]

  unfoldable pub decode_to : List ℕ → List ℕ → Outcome (Result Message)
  unfolding strip_sentinel decode_stripped_to split_port
  decode_to src dst_buf = elim (strip_sentinel src) [
    | none ↦ done (err insufficient_space)
    | some body ↦ decode_stripped_to body dst_buf
  ]
