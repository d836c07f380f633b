-- ===== src/UsbSerial/Accumulator/Framer.antt =====
-- The specification of the accumulator: the bytes held so far, and a stream that is cut behind its
-- first zero byte.
use pellegrino.Base.{
  ℕ, ◌+◌, List, [], ◌∷◌, ◌++◌, Option, none, some, leb, ◌==◌, if◌then◌else◌, length, Outcome, done,
  panic,
}

-- The bytes up to the first zero byte, that byte included, and those behind it.
unfoldable pub split_zero : List ℕ → Option (List ℕ × List ℕ)
split_zero [] = none
split_zero (x ∷ xs) =
    if x == 0
    then some (x ∷ [], xs)
    else elim (split_zero xs) [ none ↦ none | some (f, r) ↦ some (x ∷ f, r) ]

pub data Event : Type 0 where
  whole : List ℕ → List ℕ → Event
  waiting : Event
  dropped : Event
  dropped_to : List ℕ → Event

-- A frame that fits is handed on whole; one that is a single byte too long is a panic; a longer one
-- is dropped. Bytes without a zero are kept while there is room for them.
unfoldable pub accept : ℕ → List ℕ → List ℕ → Outcome (List ℕ × Event)
unfolding split_zero
accept capacity held b = elim (split_zero b) [
  | none ↦
      if leb (length held + length b) capacity
      then done (held ++ b, waiting)
      else done ([], dropped)
  | some (f, r) ↦
      if leb (length held + length f) capacity
      then done ([], whole (held ++ f) r)
      else if length held + length f == capacity + 1
      then panic
      else done ([], dropped_to r)
]
