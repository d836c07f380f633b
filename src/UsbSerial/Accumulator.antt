-- ===== src/UsbSerial/Accumulator.antt =====
-- `Accumulator<N>` of firmware/kernel/src/drivers/usb_serial.rs, which gathers the bytes up to a zero
-- byte from slices of a stream. `capacity` is `N`. A slice index that is out of range panics.
pub mod Framer
pub mod Refine
pub mod Drain
mod Tests
use pellegrino.Base.{
  ℕ, zero, suc, ◌+◌, List, [], ◌∷◌, Option, none, some, ltb, leb, ◌==◌, if◌then◌else◌, length, take,
  drop, replicate, splice, Outcome, done, panic,
}

pub record Accumulator : Type 0 where
  pub buf : List ℕ
  pub idx : ℕ

-- `AccMsg<N>`: a whole message, terminator included, in a buffer of its own.
pub record AccMsg : Type 0 where
  pub buf : List ℕ
  pub len : ℕ

-- What `feed` returns: `Ok(Some(msg, remainder))`, `Ok(None)` and the two errors.
pub data Fed : Type 0 where
  message : AccMsg → List ℕ → Fed
  pending : Fed
  no_room_no_rem : Fed
  no_room_with_rem : List ℕ → Fed

unfoldable pub new : ℕ → Accumulator
new capacity = record { buf = replicate capacity 0; idx = 0 }

-- `AccMsg::as_mut_slice`
abbrev pub as_slice : AccMsg → List ℕ
as_slice m = take m.len m.buf

-- `buf.iter().position(|b| *b == 0)`
unfoldable pub position : List ℕ → Option ℕ
position [] = none
position (x ∷ xs) =
    if x == 0 then some 0 else elim (position xs) [ none ↦ none | some n ↦ some (n + 1) ]

abbrev reset : Accumulator → Accumulator
reset acc = record acc { idx = 0 }

-- The first arm, with `now` and `later` the parts of the slice. The slice
-- `self.buf[self.idx..][..now.len()]` panics where it ends behind the buffer.
take_message : ℕ → Accumulator → List ℕ → List ℕ → Outcome (Accumulator × Fed)
take_message capacity acc now later =
    let end = acc.idx + length now in
    let filled = splice acc.buf acc.idx now in
    if leb end capacity
    then done (
      record { buf = filled; idx = 0 },
      message (record { buf = splice (replicate capacity 0) 0 (take end filled); len = end }) later,
    )
    else panic

feed_at : ℕ → Accumulator → List ℕ → Option ℕ → Outcome (Accumulator × Fed)
feed_at capacity acc b (some n) =
    if leb (acc.idx + n) capacity
    then take_message capacity acc (take (suc n) b) (drop (suc n) b)
    else if ltb n (length b)
    then done (reset acc, no_room_with_rem (drop (suc n) b))
    else done (reset acc, no_room_no_rem)
feed_at capacity acc b none =
    if leb (acc.idx + length b) capacity
    then done (record { buf = splice acc.buf acc.idx b; idx = acc.idx + length b }, pending)
    else done (reset acc, no_room_no_rem)

unfoldable pub feed : ℕ → Accumulator → List ℕ → Outcome (Accumulator × Fed)
unfolding position take_message feed_at
feed capacity acc b = feed_at capacity acc b (position b)
