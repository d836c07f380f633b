-- ===== src/UsbSerial/Accumulator/Refine.antt =====
-- The accumulator implements its specification, and stays within its buffer.
use pellegrino.Base.{
  length-replicate, ℕ, ◌+◌, ◌≤◌, ◌≡◌, refl, List, [], ◌∷◌, ◌++◌, Option, none, some, inl, inr, ◌⊎◌,
  arith, length, take, drop, replicate, splice, ◌==◌, Bool-cases, Outcome, done, panic, undefined,
  out_of_fuel, length-take, take-splice, length-splice, take-append_exact, le→leb, ap, ◌∙◌, suc,
}
use pellegrino.UsbSerial.Accumulator
use pellegrino.UsbSerial.Accumulator.{
  Accumulator, Fed, message, pending, no_room_no_rem, no_room_with_rem, as_slice, position,
  take_message, feed_at, feed,
}
use pellegrino.UsbSerial.Accumulator.Framer.{
  split_zero, Event, whole, waiting, dropped, dropped_to, accept,
}

pub record IsValid (capacity : ℕ) (acc : Accumulator) : Type 0 where
  pub size : length acc.buf ≡ capacity
  pub fill : acc.idx ≤ capacity

pub new-IsValid : (capacity : ℕ) → IsValid capacity (Accumulator.new capacity)
unfolding Accumulator.new
new-IsValid capacity = record { size = length-replicate {A = ℕ} capacity 0; fill = omega arith }

-- The bytes held so far.
abbrev pub held : Accumulator → List ℕ
held acc = take acc.idx acc.buf

abbrev pub event : Fed → Event
event (message m r) = whole (as_slice m) r
event pending = waiting
event no_room_no_rem = dropped
event (no_room_with_rem r) = dropped_to r

-- What a caller can see of a call of `feed`.
abbrev pub view : Outcome (Accumulator × Fed) → Outcome (List ℕ × Event)
view (done (acc, r)) = done (held acc, event r)
view panic = panic
view undefined = undefined
view out_of_fuel = out_of_fuel

-- `position` finds the zero byte at which `split_zero` cuts.
position-split :
    (b : List ℕ)
    → ((position b ≡ none) × (split_zero b ≡ none))
      ⊎ ((n : ℕ) × (position b ≡ some n)
          × (split_zero b ≡ some (take (suc n) b, drop (suc n) b))
          × (suc n ≤ length b))
unfolding position split_zero
position-split [] = inl (refl, refl)
position-split (x ∷ xs) = elim (Bool-cases (x == 0)) [
  | inl zeroed ↦ inr (0, rw zeroed, rw zeroed, omega arith)
  | inr other ↦ elim (position-split xs) [
    | inl (p, q) ↦ inl (rw (other, p), rw (other, q))
    | inr (n, p, q, low) ↦
        inr (suc n, rw (other, p) (ap some (omega arith)), rw (other, q), omega arith)
  ]
]

take_message-view :
    (capacity : ℕ) (acc : Accumulator) (now later : List ℕ)
    → IsValid capacity acc
    → acc.idx + length now ≤ capacity
    → view (take_message capacity acc now later) ≡ done ([], whole (held acc ++ now) later)
unfolding take_message
take_message-view capacity acc now later v fits =
    let filled = splice acc.buf acc.idx now in
    let end = acc.idx + length now in
    let size = length-splice acc.buf acc.idx now (omega arith) in
    let copied : length (take end filled) ≡ end = omega (arith, length-take end filled) in
    let body =
      take-append_exact end (take end filled)
        (drop (0 + length (take end filled)) (replicate capacity 0)) copied in
    rw (le→leb _ _ fits)
      (ap (λ m. done ([], whole m later)) (body ∙ take-splice acc.buf acc.idx now (omega arith)))

-- Seen through the bytes that it holds, the accumulator is its specification, on every branch.
pub feed_refines :
    (capacity : ℕ) (acc : Accumulator) (b : List ℕ)
    → IsValid capacity acc
    → view (feed capacity acc b) ≡ accept capacity (held acc) b
unfolding feed accept
feed_refines capacity acc b v = elim (position-split b) [
  | inl (p, q) ↦
      rw (p, q, accept) (ground (arith, length-take acc.idx acc.buf, take-splice acc.buf acc.idx b))
  | inr (n, p, q, low) ↦
      rw (p, q, accept)
        (ground (
          arith,
          take_message-view capacity acc (take (suc n) b) (drop (suc n) b) v,
          length-take (suc n) b,
          length-take acc.idx acc.buf,
        ))
]

take_message-IsValid :
    (capacity : ℕ) (acc : Accumulator) (now later : List ℕ) (acc' : Accumulator) (r : Fed)
    → IsValid capacity acc
    → take_message capacity acc now later ≡ done (acc', r)
    → IsValid capacity acc'
unfolding take_message
take_message-IsValid capacity acc now later acc' r v e =
    ground (arith, length-splice acc.buf acc.idx now)

feed_at-IsValid :
    (capacity : ℕ) (acc : Accumulator) (b : List ℕ) (p : Option ℕ) (acc' : Accumulator) (r : Fed)
    → IsValid capacity acc
    → feed_at capacity acc b p ≡ done (acc', r)
    → IsValid capacity acc'
unfolding feed_at
feed_at-IsValid capacity acc b (some n) acc' r v e =
    ground (arith, take_message-IsValid capacity acc (take (suc n) b) (drop (suc n) b) acc' r v)
feed_at-IsValid capacity acc b none acc' r v e = ground (arith, length-splice acc.buf acc.idx b)

-- Every call that returns leaves the accumulator within its buffer.
pub feed-IsValid :
    (capacity : ℕ) (acc : Accumulator) (b : List ℕ) (acc' : Accumulator) (r : Fed)
    → IsValid capacity acc
    → feed capacity acc b ≡ done (acc', r)
    → IsValid capacity acc'
unfolding feed
feed-IsValid capacity acc b acc' r v e = feed_at-IsValid capacity acc b (position b) acc' r v e
