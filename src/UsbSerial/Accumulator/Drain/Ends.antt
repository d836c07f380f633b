-- ===== src/UsbSerial/Accumulator/Drain/Ends.antt =====
-- Why the loop over a grant ends: its window shrinks, or the accumulator fills up.
use pellegrino.Base.{
  ℕ, suc, ◌+◌, ◌-◌, ◌*◌, ◌≤◌, ◌<◌, ◌≡◌, ◌≢◌, List, Option, none, some, arith, length, length-drop,
  done, out_of_fuel,
}
use pellegrino.UsbSerial.Accumulator.{
  Accumulator, Fed, message, pending, no_room_no_rem, no_room_with_rem, position, take_message,
  feed_at, feed,
}

-- What a call that returns has gained: a shorter window, or more bytes held.
abbrev pub Gains : ℕ → Accumulator → List ℕ → Accumulator → Fed → Type 0
Gains capacity acc b acc' (message m rest) = (length rest < length b) × (acc'.idx ≡ 0)
Gains capacity acc b acc' pending =
    (acc'.idx ≡ acc.idx + length b) × (acc.idx + length b ≤ capacity)
Gains capacity acc b acc' no_room_no_rem = acc'.idx ≡ 0
Gains capacity acc b acc' (no_room_with_rem rest) = (length rest < length b) × (acc'.idx ≡ 0)

feed_at-Gains :
    (capacity : ℕ) (acc : Accumulator) (b : List ℕ) (p : Option ℕ) (acc' : Accumulator) (r : Fed)
    → 0 < length b
    → feed_at capacity acc b p ≡ done (acc', r)
    → Gains capacity acc b acc' r
unfolding feed_at take_message
feed_at-Gains capacity acc b (some n) acc' (message m rest) h e =
    ground (arith, length-drop (suc n) b)
feed_at-Gains capacity acc b (some n) acc' pending h e = ground arith
feed_at-Gains capacity acc b (some n) acc' no_room_no_rem h e = ground arith
feed_at-Gains capacity acc b (some n) acc' (no_room_with_rem rest) h e =
    ground (arith, length-drop (suc n) b)
feed_at-Gains capacity acc b none acc' (message m rest) h e = ground arith
feed_at-Gains capacity acc b none acc' pending h e = ground arith
feed_at-Gains capacity acc b none acc' no_room_no_rem h e = ground arith
feed_at-Gains capacity acc b none acc' (no_room_with_rem rest) h e = ground arith

pub feed-Gains :
    (capacity : ℕ) (acc : Accumulator) (b : List ℕ) (acc' : Accumulator) (r : Fed)
    → 0 < length b
    → feed capacity acc b ≡ done (acc', r)
    → Gains capacity acc b acc' r
unfolding feed
feed-Gains capacity acc b = feed_at-Gains capacity acc b (position b)

feed_at-ne-out_of_fuel :
    (capacity : ℕ) (acc : Accumulator) (b : List ℕ) (p : Option ℕ)
    → feed_at capacity acc b p ≢ out_of_fuel
unfolding feed_at take_message
feed_at-ne-out_of_fuel capacity acc b (some n) = ground arith
feed_at-ne-out_of_fuel capacity acc b none = ground arith

pub feed-ne-out_of_fuel :
    (capacity : ℕ) (acc : Accumulator) (b : List ℕ) → feed capacity acc b ≢ out_of_fuel
unfolding feed
feed-ne-out_of_fuel capacity acc b = feed_at-ne-out_of_fuel capacity acc b (position b)

-- The rounds that a window may take.
abbrev pub rounds : ℕ → Accumulator → List ℕ → ℕ
rounds capacity acc w = length w * (capacity + 2) + (capacity + 1 - acc.idx)
