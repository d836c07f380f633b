-- ===== src/UsbSerial/Accumulator/Drain/Total.antt =====
-- The loop over a grant, with what the handling of messages keeps: it returns or panics.
use pellegrino.Base.{
  ℕ, zero, suc, ◌<◌, ◌≢◌, List, [], ◌∷◌, Option, none, some, length, arith, Outcome, undefined,
  Ends, Ends-and_then, Ends-intro,
}
use pellegrino.UsbSerial.Accumulator.{
  Accumulator, Fed, message, pending, no_room_no_rem, no_room_with_rem, as_slice, position,
  take_message, feed_at, feed,
}
use pellegrino.UsbSerial.Accumulator.Refine.{IsValid, feed-IsValid}
use pellegrino.UsbSerial.Accumulator.Drain.{resume, drain}
use pellegrino.UsbSerial.Accumulator.Drain.Ends.{Gains, rounds, feed-Gains, feed-ne-out_of_fuel}

feed_at-ne-undefined :
    (capacity : ℕ) (acc : Accumulator) (b : List ℕ) (p : Option ℕ)
    → feed_at capacity acc b p ≢ undefined
unfolding feed_at take_message
feed_at-ne-undefined capacity acc b (some n) = ground arith
feed_at-ne-undefined capacity acc b none = ground arith

feed-ne-undefined :
    (capacity : ℕ) (acc : Accumulator) (b : List ℕ) → feed capacity acc b ≢ undefined
unfolding feed
feed-ne-undefined capacity acc b = feed_at-ne-undefined capacity acc b (position b)

abbrev Fits : ℕ → Accumulator → List ℕ → Accumulator × Fed → Type 0
Fits capacity acc b (acc', fed) = IsValid capacity acc' × Gains capacity acc b acc' fed

feed-Ends :
    (capacity : ℕ) (acc : Accumulator) (b : List ℕ)
    → IsValid capacity acc
    → 0 < length b
    → Ends (Fits capacity acc b) (feed capacity acc b)
feed-Ends capacity acc b v pos =
    Ends-intro (Fits capacity acc b) (feed capacity acc b) (feed-ne-out_of_fuel capacity acc b)
      (feed-ne-undefined capacity acc b)
      (λ (acc', fed) e.
        (feed-IsValid capacity acc b acc' fed v e, feed-Gains capacity acc b acc' fed pos e))

module _ {S : Type 0} (on_message : S → List ℕ → Outcome S) (P : S → Type 0)
    (handles : (s : S) (m : List ℕ) → P s → Ends P (on_message s m)) (capacity : ℕ) where
  abbrev pub Drained : Accumulator × S → Type 0
  Drained (acc, s) = IsValid capacity acc × P s

  resume-Drained :
      (next : Accumulator → S → List ℕ → Outcome (Accumulator × S)) (acc acc' : Accumulator) (s : S)
      (b : List ℕ) (fed : Fed)
      → 0 < length b
      → IsValid capacity acc'
      → Gains capacity acc b acc' fed
      → P s
      → ((s' : S) (w : List ℕ)
          → P s'
          → rounds capacity acc' w < rounds capacity acc b
          → Ends Drained (next acc' s' w))
      → Ends Drained (resume on_message next acc' s b fed)
  unfolding resume
  resume-Drained next acc acc' s b (message m rest) pos v g h more =
      Ends-and_then P Drained (on_message s (as_slice m)) _ (handles s (as_slice m) h)
        (λ s' h'. more s' rest h' (grind arith))
  resume-Drained next acc acc' s b pending pos v g h more = more s b h (omega arith)
  resume-Drained next acc acc' s b no_room_no_rem pos v g h more = (v, h)
  resume-Drained next acc acc' s b (no_room_with_rem rest) pos v g h more =
      more s rest h (grind arith)

  -- The loop over a grant returns or panics within `rounds` rounds, and keeps what the handling of a
  -- message keeps.
  pub drain-Drained :
      (fuel : ℕ) (acc : Accumulator) (s : S) (w : List ℕ)
      → IsValid capacity acc
      → P s
      → rounds capacity acc w < fuel
      → Ends Drained (drain on_message capacity fuel acc s w)
  unfolding drain
  drain-Drained fuel acc s [] v h less = (v, h)
  drain-Drained zero acc s (x ∷ w) v h less = absurd (omega arith)
  drain-Drained (suc fuel) acc s (x ∷ w) v h less =
      Ends-and_then (Fits capacity acc (x ∷ w)) Drained (feed capacity acc (x ∷ w)) _
        (feed-Ends capacity acc (x ∷ w) v (omega arith))
        (λ (acc', fed) (v', g).
          resume-Drained (drain on_message capacity fuel) acc acc' s (x ∷ w) fed (omega arith) v' g
            h (λ s' w' h' fewer. drain-Drained fuel acc' s' w' v' h' (omega arith)))
