-- ===== src/UsbSerial/Accumulator/Tests.antt =====
-- Runs of the accumulator and of the loop over a grant, and the theorems at concrete inputs.
use pellegrino.Base.{IfDone, ℕ, ◌≡◌, refl, List, [], ◌∷◌, ◌++◌, arith, Outcome, done, panic}
use pellegrino.UsbSerial.Accumulator.{Accumulator, feed}
use pellegrino.UsbSerial.Accumulator.Framer.{accept}
use pellegrino.UsbSerial.Accumulator.Refine.{IsValid, view, feed_refines}
use pellegrino.UsbSerial.Accumulator.Drain.{drain}
use pellegrino.UsbSerial.Accumulator.Drain.Delivers.{
  state_of, feed_panics, IsEmptied, drain_delivers,
}

-- Four bytes of room, one of them taken.
abbrev acc : Accumulator
acc = record { buf = 9 ∷ 0 ∷ 0 ∷ 0 ∷ []; idx = 1 }

abbrev empty_acc : Accumulator
empty_acc = record { buf = 9 ∷ 0 ∷ 0 ∷ 0 ∷ []; idx = 0 }

acc-IsValid : IsValid 4 acc
acc-IsValid = omega arith

empty_acc-IsValid : IsValid 4 empty_acc
empty_acc-IsValid = omega arith

-- A frame that fits up to its last byte has no room for its terminator, and panics.
feed_one_too_long : feed 4 acc (1 ∷ 2 ∷ 3 ∷ 0 ∷ []) ≡ panic
unfolding feed
feed_one_too_long = refl

feed_refines_example :
    view (feed 4 acc (1 ∷ 2 ∷ 0 ∷ 7 ∷ [])) ≡ accept 4 (9 ∷ []) (1 ∷ 2 ∷ 0 ∷ 7 ∷ [])
feed_refines_example = feed_refines 4 acc (1 ∷ 2 ∷ 0 ∷ 7 ∷ []) acc-IsValid

abbrev collect : List (List ℕ) → List ℕ → Outcome (List (List ℕ))
collect s m = done (s ++ (m ∷ []))

drain_unfinished_dropped :
    state_of (drain collect 4 12 empty_acc [] (1 ∷ 0 ∷ 2 ∷ 3 ∷ [])) ≡ done ((1 ∷ 0 ∷ []) ∷ [])
unfolding drain feed
drain_unfinished_dropped = refl

drain_delivers_example :
    (state_of (drain collect 4 9 empty_acc [] (1 ∷ 2 ∷ 0 ∷ 3 ∷ 0 ∷ 4 ∷ []))
      ≡ done ((1 ∷ 2 ∷ 0 ∷ []) ∷ (3 ∷ 0 ∷ []) ∷ []))
    × IfDone (IsEmptied collect 4) (drain collect 4 9 empty_acc [] (1 ∷ 2 ∷ 0 ∷ 3 ∷ 0 ∷ 4 ∷ []))
drain_delivers_example =
    drain_delivers collect 4 9 empty_acc [] ((1 ∷ 2 ∷ []) ∷ (3 ∷ []) ∷ []) (4 ∷ [])
      empty_acc-IsValid refl (omega arith) (omega arith) (omega arith)

feed_panics_example : feed 4 acc (1 ∷ 2 ∷ 3 ∷ 0 ∷ 5 ∷ []) ≡ panic
feed_panics_example = feed_panics 4 acc (1 ∷ 2 ∷ 3 ∷ []) (5 ∷ []) acc-IsValid (omega arith) refl
