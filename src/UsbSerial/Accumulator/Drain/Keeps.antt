-- ===== src/UsbSerial/Accumulator/Drain/Keeps.antt =====
-- What the handling of every message keeps, the loop over a grant keeps.
use pellegrino.Base.{ℕ, zero, suc, List, [], ◌∷◌, Outcome, IfDone, IfDone-and_then, IfDone-any}
use pellegrino.UsbSerial.Accumulator.{
  Accumulator, Fed, message, pending, no_room_no_rem, no_room_with_rem, as_slice, feed,
}
use pellegrino.UsbSerial.Accumulator.Drain.{resume, drain}

module _ {S : Type 0} (on_message : S → List ℕ → Outcome S) (P : S → Type 0)
    (keep : (s : S) (frame : List ℕ) → P s → IfDone P (on_message s frame)) where
  abbrev Holds : Accumulator × S → Type 0
  Holds r = P r.1

  resume-keeps :
      (next : Accumulator → S → List ℕ → Outcome (Accumulator × S))
      → ((acc : Accumulator) (s : S) (w : List ℕ) → P s → IfDone Holds (next acc s w))
      → (acc : Accumulator) (s : S) (b : List ℕ) (fed : Fed) → P s
      → IfDone Holds (resume on_message next acc s b fed)
  unfolding resume
  resume-keeps next h acc s b (message m rest) v =
      IfDone-and_then P Holds (on_message s (as_slice m)) _ (keep s (as_slice m) v)
        (λ s' v'. h acc s' rest v')
  resume-keeps next h acc s b pending v = h acc s b v
  resume-keeps next h acc s b no_room_no_rem v = v
  resume-keeps next h acc s b (no_room_with_rem rest) v = h acc s rest v

  pub drain-keeps :
      (capacity fuel : ℕ) (acc : Accumulator) (s : S) (w : List ℕ)
      → P s
      → IfDone Holds (drain on_message capacity fuel acc s w)
  unfolding drain
  drain-keeps capacity fuel acc s [] v = v
  drain-keeps capacity zero acc s (x ∷ w) v = tt
  drain-keeps capacity (suc fuel) acc s (x ∷ w) v =
      IfDone-any Holds (feed capacity acc (x ∷ w)) _ (λ (acc', fed).
        resume-keeps (drain on_message capacity fuel) (drain-keeps capacity fuel) acc' s (x ∷ w) fed
          v)
