-- ===== src/Bringup.antt =====
-- The bring-up program firmware/pelle-bringup/src/bin/sportty.rs: its loop over one USB packet. Its
-- accumulator is the text of the kernel's. Unlike the kernel, it keeps the window on every error.
pub mod Main
pub mod Flash
mod Tests
use pellegrino.Base.{
  ℕ, zero, suc, ◌+◌, ◌≤◌, ◌<◌, ◌≡◌, ◌∙◌, refl, List, [], ◌∷◌, ◌++◌, arith, leb, leb→le, not-leb→lt,
  inl, inr, Bool-cases, length, NoZero, Outcome, done, out_of_fuel, and_then,
}
use pellegrino.UsbSerial.Accumulator.{
  Accumulator, Fed, message, pending, no_room_no_rem, no_room_with_rem, as_slice, feed,
}
use pellegrino.UsbSerial.Accumulator.Refine.{IsValid, feed-IsValid}
use pellegrino.UsbSerial.Accumulator.Drain.Feeds.{feed-unfinished}

module _ {S : Type 0} (on_message : S → List ℕ → Outcome S) where
  resume :
      (Accumulator → S → List ℕ → Outcome (Accumulator × S))
      → Accumulator
      → S
      → List ℕ
      → Fed
      → Outcome (Accumulator × S)
  resume next acc s b (message m rest) =
      and_then (on_message s (as_slice m)) (λ s'. next acc s' rest)
  resume next acc s b pending = next acc s b
  resume next acc s b no_room_no_rem = next acc s b
  resume next acc s b (no_room_with_rem rest) = next acc s b

  unfoldable pub drain : ℕ → ℕ → Accumulator → S → List ℕ → Outcome (Accumulator × S)
  unfolding resume
  drain capacity fuel acc s [] = done (acc, s)
  drain capacity zero acc s (x ∷ w) = out_of_fuel
  drain capacity (suc fuel) acc s (x ∷ w) =
      and_then (feed capacity acc (x ∷ w))
        (λ (acc', fed). resume (drain capacity fuel) acc' s (x ∷ w) fed)

  -- A packet with a byte in it and no zero byte never ends the loop, however long it runs.
  pub drain_never_ends :
      (capacity fuel : ℕ) (acc : Accumulator) (s : S) (x : ℕ) (w : List ℕ)
      → IsValid capacity acc
      → NoZero (x ∷ w)
      → drain capacity fuel acc s (x ∷ w) ≡ out_of_fuel
  unfolding drain
  drain_never_ends capacity zero acc s x w v nz = refl
  drain_never_ends capacity (suc fuel) acc s x w v nz =
      elim (feed-unfinished capacity acc v (x ∷ w) nz) [
        | inl (acc', e) ↦ rw e (
            drain_never_ends capacity fuel acc' s x w
              (feed-IsValid capacity acc (x ∷ w) acc' pending v e) nz)
        | inr (acc', e) ↦ rw e (
            drain_never_ends capacity fuel acc' s x w
              (feed-IsValid capacity acc (x ∷ w) acc' no_room_no_rem v e) nz)
      ]
