-- ===== src/UsbSerial/Accumulator/Drain.antt =====
-- The inner loop of `process` in firmware/kernel/src/drivers/usb_serial.rs: one grant of received bytes
-- is fed to the accumulator, and `on_message` handles each whole message. A call of `feed` that only
-- keeps bytes leaves the window as it is, so the same window is fed again.
pub mod Ends
pub mod Feeds
pub mod Delivers
pub mod Keeps
pub mod Total
use pellegrino.Base.{ℕ, zero, suc, List, [], ◌∷◌, Outcome, done, out_of_fuel, and_then}
use pellegrino.UsbSerial.Accumulator.{
  Accumulator, Fed, message, pending, no_room_no_rem, no_room_with_rem, as_slice, feed,
}

module _ {S : Type 0} (on_message : S → List ℕ → Outcome S) where
  -- The arms of the match on what `feed` returned, for the window `b` that it was given.
  resume :
      (Accumulator → S → List ℕ → Outcome (Accumulator × S))
      → Accumulator
      → S
      → List ℕ
      → Fed
      → Outcome (Accumulator × S)
  resume next acc s b (message m rest) =
      and_then (on_message s (as_slice m)) (λ s'. next acc s' rest)
  resume next acc s b pending = next acc s b
  resume next acc s b no_room_no_rem = done (acc, s)
  resume next acc s b (no_room_with_rem rest) = next acc s rest

  -- Both the end of the window and `NoRoomNoRem` release the whole grant and leave the loop.
  unfoldable pub drain : ℕ → ℕ → Accumulator → S → List ℕ → Outcome (Accumulator × S)
  unfolding resume
  drain capacity fuel acc s [] = done (acc, s)
  drain capacity zero acc s (x ∷ w) = out_of_fuel
  drain capacity (suc fuel) acc s (x ∷ w) =
      and_then (feed capacity acc (x ∷ w))
        (λ (acc', fed). resume (drain capacity fuel) acc' s (x ∷ w) fed)
