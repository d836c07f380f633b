-- ===== src/Bringup/Main.antt =====
-- The main loop of the bring-up program. What it prints is kept as a list.
use pellegrino.Base.{
  ℕ, zero, suc, ◌≡◌, ◌≤◌, List, [], ◌∷◌, ◌++◌, Bool, leb, le→leb, if◌then◌else◌, length, take,
  replicate, NoZero, Outcome, done, panic, out_of_fuel, and_then,
}
use pellegrino.Sportty.{ok, err, decode_to}
use pellegrino.Sportty.Codec.{Cobs}
use pellegrino.UsbSerial.Accumulator.{Accumulator}
use pellegrino.UsbSerial.Accumulator.Refine.{IsValid}
use pellegrino.UsbSerial.Isr.{UsbPort, UsbResult, moved, would_block, usb_error}
use pellegrino.Bringup.{drain, drain_never_ends}

pub data Printed : Type 0 where
  received : (port : ℕ) → List ℕ → Printed
  sportty_error : Printed

-- A whole message is decoded to a buffer of 1024 bytes, whose old contents do not count, and printed.
unfoldable pub print_message : Cobs → List Printed → List ℕ → Outcome (List Printed)
print_message c log msg = and_then (decode_to c msg (replicate 1024 0)) (λ r. elim r [
  | ok m ↦ done (log ++ received m.port m.bytes ∷ [])
  | err e ↦ done (log ++ sportty_error ∷ [])
])

pub record Main (u : UsbPort) : Type 0 where
  pub usb : u.State
  pub buf : List ℕ
  pub acc : Accumulator
  pub log : List Printed

module _ (c : Cobs) {u : UsbPort} (fuel : ℕ) where
  -- The match on what `read` returned, for the packet that it wrote to the buffer.
  unfoldable pub take_packet : Main u → UsbResult → Outcome (Main u)
  unfolding drain print_message
  take_packet m would_block = done m
  take_packet m usb_error = panic
  take_packet m (moved zero) = done m
  take_packet m (moved (suc n)) =
      if leb (suc n) (length m.buf)
      then and_then (drain (print_message c) 1024 fuel m.acc m.log (take (suc n) m.buf))
          (λ (acc, log). done (record m { acc = acc; log = log }))
      else panic

  -- One round, with what `usb_dev.poll` returns as a parameter.
  unfoldable pub round : (u.State → Bool × u.State) → Main u → Outcome (Main u)
  unfolding take_packet
  round poll m =
      let (is_ready, usb) = poll m.usb in
      let (usb', (buf, result)) = u.read m.buf usb in
      if is_ready
      then take_packet (record m { usb = usb'; buf = buf }) result
      else done (record m { usb = usb })

-- A packet in the buffer with a byte in it and no zero byte: the match on it never ends.
pub take_packet_never_ends :
    (c : Cobs) {u : UsbPort} (fuel : ℕ) (m : Main u) (n x : ℕ) (w : List ℕ)
    → suc n ≤ length m.buf
    → IsValid 1024 m.acc
    → take (suc n) m.buf ≡ x ∷ w
    → NoZero (x ∷ w)
    → take_packet c fuel m (moved (suc n)) ≡ out_of_fuel
unfolding take_packet
take_packet_never_ends c fuel m n x w fits v e nz = rw (
  le→leb (suc n) (length m.buf) fits,
  e,
  drain_never_ends (print_message c) 1024 fuel m.acc m.log x w v nz,
)
