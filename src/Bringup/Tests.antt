-- ===== src/Bringup/Tests.antt =====
-- The main loop at a concrete packet, over a code that is one higher at every byte.
use pellegrino.Base.{ℕ, ◌≡◌, refl, [], ◌∷◌, arith, done, out_of_fuel, length-replicate}
use pellegrino.Sportty.{decode_to}
use pellegrino.Sportty.Shift.{shift}
use pellegrino.UsbSerial.Accumulator
use pellegrino.UsbSerial.Isr.{UsbPort, moved, would_block}
use pellegrino.Bringup.Main.{Main, received, print_message, take_packet, take_packet_never_ends}

-- A port that is never read again.
abbrev silent : UsbPort
silent = record {
  State = ℕ;
  poll = λ s. s;
  write = λ bs s. (s, would_block);
  read = λ w s. (s, (w, would_block));
}

abbrev with_packet : Main silent
with_packet = record { usb = 0; buf = 1 ∷ 2 ∷ 9 ∷ []; acc = Accumulator.new 1024; log = [] }

print_hello : print_message shift [] (3 ∷ 2 ∷ 8 ∷ 0 ∷ []) ≡ done (received 258 (7 ∷ []) ∷ [])
unfolding print_message decode_to
print_hello = refl

take_packet_never_ends_example : take_packet shift 100 with_packet (moved 2) ≡ out_of_fuel
unfolding Accumulator.new
take_packet_never_ends_example =
    take_packet_never_ends shift 100 with_packet 1 1 (2 ∷ []) (omega arith)
      (record { size = length-replicate {A = ℕ} 1024 0; fill = omega arith }) refl (omega arith)
