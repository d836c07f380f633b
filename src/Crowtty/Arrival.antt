-- ===== src/Crowtty/Arrival.antt =====
-- What a round of the main loop wrote, as the kernel's driver takes it in.
pub mod Queues
use mathlib.Core.Path.{subst, fun_ext}
use pellegrino.Base.{
  ℕ, Bool, ◌+◌, ◌^◌, ◌≤◌, ◌<◌, ◌≡◌, refl, ap, ◌∙◌, List, [], ◌∷◌, ◌++◌, some, All, length,
  length-append, Outcome, done, and_then, IfDone, Returns, arith,
}
use pellegrino.Sportty.{Message}
use pellegrino.Sportty.Encode.{code_of}
use pellegrino.Sportty.RoundTrip.{decode_in_place-frame}
use pellegrino.UsbSerial.Accumulator.Drain.{drain}
use pellegrino.UsbSerial.Accumulator.Drain.Delivers.{
  wire, handle_all, state_of, IsFrame, IsEmptied, drain_delivers,
}
use pellegrino.UsbSerial.Accumulator.Refine.{IsValid}
use pellegrino.UsbSerial.State.{Platform, PlatformLaws, UsbUartSys, acc_len}
use pellegrino.UsbSerial.Receive.{loop_back, deliver, on_message}
use pellegrino.Crowtty.{Workers, send_all}
use pellegrino.Crowtty.Worker.{Streams, StreamsLaws, Handle}
use pellegrino.Sportty.Encode.{AddsOne}
use pellegrino.Crowtty.Outgoing.{
  firsts, without_firsts, IsSmall, codes, AllSent, code-small, send_all-AllSent,
}

-- The messages that the driver handles, one after the other.
abbrev pub handle_each : (p : Platform) → UsbUartSys p → List Message → Outcome (UsbUartSys p)
handle_each p s [] = done s
handle_each p s (m ∷ ms) =
    and_then (and_then (loop_back p m s) (deliver p m)) (λ s'. handle_each p s' ms)

abbrev IsBrief : Message → Type 0
IsBrief m = (m.port < 2 ^ 16) × (length m.bytes ≤ 128)

more-IsBrief :
    (p : ℕ) (alive : Bool) (out inp : List (List ℕ)) (ws : Workers)
    → let hdl : Handle = record { alive = alive; out = out; inp = inp } in
      IsSmall (p, hdl) → All IsBrief (firsts ws) → All IsBrief (firsts ((p, hdl) ∷ ws))
more-IsBrief p alive out [] ws h k = k
more-IsBrief p alive out (msg ∷ later) ws h k = ((h.0, h.1.0), k)

firsts-IsBrief : (ws : Workers) → All IsSmall ws → All IsBrief (firsts ws)
firsts-IsBrief [] h = tt
firsts-IsBrief ((p, hdl) ∷ ws) h =
    more-IsBrief p hdl.alive hdl.out hdl.inp ws h.0 (firsts-IsBrief ws h.1)

module _ {p : Platform} (laws : PlatformLaws p) where
  codes-IsFrame :
      AddsOne laws.cobs
      → (ms : List Message) → All IsBrief ms
      → All (IsFrame acc_len) (codes laws.cobs ms)
  codes-IsFrame short [] h = tt
  codes-IsFrame short (m ∷ ms) h = (
    (
      laws.cobs.encoded-NoZero _,
      omega
          (arith, length-append (code_of laws.cobs m) (0 ∷ []), code-small laws.cobs m short h.0.1),
    ),
    codes-IsFrame short ms h.1,
  )

  handle_all-codes :
      (ms : List Message) (s : UsbUartSys p)
      → All IsBrief ms
      → handle_all (on_message p) s (codes laws.cobs ms) ≡ handle_each p s ms
  unfolding on_message
  handle_all-codes [] s h = refl
  handle_all-codes (m ∷ ms) s h =
      rw (on_message, decode_in_place-frame laws.cobs m h.0.0)
        (ap (and_then (and_then (loop_back p m s) (deliver p m)))
          (fun_ext (λ s'. handle_all-codes ms s' h.1)))

  -- A COBS that adds one byte at most to 254; workers of 16-bit ports that hold messages of up to 128
  -- bytes; a buffer of 256 bytes; a serial port that nothing was written to yet; and a round of the
  -- main loop in which no write fails. It takes the first message of each worker, and what it has
  -- written, given as one grant and with fuel for it to a driver whose accumulator is valid and empty,
  -- is handled as exactly these messages, in order. No byte is held where that returns.
  pub drain-send_all :
      {serial : Streams} (serial_laws : StreamsLaws serial) (ws ws' : Workers) (buf buf' : List ℕ)
      (port port' : serial.Stream) (s : UsbUartSys p) (fuel : ℕ)
      → AddsOne laws.cobs
      → All IsSmall ws
      → length buf ≡ 256
      → serial_laws.written port ≡ []
      → send_all p.cobs serial ws buf port ≡ done (some (ws', (buf', port')))
      → IsValid acc_len s.acc
      → s.acc.idx ≡ 0
      → length (codes laws.cobs (firsts ws)) + (acc_len + 1) < fuel
      → (ws' ≡ without_firsts ws)
        × (state_of (drain (on_message p) acc_len fuel s.acc s (serial_laws.written port'))
            ≡ handle_each p s (firsts ws))
        × IfDone
            (IsEmptied (on_message p) acc_len)
            (drain (on_message p) acc_len fuel s.acc s (serial_laws.written port'))
  drain-send_all serial_laws ws ws' buf buf' port port' s fuel short small size fresh e v zeroed
        enough =
      let brief = firsts-IsBrief ws small in
      let (same, size', content) =
        subst (Returns (AllSent laws.cobs serial_laws ws port)) e
          (send_all-AllSent laws.cobs serial_laws short ws buf port small size) in
      let stream = content ∙ ap (λ t. t ++ wire (codes laws.cobs (firsts ws)) []) fresh in
      let (handled, emptied) =
        drain_delivers (on_message p) acc_len fuel s.acc s (codes laws.cobs (firsts ws)) [] v zeroed
          (codes-IsFrame short (firsts ws) brief) tt enough in
      (same, rw stream (handled ∙ handle_all-codes (firsts ws) s brief), rw stream emptied)
