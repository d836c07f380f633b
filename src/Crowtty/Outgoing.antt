-- ===== src/Crowtty/Outgoing.antt =====
-- From the host to the kernel: what a round of the main loop writes to the serial port.
use pellegrino.Base.{
  ℕ, ◌^◌, ◌≤◌, ◌<◌, ◌≡◌, refl, sym, ap, ◌∙◌, inl, inr, List, [], ◌∷◌, ◌++◌, Bool, Option,
  Option-cases, none, some, All, length, length-append, append_assoc, append-nil, done, Returns,
  Returns-and_then, arith,
}
use pellegrino.Sportty.{Message, to_le_bytes}
use pellegrino.Sportty.Codec.{Cobs, CobsLaws}
use pellegrino.Sportty.Encode.{AddsOne, code_of, frame, encode_to-frame}
use pellegrino.UsbSerial.Accumulator.Drain.Delivers.{wire}
use pellegrino.Crowtty.{Workers, send_all}
use pellegrino.Crowtty.Worker.{Streams, StreamsLaws, Handle}

-- The first message of each worker, as the loop meets them, and the workers without these.
abbrev pub firsts : Workers → List Message
firsts [] = []
firsts ((p, hdl) ∷ ws) = elim hdl.inp [
  | [] ↦ firsts ws
  | msg ∷ later ↦ record { port = p; bytes = msg } ∷ firsts ws
]

abbrev pub without_firsts : Workers → Workers
without_firsts [] = []
without_firsts ((p, hdl) ∷ ws) = elim hdl.inp [
  | [] ↦ (p, hdl) ∷ without_firsts ws
  | msg ∷ later ↦ (p, record hdl { inp = later }) ∷ without_firsts ws
]

-- A worker of a 16-bit port that has read 128 bytes at most at a time.
abbrev pub IsSmall : ℕ × Handle → Type 0
IsSmall (p, hdl) = (p < 2 ^ 16) × All (λ (msg : List ℕ). length msg ≤ 128) hdl.inp

module _ {c : Cobs} (laws : CobsLaws c) where
  abbrev pub codes : List Message → List (List ℕ)
  codes [] = []
  codes (m ∷ ms) = code_of laws m ∷ codes ms

  pub code-small : (m : Message) → AddsOne laws → length m.bytes ≤ 128 → length (frame laws m) ≤ 132
  code-small m short small = omega (
    arith,
    length-append (code_of laws m) (0 ∷ []),
    short (to_le_bytes m.port ++ m.bytes) (omega arith),
  )

module _ {c : Cobs} (laws : CobsLaws c) {serial : Streams} (serial_laws : StreamsLaws serial) where
  open serial_laws use {written}

  -- What the loop over the workers leaves, where no write fails.
  abbrev pub AllSent :
      Workers → serial.Stream → Option (Workers × (List ℕ × serial.Stream)) → Type 0
  AllSent ws port none = Unit {0}
  AllSent ws port (some (ws', (buf', port'))) =
      (ws' ≡ without_firsts ws)
      × (length buf' ≡ 256)
      × (written port' ≡ written port ++ wire (codes laws (firsts ws)) [])

  module _ (p : ℕ) (alive : Bool) (out : List (List ℕ)) (ws : Workers) where
    abbrev holding : List (List ℕ) → Handle
    holding inp = record { alive = alive; out = out; inp = inp }

    nothing_sent :
        (port : serial.Stream) (r : Option (Workers × (List ℕ × serial.Stream)))
        → AllSent ws port r
        → Returns (AllSent ((p, holding []) ∷ ws) port) (elim r [
          | none ↦ done none
          | some (ws', rest) ↦ done (some ((p, holding []) ∷ ws', rest))
        ])
    nothing_sent port none h = tt
    nothing_sent port (some (ws', (buf', port'))) (same, size, content) =
        (ap (λ t. (p, holding []) ∷ t) same, size, content)

    one_sent :
        (msg : List ℕ) (later : List (List ℕ)) (port port1 : serial.Stream)
        (r : Option (Workers × (List ℕ × serial.Stream)))
        → let m : Message = record { port = p; bytes = msg } in
          written port1 ≡ written port ++ frame laws m
          → AllSent ws port1 r
          → Returns (AllSent ((p, holding (msg ∷ later)) ∷ ws) port) (elim r [
            | none ↦ done none
            | some (ws', rest) ↦ done (some ((p, holding later) ∷ ws', rest))
          ])
    one_sent msg later port port1 none e h = tt
    one_sent msg later port port1 (some (ws', (buf', port'))) e (same, size, content) =
        let m : Message = record { port = p; bytes = msg } in
        let others = wire (codes laws (firsts ws)) [] in
        (
          ap (λ t. (p, holding later) ∷ t) same,
          size,
          content
              ∙ ap (λ t. t ++ others) e
              ∙ append_assoc (written port) (frame laws m) others
              ∙ ap (λ t. written port ++ t) (append_assoc (code_of laws m) (0 ∷ []) others),
        )

    -- The message of one worker and those of the others.
    send_one :
        (buf : List ℕ) (port : serial.Stream) (inp : List (List ℕ))
        → AddsOne laws
        → IsSmall (p, holding inp)
        → length buf ≡ 256
        → ((buf' : List ℕ) (port' : serial.Stream)
            → length buf' ≡ 256
            → Returns (AllSent ws port') (send_all c serial ws buf' port'))
        → Returns
            (AllSent ((p, holding inp) ∷ ws) port)
            (send_all c serial ((p, holding inp) ∷ ws) buf port)
    unfolding send_all
    send_one buf port [] short small size next =
        Returns-and_then (AllSent ws port) _ (send_all c serial ws buf port) _ (next buf port size)
          (nothing_sent port)
    send_one buf port (msg ∷ later) short small size next =
        let m : Message = record { port = p; bytes = msg } in
        let fits = code-small laws m short small.1.0 in
        let (buf', enc, body, size') = encode_to-frame laws m buf (omega (arith, fits)) in
        elim (Option-cases (serial.write_all port (frame laws m))) [
          | inl fails ↦ rw (send_all, enc, body, fails) tt
          | inr (port1, writes) ↦
              rw (send_all, enc, body, writes)
                (Returns-and_then (AllSent ws port1) _ (send_all c serial ws buf' port1) _
                  (next buf' port1 (size' ∙ size))
                  (λ r.
                    one_sent msg later port port1 r
                      (serial_laws.written-write_all port port1 (frame laws m) writes)))
        ]

  -- With a buffer of 256 bytes the loop over the workers never panics: where no write fails, the frame
  -- of the first message of each worker has been written, in order, and that message taken.
  pub send_all-AllSent :
      AddsOne laws
      → (ws : Workers) (buf : List ℕ) (port : serial.Stream) → All IsSmall ws
      → length buf ≡ 256
      → Returns (AllSent ws port) (send_all c serial ws buf port)
  unfolding send_all
  send_all-AllSent short [] buf port small size = (refl, size, sym (append-nil (written port)))
  send_all-AllSent short ((p, hdl) ∷ ws) buf port small size =
      send_one p hdl.alive hdl.out ws buf port hdl.inp short small.0 size
        (λ buf' port' size'. send_all-AllSent short ws buf' port' small.1 size')
