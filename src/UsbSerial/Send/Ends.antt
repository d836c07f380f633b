-- ===== src/UsbSerial/Send/Ends.antt =====
-- `send` ends: every round of its loop takes a byte of data at least.
use pellegrino.Base.{
  ℕ, zero, suc, ◌+◌, ◌<◌, ◌≡◌, refl, inl, inr, List, [], ◌∷◌, leb, Bool-cases, not-leb→lt, length,
  length-drop, take, drop, Outcome, Ends, Ends-and_then, arith,
}
use pellegrino.Sportty.{Message, encode_to, max_encoding_length}
use pellegrino.UsbSerial.External.{Grant, granted, insufficient_size, grant_error}
use pellegrino.UsbSerial.State.{Platform, UsbUartSys}
use pellegrino.UsbSerial.Send.{Sent, send, send_loop, send_round, to_use}
use pellegrino.UsbSerial.Send.Delivery.{Result-cases}

abbrev Any : {A : Type 0} → A → Type 0
Any a = Unit {0}

module _ (p : Platform) (port : ℕ) where
  send_round-Ends :
      (next : p.queues.Queue → List ℕ → Outcome (p.queues.Queue × Sent)) (out : p.queues.Queue)
      (x : ℕ) (xs : List ℕ) (g : Grant)
      → ((out' : p.queues.Queue) (ys : List ℕ)
          → length ys < length (x ∷ xs)
          → Ends Any (next out' ys))
      → Ends Any (send_round p port next out (x ∷ xs) g)
  unfolding send_round
  send_round-Ends next out x xs insufficient_size more = tt
  send_round-Ends next out x xs grant_error more = tt
  send_round-Ends next out x xs (granted w) more = elim (Bool-cases (leb (length w) 4)) [
    | inl little ↦ rw little tt
    | inr room ↦
        let n = to_use p port w (x ∷ xs) in
        let m : Message = record { port = port; bytes = take n (x ∷ xs) } in
        let long = not-leb→lt _ _ room in
        elim (Result-cases (encode_to p.cobs m w)) [
          | inl (r, e) ↦
              rw (room, e)
                (more (p.queues.commit out r.1 r.0) (drop n (x ∷ xs))
                  (ground (arith, length-drop n (x ∷ xs))))
          | inr (r, e) ↦ rw (room, e) tt
        ]
  ]

  send_loop-Ends :
      (fuel : ℕ) (out : p.queues.Queue) (xs : List ℕ)
      → length xs < fuel
      → Ends Any (send_loop p port fuel out xs)
  unfolding send_loop
  send_loop-Ends fuel out [] h = tt
  send_loop-Ends zero out (x ∷ xs) h = absurd (omega arith)
  send_loop-Ends (suc fuel) out (x ∷ xs) h =
      send_round-Ends (send_loop p port fuel) out x xs
        (p.queues.grant_max_remaining out (max_encoding_length p.cobs (length (x ∷ xs))))
        (λ out' ys less. send_loop-Ends fuel out' ys (omega arith))

-- `send` returns or panics, whatever the queue and the encoder do, and touches no other queue.
pub send-Ends :
    {p : Platform} (port : ℕ) (buf : List ℕ) (s : UsbUartSys p)
    → Ends (λ r. r.0.inc ≡ s.inc) (send port buf s)
unfolding send
send-Ends {p} port buf s = elim (Bool-cases (p.tables.contains_key s.ports port)) [
  | inl there ↦
      rw (send, there)
        (Ends-and_then Any (λ r. r.0.inc ≡ s.inc) (send_loop p port (length buf + 1) s.out buf) _
          (send_loop-Ends p port (length buf + 1) s.out buf (omega arith)) (λ r h. refl))
  | inr gone ↦ rw (send, gone) refl
]
