-- ===== src/UsbSerial/Send.antt =====
-- `send` of the driver: the data go out as frames of as many bytes as the outgoing queue has room for.
pub mod Chunks
pub mod Delivery
pub mod Ends
use pellegrino.Base.{
  ℕ, zero, suc, ◌+◌, ◌-◌, List, [], ◌∷◌, min, leb, if◌then◌else◌, length, take, drop, Outcome, done,
  panic, undefined, out_of_fuel, and_then,
}
use pellegrino.Sportty.{Message, ok, err, encode_to, max_encoding_length}
use pellegrino.UsbSerial.External.{Grant, granted, insufficient_size, grant_error}
use pellegrino.UsbSerial.State.{Platform, UsbUartSys}

-- `Ok(())`, and `Err(remaining)` with the bytes that were not sent.
pub data Sent : Type 0 where
  sent : Sent
  unsent : List ℕ → Sent

module _ (p : Platform) (port : ℕ) where
  -- The bytes of one frame: the lesser of the grant less four bytes, and what remains.
  abbrev pub to_use : List ℕ → List ℕ → ℕ
  to_use w remaining = min (length w - 4) (length remaining)

  -- The match on the grant, with `next` for the rounds that follow.
  pub send_round :
      (p.queues.Queue → List ℕ → Outcome (p.queues.Queue × Sent))
      → p.queues.Queue
      → List ℕ
      → Grant
      → Outcome (p.queues.Queue × Sent)
  send_round next out remaining insufficient_size = done (out, unsent remaining)
  send_round next out remaining grant_error = panic
  send_round next out remaining (granted w) =
      if leb (length w) 4
      then done (out, unsent remaining)
      else elim (encode_to p.cobs
          (record { port = port; bytes = take (to_use w remaining) remaining }) w) [
            | ok (used, w') ↦
                next (p.queues.commit out w' used) (drop (to_use w remaining) remaining)
            | err e ↦ panic
          ]

  pub send_loop : ℕ → p.queues.Queue → List ℕ → Outcome (p.queues.Queue × Sent)
  unfolding send_round
  send_loop fuel out [] = done (out, sent)
  send_loop zero out (x ∷ xs) = out_of_fuel
  send_loop (suc fuel) out (x ∷ xs) =
      send_round (send_loop fuel) out (x ∷ xs)
        (p.queues.grant_max_remaining out (max_encoding_length p.cobs (length (x ∷ xs))))

-- Every frame takes a byte of data at least, so that many rounds are enough.
unfoldable pub send : {p : Platform} → ℕ → List ℕ → UsbUartSys p → Outcome (UsbUartSys p × Sent)
unfolding send_loop
send {p} port buf s =
    if p.tables.contains_key s.ports port
    then and_then (send_loop p port (length buf + 1) s.out buf)
        (λ (out, result). done (record s { out = out }, result))
    else done (s, unsent buf)
