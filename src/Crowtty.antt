-- ===== src/Crowtty.antt =====
-- The host tool, tools/crowtty/src/main.rs: one worker thread for each port joins a TCP socket to the
-- serial port that the board is at. The main loop sends what the workers have for the board, and cuts
-- what the board sends into frames for the workers.
pub mod Worker
pub mod Cut
pub mod Delivery
pub mod Outgoing
pub mod Arrival
pub mod Sound
pub mod Steps
pub mod Stand
mod Tests
use pellegrino.Base.{
  ℕ, zero, suc, ◌+◌, List, [], ◌∷◌, ◌++◌, Option, none, some, Bool, true, false, ◌==◌, leb,
  if◌then◌else◌, length, take, drop, replicate, Outcome, done, panic, out_of_fuel, and_then,
}
use pellegrino.Sportty.{ok, err, Message, encode_to, decode_in_place}
use pellegrino.Sportty.Codec.{Cobs}
use pellegrino.UsbSerial.Accumulator.{position}
use Worker.{
  Streams, ReadResult, would_block, timed_out, read_error, read_ok, Handle, new_handle, post,
}

-- `TcpManager::workers`, in the order in which the map is iterated. A port has one worker at most.
abbrev pub Workers : Type 0
Workers = List (ℕ × Handle)

-- `workers.get_mut(&port)`, and what is sent to the worker that it finds.
unfoldable pub send_to : ℕ → List ℕ → Workers → Workers
unfolding post
send_to port bytes [] = []
send_to port bytes ((p, hdl) ∷ ws) =
    if p == port then (p, post bytes hdl) ∷ ws else (p, hdl) ∷ send_to port bytes ws

-- The workers of ports 0 and 1. The first socket that cannot be bound is a panic.
unfoldable pub start_workers : (ℕ → Bool) → List ℕ → Workers → Outcome Workers
start_workers binds [] ws = done ws
start_workers binds (i ∷ is) ws =
    if binds i then start_workers binds is (ws ++ (i, new_handle) ∷ []) else panic

module _ (c : Cobs) where
  -- One chunk that ends in a zero byte: to the worker of its port, or dropped where it does not
  -- decode or no worker has the port.
  unfoldable pub route : Workers → List ℕ → Outcome Workers
  unfolding send_to
  route ws chunk =
      and_then (decode_in_place c chunk)
        (λ r. elim r [ ok m ↦ done (send_to m.port m.bytes ws) | err e ↦ done ws ])

  -- The loop over the zero bytes of `carry`.
  pub cut_loop : ℕ → Workers → List ℕ → Outcome (Workers × List ℕ)
  unfolding route
  cut_loop zero ws carry = out_of_fuel
  cut_loop (suc fuel) ws carry = elim (position carry) [
    | none ↦ done (ws, carry)
    | some pos ↦
        and_then (route ws (take (pos + 1) carry)) (λ ws'. cut_loop fuel ws' (drop (pos + 1) carry))
  ]

  -- Every round takes a byte at least.
  unfoldable pub cut : Workers → List ℕ → Outcome (Workers × List ℕ)
  unfolding cut_loop
  cut ws carry = cut_loop (length carry + 1) ws carry

-- What a loop of `main` returns with, in an `Outcome`: `none` is an error that `main` returns.
module _ (c : Cobs) (serial : Streams) where
  -- The state of the main loop.
  pub record Host : Type 0 where
    pub carry : List ℕ
    pub workers : Workers
    pub port : serial.Stream

  -- The loop over the workers: the first message of each is encoded into the shared buffer and
  -- written to the serial port.
  unfoldable pub send_all :
      Workers → List ℕ → serial.Stream → Outcome (Option (Workers × (List ℕ × serial.Stream)))
  send_all [] buf port = done (some ([], (buf, port)))
  send_all ((p, hdl) ∷ ws) buf port = elim hdl.inp [
    | [] ↦
        and_then (send_all ws buf port)
          (λ r. elim r [ none ↦ done none | some (ws', rest) ↦ done (some ((p, hdl) ∷ ws', rest)) ])
    | msg ∷ later ↦ elim (encode_to c (record { port = p; bytes = msg }) buf) [
      | err e ↦ panic
      | ok (used, buf') ↦ elim (serial.write_all port (take used buf')) [
        | none ↦ done none
        | some port' ↦ and_then (send_all ws buf' port') (λ r. elim r [
          | none ↦ done none
          | some (ws', rest) ↦ done (some ((p, record hdl { inp = later }) ∷ ws', rest))
        ])
      ]
    ]
  ]

  -- What follows a read. A slice behind the end of the buffer would be a panic.
  unfoldable pub take_read : Host → ReadResult → List ℕ → Outcome (Option Host)
  unfolding cut
  take_read h would_block buf = done (some h)
  take_read h timed_out buf = done (some h)
  take_read h read_error buf = panic
  take_read h (read_ok zero) buf = done (some h)
  take_read h (read_ok (suc n)) buf =
      if leb (suc n) (length buf)
      then and_then (cut c h.workers (h.carry ++ take (suc n) buf))
          (λ (ws, carry). done (some (record h { carry = carry; workers = ws })))
      else panic

  -- One round of the main loop.
  unfoldable pub round : Host → Outcome (Option Host)
  unfolding send_all take_read
  round h = and_then (send_all h.workers (replicate 256 0) h.port) (λ r. elim r [
    | none ↦ done none
    | some (ws, (buf, port)) ↦
        let (result, (buf', port')) = serial.read port buf in
        take_read (record h { workers = ws; port = port' }) result buf'
  ])
