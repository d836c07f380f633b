-- ===== src/UsbSerial/Receive.antt =====
-- `process` and `recv` of the driver. What `process` prints is left out. While `process` runs, the
-- interrupt adds nothing to the incoming queue.
pub mod Take
pub mod All
pub mod Owned
pub mod Kept
pub mod Ends
pub mod Arrivals
use mathlib.Core.Option
use pellegrino.Base.{
  ℕ, zero, suc, ◌+◌, ◌-◌, ◌*◌, List, [], ◌∷◌, ◌++◌, Option, none, some, leb, ◌==◌, if◌then◌else◌,
  length, take, drop, Outcome, done, panic, out_of_fuel, and_then,
}
use pellegrino.Alloc.{AHeap, HeapArray, try_lock, unlock, alloc_box_array, drop_array}
use pellegrino.Alloc.External.{Crates}
use pellegrino.Sportty.{Result, ok, err, Message, decode_in_place}
use pellegrino.UsbSerial.Accumulator.{Accumulator}
use pellegrino.UsbSerial.Accumulator.Drain.{drain}
use pellegrino.UsbSerial.State.{Platform, UsbUartSys, acc_len, byte}
use pellegrino.UsbSerial.Send.{Sent, send}

module _ (p : Platform) where
  -- An array of these bytes from the heap: the lock is held for the allocation alone. `none` where
  -- the lock is taken or there is no room.
  unfoldable pub alloc_copy :
      List ℕ → AHeap p.crates → Outcome (AHeap p.crates × Option (HeapArray ℕ))
  alloc_copy bytes h = elim (try_lock h) [
    | none ↦ done (h, none)
    | some g ↦ and_then (alloc_box_array byte 0 (length bytes) g) (λ (g', a).
        done (unlock g', Option.map (λ (b : HeapArray ℕ). record b { elems = bytes }) a))
  ]

  -- The arms for a whole message: into its port's queue, or dropped where the port is not mapped, the
  -- heap has no room, or the queue is full, in which case the array is dropped too.
  unfoldable pub deliver : Message → UsbUartSys p → Outcome (UsbUartSys p)
  unfolding alloc_copy
  deliver m s = elim (p.tables.get s.ports m.port) [
    | none ↦ done s
    | some dq ↦ and_then (alloc_copy m.bytes s.heap) (λ (h, a). elim a [
      | none ↦ done (record s { heap = h })
      | some arr ↦ elim (p.tables.push_back dq arr) [
        | some dq' ↦ done (record s { heap = h; ports = p.tables.put s.ports m.port dq' })
        | none ↦ and_then (drop_array byte arr h) (λ h'. done (record s { heap = h' }))
      ]
    ])
  ]

  -- A message for port zero is sent back, as far as it can be, before it is delivered.
  unfoldable pub loop_back : Message → UsbUartSys p → Outcome (UsbUartSys p)
  unfolding send
  loop_back m s = if m.port == 0 then and_then (send 0 m.bytes s) (λ (s', r). done s') else done s

  unfoldable pub on_message : UsbUartSys p → List ℕ → Outcome (UsbUartSys p)
  unfolding loop_back deliver
  on_message s frame =
      and_then (decode_in_place p.cobs frame)
        (λ r. elim r [ err e ↦ done s | ok m ↦ and_then (loop_back m s) (deliver m) ])

  -- The outer loop: one grant after the other, each released whole. `rounds` bounds the inner loop.
  process_loop : (fuel rounds : ℕ) → UsbUartSys p → Outcome (UsbUartSys p)
  process_loop zero rounds s = out_of_fuel
  process_loop (suc fuel) rounds s = elim (p.queues.read s.inc) [
    | none ↦ done s
    | some bytes ↦ and_then (drain on_message acc_len rounds s.acc s bytes) (λ (acc, s').
        process_loop fuel rounds
          (record s' { acc = acc; inc = p.queues.release s'.inc (length bytes) }))
  ]

  -- The incoming queue holds 4096 bytes at most, and each grant takes one at least.
  unfoldable pub process : UsbUartSys p → Outcome (UsbUartSys p)
  unfolding process_loop
  process s = process_loop (4096 + 1) ((4096 + 2) * (acc_len + 2)) s

  -- The last message that is taken, where only its start has room: the rest goes back to the front of
  -- the queue, in an array of its own. Without the lock or the room for it the kernel panics.
  unfoldable pub put_back :
      HeapArray ℕ → p.tables.Deque → ℕ → AHeap p.crates → Outcome (AHeap p.crates × p.tables.Deque)
  put_back msg dq avail h = elim (try_lock h) [
    | none ↦ panic
    | some g ↦ and_then (alloc_box_array byte 0 (length (drop avail msg.elems)) g) (λ (g', a).
        elim a [
          | none ↦ panic
          | some arr ↦ elim (p.tables.push_front dq (record arr { elems = drop avail msg.elems })) [
            | some dq' ↦ done (unlock g', dq')
            | none ↦ and_then (drop_array byte arr g') (λ g''. done (unlock g'', dq))
          ]
        ])
  ]

  -- The loop of `recv`: `room` is what is left of the buffer, and the bytes are those copied to it.
  pub take_loop :
      ℕ → ℕ → p.tables.Deque → AHeap p.crates → Outcome (List ℕ × (p.tables.Deque × AHeap p.crates))
  take_loop fuel zero dq h = done ([], (dq, h))
  take_loop zero (suc r) dq h = out_of_fuel
  take_loop (suc fuel) (suc r) dq h =
      let room = suc r in
      elim (p.tables.pop_front dq) [
        | none ↦ done ([], (dq, h))
        | some (msg, dq') ↦
            let all = and_then (drop_array byte msg h) (λ h'.
              and_then (take_loop fuel (room - length msg.elems) dq' h')
                (λ (bs, rest). done (msg.elems ++ bs, rest))) in
            let part = and_then (put_back msg dq' room h) (λ (h', dq'').
              and_then (drop_array byte msg h') (λ h''. done (take room msg.elems, (dq'', h'')))) in
            if leb (length msg.elems) room then all else part
      ]

  -- `none` is `Err(())`: the port is not registered. A queue holds 16 messages at most.
  unfoldable pub recv : ℕ → ℕ → UsbUartSys p → Outcome (UsbUartSys p × Option (List ℕ))
  unfolding process take_loop
  recv port buflen s = and_then (process s) (λ s1. elim (p.tables.get s1.ports port) [
    | none ↦ done (s1, none)
    | some dq ↦ and_then (take_loop (16 + 1) buflen dq s1.heap) (λ (bs, (dq', h)).
        done (record s1 { ports = p.tables.put s1.ports port dq'; heap = h }, some bs))
  ])
