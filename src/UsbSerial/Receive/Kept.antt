-- ===== src/UsbSerial/Receive/Kept.antt =====
-- `process` and `send` keep the ledger of the heap, on every path that returns.
pub mod Recv
use pellegrino.Base.{
  ℕ, zero, suc, ◌+◌, ◌-◌, ◌*◌, ◌≡◌, refl, sym, ap, ◌∙◌, inl, inr, List, ◌∷◌, Option, List-cases,
  Option-cases, none, some, leb, leb→le, not-leb→lt, Bool-cases, length, total, drop, done, IfDone,
  IfDone-and_then, IfDone-any, arith, and_then, ◌==◌,
}
use pellegrino.Alloc.{
  AHeap, HeapArray, init_idle, busy_locked, unlock, alloc_box_array, drop_array, array_free_box,
}
use pellegrino.Alloc.Blocks.{FreeBox}
use pellegrino.Alloc.Cleaning.{Owners, gain, Ready}
use pellegrino.Alloc.Boxes.{try_lock-idle, Ready-state, Allocated, alloc_box_array-Ready}
use pellegrino.Sportty.{Message, Result, ok, err, decode_in_place}
use pellegrino.UsbSerial.External.{deque_len}
use pellegrino.UsbSerial.State.{Platform, PlatformLaws, UsbUartSys, byte, acc_len}
use pellegrino.UsbSerial.Accumulator.{Accumulator}
use pellegrino.UsbSerial.Arrays.{is_block, Ready-same, drop_array-idle, drop_array-busy}
use pellegrino.UsbSerial.Accumulator.Drain.{drain}
use pellegrino.UsbSerial.Accumulator.Drain.Keeps.{drain-keeps}
use pellegrino.UsbSerial.Send.{Sent, send, send_loop}
use pellegrino.UsbSerial.Receive.{
  deliver, loop_back, on_message, process_loop, process, put_back, take_loop, recv,
}
use pellegrino.UsbSerial.Receive.Owned.{queued, Holds, IsOwned, deliver-IsOwned}

module _ {p : Platform} (laws : PlatformLaws p) (live : Owners) where
  open laws use {tables, crates}

  abbrev SentOwned : UsbUartSys p × Sent → Type 0
  SentOwned r = IsOwned laws live r.0

  -- `send` touches the outgoing queue alone.
  pub send-IsOwned :
      (port : ℕ) (buf : List ℕ) (s : UsbUartSys p)
      → IsOwned laws live s
      → IfDone SentOwned (send port buf s)
  unfolding send
  send-IsOwned port buf s v = elim (Bool-cases (p.tables.contains_key s.ports port)) [
    | inl there ↦
        rw (send, there)
          (IfDone-any SentOwned (send_loop p port (length buf + 1) s.out buf) _ (λ r. v))
    | inr gone ↦ rw (send, gone) v
  ]

  loop_back-IsOwned :
      (m : Message) (s : UsbUartSys p)
      → IsOwned laws live s
      → IfDone (IsOwned laws live) (loop_back p m s)
  unfolding loop_back
  loop_back-IsOwned m s v = elim (Bool-cases (m.port == 0)) [
    | inl zero_port ↦
        rw (loop_back, zero_port)
          (IfDone-and_then SentOwned (IsOwned laws live) (send 0 m.bytes s) _
            (send-IsOwned 0 m.bytes s v) (λ r v'. v'))
    | inr other ↦ rw (loop_back, other) v
  ]

  decoded-IsOwned :
      (s : UsbUartSys p) (r : Result Message)
      → IsOwned laws live s
      → IfDone
          (IsOwned laws live)
          (elim r [ err e ↦ done s | ok m ↦ and_then (loop_back p m s) (deliver p m) ])
  decoded-IsOwned s (err e) v = v
  decoded-IsOwned s (ok m) v =
      IfDone-and_then (IsOwned laws live) (IsOwned laws live) (loop_back p m s) _
        (loop_back-IsOwned m s v)
        (λ s' v'. let (s'', run, v'') = deliver-IsOwned laws live m s' v' in rw run v'')

  on_message-IsOwned :
      (s : UsbUartSys p) (frame : List ℕ)
      → IsOwned laws live s
      → IfDone (IsOwned laws live) (on_message p s frame)
  unfolding on_message
  on_message-IsOwned s frame v =
      IfDone-any (IsOwned laws live) (decode_in_place p.cobs frame) _ (λ r. decoded-IsOwned s r v)

  abbrev DrainedOwned : Accumulator × UsbUartSys p → Type 0
  DrainedOwned r = IsOwned laws live r.1

  process_loop-IsOwned :
      (fuel rounds : ℕ) (s : UsbUartSys p)
      → IsOwned laws live s
      → IfDone (IsOwned laws live) (process_loop p fuel rounds s)
  unfolding process_loop
  process_loop-IsOwned zero rounds s v = tt
  process_loop-IsOwned (suc fuel) rounds s v = elim (Option-cases (p.queues.read s.inc)) [
    | inl e ↦ rw (process_loop, e) v
    | inr (bytes, e) ↦
        rw (process_loop, e)
          (IfDone-and_then DrainedOwned (IsOwned laws live)
            (drain (on_message p) acc_len rounds s.acc s bytes) _
            (drain-keeps (on_message p) (IsOwned laws live) on_message-IsOwned acc_len rounds s.acc
              s bytes v)
            (λ (acc, s') v'.
              process_loop-IsOwned fuel rounds
                (record s' { acc = acc; inc = p.queues.release s'.inc (length bytes) }) v'))
  ]

  pub process-IsOwned :
      (s : UsbUartSys p) → IsOwned laws live s → IfDone (IsOwned laws live) (process p s)
  unfolding process
  process-IsOwned s v = process_loop-IsOwned (4096 + 1) ((4096 + 2) * (acc_len + 2)) s v
