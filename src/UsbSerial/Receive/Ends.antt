-- ===== src/UsbSerial/Receive/Ends.antt =====
-- `process` and `recv` end: every grant of the incoming queue is worked off within its rounds.
use mathlib.Core.Path.{subst}
use pellegrino.Base.{
  ℕ, zero, suc, ◌+◌, ◌*◌, ◌≤◌, ◌<◌, ◌≡◌, refl, ap, inl, inr, List, [], ◌++◌, Option-cases, none,
  some, Bool-cases, length, length-append, drop-all, done, Ends, Ends-and_then, Ends-IfDone, IfDone,
  IfDone-any, arith, and_then, ◌==◌, Ends-Returns, ◌∙◌, Option,
}
use pellegrino.Alloc.{AHeap, HeapArray, drop_array}
use pellegrino.Alloc.Cleaning.{Owners}
use pellegrino.Sportty.{Message, Result, ok, err, decode_in_place}
use pellegrino.Sportty.RoundTrip.{decode-total}
use pellegrino.UsbSerial.State.{Platform, PlatformLaws, UsbUartSys, acc_len, byte}
use pellegrino.UsbSerial.Accumulator.Refine.{IsValid}
use pellegrino.UsbSerial.Accumulator.Drain.{drain}
use pellegrino.UsbSerial.Accumulator.Drain.Total.{Drained, drain-Drained}
use pellegrino.UsbSerial.Send.{send}
use pellegrino.UsbSerial.Send.Ends.{send-Ends}
use pellegrino.UsbSerial.Receive.{
  alloc_copy, deliver, loop_back, on_message, process_loop, process, take_loop, recv,
}
use pellegrino.UsbSerial.Receive.Owned.{IsOwned, deliver-IsOwned}
use pellegrino.UsbSerial.Receive.Kept.{send-IsOwned}
use pellegrino.UsbSerial.Receive.Kept.Recv.{Received, taken-Ends}

module _ {p : Platform} (laws : PlatformLaws p) (live : Owners) where
  open laws use {tables, crates, queues}

  -- The incoming queue is this one.
  abbrev Reads : p.queues.Queue → UsbUartSys p → Type 0
  Reads q s = s.inc ≡ q

  -- A delivery leaves the queues of the interrupt alone.
  deliver-Reads : (m : Message) (s : UsbUartSys p) → IfDone (Reads s.inc) (deliver p m s)
  unfolding deliver
  deliver-Reads m s = elim (Option-cases (p.tables.get s.ports m.port)) [
    | inl e ↦ rw (deliver, e) refl
    | inr (dq, e) ↦
        rw (deliver, e)
          (IfDone-any (Reads s.inc) (alloc_copy p m.bytes s.heap) _ (λ (h, a). copied dq h a))
  ]
    where
      pushed :
          (h : AHeap p.crates) (arr : HeapArray ℕ) (r : Option p.tables.Deque)
          → IfDone (Reads s.inc) (elim r [
            | some dq' ↦ done (record s { heap = h; ports = p.tables.put s.ports m.port dq' })
            | none ↦ and_then (drop_array byte arr h) (λ h'. done (record s { heap = h' }))
          ])
      pushed h arr (some dq') = refl
      pushed h arr none = IfDone-any (Reads s.inc) (drop_array byte arr h) _ (λ h'. refl)

      copied :
          (dq : p.tables.Deque) (h : AHeap p.crates) (a : Option (HeapArray ℕ))
          → IfDone (Reads s.inc) (elim a [
            | none ↦ done (record s { heap = h })
            | some arr ↦ elim (p.tables.push_back dq arr) [
              | some dq' ↦ done (record s { heap = h; ports = p.tables.put s.ports m.port dq' })
              | none ↦ and_then (drop_array byte arr h) (λ h'. done (record s { heap = h' }))
            ]
          ])
      copied dq h none = refl
      copied dq h (some arr) = pushed h arr (p.tables.push_back dq arr)

  -- What every message is handled with: the ledger, and this incoming queue.
  abbrev Steady : p.queues.Queue → UsbUartSys p → Type 0
  Steady q s = IsOwned laws live s × Reads q s

  deliver-Ends :
      (m : Message) (q : p.queues.Queue) (s : UsbUartSys p)
      → Steady q s
      → Ends (Steady q) (deliver p m s)
  deliver-Ends m q s (v, e) =
      let (s', run, v') = deliver-IsOwned laws live m s v in
      let kept : s'.inc ≡ s.inc = subst (IfDone (Reads s.inc)) run (deliver-Reads m s) in
      rw run (v', kept ∙ e)

  loop_back-Ends :
      (m : Message) (q : p.queues.Queue) (s : UsbUartSys p)
      → Steady q s
      → Ends (Steady q) (loop_back p m s)
  unfolding loop_back
  loop_back-Ends m q s (v, e) = elim (Bool-cases (m.port == 0)) [
    | inl zero_port ↦
        rw (loop_back, zero_port)
          (Ends-and_then (λ r. (r.0.inc ≡ s.inc) × IsOwned laws live r.0) (Steady q)
            (send 0 m.bytes s) _
            (Ends-IfDone (λ r. r.0.inc ≡ s.inc) (λ r. IsOwned laws live r.0) (send 0 m.bytes s)
              (send-Ends 0 m.bytes s) (send-IsOwned laws live 0 m.bytes s v))
            (λ (s', r) (same, v'). (v', same ∙ e)))
    | inr other ↦ rw (loop_back, other) (v, e)
  ]

  decoded-Ends :
      (q : p.queues.Queue) (s : UsbUartSys p) (r : Result Message)
      → Steady q s
      → Ends
          (Steady q)
          (elim r [ err e ↦ done s | ok m ↦ and_then (loop_back p m s) (deliver p m) ])
  decoded-Ends q s (err e) v = v
  decoded-Ends q s (ok m) v =
      Ends-and_then (Steady q) (Steady q) (loop_back p m s) _ (loop_back-Ends m q s v)
        (deliver-Ends m q)

  -- A message is handled whole, or the kernel panics: nothing in its handling loops or is undefined.
  pub on_message-Ends :
      (q : p.queues.Queue) (s : UsbUartSys p) (frame : List ℕ)
      → Steady q s
      → Ends (Steady q) (on_message p s frame)
  unfolding on_message
  on_message-Ends q s frame v =
      Ends-and_then (λ r. Unit {0}) (Steady q) (decode_in_place p.cobs frame) _
        (Ends-Returns (λ r. Unit {0}) (decode_in_place p.cobs frame)
          (decode-total laws.cobs frame []).0)
        (λ r h. decoded-Ends q s r v)

  -- What `process` leaves: the incoming queue empty.
  abbrev pub Processed : UsbUartSys p → Type 0
  Processed s = IsOwned laws live s × IsValid acc_len s.acc × (queues.contents s.inc ≡ [])

  -- A whole grant, released.
  released :
      (q q' : p.queues.Queue) (bytes rest : List ℕ)
      → q' ≡ q
      → p.queues.read q ≡ some bytes
      → queues.contents q ≡ bytes ++ rest
      → queues.contents (p.queues.release q' (length bytes)) ≡ rest
  released q q' bytes rest same e split =
      ap (λ x. queues.contents (p.queues.release x (length bytes))) same
      ∙ queues.contents-release q bytes rest (length bytes) e split (omega arith)
      ∙ ap (λ x. x ++ rest) (drop-all bytes)

  process_loop-Processed :
      (fuel rounds : ℕ) (s : UsbUartSys p)
      → IsOwned laws live s
      → IsValid acc_len s.acc
      → length (queues.contents s.inc) < fuel
      → length (queues.contents s.inc) * (acc_len + 2) + (acc_len + 2) ≤ rounds
      → Ends Processed (process_loop p fuel rounds s)
  unfolding process_loop
  process_loop-Processed zero rounds s v va less enough = absurd (omega arith)
  process_loop-Processed (suc fuel) rounds s v va less enough =
      elim (Option-cases (p.queues.read s.inc)) [
        | inl e ↦ rw (process_loop, e) (v, va, queues.reads_none s.inc e)
        | inr (bytes, e) ↦
            let (rest, split, some_bytes) = queues.reads s.inc bytes e in
            let size = ap length split ∙ length-append bytes rest in
            rw (process_loop, e)
              (Ends-and_then (Drained (on_message p) (Steady s.inc) (on_message-Ends s.inc) acc_len)
                Processed (drain (on_message p) acc_len rounds s.acc s bytes) _
                (drain-Drained (on_message p) (Steady s.inc) (on_message-Ends s.inc) acc_len rounds
                  s.acc s bytes va (v, refl) (omega arith))
                (λ (acc, s') (va', (v', same)).
                  let left = released s.inc s'.inc bytes rest same e split in
                  process_loop-Processed fuel rounds
                    (record s' { acc = acc; inc = p.queues.release s'.inc (length bytes) }) v' va'
                    (rw left (omega arith)) (rw left (omega arith))))
      ]

  -- With the ledger right, the accumulator valid and at most the queue's 4096 bytes in it, `process`
  -- returns or panics: neither of its loops runs on, and nothing is undefined. If it returns, the
  -- incoming queue is empty, and the ledger and the accumulator are right again.
  process-Ends :
      (s : UsbUartSys p)
      → IsOwned laws live s
      → IsValid acc_len s.acc
      → length (queues.contents s.inc) ≤ 4096
      → Ends Processed (process p s)
  unfolding process
  process-Ends s v va few =
      process_loop-Processed (4096 + 1) ((4096 + 2) * (acc_len + 2)) s v va (omega arith)
        (omega arith)

  -- What `recv` leaves: the same, whatever it returns.
  abbrev pub Emptied : UsbUartSys p × Option (List ℕ) → Type 0
  Emptied (s, r) = IsOwned laws live s × (IsValid acc_len s.acc × (queues.contents s.inc ≡ []))

  recv-Ends :
      (port buflen : ℕ) (s : UsbUartSys p)
      → IsOwned laws live s
      → IsValid acc_len s.acc
      → length (queues.contents s.inc) ≤ 4096
      → Ends Emptied (recv p port buflen s)
  unfolding recv
  recv-Ends port buflen s v va few =
      Ends-and_then Processed Emptied (process p s) _ (process-Ends s v va few)
        (λ s1 (v1, va1, empty). elim (Option-cases (p.tables.get s1.ports port)) [
          | inl e ↦ rw e (v1, (va1, empty))
          | inr (dq, e) ↦ rw e (
              Ends-IfDone (Received laws live)
                (λ r. IsValid acc_len r.0.acc × (queues.contents r.0.inc ≡ [])) _
                (taken-Ends laws live port buflen s1 dq e v1)
                (IfDone-any _ (take_loop p (16 + 1) buflen dq s1.heap) _ (λ r. (va1, empty))))
        ])

  -- With the ledger right, the accumulator valid and at most the queue's 4096 bytes in it, `process`,
  -- `recv` and `send` return or panic, whatever port, buffer and data they are given: no loop runs on,
  -- and nothing is undefined. Where `process` or `recv` returns, the incoming queue is empty, and the
  -- ledger and the accumulator are right again; `send` leaves the incoming queue alone.
  pub UsbUartSys-Ends :
      (s : UsbUartSys p)
      → IsOwned laws live s
      → IsValid acc_len s.acc
      → length (queues.contents s.inc) ≤ 4096
      → Ends Processed (process p s)
        × ((port buflen : ℕ) → Ends Emptied (recv p port buflen s))
        × ((port : ℕ) (buf : List ℕ) → Ends (λ r. r.0.inc ≡ s.inc) (send port buf s))
  UsbUartSys-Ends s v va few = (
    process-Ends s v va few,
    (λ port buflen. recv-Ends port buflen s v va few),
    (λ port buf. send-Ends port buf s),
  )
