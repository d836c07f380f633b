-- ===== src/UsbSerial/Receive/All.antt =====
-- `recv` with a buffer that has more room than all that waits for its port.
use pellegrino.Base.{
  ℕ, zero, suc, ◌+◌, ◌-◌, ◌≤◌, ◌<◌, ◌≡◌, refl, List, [], ◌∷◌, ◌++◌, some, length, length-append,
  le→leb, done, arith,
}
use pellegrino.Alloc.{AHeap, HeapArray, init_idle}
use pellegrino.Alloc.Cleaning.{Owners, Ready}
use pellegrino.UsbSerial.Arrays.{owning, drop_array-idle}
use pellegrino.UsbSerial.State.{Platform, PlatformLaws, UsbUartSys}
use pellegrino.UsbSerial.Receive.{process, recv, take_loop}

-- The bytes of some messages, in order.
abbrev pub stream : List (HeapArray ℕ) → List ℕ
stream [] = []
stream (m ∷ ms) = m.elems ++ stream ms

module _ {p : Platform} (laws : PlatformLaws p) where
  open laws use {tables, crates}

  take_loop-all :
      (fuel room : ℕ) (ms : List (HeapArray ℕ)) (dq : p.tables.Deque) (h : AHeap p.crates)
      (live : Owners)
      → tables.items dq ≡ ms
      → length ms < fuel
      → length (stream ms) < room
      → Ready crates h (owning ms live)
      → h.state ≡ init_idle
      → (dq' : p.tables.Deque) × (h' : AHeap p.crates) × (take_loop p fuel room dq h
          ≡ done (stream ms, (dq', h')))
        × (tables.items dq' ≡ [])
        × (h'.state ≡ init_idle)
        × Ready crates h' live
  unfolding take_loop
  take_loop-all fuel zero ms dq h live e enough less r idle = absurd (omega arith)
  take_loop-all zero (suc n) ms dq h live e enough less r idle = absurd (omega arith)
  take_loop-all (suc fuel) (suc n) [] dq h live e enough less r idle =
      (dq, h, rw (take_loop, tables.pops_none dq e) refl, e, idle, r)
  take_loop-all (suc fuel) (suc n) (m ∷ ms) dq h live e enough less r idle =
      let (dq1, popped, later) = tables.pops dq m ms e in
      let (h1, dropped, idle1, r1) = drop_array-idle crates m r idle in
      let split = length-append m.elems (stream ms) in
      let fits : length m.elems ≤ suc n = omega arith in
      let (dq2, h2, run, empty, idle2, r2) =
        take_loop-all fuel (suc n - length m.elems) ms dq1 h1 live later (omega arith) (omega arith)
          r1 idle1 in
      (dq2, h2, rw (take_loop, popped, le→leb _ _ fits, dropped, run) refl, empty, idle2, r2)

  -- With the lock free, a buffer with more room than all that waits for a registered port, once the
  -- incoming frames are processed, receives all of it, in order: the port's queue is empty then, its
  -- arrays, owned by it, are given back, and the driver's other fields stay.
  pub recv-all :
      (port buflen : ℕ) (s s1 : UsbUartSys p) (dq : p.tables.Deque) (live : Owners)
      → process p s ≡ done s1
      → p.tables.get s1.ports port ≡ some dq
      → length (stream (tables.items dq)) < buflen
      → Ready crates s1.heap (owning (tables.items dq) live)
      → s1.heap.state ≡ init_idle
      → (dq' : p.tables.Deque) × (h' : AHeap p.crates) × (recv p port buflen s
          ≡ done (
            record s1 { ports = p.tables.put s1.ports port dq'; heap = h' },
            some (stream (tables.items dq)),
          ))
        × (tables.items dq' ≡ [])
        × (h'.state ≡ init_idle)
        × Ready crates h' live
  unfolding recv
  recv-all port buflen s s1 dq live processed there less r idle =
      let (dq', h', run, empty, idle', r') =
        take_loop-all (16 + 1) buflen (tables.items dq) dq s1.heap live refl
          (omega (arith, tables.length-items dq)) less r idle in
      (dq', h', rw (recv, processed, there, run) refl, empty, idle', r')
