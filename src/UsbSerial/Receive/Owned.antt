-- ===== src/UsbSerial/Receive/Owned.antt =====
-- What `process` and `recv` do to the ledger of the heap: every array in a port's queue is owned.
use mathlib.Core.Option
use pellegrino.Base.{
  ℕ, ◌+◌, ◌≡◌, refl, ap, inl, inr, List, [], ◌∷◌, ◌++◌, Option, Option-cases, none, some, leb,
  leb→le, not-leb→lt, Bool-cases, length, total, total-append, done, arith,
}
use pellegrino.Alloc.{AHeap, HeapArray, init_idle, busy_locked, unlock, array_free_box}
use pellegrino.Alloc.Cleaning.{Owners, gain, Ready}
use pellegrino.Alloc.Boxes.{try_lock-idle, Ready-state, Allocated, alloc_box_array-Ready}
use pellegrino.Sportty.{Message}
use pellegrino.UsbSerial.External.{deque_len}
use pellegrino.UsbSerial.State.{Platform, PlatformLaws, UsbUartSys, byte}
use pellegrino.UsbSerial.Arrays.{is_block, Ready-same, drop_array-idle}
use pellegrino.UsbSerial.Receive.{alloc_copy, deliver}

module _ {p : Platform} (laws : PlatformLaws p) (live : Owners) where
  open laws use {tables, crates}

  -- The owners with those of all arrays that wait for a port.
  abbrev pub queued : p.tables.Map → Owners
  queued m b = live b + tables.weigh (is_block b) m

  -- The lock is free, and the owners are these.
  abbrev pub Holds : AHeap p.crates → Owners → Type 0
  Holds h owners = (h.state ≡ init_idle) × Ready crates h owners

  abbrev pub IsOwned : UsbUartSys p → Type 0
  IsOwned s = Holds s.heap (queued s.ports)

  -- What an allocation leaves.
  abbrev Copied : Owners → AHeap p.crates → Option (HeapArray ℕ) → Type 0
  Copied owners h none = Holds h owners
  Copied owners h (some a) = Holds h (gain (array_free_box byte a) owners)

  alloc_copy-Copied :
      (bytes : List ℕ) (h : AHeap p.crates) (owners : Owners)
      → Holds h owners
      → (h' : AHeap p.crates) × (a : Option (HeapArray ℕ)) × (alloc_copy p bytes h ≡ done (h', a))
        × Copied owners h' a
  unfolding alloc_copy unlock
  alloc_copy-Copied bytes h owners (idle, r) =
      let g : AHeap p.crates = record h { state = busy_locked } in
      let (g', a, e, got, kept) =
        alloc_box_array-Ready crates byte 0 (length bytes) (Ready-state crates h busy_locked r) in
      (
        unlock g',
        Option.map (λ (b : HeapArray ℕ). record b { elems = bytes }) a,
        rw (alloc_copy, try_lock-idle h idle, e) refl,
        copied g' a got,
      )
    where
      copied :
          (g' : AHeap p.crates) (a : Option (HeapArray ℕ))
          → Allocated crates (array_free_box byte) (record h { state = busy_locked }) owners g' a
          → Copied owners
              (unlock g')
              (Option.map (λ (b : HeapArray ℕ). record b { elems = bytes }) a)
      copied g' none (same, r', clean) = (refl, Ready-state crates g' init_idle r')
      copied g' (some b) (same, r', clean) = (refl, Ready-state crates g' init_idle r')

  -- An array that joins its queue takes its owner with it.
  queued-put :
      (h : AHeap p.crates) (m : p.tables.Map) (port : ℕ) (dq dq' : p.tables.Deque) (a : HeapArray ℕ)
      → p.tables.get m port ≡ some dq
      → tables.items dq' ≡ tables.items dq ++ a ∷ []
      → Holds h (gain (array_free_box byte a) (queued m))
      → Holds h (queued (p.tables.put m port dq'))
  queued-put h m port dq dq' a e more (idle, r) = (
    idle,
    Ready-same crates (queued (p.tables.put m port dq'))
        (λ b. omega (
          arith,
          tables.weigh-put (is_block b) m port dq dq' e,
          ap (total (is_block b)) more,
          total-append (is_block b) (tables.items dq) (a ∷ []),
        ))
        r,
  )

  -- The delivery of a message returns: its array joins a queue, or is given back.
  pub deliver-IsOwned :
      (m : Message) (s : UsbUartSys p)
      → IsOwned s
      → (s' : UsbUartSys p) × (deliver p m s ≡ done s') × IsOwned s'
  unfolding deliver
  deliver-IsOwned m s v = elim (Option-cases (p.tables.get s.ports m.port)) [
    | inl e ↦ (s, rw (deliver, e), v)
    | inr (dq, e) ↦
        let (h, a, run, got) = alloc_copy-Copied m.bytes s.heap (queued s.ports) v in
        delivered dq e h a run got
  ]
    where
      pushed :
          (dq : p.tables.Deque) (h : AHeap p.crates) (a : HeapArray ℕ)
          → p.tables.get s.ports m.port ≡ some dq
          → alloc_copy p m.bytes s.heap ≡ done (h, some a)
          → Holds h (gain (array_free_box byte a) (queued s.ports))
          → (s' : UsbUartSys p) × (deliver p m s ≡ done s') × IsOwned s'
      pushed dq h a e run got = elim (Bool-cases (leb deque_len (length (tables.items dq)))) [
        | inl full ↦
            let (h', dropped, idle, r) = drop_array-idle crates a got.1 got.0 in
            (
              record s { heap = h' },
              rw (deliver, e, run, tables.push_back_full dq a (leb→le _ _ full), dropped) refl,
              (idle, r),
            )
        | inr room ↦
            let (dq', push, more) = tables.pushes_back dq a (not-leb→lt _ _ room) in
            (
              record s { heap = h; ports = p.tables.put s.ports m.port dq' },
              rw (deliver, e, run, push) refl,
              queued-put h s.ports m.port dq dq' a e more got,
            )
      ]

      delivered :
          (dq : p.tables.Deque)
          → p.tables.get s.ports m.port ≡ some dq
          → (h : AHeap p.crates) (a : Option (HeapArray ℕ))
          → alloc_copy p m.bytes s.heap ≡ done (h, a)
          → Copied (queued s.ports) h a
          → (s' : UsbUartSys p) × (deliver p m s ≡ done s') × IsOwned s'
      delivered dq e h none run got = (record s { heap = h }, rw (deliver, e, run) refl, got)
      delivered dq e h (some a) run got = pushed dq h a e run got
