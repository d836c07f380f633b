-- ===== src/UsbSerial/Receive/Kept/Recv.antt =====
-- `recv` keeps the ledger of the heap.
use pellegrino.Base.{
  ℕ, zero, suc, ◌+◌, ◌-◌, ◌≡◌, refl, sym, ap, ◌∙◌, inl, inr, List, ◌∷◌, Option, List-cases,
  Option-cases, none, some, leb, leb→le, not-leb→lt, Bool-cases, length, total, drop, done, IfDone,
  IfDone-and_then, Ends, Ends-and_then, Ends-to_IfDone, arith, and_then, ◌<◌,
}
use pellegrino.Alloc.{
  AHeap, HeapArray, init_idle, busy_locked, unlock, alloc_box_array, drop_array, array_free_box,
}
use pellegrino.Alloc.Blocks.{FreeBox}
use pellegrino.Alloc.Cleaning.{Owners, gain, Ready}
use pellegrino.Alloc.Boxes.{try_lock-idle, Ready-state, Allocated, alloc_box_array-Ready}
use pellegrino.UsbSerial.External.{deque_len}
use pellegrino.UsbSerial.State.{Platform, PlatformLaws, UsbUartSys, byte}
use pellegrino.UsbSerial.Arrays.{is_block, Ready-same, drop_array-idle, drop_array-busy}
use pellegrino.UsbSerial.Receive.{process, put_back, take_loop, recv}
use pellegrino.UsbSerial.Receive.Owned.{queued, Holds, IsOwned}
use pellegrino.UsbSerial.Receive.Kept.{process-IsOwned}

module _ {p : Platform} (laws : PlatformLaws p) (live : Owners) where
  open laws use {tables, crates}

  -- The owners with those of a queue that is taken out of the table.
  abbrev with_queue : Owners → p.tables.Deque → Owners
  with_queue owners dq b = owners b + total (is_block b) (tables.items dq)

  abbrev PutBack : Owners → AHeap p.crates × p.tables.Deque → Type 0
  PutBack owners r = Holds laws live r.0 (with_queue owners r.1)

  put_back-Holds :
      (msg : HeapArray ℕ) (dq : p.tables.Deque) (avail : ℕ) (h : AHeap p.crates) (owners : Owners)
      → Holds laws live h (with_queue owners dq)
      → Ends (PutBack owners) (put_back p msg dq avail h)
  unfolding put_back unlock
  put_back-Holds msg dq avail h owners (idle, r) =
      let later = drop avail msg.elems in
      let (g', a, e, got, kept) =
        alloc_box_array-Ready crates byte 0 (length later) (Ready-state crates h busy_locked r) in
      allocated g' a e got
    where
      full_queue :
          (g' : AHeap p.crates) (a : HeapArray ℕ)
          → g'.state ≡ busy_locked
          → Ready crates g' (gain (array_free_box byte a) (with_queue owners dq))
          → Ends (PutBack owners) (
              and_then {B = AHeap p.crates × p.tables.Deque}
                (drop_array byte a g')
                (λ g''. done (unlock g'', dq)))
      full_queue g' a busy r' = elim (drop_array-busy crates a r' (λ idle'. omega arith)) [
        | inl panics ↦ rw panics tt
        | inr (g'', run, r'') ↦ rw run (refl, Ready-state crates g'' init_idle r'')
      ]

      pushed :
          (g' : AHeap p.crates) (a : HeapArray ℕ)
          → alloc_box_array byte 0
              (length (drop avail msg.elems))
              (record h { state = busy_locked })
            ≡ done (g', some a)
          → g'.state ≡ busy_locked
          → Ready crates g' (gain (array_free_box byte a) (with_queue owners dq))
          → Ends (PutBack owners) (put_back p msg dq avail h)
      pushed g' a e busy r' = elim (Bool-cases (leb deque_len (length (tables.items dq)))) [
        | inl full ↦
            rw
              (
                put_back,
                try_lock-idle h idle,
                e,
                tables.push_front_full dq (record a { elems = drop avail msg.elems })
                    (leb→le _ _ full),
              )
              (full_queue g' a busy r')
        | inr room ↦
            let arr : HeapArray ℕ = record a { elems = drop avail msg.elems } in
            let (dq', push, more) = tables.pushes_front dq arr (not-leb→lt _ _ room) in
            rw (put_back, try_lock-idle h idle, e, push)
              (
                refl,
                Ready-same crates (with_queue owners dq')
                    (λ b. omega (arith, ap (total (is_block b)) more))
                    (Ready-state crates g' init_idle r'),
              )
      ]

      allocated :
          (g' : AHeap p.crates) (a : Option (HeapArray ℕ))
          → alloc_box_array byte 0
              (length (drop avail msg.elems))
              (record h { state = busy_locked })
            ≡ done (g', a)
          → Allocated crates
              (array_free_box byte)
              (record h { state = busy_locked })
              (with_queue owners dq)
              g'
              a
          → Ends (PutBack owners) (put_back p msg dq avail h)
      allocated g' none e got = rw (put_back, try_lock-idle h idle, e) tt
      allocated g' (some a) e (same, r', clean) = pushed g' a e same r'

  abbrev Taken : Owners → List ℕ × (p.tables.Deque × AHeap p.crates) → Type 0
  Taken owners r = Holds laws live r.1.1 (with_queue owners r.1.0)

  -- The array that leaves a queue, with the owners of what stays.
  popped :
      (h : AHeap p.crates) (owners : Owners) (dq dq' : p.tables.Deque) (msg : HeapArray ℕ)
      → tables.items dq ≡ msg ∷ tables.items dq'
      → Holds laws live h (with_queue owners dq)
      → Holds laws live h (gain (array_free_box byte msg) (with_queue owners dq'))
  popped h owners dq dq' msg e (idle, r) = (
    idle,
    Ready-same crates (gain (array_free_box byte msg) (with_queue owners dq'))
        (λ b. omega (arith, ap (total (is_block b)) e)) r,
  )

  take_loop-Holds :
      (fuel room : ℕ) (dq : p.tables.Deque) (h : AHeap p.crates) (owners : Owners)
      → length (tables.items dq) < fuel
      → Holds laws live h (with_queue owners dq)
      → Ends (Taken owners) (take_loop p fuel room dq h)
  unfolding take_loop
  take_loop-Holds fuel zero dq h owners less v = v
  take_loop-Holds zero (suc r) dq h owners less v = absurd (omega arith)
  take_loop-Holds (suc fuel) (suc r) dq h owners less v = elim (List-cases (tables.items dq)) [
    | inl e ↦ rw (take_loop, tables.pops_none dq e) v
    | inr (msg, ms, e) ↦
        let (dq', pop, rest) = tables.pops dq msg ms e in
        let first : tables.items dq ≡ msg ∷ tables.items dq' = e ∙ ap (λ x. msg ∷ x) (sym rest) in
        let (idle, owned) = popped h owners dq dq' msg first v in
        elim (Bool-cases (leb (length msg.elems) (suc r))) [
          | inl fits ↦
              let (h1, dropped, idle1, r1) = drop_array-idle crates msg owned idle in
              rw (take_loop, pop, fits, dropped)
                (Ends-and_then (Taken owners) (Taken owners)
                  (take_loop p fuel (suc r - length msg.elems) dq' h1) _
                  (take_loop-Holds fuel (suc r - length msg.elems) dq' h1 owners
                    (omega (arith, ap length first)) (idle1, r1))
                  (λ (bs, left) v'. v'))
          | inr long ↦
              let held : Owners = gain (array_free_box byte msg) owners in
              rw (take_loop, pop, long)
                (Ends-and_then (PutBack held) (Taken owners) (put_back p msg dq' (suc r) h) _
                  (put_back-Holds msg dq' (suc r) h held
                    (idle, Ready-same crates (with_queue held dq') (λ b. omega arith) owned))
                  (λ (h', dq'') (idle', owned').
                    let again =
                      Ready-same crates (gain (array_free_box byte msg) (with_queue owners dq''))
                        (λ b. omega arith) owned' in
                    let (h2, dropped, idle2, r2) = drop_array-idle crates msg again idle' in
                    rw dropped (idle2, r2)))
        ]
  ]

  abbrev pub Received : UsbUartSys p × Option (List ℕ) → Type 0
  Received r = IsOwned laws live r.0

  -- The end of `recv`: it returns or panics, and keeps the ledger.
  pub taken-Ends :
      (port buflen : ℕ) (s1 : UsbUartSys p) (dq : p.tables.Deque)
      → p.tables.get s1.ports port ≡ some dq
      → IsOwned laws live s1
      → Ends Received (
          and_then {B = UsbUartSys p × Option (List ℕ)}
            (take_loop p (16 + 1) buflen dq s1.heap)
            (λ (bs, (dq', h)).
              done (record s1 { ports = p.tables.put s1.ports port dq'; heap = h }, some bs)))
  taken-Ends port buflen s1 dq e (idle, r) =
      let emptied = p.tables.put s1.ports port p.tables.new_deque in
      let others : Owners = queued laws live emptied in
      let out : (b : FreeBox)
          → tables.weigh (is_block b) emptied + total (is_block b) (tables.items dq)
            ≡ tables.weigh (is_block b) s1.ports =
        λ b. omega (
          arith,
          tables.weigh-put (is_block b) s1.ports port dq p.tables.new_deque e,
          ap (total (is_block b)) tables.items-new,
        ) in
      Ends-and_then (Taken others) Received (take_loop p (16 + 1) buflen dq s1.heap) _
        (take_loop-Holds (16 + 1) buflen dq s1.heap others (omega (arith, tables.length-items dq))
          (idle, Ready-same crates (with_queue others dq) (λ b. omega (arith, out b)) r))
        (λ (bs, (dq', h)) (idle', r'). (
          idle',
          Ready-same crates (queued laws live (p.tables.put s1.ports port dq'))
              (λ b. omega (arith, out b, tables.weigh-put (is_block b) s1.ports port dq dq' e)) r',
        ))

  -- The arrays that `recv` takes out of a queue are given back, and the one that it puts back is owned.
  pub recv-IsOwned :
      (port buflen : ℕ) (s : UsbUartSys p)
      → IsOwned laws live s
      → IfDone Received (recv p port buflen s)
  unfolding recv
  recv-IsOwned port buflen s v =
      IfDone-and_then (IsOwned laws live) Received (process p s) _ (process-IsOwned laws live s v)
        (λ s1 v1. elim (Option-cases (p.tables.get s1.ports port)) [
          | inl e ↦ rw e v1
          | inr (dq, e) ↦ rw e (Ends-to_IfDone Received _ (taken-Ends port buflen s1 dq e v1))
        ])
