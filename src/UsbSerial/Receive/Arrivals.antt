-- ===== src/UsbSerial/Receive/Arrivals.antt =====
-- A frame that comes in, from its encoding by the host to the read of its port.
use mathlib.Core.Option
use mathlib.Core.Path.{subst}
use pellegrino.Base.{
  ℕ, ◌+◌, ◌<◌, ◌^◌, ◌≡◌, ◌≢◌, refl, sym, ap, ◌∙◌, inl, inr, List, [], ◌∷◌, ◌++◌, Option,
  Option-cases, none, some, false, length, length-append, take, total, done, done-inj, IfDone,
  IfDone-any, arith, ◌==◌, append_assoc, append-nil, if◌then◌else◌,
}
use pellegrino.Alloc.{AHeap, HeapArray, try_lock, unlock, alloc_box_array}
use pellegrino.Alloc.Cleaning.{Owners, Ready}
use pellegrino.Sportty.{Message, ok, encode_to}
use pellegrino.Sportty.RoundTrip.{decode_in_place-encode_to}
use pellegrino.UsbSerial.External.{deque_len}
use pellegrino.UsbSerial.State.{Platform, PlatformLaws, UsbUartSys, byte}
use pellegrino.UsbSerial.Arrays.{is_block, owning, owning-total, Ready-same}
use pellegrino.UsbSerial.Receive.{
  alloc_copy, deliver, loop_back, on_message, process_loop, process, recv,
}
use pellegrino.UsbSerial.Receive.Owned.{IsOwned, queued, deliver-IsOwned}
use pellegrino.UsbSerial.Receive.Kept.Recv.{recv-IsOwned}
use pellegrino.UsbSerial.Receive.All.{stream, recv-all}

stream-append :
    (ms : List (HeapArray ℕ)) (a : HeapArray ℕ) → stream (ms ++ a ∷ []) ≡ stream ms ++ a.elems
stream-append [] a = append-nil a.elems
stream-append (m ∷ ms) a =
    ap (λ x. m.elems ++ x) (stream-append ms a) ∙ sym (append_assoc m.elems (stream ms) a.elems)

pub if_same {ℓ} : {A : Type ℓ} (n : ℕ) (a b : A) → (if n == n then a else b) ≡ a
if_same n a b = ground arith

module _ (p : Platform) where
  abbrev HasBytes : List ℕ → AHeap p.crates × Option (HeapArray ℕ) → Type 0
  HasBytes bytes (h, none) = Unit {0}
  HasBytes bytes (h, some a) = a.elems ≡ bytes

  HasBytes-map :
      (bytes : List ℕ) (h : AHeap p.crates) (a : Option (HeapArray ℕ))
      → HasBytes bytes (h, Option.map (λ (b : HeapArray ℕ). record b { elems = bytes }) a)
  HasBytes-map bytes h none = tt
  HasBytes-map bytes h (some a) = refl

  alloc_copy-HasBytes :
      (bytes : List ℕ) (h : AHeap p.crates) → IfDone (HasBytes bytes) (alloc_copy p bytes h)
  unfolding alloc_copy
  alloc_copy-HasBytes bytes h = elim (Option-cases (try_lock h)) [
    | inl e ↦ rw (alloc_copy, e) tt
    | inr (g, e) ↦
        rw (alloc_copy, e)
          (IfDone-any (HasBytes bytes) (alloc_box_array byte 0 (length bytes) g) _
            (λ (g', a). HasBytes-map bytes (unlock g') a))
  ]

  -- Nothing to read, nothing to do.
  pub process-idle : (s : UsbUartSys p) → p.queues.read s.inc ≡ none → process p s ≡ done s
  unfolding process process_loop
  process-idle s e = rw (process_loop, e) refl

  -- The frame of a message for another port than zero is delivered.
  on_message-frame :
      (laws : PlatformLaws p) (m : Message) (dest out : List ℕ) (n : ℕ) (s : UsbUartSys p)
      → m.port < 2 ^ 16
      → m.port ≢ 0
      → encode_to p.cobs m dest ≡ ok (n, out)
      → on_message p s (take n out) ≡ deliver p m s
  unfolding on_message loop_back
  on_message-frame laws m dest out n s small other e =
      let away : (m.port == 0) ≡ false = ground arith in
      rw (on_message, decode_in_place-encode_to laws.cobs m dest out n small e, away)

module _ {p : Platform} (laws : PlatformLaws p) (live : Owners) where
  open laws use {tables, crates}

  -- The owners without those of a port's queue.
  abbrev pub others : p.tables.Map → ℕ → Owners
  others ports port = queued laws live (p.tables.put ports port p.tables.new_deque)

  pub IsOwned-owning :
      (port : ℕ) (s : UsbUartSys p) (dq : p.tables.Deque)
      → p.tables.get s.ports port ≡ some dq
      → IsOwned laws live s
      → Ready crates s.heap (owning (tables.items dq) (others s.ports port))
  IsOwned-owning port s dq e (idle, r) =
      Ready-same crates (owning (tables.items dq) (others s.ports port))
        (λ b. omega (
          arith,
          owning-total (tables.items dq) (others s.ports port) b,
          tables.weigh-put (is_block b) s.ports port dq p.tables.new_deque e,
          ap (total (is_block b)) tables.items-new,
        ))
        r

  -- With room in the heap and in its port's queue, a message joins the queue, behind what waits.
  pub deliver-queues :
      (m : Message) (s : UsbUartSys p) (dq : p.tables.Deque) (h : AHeap p.crates) (a : HeapArray ℕ)
      → p.tables.get s.ports m.port ≡ some dq
      → length (tables.items dq) < deque_len
      → alloc_copy p m.bytes s.heap ≡ done (h, some a)
      → (dq' : p.tables.Deque) × (length (tables.items dq') ≡ length (tables.items dq) + 1)
        × (stream (tables.items dq') ≡ stream (tables.items dq) ++ m.bytes)
        × (deliver p m s ≡ done (record s { heap = h; ports = p.tables.put s.ports m.port dq' }))
  unfolding deliver
  deliver-queues m s dq h a e room run =
      let (dq', push, more) = tables.pushes_back dq a room in
      let same : a.elems ≡ m.bytes =
        subst (IfDone (HasBytes p m.bytes)) run (alloc_copy-HasBytes p m.bytes s.heap) in
      (
        dq',
        ap length more ∙ length-append (tables.items dq) (a ∷ []),
        ap stream more
            ∙ stream-append (tables.items dq) a
            ∙ ap (λ x. stream (tables.items dq) ++ x) same,
        rw (deliver, e, run, push) refl,
      )

  pub deliver-joins :
      (m : Message) (s : UsbUartSys p) (dq : p.tables.Deque) (h : AHeap p.crates) (a : HeapArray ℕ)
      → p.tables.get s.ports m.port ≡ some dq
      → length (tables.items dq) < deque_len
      → alloc_copy p m.bytes s.heap ≡ done (h, some a)
      → (dq' : p.tables.Deque) × (stream (tables.items dq') ≡ stream (tables.items dq) ++ m.bytes)
        × (deliver p m s ≡ done (record s { heap = h; ports = p.tables.put s.ports m.port dq' }))
  deliver-joins m s dq h a e room run =
      let (dq', size, joined, done') = deliver-queues m s dq h a e room run in (dq', joined, done')

  -- Each port but one has the queue that it had.
  abbrev pub OthersKeep : ℕ → UsbUartSys p → UsbUartSys p → Type 0
  OthersKeep port s s' = (j : ℕ) → j ≢ port → p.tables.get s'.ports j ≡ p.tables.get s.ports j

  -- The frame that `encode_to` made of a message for a port other than zero arrives, where the port is
  -- registered and the heap and the port's queue have room. `recv` of that port, with room for it and
  -- nothing more to process, then gives what waited for the port, and behind it the message's bytes.
  -- The queues of the other ports stay, and the ledger is right.
  pub on_message-recv :
      (m : Message) (dest out : List ℕ) (n buflen : ℕ) (s : UsbUartSys p) (dq : p.tables.Deque)
      (h : AHeap p.crates) (a : HeapArray ℕ)
      → IsOwned laws live s
      → p.queues.read s.inc ≡ none
      → m.port < 2 ^ 16
      → m.port ≢ 0
      → encode_to p.cobs m dest ≡ ok (n, out)
      → p.tables.get s.ports m.port ≡ some dq
      → length (tables.items dq) < deque_len
      → alloc_copy p m.bytes s.heap ≡ done (h, some a)
      → length (stream (tables.items dq)) + length m.bytes < buflen
      → (s1 s2 : UsbUartSys p) × (on_message p s (take n out) ≡ done s1)
        × (recv p m.port buflen s1 ≡ done (s2, some (stream (tables.items dq) ++ m.bytes)))
        × OthersKeep m.port s s2
        × IsOwned laws live s2
  on_message-recv m dest out n buflen s dq h a v empty small other enc there room alloc fits =
      let (dq1, joined, run) = deliver-joins m s dq h a there room alloc in
      let s1 : UsbUartSys p = record s { heap = h; ports = p.tables.put s.ports m.port dq1 } in
      let (t, run', vt) = deliver-IsOwned laws live m s v in
      let v1 : IsOwned laws live s1 = subst (IsOwned laws live) (done-inj (sym run' ∙ run)) vt in
      let there1 : p.tables.get s1.ports m.port ≡ some dq1 =
        tables.get-put s.ports m.port m.port dq dq1 there ∙ if_same m.port (some dq1) _ in
      let long : length (stream (tables.items dq1)) < buflen =
        omega (arith, ap length joined, length-append (stream (tables.items dq)) m.bytes) in
      let (dq2, h2, got, gone, idle, ready) =
        recv-all laws m.port buflen s1 s1 dq1 (others s1.ports m.port) (process-idle p s1 empty)
          there1 long (IsOwned-owning m.port s1 dq1 there1 v1) v1.0 in
      let s2 : UsbUartSys p = record s1 { ports = p.tables.put s1.ports m.port dq2; heap = h2 } in
      (
        s1,
        s2,
        on_message-frame p laws m dest out n s small other enc ∙ run,
        got ∙ ap (λ x. done (s2, some x)) joined,
        (λ j ne. ground (
          arith,
          tables.get-put s.ports m.port j dq dq1 there,
          tables.get-put s1.ports m.port j dq1 dq2 there1,
        )),
        subst (IfDone (λ r. IsOwned laws live r.0)) got
            (recv-IsOwned laws live m.port buflen s1 v1),
      )
