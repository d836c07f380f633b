-- ===== src/Crowtty/Arrival/Queues.antt =====
-- Where the messages of a round end up: in the queues of their ports.
use pellegrino.Base.{
  ℕ, suc, ◌+◌, ◌≤◌, ◌<◌, ◌≡◌, ◌≢◌, refl, sym, ap, ◌∙◌, inl, inr, List, [], ◌∷◌, ◌++◌, some,
  some-inj, All, length, true, false, Bool-cases, ◌==◌, if◌then◌else◌, append_assoc, append-nil,
  Outcome, done, panic, undefined, out_of_fuel, IfDone, arith,
}
use mathlib.Core.Path.{subst}
use pellegrino.Alloc.{AHeap, HeapArray}
use pellegrino.Sportty.{Message}
use pellegrino.Sportty.Encode.{AddsOne}
use pellegrino.UsbSerial.Accumulator.{Accumulator}
use pellegrino.UsbSerial.Accumulator.Drain.{drain}
use pellegrino.UsbSerial.Accumulator.Drain.Delivers.{state_of, IsEmptied}
use pellegrino.UsbSerial.Accumulator.Refine.{IsValid}
use pellegrino.UsbSerial.External.{deque_len}
use pellegrino.UsbSerial.State.{Platform, PlatformLaws, UsbUartSys, acc_len}
use pellegrino.UsbSerial.Receive.{alloc_copy, loop_back, on_message}
use pellegrino.UsbSerial.Receive.All.{stream}
use pellegrino.UsbSerial.Receive.Arrivals.{deliver-queues}
use pellegrino.Crowtty.{Workers, send_all}
use pellegrino.Crowtty.Worker.{Streams, StreamsLaws}
use pellegrino.Crowtty.Outgoing.{firsts, without_firsts, IsSmall, codes}
use pellegrino.Crowtty.Arrival.{handle_each, drain-send_all}

-- The bytes of the messages for a port, in order.
abbrev pub bytes_for : ℕ → List Message → List ℕ
bytes_for q [] = []
bytes_for q (m ∷ ms) = (if m.port == q then m.bytes else []) ++ bytes_for q ms

state_of-done :
    {S : Type 0} (o : Outcome (Accumulator × S)) (s : S)
    → state_of o ≡ done s
    → (acc : Accumulator) × (o ≡ done (acc, s))
state_of-done (done (acc, s')) s e = (acc, ap (λ t. done (acc, t)) (cc))
state_of-done panic s e = absurd (cc)
state_of-done undefined s e = absurd (cc)
state_of-done out_of_fuel s e = absurd (cc)

module _ {p : Platform} (laws : PlatformLaws p) where
  open laws use {tables}

  -- The heap has room for a copy of each message, one after the other.
  abbrev pub HasCopies : List Message → AHeap p.crates → Type 0
  HasCopies [] h = Unit {0}
  HasCopies (m ∷ ms) h =
      (h' : AHeap p.crates) × (a : HeapArray ℕ) × (alloc_copy p m.bytes h ≡ done (h', some a))
      × HasCopies ms h'

  -- A message for a registered port other than zero, whose queue has room for so many.
  abbrev pub HasRoom : UsbUartSys p → ℕ → Message → Type 0
  HasRoom s n m =
      (m.port ≢ 0)
      × ((dq : p.tables.Deque) × (p.tables.get s.ports m.port ≡ some dq)
          × (length (tables.items dq) + n ≤ deque_len))

  -- The queue of each port has what it had, and behind it the bytes of the messages for that port.
  abbrev pub Queued : List Message → (s s' : UsbUartSys p) → Type 0
  Queued ms s s' =
      (q : ℕ) (dq : p.tables.Deque)
      → p.tables.get s.ports q ≡ some dq
      → (dq' : p.tables.Deque) × (p.tables.get s'.ports q ≡ some dq')
        × (stream (tables.items dq') ≡ stream (tables.items dq) ++ bytes_for q ms)

  loop_back-other : (m : Message) (s : UsbUartSys p) → m.port ≢ 0 → loop_back p m s ≡ done s
  unfolding loop_back
  loop_back-other m s other =
      let away : (m.port == 0) ≡ false = ground arith in rw (loop_back, away)

  -- One message, and what it leaves.
  module _ (m : Message) (s : UsbUartSys p) (dq dq1 : p.tables.Deque) (h : AHeap p.crates)
      (there : p.tables.get s.ports m.port ≡ some dq)
      (size : length (tables.items dq1) ≡ length (tables.items dq) + 1)
      (joined : stream (tables.items dq1) ≡ stream (tables.items dq) ++ m.bytes) where
    abbrev stored : UsbUartSys p
    stored = record s { heap = h; ports = p.tables.put s.ports m.port dq1 }

    get-same : (q : ℕ) → (m.port == q) ≡ true → p.tables.get stored.ports q ≡ some dq1
    get-same q same = rw (tables.get-put s.ports m.port q dq dq1 there, same)

    get-other :
        (q : ℕ) → (m.port == q) ≡ false → p.tables.get stored.ports q ≡ p.tables.get s.ports q
    get-other q other = rw (tables.get-put s.ports m.port q dq dq1 there, other)

    HasRoom-stored : (n : ℕ) (m' : Message) → HasRoom s (suc n) m' → HasRoom stored n m'
    HasRoom-stored n m' (other, (d, e, fits)) = elim (Bool-cases (m.port == m'.port)) [
      | inl same ↦
          let port_eq : m.port ≡ m'.port = ground arith in
          let d_eq : d ≡ dq =
            some-inj (sym e ∙ ap (λ k. p.tables.get s.ports k) (sym port_eq) ∙ there) in
          (
            other,
            (dq1, get-same m'.port same, omega (arith, ap (λ k. length (tables.items k)) d_eq)),
          )
      | inr distinct ↦ (other, (d, get-other m'.port distinct ∙ e, omega arith))
    ]

    rooms-stored :
        (n : ℕ) (ms : List Message) → All (HasRoom s (suc n)) ms → All (HasRoom stored n) ms
    rooms-stored n [] hs = tt
    rooms-stored n (m' ∷ ms) (h1, hs) = (HasRoom-stored n m' h1, rooms-stored n ms hs)

    Queued-more :
        (ms : List Message) (s' : UsbUartSys p) → Queued ms stored s' → Queued (m ∷ ms) s s'
    Queued-more ms s' queued q d e = elim (Bool-cases (m.port == q)) [
      | inl same ↦
          let port_eq : m.port ≡ q = ground arith in
          let d_eq : dq ≡ d = some-inj (sym there ∙ ap (λ k. p.tables.get s.ports k) port_eq ∙ e) in
          let (d', e', more) = queued q dq1 (get-same q same) in
          (
            d',
            e',
            rw same (
                more
                ∙ ap (λ t. t ++ bytes_for q ms) joined
                ∙ append_assoc (stream (tables.items dq)) m.bytes (bytes_for q ms)
                ∙ ap (λ k. stream (tables.items k) ++ (m.bytes ++ bytes_for q ms)) d_eq),
          )
      | inr distinct ↦
          let (d', e', more) = queued q d (get-other q distinct ∙ e) in (d', e', rw distinct more)
    ]

  handle_each-Queued :
      (ms : List Message) (s : UsbUartSys p)
      → All (HasRoom s (length ms)) ms
      → HasCopies ms s.heap
      → (s' : UsbUartSys p) × (handle_each p s ms ≡ done s') × Queued ms s s'
  handle_each-Queued [] s rooms copies =
      (s, refl, λ q dq e. (dq, e, sym (append-nil (stream (tables.items dq)))))
  handle_each-Queued (m ∷ ms) s ((other, (dq, there, fits)), rooms) (h, a, run, copies) =
      let (dq1, size, joined, delivered) =
        deliver-queues laws (λ b. 0) m s dq h a there (omega arith) run in
      let s1 : UsbUartSys p = record s { heap = h; ports = p.tables.put s.ports m.port dq1 } in
      let (s', ran, queued) =
        handle_each-Queued ms s1 (rooms-stored m s dq dq1 h there size joined (length ms) ms rooms)
          copies in
      (
        s',
        rw (loop_back-other m s other, delivered) ran,
        Queued-more m s dq dq1 h there size joined ms s' queued,
      )

  -- A COBS that adds one byte at most to 254; workers of 16-bit ports that hold messages of up to 128
  -- bytes; a buffer of 256 bytes; a serial port that nothing was written to yet; and a round of the
  -- main loop in which no write fails. It takes the first message of each worker. Where what it has
  -- written comes as one grant, with fuel for it, to a driver whose accumulator is valid and empty,
  -- and each message taken is for a registered port other than zero whose queue has room for all of
  -- them, and the heap has room for their copies: the driver takes the grant in, and each port then has
  -- queued what it had, and behind it the bytes of exactly the messages of its worker. No byte is held.
  pub send_all-Queued :
      {serial : Streams} (serial_laws : StreamsLaws serial) (ws ws' : Workers) (buf buf' : List ℕ)
      (port port' : serial.Stream) (s : UsbUartSys p) (fuel : ℕ)
      → AddsOne laws.cobs
      → All IsSmall ws
      → length buf ≡ 256
      → serial_laws.written port ≡ []
      → send_all p.cobs serial ws buf port ≡ done (some (ws', (buf', port')))
      → IsValid acc_len s.acc
      → s.acc.idx ≡ 0
      → length (codes laws.cobs (firsts ws)) + (acc_len + 1) < fuel
      → All (HasRoom s (length (firsts ws))) (firsts ws)
      → HasCopies (firsts ws) s.heap
      → (ws' ≡ without_firsts ws)
        × ((acc' : Accumulator) × (s' : UsbUartSys p) × (drain
                (on_message p)
                acc_len
                fuel
                s.acc
                s
                (serial_laws.written port')
              ≡ done (acc', s'))
            × (acc'.idx ≡ 0)
            × Queued (firsts ws) s s')
  send_all-Queued serial_laws ws ws' buf buf' port port' s fuel short small size fresh e v zeroed
        enough rooms copies =
      let (same, handled, emptied) =
        drain-send_all laws serial_laws ws ws' buf buf' port port' s fuel short small size fresh e v
          zeroed enough in
      let (s', ran, queued) = handle_each-Queued (firsts ws) s rooms copies in
      let (acc', got) = state_of-done _ s' (handled ∙ ran) in
      (same, (acc', s', got, subst (IfDone (IsEmptied (on_message p) acc_len)) got emptied, queued))
