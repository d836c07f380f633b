-- ===== src/PortEcho/RoundTrip.antt =====
-- From a frame of the host to the frames that go back: a message for port zero, through the driver, the
-- application, and the driver again.
use mathlib.Core.Path.{subst}
use pellegrino.Base.{
  ℕ, refl, sym, ap, ◌+◌, ◌<◌, ◌^◌, ◌≡◌, ◌≢◌, ◌∙◌, List, [], ◌++◌, some, none, length, take, done,
  done-inj, arith,
}
use pellegrino.Alloc.{AHeap, HeapArray}
use pellegrino.Alloc.Cleaning.{Owners}
use pellegrino.Sportty.{Message, ok, encode_to}
use pellegrino.Sportty.RoundTrip.{decode_in_place-encode_to}
use pellegrino.Syscall.{Postcard, PostcardLaws, idle_bridge, Sys}
use pellegrino.Syscall.Crossing.{buf_len}
use pellegrino.Syscall.Handler.{wait}
use pellegrino.Syscall.Transfers.{call}
use pellegrino.UsbSerial.External.{deque_len}
use pellegrino.UsbSerial.State.{Platform, PlatformLaws, UsbUartSys}
use pellegrino.UsbSerial.Receive.{alloc_copy, loop_back, deliver, on_message}
use pellegrino.UsbSerial.Receive.Owned.{IsOwned, deliver-IsOwned}
use pellegrino.UsbSerial.Receive.Arrivals.{others, IsOwned-owning, deliver-joins, process-idle}
use pellegrino.UsbSerial.Receive.All.{stream}
use pellegrino.UsbSerial.Send.{Sent, send}
use pellegrino.UsbSerial.Send.Chunks.{IsShort, Ended}
use pellegrino.UsbSerial.Send.Delivery.{send-Ended}
use pellegrino.UsbSerial.Device.{usb_serial}
use pellegrino.PortEcho.{echo_len, echo_round}
use pellegrino.PortEcho.Wire.{IsCompact, Apart}
use pellegrino.PortEcho.Driver.{Passed, echo_round-Ended}

module _ {p : Platform} (laws : PlatformLaws p) (short : IsShort laws) (live : Owners) where
  open laws use {tables, crates}

  -- A message for port zero is sent back first, which touches the outgoing queue alone.
  on_message-looped :
      (bytes dest out : List ℕ) (n : ℕ) (s : UsbUartSys p) (d : p.tables.Deque)
      → let m : Message = record { port = 0; bytes = bytes } in
        encode_to p.cobs m dest ≡ ok (n, out)
        → p.tables.get s.ports 0 ≡ some d
        → length bytes < echo_len
        → (out' : p.queues.Queue) × (r : Sent) × (chunks : List (List ℕ)) × (on_message p s
              (take n out)
            ≡ deliver p m (record s { out = out' }))
          × (send 0 bytes s ≡ done (record s { out = out' }, r))
          × Ended laws 0 s.out bytes out' r chunks
  unfolding on_message loop_back
  on_message-looped bytes dest out n s d enc there small =
      let m : Message = record { port = 0; bytes = bytes } in
      let (out', r, chunks, run, ended) = send-Ended laws 0 bytes s d short there (omega arith) in
      (
        out',
        r,
        chunks,
        rw
            (
              on_message,
              decode_in_place-encode_to laws.cobs m dest out n (omega arith) enc,
              loop_back,
              run,
            )
            refl,
        run,
        ended,
      )

  -- The frame of a message of less than 128 bytes for port zero, handled where nothing else is queued
  -- for port zero, the heap has room for it and port one is registered; and then a round of the
  -- application. The driver first puts the message into the outgoing queue again, as frames for port
  -- zero; the round puts it there once more, behind these, as frames for port one. Both in order and
  -- from the first byte on, and what of them is missing is what the driver gave back as unsent.
  pub on_message-echo_round :
      {c : Postcard} (codec : PostcardLaws c) (compact : IsCompact c) (micros_since : ℕ → ℕ)
      (polls inp out buf : ℕ)
      → inp ≢ 0
      → out ≢ 0
      → Apart buf echo_len inp buf_len
      → Apart buf echo_len out buf_len
      → buf + echo_len < 2 ^ 32
      → wait micros_since polls 0 10_000 ≡ done tt
      → (bytes dest enc : List ℕ) (n : ℕ) (s : UsbUartSys p) (d0 d1 : p.tables.Deque)
        (h : AHeap p.crates) (a : HeapArray ℕ) (mem : ℕ → ℕ)
      → IsOwned laws live s
      → p.queues.read s.inc ≡ none
      → encode_to p.cobs (record { port = 0; bytes = bytes }) dest ≡ ok (n, enc)
      → p.tables.get s.ports 0 ≡ some d0
      → tables.items d0 ≡ []
      → p.tables.get s.ports 1 ≡ some d1
      → length bytes < echo_len
      → alloc_copy p bytes s.heap ≡ done (h, some a)
      → (s1 : UsbUartSys p) × (s' : Sys (UsbUartSys p)) × (r0 r1 : Sent) × (cs0 cs1 : List (List ℕ))
        × (on_message p s (take n enc) ≡ done s1)
        × (send 0 bytes s ≡ done (record s { out = s1.out }, r0))
        × Ended laws 0 s.out bytes s1.out r0 cs0
        × (echo_round
              (call c (usb_serial p) micros_since polls inp out)
              buf
              (record { mem = mem; bridge = idle_bridge; kernel = s1 })
            ≡ done s')
        × Passed laws short s1 s'.kernel bytes r1
        × Ended laws 1 s1.out bytes s'.kernel.out r1 cs1
  on_message-echo_round codec compact micros_since polls inp out buf in_ne out_ne in_apart out_apart
        in_memory woken bytes dest enc n s d0 d1 h a mem v idle e there0 empty there1 small alloc =
      let m : Message = record { port = 0; bytes = bytes } in
      let (out', r0, cs0, looped, sent0, ended0) =
        on_message-looped bytes dest enc n s d0 e there0 small in
      let t : UsbUartSys p = record s { out = out' } in
      let room : length (tables.items d0) < deque_len = omega (arith, ap length empty) in
      let (dq, joined, run) = deliver-joins laws live m t d0 h a there0 room alloc in
      let s1 : UsbUartSys p = record t { heap = h; ports = p.tables.put s.ports 0 dq } in
      let (t', run', vt) = deliver-IsOwned laws live m t v in
      let v1 : IsOwned laws live s1 = subst (IsOwned laws live) (done-inj (sym run' ∙ run)) vt in
      let bytes_there : stream (tables.items dq) ≡ bytes =
        joined ∙ ap (λ ms. stream ms ++ bytes) empty in
      let now0 : p.tables.get s1.ports 0 ≡ some dq = tables.get-put s.ports 0 0 d0 dq there0 in
      let now1 : p.tables.get s1.ports 1 ≡ some d1 =
        tables.get-put s.ports 0 1 d0 dq there0 ∙ there1 in
      let (s', r1, cs1, ran, bridge, passed, ended1) =
        echo_round-Ended laws short codec compact micros_since polls inp out buf in_ne out_ne
          in_apart out_apart in_memory woken
          (record { mem = mem; bridge = idle_bridge; kernel = s1 }) s1 dq d1
          (others laws live s1.ports 0) refl (process-idle p s1 idle) now0 now1
          (omega (arith, ap length bytes_there)) (IsOwned-owning laws live 0 s1 dq now0 v1) v1.0 in
      let same = λ (bs : List ℕ).
        Passed laws short s1 s'.kernel bs r1 × Ended laws 1 s1.out bs s'.kernel.out r1 cs1 in
      let (passed', ended') = subst same bytes_there (passed, ended1) in
      (s1, s', r0, r1, cs0, cs1, looped ∙ run, sent0, ended0, ran, passed', ended')
