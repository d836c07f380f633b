-- ===== src/Crowtty/Delivery/Echo.antt =====
-- The whole way of an echo: a message of the host for port zero, through the kernel and the application,
-- and back to the host's workers.
use pellegrino.Base.{
  ℕ, refl, sym, ap, ◌+◌, ◌<◌, ◌^◌, ◌≡◌, ◌≢◌, ◌∙◌, List, [], ◌∷◌, ◌++◌, some, none, true, NoZero,
  All, length, take, done, done-inj, arith, append_assoc, append-nil,
}
use pellegrino.Alloc.{AHeap, HeapArray}
use pellegrino.Alloc.Cleaning.{Owners}
use pellegrino.Sportty.{ok, encode_to}
use pellegrino.Syscall.{Postcard, PostcardLaws, idle_bridge, Sys}
use pellegrino.Syscall.Crossing.{buf_len}
use pellegrino.Syscall.Handler.{wait}
use pellegrino.Syscall.Transfers.{call}
use pellegrino.UsbSerial.Receive.{alloc_copy, on_message, recv}
use pellegrino.UsbSerial.Receive.Owned.{IsOwned}
use pellegrino.UsbSerial.Send.{Sent, send}
use pellegrino.UsbSerial.Device.{usb_serial}
use pellegrino.PortEcho.{echo_len, echo_round}
use pellegrino.PortEcho.Wire.{IsCompact, Apart}
use pellegrino.PortEcho.RoundTrip.{on_message-echo_round}
use pellegrino.UsbSerial.Accumulator.Drain.Delivers.{wire, handle_all}
use pellegrino.UsbSerial.State.{Platform, PlatformLaws, UsbUartSys}
use pellegrino.UsbSerial.Send.Chunks.{joined, left, frames, IsShort}
use pellegrino.Crowtty.{Workers, send_to, route, cut}
use pellegrino.Crowtty.Worker.{Handle}
use pellegrino.Crowtty.Cut.{cut-wire}
use pellegrino.Crowtty.Cut.Reads.{cut_reads, cut_reads-joined}
use pellegrino.Crowtty.Delivery.{
  worker, send_each, send_each-other, send_each-same, codes, codes-NoZero, frames-wire, route-frame,
}

wire-append : (as' bs : List (List ℕ)) → wire as' [] ++ wire bs [] ≡ wire (as' ++ bs) []
wire-append [] bs = refl
wire-append (a ∷ as') bs =
    append_assoc a (0 ∷ wire as' []) (wire bs []) ∙ ap (λ t. a ++ 0 ∷ t) (wire-append as' bs)

All-append : (as' bs : List (List ℕ)) → All NoZero as' → All NoZero bs → All NoZero (as' ++ bs)
All-append [] bs h k = k
All-append (a ∷ as') bs (h, hs) k = (h, All-append as' bs hs k)

module _ {p : Platform} (laws : PlatformLaws p) where
  -- Frames for one port, and then other messages.
  route-codes_then :
      (port : ℕ) (ws : Workers) (bs rest : List (List ℕ))
      → port < 2 ^ 16
      → handle_all (route p.cobs) ws (codes laws port bs ++ rest)
        ≡ handle_all (route p.cobs) (send_each port bs ws) rest
  route-codes_then port ws [] rest small = refl
  route-codes_then port ws (b ∷ bs) rest small =
      rw (route-frame laws port ws b small)
        (route-codes_then port (send_to port b ws) bs rest small)

  -- Frames for two ports, read in any pieces.
  two_ports-delivered :
      (ws : Workers) (cs0 cs1 reads : List (List ℕ))
      → joined reads ≡ frames laws 0 cs0 ++ frames laws 1 cs1
      → cut_reads p.cobs ws [] reads ≡ done (send_each 1 cs1 (send_each 0 cs0 ws), [])
  two_ports-delivered ws cs0 cs1 reads e =
      let all = codes laws 0 cs0 ++ codes laws 1 cs1 in
      let none_zero =
        All-append (codes laws 0 cs0) (codes laws 1 cs1) (codes-NoZero laws 0 cs0)
          (codes-NoZero laws 1 cs1) in
      let (ws', run, ends) = cut-wire laws.cobs ws all [] none_zero tt in
      let last = append-nil (codes laws 1 cs1) in
      let routed : handle_all (route p.cobs) ws all ≡ done (send_each 1 cs1 (send_each 0 cs0 ws)) =
        route-codes_then 0 ws cs0 (codes laws 1 cs1) (omega arith)
        ∙ ap (handle_all (route p.cobs) (send_each 0 cs0 ws)) (sym last)
        ∙ route-codes_then 1 (send_each 0 cs0 ws) cs1 [] (omega arith) in
      let same : ws' ≡ send_each 1 cs1 (send_each 0 cs0 ws) = done-inj (sym run ∙ routed) in
      let bytes : joined reads ≡ wire all [] =
        e
        ∙ ap (λ t. t ++ frames laws 1 cs1) (frames-wire laws 0 cs0)
        ∙ ap (λ t. wire (codes laws 0 cs0) [] ++ t) (frames-wire laws 1 cs1)
        ∙ wire-append (codes laws 0 cs0) (codes laws 1 cs1) in
      cut_reads-joined laws.cobs ws [] reads tt
      ∙ ap (cut p.cobs ws) bytes
      ∙ ends
      ∙ ap (λ t. done (t, [])) same

  -- A message of less than 128 bytes for port zero comes in where the outgoing queue is empty, nothing
  -- else is queued for port zero, the heap has room for it and port one is registered; and then the
  -- application makes a round. The host, in whatever pieces it reads what is then in the outgoing
  -- queue, sends the driver's copy to the worker of port zero and the application's to that of port
  -- one, if both live: each the message from its first byte on, short only of what the driver's
  -- `send` to that port gave back as unsent; the application's is the send of what its `recv` gave. It keeps no bytes back, and no other worker gets a message.
  pub cut_reads-echo_round :
      (short : IsShort laws) (live : Owners) {c : Postcard} (codec : PostcardLaws c)
      (compact : IsCompact c) (micros_since : ℕ → ℕ) (polls inp out buf : ℕ)
      → inp ≢ 0
      → out ≢ 0
      → Apart buf echo_len inp buf_len
      → Apart buf echo_len out buf_len
      → buf + echo_len < 2 ^ 32
      → wait micros_since polls 0 10_000 ≡ done tt
      → (bytes dest enc : List ℕ) (n : ℕ) (s : UsbUartSys p) (d0 d1 : p.tables.Deque)
        (h : AHeap p.crates) (a : HeapArray ℕ) (mem : ℕ → ℕ) (ws : Workers) (h0 h1 : Handle)
      → IsOwned laws live s
      → p.queues.read s.inc ≡ none
      → encode_to p.cobs (record { port = 0; bytes = bytes }) dest ≡ ok (n, enc)
      → p.tables.get s.ports 0 ≡ some d0
      → laws.tables.items d0 ≡ []
      → p.tables.get s.ports 1 ≡ some d1
      → length bytes < echo_len
      → alloc_copy p bytes s.heap ≡ done (h, some a)
      → laws.queues.contents s.out ≡ []
      → worker 0 ws ≡ some h0
      → h0.alive ≡ true
      → worker 1 ws ≡ some h1
      → h1.alive ≡ true
      → (s1 : UsbUartSys p) × (s' : Sys (UsbUartSys p)) × (r0 r1 : Sent) × (cs0 cs1 : List (List ℕ))
        × (on_message p s (take n enc) ≡ done s1)
        × (echo_round
              (call c (usb_serial p) micros_since polls inp out)
              buf
              (record { mem = mem; bridge = idle_bridge; kernel = s1 })
            ≡ done s')
        × (send 0 bytes s ≡ done (record s { out = s1.out }, r0))
        × ((k2 : UsbUartSys p) × (recv p 0 echo_len s1 ≡ done (k2, some bytes))
            × (send 1 bytes k2 ≡ done (s'.kernel, r1)))
        × (bytes ≡ joined cs0 ++ left r0)
        × (bytes ≡ joined cs1 ++ left r1)
        × ((reads : List (List ℕ))
            → joined reads ≡ laws.queues.contents s'.kernel.out
            → (ws' : Workers) × (cut_reads p.cobs ws [] reads ≡ done (ws', []))
              × (worker 0 ws' ≡ some (record h0 { out = h0.out ++ cs0 }))
              × (worker 1 ws' ≡ some (record h1 { out = h1.out ++ cs1 }))
              × ((q : ℕ) → q ≢ 0 → q ≢ 1 → worker q ws' ≡ worker q ws))
  cut_reads-echo_round short live codec compact micros_since polls inp out buf in_ne out_ne in_apart
        out_apart in_memory woken bytes dest enc n s d0 d1 h a mem ws h0 h1 v idle e there0 empty
        there1 small alloc quiet worker0 lives0 worker1 lives1 =
      let (s1, s', r0, r1, cs0, cs1, handled, sent0, ended0, ran, passed, ended1) =
        on_message-echo_round laws short live codec compact micros_since polls inp out buf in_ne
          out_ne in_apart out_apart in_memory woken bytes dest enc n s d0 d1 h a mem v idle e there0
          empty there1 small alloc in
      let wired : laws.queues.contents s'.kernel.out ≡ frames laws 0 cs0 ++ frames laws 1 cs1 =
        ended1.1
        ∙ ap (λ t. t ++ frames laws 1 cs1) (ended0.1 ∙ ap (λ t. t ++ frames laws 0 cs0) quiet) in
      let ws0 = send_each 0 cs0 ws in
      (
        s1,
        s',
        r0,
        r1,
        cs0,
        cs1,
        handled,
        ran,
        sent0,
        passed,
        ended0.0,
        ended1.0,
        λ reads same. (
          send_each 1 cs1 ws0,
          two_ports-delivered ws cs0 cs1 reads (same ∙ wired),
          send_each-other 1 cs1 ws0 0 (λ z. omega arith)
              ∙ send_each-same 0 cs0 ws h0 lives0 worker0,
          send_each-same 1 cs1 ws0 h1 lives1
              (send_each-other 0 cs0 ws 1 (λ z. omega arith) ∙ worker1),
          (λ q ne0 ne1. send_each-other 1 cs1 ws0 q ne1 ∙ send_each-other 0 cs0 ws q ne0),
        ),
      )
