-- ===== src/PortEcho/Driver.antt =====
-- The application over the kernel's own driver: what waits for port zero goes out as frames for port one.
use mathlib.Core.Path.{subst}
use pellegrino.Base.{ℕ, refl, sym, ◌+◌, ◌<◌, ◌^◌, ◌≡◌, ◌≢◌, ◌∙◌, List, some, length, done, arith}
use pellegrino.Alloc.{init_idle}
use pellegrino.Alloc.Cleaning.{Owners, Ready}
use pellegrino.Syscall.{Postcard, PostcardLaws, idle_bridge, Sys}
use pellegrino.Syscall.Crossing.{buf_len}
use pellegrino.Syscall.Handler.{wait}
use pellegrino.Syscall.Transfers.{call}
use pellegrino.UsbSerial.State.{Platform, PlatformLaws, UsbUartSys}
use pellegrino.UsbSerial.Arrays.{owning}
use pellegrino.UsbSerial.Receive.{process, recv}
use pellegrino.UsbSerial.Receive.All.{stream, recv-all}
use pellegrino.UsbSerial.Send.{Sent, send}
use pellegrino.UsbSerial.Send.Chunks.{IsShort, Ended}
use pellegrino.UsbSerial.Send.Delivery.{send-Ended}
use pellegrino.UsbSerial.Device.{usb_serial, usb_serial-SerialLaws}
use pellegrino.PortEcho.{echo_len, echo_round}
use pellegrino.PortEcho.Wire.{IsCompact, Apart}
use pellegrino.PortEcho.Echoes.{Echo, echo_round-Echo}

module _ {p : Platform} (laws : PlatformLaws p) (short : IsShort laws) where
  open laws use {tables, crates}

  -- A receive for port zero into the application's array, and a send of these bytes to port one.
  abbrev pub Passed : (k k' : UsbUartSys p) (bytes : List ℕ) (r : Sent) → Type 0
  Passed k k' bytes r =
      (k2 : UsbUartSys p) × (recv p 0 echo_len k ≡ done (k2, some bytes))
      × (send 1 bytes k2 ≡ done (k', r))

  -- A round at the driver, with less than a buffer of bytes waiting for port zero.
  driver-Echo :
      (k k1 : UsbUartSys p) (dq d1 : p.tables.Deque) (live : Owners)
      → process p k ≡ done k1
      → p.tables.get k1.ports 0 ≡ some dq
      → p.tables.get k1.ports 1 ≡ some d1
      → length (stream (tables.items dq)) < echo_len
      → Ready crates k1.heap (owning (tables.items dq) live)
      → k1.heap.state ≡ init_idle
      → (k' : UsbUartSys p) × (r : Sent) × (chunks : List (List ℕ)) × Echo (usb_serial p) k k'
        × Passed k k' (stream (tables.items dq)) r
        × Ended laws 1 k1.out (stream (tables.items dq)) k'.out r chunks
  driver-Echo k k1 dq d1 live processed there there1 less ready idle =
      let bytes = stream (tables.items dq) in
      let (dq', h', run, empty, idle', ready') =
        recv-all laws 0 echo_len k k1 dq live processed there less ready idle in
      let k2 : UsbUartSys p = record k1 { ports = p.tables.put k1.ports 0 dq'; heap = h' } in
      let still : p.tables.get k2.ports 1 ≡ some d1 =
        tables.get-put k1.ports 0 1 dq dq' there ∙ there1 in
      let (out', r, chunks, sent, ended) =
        send-Ended laws 1 bytes k2 d1 short still (omega arith) in
      (
        record k2 { out = out' },
        r,
        chunks,
        (k2, some bytes, run, (r, sent)),
        (k2, run, sent),
        ended,
      )

  -- A round of the application over the kernel's driver, where the bridge is idle, both ports are
  -- registered, the lock is free, and less than 128 bytes wait for port zero once the incoming frames
  -- are processed. It returns with the bridge idle; these bytes, from their first on, are in the
  -- outgoing queue as frames for port one, in order, behind what was there, and what is left of them
  -- is what the driver gave back as unsent: the round is a `recv` and the `send` of what it gave.
  pub echo_round-Ended :
      {c : Postcard} (codec : PostcardLaws c) (compact : IsCompact c) (micros_since : ℕ → ℕ)
      (polls inp out buf : ℕ)
      → inp ≢ 0
      → out ≢ 0
      → Apart buf echo_len inp buf_len
      → Apart buf echo_len out buf_len
      → buf + echo_len < 2 ^ 32
      → wait micros_since polls 0 10_000 ≡ done tt
      → (s : Sys (UsbUartSys p)) (k1 : UsbUartSys p) (dq d1 : p.tables.Deque) (live : Owners)
      → s.bridge ≡ idle_bridge
      → process p s.kernel ≡ done k1
      → p.tables.get k1.ports 0 ≡ some dq
      → p.tables.get k1.ports 1 ≡ some d1
      → length (stream (tables.items dq)) < echo_len
      → Ready crates k1.heap (owning (tables.items dq) live)
      → k1.heap.state ≡ init_idle
      → (s' : Sys (UsbUartSys p)) × (r : Sent) × (chunks : List (List ℕ)) × (echo_round
            (call c (usb_serial p) micros_since polls inp out)
            buf
            s
          ≡ done s')
        × (s'.bridge ≡ idle_bridge)
        × Passed s.kernel s'.kernel (stream (tables.items dq)) r
        × Ended laws 1 k1.out (stream (tables.items dq)) s'.kernel.out r chunks
  echo_round-Ended codec compact micros_since polls inp out buf in_ne out_ne in_apart out_apart
        in_memory woken s k1 dq d1 live bridge processed there there1 less ready idle =
      let (k', r, chunks, echo, passed, ended) =
        driver-Echo s.kernel k1 dq d1 live processed there there1 less ready idle in
      let (s', run, (bridge', kernel')) =
        echo_round-Echo codec compact (usb_serial-SerialLaws p) micros_since polls inp out buf in_ne
          out_ne in_apart out_apart in_memory s s.kernel k' woken (bridge, refl) echo in
      let same = λ (x : UsbUartSys p).
        Passed s.kernel x (stream (tables.items dq)) r
        × Ended laws 1 k1.out (stream (tables.items dq)) x.out r chunks in
      let (passed', ended') = subst same (sym kernel') (passed, ended) in
      (s', r, chunks, run, bridge', passed', ended')
