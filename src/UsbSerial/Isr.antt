-- ===== src/UsbSerial/Isr.antt =====
-- `UsbUartIsr::poll` of the driver: the interrupt's ends of the two queues, and the serial port of the
-- USB device, of the crates `usb-device` and `usbd-serial`, which the repository does not hold.
pub mod Moves
mod Tests
use pellegrino.Base.{
  ℕ, ◌≤◌, ◌≡◌, List, ◌++◌, Option, none, some, ltb, if◌then◌else◌, length, take, Outcome, done,
  panic, and_then,
}
use pellegrino.UsbSerial.External.{BbQueue, Grant, granted, insufficient_size, grant_error}

-- `Ok(n)`, `Err(WouldBlock)`, and another error.
pub data UsbResult : Type 0 where
  moved : ℕ → UsbResult
  would_block : UsbResult
  usb_error : UsbResult

-- `read` gives the buffer as it is written.
pub record UsbPort : Type 1 where
  pub State : Type 0
  pub poll : State → State
  pub write : List ℕ → State → State × UsbResult
  pub read : List ℕ → State → State × (List ℕ × UsbResult)

pub record UsbPortLaws (u : UsbPort) : Type 0 where
  -- the bytes taken for the host, and those of the host that wait to be read
  pub taken : u.State → List ℕ
  pub waiting : u.State → List ℕ
  pub taken-poll : (s : u.State) → taken (u.poll s) ≡ taken s
  pub waiting-poll : (s : u.State) → (new : List ℕ) × (waiting (u.poll s) ≡ waiting s ++ new)
  pub waiting-write : (s : u.State) (bs : List ℕ) → waiting (u.write bs s).0 ≡ waiting s
  pub taken-moved :
      (s : u.State) (bs : List ℕ) (n : ℕ)
      → (u.write bs s).1 ≡ moved n
      → (n ≤ length bs) × (taken (u.write bs s).0 ≡ taken s ++ take n bs)
  pub taken-blocked :
      (s : u.State) (bs : List ℕ)
      → (u.write bs s).1 ≡ would_block
      → taken (u.write bs s).0 ≡ taken s
  pub taken-read : (s : u.State) (w : List ℕ) → taken (u.read w s).0 ≡ taken s
  pub waiting-moved :
      (s : u.State) (w : List ℕ) (n : ℕ)
      → (u.read w s).1.1 ≡ moved n
      → (n ≤ length w)
        × (length (u.read w s).1.0 ≡ length w)
        × (waiting s ≡ take n (u.read w s).1.0 ++ waiting (u.read w s).0)
  pub waiting-blocked :
      (s : u.State) (w : List ℕ)
      → (u.read w s).1.1 ≡ would_block
      → waiting (u.read w s).0 ≡ waiting s

pub record UsbUartIsr (b : BbQueue) (u : UsbPort) : Type 0 where
  pub ser : u.State
  pub out : b.Queue
  pub inc : b.Queue

module _ {b : BbQueue} {u : UsbPort} where
  -- If there are data to be sent.
  unfoldable pub written : UsbUartIsr b u → List ℕ → u.State → UsbResult → Outcome (UsbUartIsr b u)
  written s rgr ser (moved sz) =
      if ltb 0 sz
      then done (record s { ser = ser; out = b.release s.out sz })
      else done (record s { ser = ser })
  written s rgr ser would_block = done (record s { ser = ser })
  written s rgr ser usb_error = panic

  unfoldable pub send_out : UsbUartIsr b u → Outcome (UsbUartIsr b u)
  unfolding written
  send_out s = elim (b.read s.out) [
    | none ↦ done s
    | some rgr ↦ written s rgr (u.write rgr s.ser).0 (u.write rgr s.ser).1
  ]

  -- If there is room to receive data.
  unfoldable pub filled : UsbUartIsr b u → List ℕ → u.State → UsbResult → Outcome (UsbUartIsr b u)
  filled s wgr ser (moved sz) =
      if ltb 0 sz
      then done (record s { ser = ser; inc = b.commit s.inc wgr sz })
      else done (record s { ser = ser })
  filled s wgr ser would_block = done (record s { ser = ser })
  filled s wgr ser usb_error = panic

  unfoldable pub take_in : UsbUartIsr b u → Grant → Outcome (UsbUartIsr b u)
  unfolding filled
  take_in s insufficient_size = done s
  take_in s grant_error = done s
  take_in s (granted wgr) = let got = u.read wgr s.ser in filled s got.1.0 got.0 got.1.1

  unfoldable pub poll : UsbUartIsr b u → Outcome (UsbUartIsr b u)
  unfolding send_out take_in
  poll s =
      and_then (send_out (record s { ser = u.poll s.ser }))
        (λ s'. take_in s' (b.grant_max_remaining s'.inc 128))
