-- ===== src/Startup.antt =====
-- The start of the kernel, firmware/kernel/src/main.rs: `init` up to the tasks' resources, and the task
-- `idle`, which starts the application. The clocks, timers and the USB bus are hardware set-up and are
-- left out; the task `svc` is in Syscall, and the task `usb_tick` is the `poll` of UsbSerial/Isr.
pub mod Boot
pub mod Launch
mod Tests
use pellegrino.Base.{
  ℕ, List, Option, none, some, Bool, true, length, Outcome, done, panic, and_then,
}
use pellegrino.Alloc.{AHeap, HeapBox, try_lock, unlock, alloc_box, leak}
use pellegrino.Alloc
use pellegrino.Alloc.Blocks.{Layout}
use pellegrino.Loader.{Memory, validate_header, oc_flash_setup}
use pellegrino.Syscall.{Sys}
use pellegrino.Syscall.Crossing.{syscall_clear}
use pellegrino.UsbSerial.State.{Platform, UsbUartSys, setup_usb_uart}

module _ (p : Platform) (t : Layout) where
  -- `init`, for a driver of layout `t`: the static heap at reset becomes the heap of the driver, beside
  -- which the address of the driver's box is given. The guard is dropped at the end.
  unfoldable pub init :
      (addr : ℕ)
      → (inc out : Option p.queues.Queue) → Sys (AHeap p.crates)
      → Outcome (Sys (UsbUartSys p) × ℕ)
  unfolding syscall_clear try_lock unlock
  init addr inc out s =
      let (h, is_ok) = Alloc.init addr s.kernel in
      let cleared : Sys (AHeap p.crates) = syscall_clear s in
      elim (try_lock h) [
        | none ↦ panic
        | some g ↦ elim (setup_usb_uart p g inc out) [
          | none ↦ panic
          | some uart ↦ and_then (alloc_box t uart g) (λ (g', b). elim b [
            | none ↦ panic
            | some box ↦
                let (ptr, leaked) = leak box in
                done (
                  record {
                    mem = cleared.mem;
                    bridge = cleared.bridge;
                    kernel = record leaked { heap = unlock g' };
                  },
                  ptr,
                )
          ])
        ]
      ]

-- What `letsago` sets: the two bits of CONTROL, PSP, and the address that is branched to.
pub record Cpu : Type 0 where
  pub unprivileged : Bool
  pub uses_psp : Bool
  pub psp : ℕ
  pub branch : ℕ

unfoldable pub letsago : (sp entry : ℕ) → Cpu → Cpu
letsago sp entry cpu = record { unprivileged = true; uses_psp = true; psp = sp; branch = entry }

-- `idle`, for the image that is built in, which lies at `app_ptr`.
unfoldable pub idle : List ℕ → (app_ptr : ℕ) → Memory → Cpu → Outcome (Memory × Cpu)
unfolding validate_header oc_flash_setup letsago
idle image app_ptr m cpu = elim (validate_header image) [
  | none ↦ panic
  | some rh ↦
      let (m', pws) = oc_flash_setup rh app_ptr (length image) m in
      done (m', letsago pws.stack_start pws.entry_point cpu)
]
