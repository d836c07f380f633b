-- ===== src/Startup/Tests.antt =====
-- The start over stand-ins: a run, and the theorems at concrete states.
use pellegrino.Base.{
  ℕ, ◌≡◌, ◌⊎◌, refl, List, [], ◌∷◌, none, some, true, false, done, panic, Returns, arith,
}
use pellegrino.Alloc.{AHeap, uninit, alloc_box}
use pellegrino.Alloc.Blocks.{Layout}
use pellegrino.Alloc.Stand.{stand}
use pellegrino.Loader.{RawHeader, Memory, start_addr, end_addr, validate_header}
use pellegrino.Loader.Validate.{IsLoadable}
use pellegrino.Loader.Setup.{Out}
use pellegrino.Syscall.{Sys}
use pellegrino.UsbSerial.Stand.{stand_platform, stand_platform_laws}
use pellegrino.UsbSerial.State.{UsbUartSys, setup_usb_uart}
use pellegrino.Startup.{Cpu, idle, init}
use pellegrino.Startup.Boot.{locked, IsBooted, init-IsBooted}
use pellegrino.Startup.Launch.{idle-starts}

-- Twelve words of header: `.data` is empty, and the entry point is 0x2000_0031.
abbrev image : List ℕ
image =
    0 ∷ 0 ∷ 0 ∷ 0 ∷ 0 ∷ 0 ∷ 0 ∷ 0 ∷ 0 ∷ 0 ∷ 0 ∷ 0 ∷ 0 ∷ 0 ∷ 0 ∷ 0 ∷ 0x40 ∷ 0 ∷ 0 ∷ 0x20 ∷ 0x40 ∷ 0
    ∷ 0 ∷ 0x20 ∷ 0 ∷ 1 ∷ 0 ∷ 0x20 ∷ 0 ∷ 1 ∷ 0 ∷ 0x20 ∷ 0 ∷ 1 ∷ 0 ∷ 0x20 ∷ 0 ∷ 2 ∷ 0 ∷ 0x20 ∷ 0 ∷ 0
    ∷ 1 ∷ 0x20 ∷ 0x31 ∷ 0 ∷ 0 ∷ 0x20 ∷ []

abbrev flash : Memory
flash a = a

abbrev cpu_at_reset : Cpu
cpu_at_reset = record { unprivileged = false; uses_psp = false; psp = 0; branch = 0 }

idle-starts_example :
    ((validate_header image ≡ none) × (idle image 0x1000 flash cpu_at_reset ≡ panic))
    ⊎ ((hdr : RawHeader) × (validate_header image ≡ some hdr)
        × IsLoadable hdr
        × Returns
            (λ (r : Memory × Cpu).
              (r.1 ≡ record {
                unprivileged = true;
                uses_psp = true;
                psp = hdr.stack_start;
                branch = hdr.entry_point;
              })
              × ((a : ℕ) → Out a start_addr end_addr → r.0 a ≡ a))
            (idle image 0x1000 flash cpu_at_reset))
idle-starts_example = idle-starts image 0x1000 flash cpu_at_reset (omega arith)

abbrev at_reset : Sys (AHeap stand)
at_reset = record {
  mem = λ a. 0;
  bridge = record { in_ptr = 5; in_len = 6; out_ptr = 7; out_len = 8 };
  kernel = record { state = uninit; heap = none; queue = none };
}

abbrev driver_layout : Layout
driver_layout = record { size = 2048; align = 4 }

init-IsBooted_example :
    ((g' : AHeap stand) × (uart : UsbUartSys stand_platform) × (setup_usb_uart stand_platform
          (locked stand_platform_laws driver_layout 0x2003_0000)
          (some [])
          (some (5 ∷ []))
        ≡ some uart)
      × (alloc_box driver_layout uart (locked stand_platform_laws driver_layout 0x2003_0000)
          ≡ done (g', none))
      × (init stand_platform driver_layout 0x2003_0000 (some []) (some (5 ∷ [])) at_reset ≡ panic))
    ⊎ Returns
        (IsBooted stand_platform_laws driver_layout [] (5 ∷ []) at_reset)
        (init stand_platform driver_layout 0x2003_0000 (some []) (some (5 ∷ [])) at_reset)
init-IsBooted_example =
    init-IsBooted stand_platform_laws driver_layout 0x2003_0000 [] (5 ∷ []) at_reset refl
