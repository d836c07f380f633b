-- ===== src/Startup/Boot.antt =====
-- The state that `init` hands to the tasks.
use mathlib.Core.Option
use mathlib.Core.Path.{subst}
use pellegrino.Base.{
  ℕ, ◌≡◌, ◌≢◌, ◌⊎◌, [], Bool-cases, ◌==◌, false, inl, inr, refl, sym, ap, ◌∙◌, Option, none, some,
  some-inj, length, Outcome, done, panic, Returns, arith,
}
use pellegrino.Alloc.{
  AHeap, HeapBox, box_free_box, uninit, init_idle, busy_locked, size_bytes, try_lock, unlock,
  alloc_box,
}
use pellegrino.Alloc
use pellegrino.Alloc.Blocks.{Layout, FreeBox, free_box, count}
use pellegrino.Alloc.Cleaning.{Owners, gain, Ready}
use pellegrino.Alloc.Boxes.{alloc_box-Ready, Allocated, Ready-state}
use pellegrino.Syscall.{Sys, idle_bridge}
use pellegrino.Syscall.Crossing.{syscall_clear}
use pellegrino.UsbSerial.State.{Platform, PlatformLaws, UsbUartSys, acc_len, setup_usb_uart}
use pellegrino.UsbSerial.Receive.Owned.{IsOwned}
use pellegrino.UsbSerial.Accumulator
use pellegrino.UsbSerial.Steps.{Reach, start, Reach-IsOwned}
use pellegrino.Startup.{init}

other_port : (j : ℕ) → j ≢ 0 → (0 == j) ≡ false
other_port j other = elim (Bool-cases (0 == j)) [
  | inl same ↦ absurd (other (ground arith))
  | inr distinct ↦ distinct
]

module _ {p : Platform} (laws : PlatformLaws p) (t : Layout) where
  open laws use {crates}

  fresh-Ready :
      (addr : ℕ)
      → Ready crates
          (record {
            state = busy_locked;
            heap = some (p.crates.init addr size_bytes);
            queue = some p.crates.new;
          })
          (λ b. 0)
  unfolding count
  fresh-Ready addr = record {
    heap = p.crates.init addr size_bytes;
    queue = p.crates.new;
    has_heap = refl;
    has_queue = refl;
    fits = omega (arith, ap (length {A = FreeBox}) crates.contents-new);
    ledger =
        λ b. omega (arith, crates.held-init addr size_bytes b, ap (count b) crates.contents-new);
  }

  -- The driver as `setup_usb_uart` makes it, over any heap.
  abbrev driver : p.queues.Queue → p.queues.Queue → p.tables.Map → AHeap p.crates → UsbUartSys p
  driver inc out m h = record {
    out = out;
    inc = inc;
    acc = Accumulator.new acc_len;
    ports = m;
    heap = h;
  }

  -- Port zero is registered with an empty queue, and no other port is.
  abbrev pub HasPortZero : p.tables.Map → Type 0
  HasPortZero m =
      ((d : p.tables.Deque) × (p.tables.get m 0 ≡ some d) × (laws.tables.items d ≡ []))
      × ((j : ℕ) → j ≢ 0 → p.tables.get m j ≡ none)

  set_up :
      (inc out : p.queues.Queue)
      → (m : p.tables.Map) × HasPortZero m
        × ((h : AHeap p.crates)
            → setup_usb_uart p h (some inc) (some out) ≡ some (driver inc out m h))
  unfolding setup_usb_uart
  set_up inc out =
      let (m, inserted, more, gets) =
        laws.tables.inserts p.tables.new_map 0 p.tables.new_deque (laws.tables.get-new 0)
          (omega (arith, laws.tables.size-new)) in
      (
        m,
        (
          (p.tables.new_deque, gets 0, laws.tables.items-new),
          λ j other. gets j ∙ rw (other_port j other) (laws.tables.get-new j),
        ),
        λ h. rw (setup_usb_uart, inserted),
      )

  init-fresh :
      (addr : ℕ) (s : AHeap p.crates)
      → s.state ≡ uninit
      → (Alloc.init addr s).0 ≡ record {
        state = init_idle;
        heap = some (p.crates.init addr size_bytes);
        queue = some p.crates.new;
      }
  unfolding Alloc.init
  init-fresh addr s fresh = rw (Alloc.init, fresh)

  -- What the boot of the kernel leaves: the bridge is idle, the memory as it was, and the driver as it is
  -- set up: on the queues it was given, with no byte in its accumulator, and port zero alone, which is
  -- empty. The lock is free, and the driver's own box is the one block that has an owner.
  abbrev pub IsBooted :
      (inc out : p.queues.Queue) → Sys (AHeap p.crates) → Sys (UsbUartSys p) × ℕ → Type 0
  IsBooted inc out s (s', ptr) =
      (s'.bridge ≡ idle_bridge)
      × (s'.mem ≡ s.mem)
      × (s'.kernel.inc ≡ inc)
      × (s'.kernel.out ≡ out)
      × (s'.kernel.acc ≡ Accumulator.new acc_len)
      × HasPortZero s'.kernel.ports
      × IsOwned laws (gain (free_box ptr t) (λ b. 0)) s'.kernel

  unlock_idle : (g : AHeap p.crates) → (unlock g).state ≡ init_idle
  unfolding unlock
  unlock_idle g = refl

  unlock-Ready :
      (g : AHeap p.crates) {live : Owners} → Ready crates g live → Ready crates (unlock g) live
  unfolding unlock
  unlock-Ready g r = Ready-state crates g init_idle r

  -- The heap as `init` has it when it allocates the driver.
  abbrev pub locked : ℕ → AHeap p.crates
  locked addr = record {
    state = busy_locked;
    heap = some (p.crates.init addr size_bytes);
    queue = some p.crates.new;
  }

  init-boxed :
      (addr : ℕ) (inc out : p.queues.Queue) (s : Sys (AHeap p.crates))
      → s.kernel.state ≡ uninit
      → (m : p.tables.Map)
      → ((h : AHeap p.crates)
          → setup_usb_uart p h (some inc) (some out) ≡ some (driver inc out m h))
      → (g' : AHeap p.crates) (b : Option (HeapBox (UsbUartSys p)))
      → alloc_box t (driver inc out m (locked addr)) (locked addr) ≡ done (g', b)
      → init p t addr (some inc) (some out) s ≡ (elim b as (λ _. Outcome (Sys (UsbUartSys p) × ℕ)) [
        | none ↦ panic
        | some box ↦ done (
          record {
            mem = s.mem;
            bridge = idle_bridge;
            kernel = record box.value { heap = unlock g' };
          },
          box.ptr,
        )
      ])
  unfolding init syscall_clear try_lock
  init-boxed addr inc out s fresh m sets g' b e =
      rw (init, init-fresh addr s.kernel fresh, try_lock, sets (locked addr), e, syscall_clear)

  -- `init` from the static heap at reset, with both queues split: it panics only where the
  -- allocation of the driver from the new heap fails. Otherwise it returns: the bridge is idle, the
  -- memory as it was, the driver on these queues, with no byte in its accumulator and port zero alone
  -- registered, which is empty; the lock is free, and the driver's own box the one block that has an
  -- owner.
  pub init-IsBooted :
      (addr : ℕ) (inc out : p.queues.Queue) (s : Sys (AHeap p.crates))
      → s.kernel.state ≡ uninit
      → ((g' : AHeap p.crates) × (uart : UsbUartSys p) × (setup_usb_uart p
              (locked addr)
              (some inc)
              (some out)
            ≡ some uart)
          × (alloc_box t uart (locked addr) ≡ done (g', none))
          × (init p t addr (some inc) (some out) s ≡ panic))
        ⊎ Returns (IsBooted inc out s) (init p t addr (some inc) (some out) s)
  init-IsBooted addr inc out s fresh =
      let (m, zero_only, sets) = set_up inc out in
      let (g', b, e, got, value) =
        alloc_box-Ready crates t (driver inc out m (locked addr)) (fresh-Ready addr) in
      ends m zero_only sets g' b e got value (init-boxed addr inc out s fresh m sets g' b e)
    where
      ends :
          (m : p.tables.Map)
          → HasPortZero m
          → ((h : AHeap p.crates)
              → setup_usb_uart p h (some inc) (some out) ≡ some (driver inc out m h))
          → (g' : AHeap p.crates) (b : Option (HeapBox (UsbUartSys p)))
          → alloc_box t (driver inc out m (locked addr)) (locked addr) ≡ done (g', b)
          → Allocated crates (box_free_box t) (locked addr) (λ c. 0) g' b
          → Option.map (λ (x : HeapBox (UsbUartSys p)). x.value) b
            ≡ Option.map (λ (x : HeapBox (UsbUartSys p)). driver inc out m (locked addr)) b
          → init p t addr (some inc) (some out) s
            ≡ (elim b as (λ _. Outcome (Sys (UsbUartSys p) × ℕ)) [
              | none ↦ panic
              | some box ↦ done (
                record {
                  mem = s.mem;
                  bridge = idle_bridge;
                  kernel = record box.value { heap = unlock g' };
                },
                box.ptr,
              )
            ])
          → ((g' : AHeap p.crates) × (uart : UsbUartSys p) × (setup_usb_uart p
                  (locked addr)
                  (some inc)
                  (some out)
                ≡ some uart)
              × (alloc_box t uart (locked addr) ≡ done (g', none))
              × (init p t addr (some inc) (some out) s ≡ panic))
            ⊎ Returns (IsBooted inc out s) (init p t addr (some inc) (some out) s)
      ends m zero_only sets g' none e got value run =
          inl (g', driver inc out m (locked addr), sets (locked addr), e, run)
      ends m zero_only sets g' (some box) e (same, ready, clean) value run =
          let uart : UsbUartSys p = driver inc out m (unlock g') in
          let boot : record box.value { heap = unlock g' } ≡ uart =
            ap (λ (u : UsbUartSys p). record u { heap = unlock g' }) (some-inj value) in
          let reach : Reach (unlock g') uart =
            start uart (some inc) (some out) (sets (unlock g')) in
          let owned =
            Reach-IsOwned laws (gain (free_box box.ptr t) (λ c. 0)) (unlock g') uart
              (unlock_idle g') (unlock-Ready g' ready) reach in
          inr (
            subst (Returns (IsBooted inc out s))
              (ap (λ u. done (record { mem = s.mem; bridge = idle_bridge; kernel = u }, box.ptr))
                  (sym boot)
                ∙ sym run)
              (refl, refl, refl, refl, refl, zero_only, owned))
