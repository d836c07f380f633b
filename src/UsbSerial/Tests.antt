-- ===== src/UsbSerial/Tests.antt =====
-- The driver over stand-ins for its crates: the theorems at concrete states.
use pellegrino.Base.{ℕ, ◌≡◌, refl, arith, List, [], ◌∷◌, none, some, done}
use pellegrino.UsbSerial.Accumulator
use pellegrino.UsbSerial.State.{UsbUartSys, acc_len}
use native.Mathlib.Decide.{dec_le}
use pellegrino.UsbSerial.Stand.Ports.{ArrayQueue, PortMap, port_tables, slot, set_slot, map_of}
use pellegrino.UsbSerial.State.{setup_usb_uart}
use pellegrino.UsbSerial.Steps.{Reach, start, Reach-IsOwned}
use pellegrino.UsbSerial.Receive.Owned.{IsOwned}
use pellegrino.UsbSerial.Stand.{read_all, stand_platform, stand_platform_laws}
use pellegrino.Alloc.{AHeap, HeapArray, init_idle, array_free_box}
use pellegrino.Alloc.Blocks.{FreeBox, count}
use pellegrino.Alloc.Cleaning.{Owners, Ready}
use pellegrino.Alloc.Stand.{stand, stand_laws}
use pellegrino.UsbSerial.State.{byte}
use pellegrino.UsbSerial.Receive.{alloc_copy, on_message, process, recv}
use pellegrino.UsbSerial.Receive.Ends.{Processed, Emptied, UsbUartSys-Ends}
use pellegrino.UsbSerial.Receive.Arrivals.{OthersKeep, on_message-recv}
use pellegrino.Sportty.{encode_to}
use pellegrino.Base.{Ends}
use pellegrino.Alloc.{alloc_box_array, try_lock, unlock}
use pellegrino.Alloc.Stand.{list_dequeue, bump_allocate}
use pellegrino.UsbSerial.Accumulator.Refine.{new-IsValid}
use pellegrino.UsbSerial.Receive.All.{recv-all}
use pellegrino.UsbSerial.Arrays.{owning}
use pellegrino.UsbSerial.Send.{Sent, send}
use pellegrino.UsbSerial.Send.Chunks.{IsShort, Ended}
use pellegrino.UsbSerial.Send.Delivery.{send-Ended}

abbrev no_arrays : ArrayQueue
no_arrays = record { arrays = []; few = omega arith }

abbrev heap_with : List FreeBox → AHeap stand
heap_with blocks = record {
  state = init_idle;
  heap = some (record { blocks = blocks; next = 0x2003_0002; limit = 0x2004_0000 });
  queue = some [];
}

abbrev driver : UsbUartSys stand_platform
driver = record {
  out = [];
  inc = [];
  acc = Accumulator.new acc_len;
  ports = record { slots = some no_arrays ∷ []; few = omega arith };
  heap = heap_with [];
}

heap_with-Ready :
    (bs : List FreeBox) (live : Owners)
    → ((b : FreeBox) → count b bs ≡ live b)
    → Ready stand_laws (heap_with bs) live
unfolding count
heap_with-Ready bs live same = record {
  heap = record { blocks = bs; next = 0x2003_0002; limit = 0x2004_0000 };
  queue = [];
  has_heap = refl;
  has_queue = refl;
  fits = omega arith;
  ledger = λ b. omega (arith, same b);
}

-- A message of two bytes waits for port one.
abbrev waiting : HeapArray ℕ
waiting = record { count = 2; ptr = 0x2003_0000; elems = 7 ∷ 8 ∷ [] }

abbrev one_array : ArrayQueue
one_array = record { arrays = waiting ∷ []; few = omega arith }

abbrev driver_1 : UsbUartSys stand_platform
driver_1 = record driver {
  ports = record { slots = some no_arrays ∷ some one_array ∷ []; few = omega arith };
  heap = heap_with (array_free_box byte waiting ∷ []);
}

driver_1-Ready : Ready stand_laws driver_1.heap (owning (waiting ∷ []) (λ b. 0))
unfolding count
driver_1-Ready =
    heap_with-Ready (array_free_box byte waiting ∷ []) (owning (waiting ∷ []) (λ b. 0)) (λ b. refl)

length-lift_le : IsShort stand_platform_laws
length-lift_le xs h = omega (arith, stand_platform_laws.cobs.length-encoded xs)

send-Ended_example :
    (out' : List ℕ) × (r : Sent) × (chunks : List (List ℕ)) × (send 0 (7 ∷ 8 ∷ 9 ∷ []) driver
      ≡ done (record driver { out = out' }, r))
    × Ended stand_platform_laws 0 [] (7 ∷ 8 ∷ 9 ∷ []) out' r chunks
unfolding slot
send-Ended_example =
    send-Ended stand_platform_laws 0 (7 ∷ 8 ∷ 9 ∷ []) driver no_arrays length-lift_le refl
      (omega arith)

recv-all_example :
    (dq' : ArrayQueue) × (h' : AHeap stand) × (recv stand_platform 1 10 driver_1
      ≡ done (
        record driver_1 { ports = stand_platform.tables.put driver_1.ports 1 dq'; heap = h' },
        some (7 ∷ 8 ∷ []),
      ))
    × (dq'.arrays ≡ [])
    × (h'.state ≡ init_idle)
    × Ready stand_laws h' (λ b. 0)
unfolding process read_all slot
recv-all_example =
    recv-all stand_platform_laws 1 10 driver_1 driver_1 one_array (λ b. 0) refl refl (omega arith)
      driver_1-Ready refl

-- The driver as it is set up.
abbrev ports_at_start : PortMap
ports_at_start = elim (map_of (set_slot 0 (some no_arrays) [])) [
  | none ↦ port_tables.new_map
  | some m ↦ m
]

abbrev driver_at_start : UsbUartSys stand_platform
driver_at_start = record driver { ports = ports_at_start }

driver_at_start-Reach : Reach (heap_with []) driver_at_start
unfolding setup_usb_uart map_of set_slot dec_le
driver_at_start-Reach = start driver_at_start (some []) (some []) refl

Reach-IsOwned_example : IsOwned stand_platform_laws (λ b. 0) driver_at_start
unfolding count
Reach-IsOwned_example =
    Reach-IsOwned stand_platform_laws (λ b. 0) (heap_with []) driver_at_start refl
      (heap_with-Ready [] (λ b. 0) (λ b. refl)) driver_at_start-Reach

-- Port one is empty here, and the heap has room.
abbrev driver_2 : UsbUartSys stand_platform
driver_2 = record driver {
  ports = record { slots = some no_arrays ∷ some no_arrays ∷ []; few = omega arith };
}

driver_2-IsOwned : IsOwned stand_platform_laws (λ b. 0) driver_2
unfolding count
driver_2-IsOwned = (refl, heap_with-Ready [] (λ b. 0) (λ b. refl))

UsbUartSys-Ends_example :
    let s = record driver_2 { inc = 2 ∷ 1 ∷ 8 ∷ 0 ∷ 3 ∷ [] } in
    Ends (Processed stand_platform_laws (λ b. 0)) (process stand_platform s)
    × ((port buflen : ℕ)
        → Ends (Emptied stand_platform_laws (λ b. 0)) (recv stand_platform port buflen s))
    × ((port : ℕ) (buf : List ℕ)
        → Ends
            (λ (r : UsbUartSys stand_platform × Sent). r.0.inc ≡ 2 ∷ 1 ∷ 8 ∷ 0 ∷ 3 ∷ [])
            (send port buf s))
UsbUartSys-Ends_example =
    UsbUartSys-Ends stand_platform_laws (λ b. 0) (record driver_2 { inc = 2 ∷ 1 ∷ 8 ∷ 0 ∷ 3 ∷ [] })
      driver_2-IsOwned (new-IsValid acc_len) (omega arith)

-- The message `7, 8` for port one, as it is framed.
abbrev framed : List ℕ
framed = 2 ∷ 1 ∷ 8 ∷ 9 ∷ 0 ∷ []

abbrev copied : HeapArray ℕ
copied = record { count = 2; ptr = 0x2003_0002; elems = 7 ∷ 8 ∷ [] }

abbrev heap_copied : AHeap stand
heap_copied = record {
  state = init_idle;
  heap = some (record {
    blocks = array_free_box byte copied ∷ [];
    next = 0x2003_0004;
    limit = 0x2004_0000;
  });
  queue = some [];
}

copies_bytes :
    alloc_copy stand_platform (7 ∷ 8 ∷ []) driver_2.heap ≡ done (heap_copied, some copied)
unfolding alloc_copy alloc_box_array try_lock unlock list_dequeue bump_allocate
copies_bytes = refl

on_message-recv_example :
    (s1 s2 : UsbUartSys stand_platform) × (on_message stand_platform driver_2 framed ≡ done s1)
    × (recv stand_platform 1 10 s1 ≡ done (s2, some (7 ∷ 8 ∷ [])))
    × OthersKeep stand_platform_laws (λ b. 0) 1 driver_2 s2
    × IsOwned stand_platform_laws (λ b. 0) s2
unfolding slot read_all
on_message-recv_example =
    on_message-recv stand_platform_laws (λ b. 0) (record { port = 1; bytes = 7 ∷ 8 ∷ [] })
      (0 ∷ 0 ∷ 0 ∷ 0 ∷ 0 ∷ 0 ∷ []) (2 ∷ 1 ∷ 8 ∷ 9 ∷ 0 ∷ 0 ∷ []) 5 10 driver_2 no_arrays heap_copied
      copied driver_2-IsOwned refl (omega arith) (λ e. omega arith) (unfold encode_to in refl) refl
      (omega arith) copies_bytes (omega arith)
