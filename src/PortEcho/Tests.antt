-- ===== src/PortEcho/Tests.antt =====
-- The application over a driver that takes two bytes at a time.
use pellegrino.Base.{
  ℕ, zero, suc, ◌<◌, ◌≡◌, inr, refl, sym, ap, arith, List, [], ◌∷◌, ◌++◌, none, some, length, take,
  drop, length-take, ◌==◌, if◌then◌else◌, done, done-inj, some-inj,
}
use pellegrino.Syscall.{
  SysCallRequest, serial_open_port, serial_receive, serial_send, sleep_micros, SysCallSuccess,
  port_opened, data_received, data_sent, slept_micros, idle_bridge, Sys,
}
use pellegrino.Syscall.Handler.{Serial, SerialLaws, wait}
use pellegrino.Syscall.Stand.{word_card, word_card_laws}
use pellegrino.Syscall.Transfers.{call}
use pellegrino.UsbSerial.Send.{Sent, unsent, send}
use pellegrino.PortEcho.{echo_len, echo_round, entry}
use pellegrino.Base.{◌≢◌}
use pellegrino.Crowtty.{Workers}
use pellegrino.Crowtty.Worker.{new_handle}
use pellegrino.Crowtty.Cut.Reads.{cut_reads}
use pellegrino.Crowtty.Delivery.{worker}
use pellegrino.Crowtty.Delivery.Echo.{cut_reads-echo_round}
use pellegrino.Sportty.Shift.{shift}
use pellegrino.UsbSerial.Send.Chunks.{joined, left}
use pellegrino.Sportty.{encode_to}
use pellegrino.Alloc.{try_lock, unlock, alloc_box_array}
use pellegrino.Alloc.Stand.{list_dequeue, bump_allocate}
use pellegrino.UsbSerial.Receive.{alloc_copy, on_message, recv}
use pellegrino.UsbSerial.Receive.Owned.{IsOwned}
use pellegrino.Alloc.{HeapArray, init_idle, array_free_box}
use pellegrino.Alloc.Blocks.{count}
use pellegrino.UsbSerial.Accumulator
use pellegrino.UsbSerial.State.{UsbUartSys, acc_len, byte}
use pellegrino.UsbSerial.Stand.{read_all, stand_platform, stand_platform_laws}
use pellegrino.UsbSerial.Stand.Ports.{slot}
use pellegrino.UsbSerial.Device.{usb_serial}
use pellegrino.UsbSerial.Send.Chunks.{IsShort}
use pellegrino.PortEcho.Wire.{IsCompact}
use pellegrino.PortEcho.Echoes.{Echo, entry-Echo}

-- What waits for port zero, and what was sent.
abbrev two_bytes : Serial
two_bytes = record {
  State = List ℕ × List ℕ;
  register_port = λ port s. if port == 1 then some s else none;
  release_port = λ port s. done none;
  process = λ s. done s;
  recv = λ port n (inc, out). done ((drop n inc, out), some (take n inc));
  send = λ port buf (inc, out). done ((inc, out ++ take 2 buf), unsent (drop 2 buf));
}

unsent-inj : {a b : List ℕ} → unsent a ≡ unsent b → a ≡ b
unsent-inj e = cc

two_bytes_laws : SerialLaws two_bytes
two_bytes_laws = record {
  recv-within = λ port n s s' bs e.
      let same : take n s.0 ≡ bs = some-inj (ap (λ r. r.1) (done-inj e)) in
      omega (arith, length-take n s.0, ap length same);
  send-suffix = λ port buf s s' rest e. (2, sym (unsent-inj (ap (λ r. r.1) (done-inj e))));
}

compact_request :
    (r : SysCallRequest) → (bs : List ℕ) × (word_card.request_to_slice r 128 ≡ some bs)
compact_request (serial_open_port port) = (0 ∷ port ∷ [], refl)
compact_request (serial_receive port d) = (1 ∷ port ∷ d.ptr ∷ d.len ∷ [], refl)
compact_request (serial_send port d) = (2 ∷ port ∷ d.ptr ∷ d.len ∷ [], refl)
compact_request (sleep_micros us) = (3 ∷ us ∷ [], refl)

compact_success :
    (r : SysCallSuccess) → (bs : List ℕ) × (word_card.success_to_slice r 128 ≡ some bs)
compact_success port_opened = (0 ∷ [], refl)
compact_success (data_received d) = (1 ∷ d.ptr ∷ d.len ∷ [], refl)
compact_success (data_sent none) = (2 ∷ [], refl)
compact_success (data_sent (some d)) = (2 ∷ d.ptr ∷ d.len ∷ [], refl)
compact_success (slept_micros us) = (3 ∷ us ∷ [], refl)

word_card-IsCompact : IsCompact word_card
word_card-IsCompact = record {
  request = λ r h. compact_request r;
  success = λ r h. compact_success r;
}

abbrev at_start : Sys (List ℕ × List ℕ)
at_start = record { mem = λ a. a; bridge = idle_bridge; kernel = (7 ∷ 8 ∷ 9 ∷ [], []) }

-- Of three bytes the first two are sent on, and the third is lost.
abbrev drivers : ℕ → List ℕ × List ℕ
drivers zero = (7 ∷ 8 ∷ 9 ∷ [], [])
drivers (suc i) = ([], 7 ∷ 8 ∷ [])

drivers-Echo : (i : ℕ) → i < 2 → Echo two_bytes (drivers i) (drivers (suc i))
drivers-Echo zero h = (([], []), some (7 ∷ 8 ∷ 9 ∷ []), refl, (unsent (9 ∷ []), refl))
drivers-Echo (suc zero) h = (([], 7 ∷ 8 ∷ []), some [], refl, (unsent [], refl))
drivers-Echo (suc (suc i)) h = absurd (omega arith)

entry-Echo_example :
    (s' : Sys (List ℕ × List ℕ)) × (entry
        (call word_card two_bytes (λ i. 10_001) 1 1000 2000)
        3000
        2
        at_start
      ≡ done s')
    × ((s'.bridge ≡ idle_bridge) × (s'.kernel ≡ ([], 7 ∷ 8 ∷ [])))
entry-Echo_example =
    entry-Echo word_card_laws word_card-IsCompact two_bytes_laws (λ i. 10_001) 1 1000 2000 3000
      (λ e. omega arith) (λ e. omega arith) (inr (omega arith)) (inr (omega arith)) (omega arith) 2
      at_start drivers (unfold wait in refl) refl refl drivers-Echo

-- The kernel's driver: a message of two bytes waits for port zero, and port one is empty.
abbrev waiting : HeapArray ℕ
waiting = record { count = 2; ptr = 0x2003_0000; elems = 7 ∷ 8 ∷ [] }

abbrev kernel_driver : UsbUartSys stand_platform
kernel_driver = record {
  out = [];
  inc = [];
  acc = Accumulator.new acc_len;
  ports = record {
    slots =
        some (record { arrays = waiting ∷ []; few = omega arith })
        ∷ some (record { arrays = []; few = omega arith })
        ∷ [];
    few = omega arith;
  };
  heap = record {
    state = init_idle;
    heap = some (record {
      blocks = array_free_box byte waiting ∷ [];
      next = 0x2003_0002;
      limit = 0x2004_0000;
    });
    queue = some [];
  };
}

length-lift_le : IsShort stand_platform_laws
length-lift_le xs h = omega (arith, stand_platform_laws.cobs.length-encoded xs)

-- Both ports are empty, and the message `7, 8` comes in for port zero.
abbrev empty_driver : UsbUartSys stand_platform
empty_driver = record kernel_driver {
  ports = record {
    slots =
        some (record { arrays = []; few = omega arith })
        ∷ some (record { arrays = []; few = omega arith })
        ∷ [];
    few = omega arith;
  };
  heap = record {
    state = init_idle;
    heap = some (record { blocks = []; next = 0x2003_0000; limit = 0x2004_0000 });
    queue = some [];
  };
}

empty_driver-IsOwned : IsOwned stand_platform_laws (λ b. 0) empty_driver
unfolding count
empty_driver-IsOwned = (
  refl,
  record {
    heap = record { blocks = []; next = 0x2003_0000; limit = 0x2004_0000 };
    queue = [];
    has_heap = refl;
    has_queue = refl;
    fits = omega arith;
    ledger = λ b. omega arith;
  },
)

copies_bytes :
    alloc_copy stand_platform (7 ∷ 8 ∷ []) empty_driver.heap
    ≡ done (kernel_driver.heap, some waiting)
unfolding alloc_copy alloc_box_array try_lock unlock list_dequeue bump_allocate
copies_bytes = refl

-- The host has workers for both ports.
abbrev host_workers : Workers
host_workers = (0, new_handle) ∷ (1, new_handle) ∷ []

cut_reads-echo_round_example :
    (s1 : UsbUartSys stand_platform) × (s' : Sys (UsbUartSys stand_platform)) × (r0 r1 : Sent)
    × (cs0 cs1 : List (List ℕ)) × (on_message stand_platform empty_driver (1 ∷ 1 ∷ 8 ∷ 9 ∷ 0 ∷ [])
        ≡ done s1)
    × (echo_round
          (call word_card (usb_serial stand_platform) (λ i. 10_001) 1 1000 2000)
          3000
          (record { mem = λ a. a; bridge = idle_bridge; kernel = s1 })
        ≡ done s')
    × (send 0 (7 ∷ 8 ∷ []) empty_driver ≡ done (record empty_driver { out = s1.out }, r0))
    × ((k2 : UsbUartSys stand_platform) × (recv stand_platform 0 echo_len s1
          ≡ done (k2, some (7 ∷ 8 ∷ [])))
        × (send 1 (7 ∷ 8 ∷ []) k2 ≡ done (s'.kernel, r1)))
    × (7 ∷ 8 ∷ [] ≡ joined cs0 ++ left r0)
    × (7 ∷ 8 ∷ [] ≡ joined cs1 ++ left r1)
    × ((reads : List (List ℕ))
        → joined reads ≡ s'.kernel.out
        → (ws' : Workers) × (cut_reads shift host_workers [] reads ≡ done (ws', []))
          × (worker 0 ws' ≡ some (record new_handle { out = cs0 }))
          × (worker 1 ws' ≡ some (record new_handle { out = cs1 }))
          × ((q : ℕ) → q ≢ 0 → q ≢ 1 → worker q ws' ≡ worker q host_workers))
unfolding read_all slot worker
cut_reads-echo_round_example =
    cut_reads-echo_round stand_platform_laws length-lift_le (λ b. 0) word_card_laws
      word_card-IsCompact (λ i. 10_001) 1 1000 2000 3000 (λ e. omega arith) (λ e. omega arith)
      (inr (omega arith)) (inr (omega arith)) (omega arith) (unfold wait in refl) (7 ∷ 8 ∷ [])
      (0 ∷ 0 ∷ 0 ∷ 0 ∷ 0 ∷ 0 ∷ []) (1 ∷ 1 ∷ 8 ∷ 9 ∷ 0 ∷ 0 ∷ []) 5 empty_driver
      (record { arrays = []; few = omega arith }) (record { arrays = []; few = omega arith })
      kernel_driver.heap waiting (λ a. a) host_workers new_handle new_handle empty_driver-IsOwned
      refl (unfold encode_to in refl) refl refl refl (omega arith) copies_bytes refl refl refl refl
      refl
