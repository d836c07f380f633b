-- ===== src/Crowtty/Tests.antt =====
-- The host tool over stand-ins: a run, and the theorems at concrete states.
use pellegrino.Base.{
  ℕ, splice, length-replicate, ◌≡◌, ◌≢◌, ◌⊎◌, refl, List, [], ◌∷◌, ◌++◌, none, some, true,
  replicate, done, panic, Returns, arith,
}
use pellegrino.Alloc.{
  AHeap, HeapArray, init_idle, array_free_box, try_lock, unlock, alloc_box_array,
}
use pellegrino.Alloc.Stand.{stand, list_dequeue, bump_allocate}
use pellegrino.Sportty.Shift.{shift, shift_laws, shift-length-encoded}
use pellegrino.UsbSerial.Accumulator
use pellegrino.UsbSerial.Accumulator.Drain.{drain}
use pellegrino.UsbSerial.Accumulator.{Accumulator}
use pellegrino.UsbSerial.Receive.{alloc_copy, on_message}
use pellegrino.UsbSerial.Send.{Sent, send}
use pellegrino.UsbSerial.Send.Chunks.{joined, left, IsPartial}
use pellegrino.UsbSerial.Stand.{stand_platform, stand_platform_laws}
use pellegrino.UsbSerial.Stand.Ports.{slot}
use pellegrino.UsbSerial.State.{UsbUartSys, acc_len, byte}
use pellegrino.Sportty.{encode_to}
use pellegrino.Crowtty.{Workers, start_workers, cut, Host, send_all, round}
use pellegrino.Crowtty.Worker.{new_handle, read_error}
use pellegrino.Crowtty.Stand.{pipe, pipe_laws}
use pellegrino.Crowtty.Cut.Reads.{cut_reads, cut_reads-joined}
use pellegrino.Crowtty.Delivery.{worker, cut_reads-send}
use pellegrino.Sportty.Encode.{AddsOne}
use pellegrino.Crowtty.Outgoing.{firsts, without_firsts}
use pellegrino.Crowtty.Arrival.Queues.{Queued, send_all-Queued}
use pellegrino.Crowtty.Sound.{StaysSound}
use pellegrino.Crowtty.Steps.{start, Reach-round}

abbrev two_workers : Workers
two_workers = (0, new_handle) ∷ (1, new_handle) ∷ []

-- The frame of the byte 7 for port one, in two reads, and the start of another.
cut_reads-joined_example :
    cut_reads shift two_workers [] ((2 ∷ 1 ∷ []) ∷ (8 ∷ 0 ∷ 3 ∷ []) ∷ [])
    ≡ cut shift two_workers (2 ∷ 1 ∷ 8 ∷ 0 ∷ 3 ∷ [])
cut_reads-joined_example =
    cut_reads-joined shift_laws two_workers [] ((2 ∷ 1 ∷ []) ∷ (8 ∷ 0 ∷ 3 ∷ []) ∷ []) tt

length-lift_le : AddsOne shift_laws
length-lift_le xs h = omega (arith, shift-length-encoded xs)

abbrev driver : UsbUartSys stand_platform
driver = record {
  out = [];
  inc = [];
  acc = Accumulator.new acc_len;
  ports = record {
    slots = some (record { arrays = []; few = omega arith }) ∷ [];
    few = omega arith;
  };
  heap = record { state = init_idle; heap = none; queue = none };
}

cut_reads-send_example :
    (out' : List ℕ) × (r : Sent) × (chunks : List (List ℕ)) × (send 0 (7 ∷ 8 ∷ []) driver
      ≡ done (record driver { out = out' }, r))
    × (7 ∷ 8 ∷ [] ≡ joined chunks ++ left r)
    × IsPartial r
    × ((reads : List (List ℕ))
        → joined reads ≡ out'
        → (ws' : Workers) × (cut_reads shift two_workers [] reads ≡ done (ws', []))
          × (worker 0 ws' ≡ some (record new_handle { out = chunks }))
          × ((q : ℕ) → q ≢ 0 → worker q ws' ≡ worker q two_workers))
unfolding slot worker
cut_reads-send_example =
    cut_reads-send stand_platform_laws 0 (7 ∷ 8 ∷ []) driver
      (record { arrays = []; few = omega arith }) two_workers new_handle length-lift_le
      (omega arith) refl refl (omega arith) refl refl

-- Worker one has a message.
abbrev with_message : Workers
with_message = (0, new_handle) ∷ (1, record new_handle { inp = (7 ∷ []) ∷ [] }) ∷ []

Reach-round_example :
    let h : Host shift pipe = record {
      carry = [];
      workers = two_workers;
      port = ([], 2 ∷ 1 ∷ []);
    } in
    ((port : List ℕ × List ℕ) × (buf : List ℕ) × ((pipe.read port buf).0 ≡ read_error)
      × (round shift pipe h ≡ panic))
    ⊎ Returns (StaysSound shift_laws pipe_laws) (round shift pipe h)
unfolding start_workers
Reach-round_example =
    Reach-round shift_laws pipe_laws length-lift_le {socket = pipe} pipe_laws
      (record { carry = []; workers = two_workers; port = ([], 2 ∷ 1 ∷ []) })
      (start (λ i. true) two_workers ([], 2 ∷ 1 ∷ []) refl)

abbrev buffer_after : List ℕ
buffer_after = splice (replicate 256 0) 0 (2 ∷ 1 ∷ 8 ∷ 0 ∷ [])

sends :
    send_all shift pipe with_message (replicate 256 0) ([], [])
    ≡ done (some (two_workers, (buffer_after, (2 ∷ 1 ∷ 8 ∷ 0 ∷ [], []))))
unfolding send_all encode_to
sends = refl

-- Ports zero and one, and a heap with room.
abbrev roomy_driver : UsbUartSys stand_platform
roomy_driver = record driver {
  ports = record {
    slots =
        some (record { arrays = []; few = omega arith })
        ∷ some (record { arrays = []; few = omega arith })
        ∷ [];
    few = omega arith;
  };
  heap = record {
    state = init_idle;
    heap = some (record { blocks = []; next = 0x2003_0000; limit = 0x2004_0000 });
    queue = some [];
  };
}

abbrev copy_of_seven : HeapArray ℕ
copy_of_seven = record { ptr = 0x2003_0000; elems = 7 ∷ []; count = 1 }

abbrev heap_after : AHeap stand
heap_after = record {
  state = init_idle;
  heap = some (record {
    blocks = array_free_box byte copy_of_seven ∷ [];
    next = 0x2003_0001;
    limit = 0x2004_0000;
  });
  queue = some [];
}

copies_seven :
    alloc_copy stand_platform (7 ∷ []) roomy_driver.heap ≡ done (heap_after, some copy_of_seven)
unfolding alloc_copy alloc_box_array try_lock unlock list_dequeue bump_allocate
copies_seven = refl

send_all-Queued_example :
    (two_workers ≡ without_firsts with_message)
    × ((acc' : Accumulator) × (s' : UsbUartSys stand_platform) × (drain
            (on_message stand_platform)
            acc_len
            2000
            roomy_driver.acc
            roomy_driver
            (2 ∷ 1 ∷ 8 ∷ 0 ∷ [])
          ≡ done (acc', s'))
        × (acc'.idx ≡ 0)
        × Queued stand_platform_laws (firsts with_message) roomy_driver s')
unfolding Accumulator.new slot
send_all-Queued_example =
    send_all-Queued stand_platform_laws pipe_laws with_message two_workers (replicate 256 0)
      buffer_after ([], []) (2 ∷ 1 ∷ 8 ∷ 0 ∷ [], []) roomy_driver 2000 length-lift_le
      ((omega arith, tt), ((omega arith, (omega arith, tt)), tt)) refl refl sends
      (record { size = length-replicate {A = ℕ} acc_len 0; fill = omega arith }) refl (omega arith)
      (((λ e. omega arith), (record { arrays = []; few = omega arith }, refl, omega arith)), tt)
      (heap_after, copy_of_seven, copies_seven, tt)
