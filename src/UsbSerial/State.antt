-- ===== src/UsbSerial/State.antt =====
-- The driver's handle for the rest of the kernel, `UsbUartSys`, with the kernel's heap, which it
-- allocates from. The interrupt's ends of the two queues are in `Isr`.
use pellegrino.Base.{ℕ, Option, none, some, ◌>>=◌}
use pellegrino.Alloc.{AHeap, HeapArray}
use pellegrino.Alloc.External.{Crates, CratesLaws}
use pellegrino.Alloc.Blocks.{Layout}
use pellegrino.Sportty.Codec.{Cobs, CobsLaws}
use pellegrino.UsbSerial.External.{BbQueue, BbQueueLaws, Tables, TablesLaws}
use pellegrino.UsbSerial.Accumulator.{Accumulator}
use pellegrino.UsbSerial.Accumulator

-- The crates that the driver stands on.
pub record Platform : Type 1 where
  pub cobs : Cobs
  pub crates : Crates
  pub queues : BbQueue
  pub tables : Tables (HeapArray ℕ)

pub record PlatformLaws (p : Platform) : Type 0 where
  pub cobs : CobsLaws p.cobs
  pub crates : CratesLaws p.crates
  pub queues : BbQueueLaws p.queues
  pub tables : TablesLaws p.tables

pub record UsbUartSys (p : Platform) : Type 0 where
  pub out : p.queues.Queue
  pub inc : p.queues.Queue
  pub acc : Accumulator
  pub ports : p.tables.Map
  pub heap : AHeap p.crates

-- The accumulator's size, and the layout of `u8`.
abbrev pub acc_len : ℕ
acc_len = 1024

abbrev pub byte : Layout
byte = record { size = 1; align = 1 }

-- `setup_usb_uart`, given what `try_split` made of UART_INC and UART_OUT. Port zero is mapped.
unfoldable pub setup_usb_uart :
    (p : Platform) (heap : AHeap p.crates) (inc out : Option p.queues.Queue) → Option (UsbUartSys p)
setup_usb_uart p heap inc out = do
  i ← inc
  o ← out
  some (record {
    out = o;
    inc = i;
    acc = Accumulator.new acc_len;
    ports = elim (p.tables.insert p.tables.new_map 0 p.tables.new_deque) [
      | some m ↦ m
      | none ↦ p.tables.new_map
    ];
    heap = heap;
  })
