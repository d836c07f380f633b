-- ===== src/Lib.antt =====
-- The firmware of Pellegrino, a small operating system for a microcontroller: a kernel with a heap, a
-- USB serial driver and a loader for one application, which reaches the kernel by system calls.
--
-- Parts, and the files that model them:
-- - Loader: firmware/kernel/src/loader.rs. `validate_header` reads and checks the header of an image,
--   and `oc_flash_setup` copies the image to the application's memory, 128 KiB from 0x2000_0000, in
--   the three steps of the source. Memory is a function of addresses.
-- - Sportty: common/sportty/src/lib.rs, the message format on the wire: `encode_to`,
--   `decode_in_place` and `decode_to`, over the crate `postcard_cobs`.
-- - Alloc: firmware/kernel/src/alloc.rs. `AHeap` with its lock (`init`, `try_lock`, and `unlock` for
--   the drop of a guard), boxes and arrays with their drops (`box_drop`), and the queue of blocks that
--   wait for release while the lock is taken (`clean_allocs`). Alloc/Ledger keeps the owners of every
--   block over each sequence of steps.
-- - UsbSerial: firmware/kernel/src/drivers/usb_serial.rs. `Accumulator` joins bytes to frames;
--   `process` drains the incoming queue into one queue for each port, `recv` empties that, `send` puts
--   frames into the outgoing queue, and `register_port` and `release_port` keep the table. It
--   allocates from Alloc and encodes by Sportty, and UsbSerial/Device makes it the `Serial` of the
--   kernel. UsbSerial/Isr is the interrupt's `poll`, at the other ends of the two queues, and
--   UsbSerial/Steps is the driver's life, its operations and the interrupt in any order.
-- - Syscall: firmware/common/src/lib.rs and firmware/kernel/src/syscall.rs (Crossing: the four words of
--   the bridge, `raw_syscall`, `try_syscall`, `try_recv_syscall`), the task `svc` of
--   firmware/kernel/src/main.rs, firmware/kernel/src/traits.rs (Handler: `handle_syscall` over any
--   `Serial`), firmware/common/src/porcelain/mod.rs (Porcelain), firmware/c-userspace/src/lib.rs (Capi).
-- - Crowtty: tools/crowtty/src/main.rs, the tool on the host at the other end of the USB port. `round`
--   is a round of its main loop (`send_all` for what goes to the board, `cut` for what comes from it)
--   and `worker_round` one of a worker thread; Crowtty/Steps puts them in any order. Crowtty/Delivery
--   and Crowtty/Arrival join it to the kernel's driver, and Crowtty/Delivery/Echo to the application.
-- - Bringup: the main loop of firmware/pelle-bringup/src/bin/sportty.rs, whose accumulator is the
--   kernel's.
-- - Qspi: the flash driver, firmware/kernel/src/qspi.rs: `new` with `quad_enable`, `read`, `write`,
--   `erase` and `read_slice`, as register writes and polls. Qspi/Discipline keeps watch on what is
--   written while the peripheral is at work. Qspi/Futures has the futures of the bring-up library's
--   copy, firmware/pelle-bringup/src/qspi.rs, poll by poll.
-- - Pins: the tables of pins in firmware/kernel/src/lib.rs and firmware/pelle-bringup/src/lib.rs, with
--   each pin's place in its type. Bringup/Flash is firmware/pelle-bringup/src/bin/qspi.rs, which takes
--   its pins from there and runs those futures.
-- - Monotonic: firmware/kernel/src/monotonic.rs, the timer of the tasks.
-- - PortEcho: the application firmware/apps/port-1-echo/src/main.rs, over Syscall/Porcelain: `entry`
--   opens port one, and each `echo_round` passes on what port zero receives. PortEcho/Driver puts the
--   kernel's own driver under it.
-- - Startup: firmware/kernel/src/main.rs. `init` joins the heap, the bridge and the driver, `idle` loads
--   the application and `letsago` leaves to it.
-- - Base: outcomes, tests and lists that all of these share.
--
-- A run of the code is an `Outcome`: a value, a panic, undefined behaviour or the end of the fuel. An
-- `Option` or `Result` within it is the source's own.
--
-- Fuel and bounds: `clean_allocs` takes 129 rounds, for a queue of 128 blocks; the loop over a grant
-- takes at most a round for each byte that the accumulator holds and two more, for each byte of the
-- grant and once again; `send` takes one round for each byte and one more, since a frame carries a
-- byte at least; `recv` takes 17 rounds, for a queue of 16 messages; and `process` takes 4097 grants,
-- for a queue of 4096 bytes to which nothing is added meanwhile, which bounds the rounds of each grant
-- too; the host's loop over `carry` takes one round for each byte and one more. The wait of a system
-- call, and those of the flash driver, take their number of polls as an argument; the loop of the
-- application, which does not end, its number of rounds.
--
-- Crates that are not in the repository are records of operations, with their documented behaviour
-- as a record of laws: `postcard_cobs` (Sportty/Codec), `linked_list_allocator` and `heapless::mpmc`
-- (Alloc/External), `bbqueue` and `heapless` (UsbSerial/External), the USB port (UsbSerial/Isr),
-- `postcard` (Syscall), the serial port and the sockets (Crowtty/Worker), the flash peripheral
-- (Qspi/Registers, Qspi/Laws), the board and its flash (Bringup/Flash/Device), the timer
-- (Monotonic/Registers). The modules Shift, Stand and Tests hold concrete ones that keep these laws.
-- The crate of the pins (Pins) is a record of operations alone.
--
-- Assumed: the interrupt does not run within an operation of the driver, atomics are plain words, the
-- linker's and the compiler's layout is that of the source, `usize` has 32 bits, and the bridge lies
-- apart from the memory that a system call reads and writes.
--
-- Not modelled: the set-up of clocks and of the USB bus, and the bring-up programs for lights and USB,
-- which are hardware, input and output. What `process` and `send` print is left out.
pub mod Base
pub mod Loader
pub mod Sportty
pub mod Alloc
pub mod UsbSerial
pub mod Bringup
pub mod Syscall
pub mod Crowtty
pub mod Qspi
pub mod Startup
pub mod PortEcho
pub mod Monotonic
pub mod Pins
