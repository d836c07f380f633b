-- ===== src/Qspi.antt =====
-- The flash driver, firmware/kernel/src/qspi.rs (firmware/pelle-bringup/src/qspi.rs has the same text but for
-- the module of a type). The peripheral is a parameter; a write to a register is told by the fields that
-- it sets. A wait takes its number of polls as an argument, and is out of fuel where the ready flag is
-- still clear then. Compiler fences have no part in the model.
pub mod Registers
pub mod Laws
pub mod Discipline
pub mod QuadEnable
pub mod Bounds
pub mod Futures
mod Tests
use pellegrino.Base.{
  ℕ, zero, suc, ◌+◌, ◌-◌, ◌*◌, ◌%◌, ◌/◌, ◌^◌, List, [], ◌∷◌, Option, none, some, Bool, true, false,
  not, ◌&&◌, ltb, leb, ◌==◌, if◌then◌else◌, Outcome, done, panic, out_of_fuel, and_then,
}
use Registers.{
  Line, io0, io1, io2, io3, csn, sck, EraseLength, len_4kb, len_64kb, len_all, ReadOpcode, read4o,
  WriteOpcode, pp4o, Instruction, Write, enable, errata, drive_h0h1, psel, ifconfig0, ifconfig1,
  clear_ready, activate, read_dst, read_src, read_cnt, read_start, write_dst, write_src, write_cnt,
  write_start, erase_ptr, erase_len, erase_start, instruction_data, instruction_bytes, instruction,
  Periph, put_all,
}

pub record Pin : Type 0 where
  pub port : ℕ
  pub pin : ℕ
  pub psel_bits : ℕ

pub record QspiPins : Type 0 where
  pub copi_io0 : Pin
  pub cipo_io1 : Pin
  pub io2 : Pin
  pub io3 : Pin
  pub csn : Pin
  pub sck : Pin

abbrev pub mapped_base_address : ℕ
mapped_base_address = 0x1200_0000

abbrev pub flash_len : ℕ
flash_len = 16 * 1024 * 1024

-- What `read_slice` gives: a slice of the mapped flash, or an error with an address. The sum and its
-- complement have 32 bits, and so has the address in the error; the sum wraps where the release build
-- does.
pub data Slice : Type 0 where
  slice : (ptr len : ℕ) → Slice
  slice_error : ℕ → Slice

unfoldable pub read_slice : (flash_addr len : ℕ) → Slice
read_slice flash_addr len =
    let end = (flash_addr + len) % 2 ^ 32 in
    if not (ltb flash_addr flash_len)
    then slice_error flash_addr
    else if leb (2 ^ 32 - 1 - end) flash_len
    then slice_error ((end + 1) % 2 ^ 32)
    else slice (flash_addr + mapped_base_address) len

-- The alignment that an erase wants of its start.
unfoldable pub is_aligned : ℕ → EraseLength → Bool
is_aligned start len_4kb = start % 0x1000 == 0
is_aligned start len_64kb = start % 0x1_0000 == 0
is_aligned start len_all = start == 0

-- `status[1] | 0x02`
unfoldable pub with_bit_1 : ℕ → ℕ
with_bit_1 b = if b / 2 % 2 == 0 then b + 2 else b

-- The instruction that reads a status register, whose opcode is given.
abbrev pub read_status_instruction : ℕ → Instruction
read_status_instruction code = record {
  opcode = code;
  bytes = 2;
  lio2 = true;
  lio3 = true;
  wipwait = true;
  wren = false;
  lfen = false;
  lfstop = false;
}

-- All that is written before the flash device is activated, and its activation.
unfoldable pub set_up : QspiPins → List Write
set_up pins =
    enable false
    ∷ errata 1
    ∷ drive_h0h1 pins.copi_io0.port pins.copi_io0.pin
    ∷ drive_h0h1 pins.cipo_io1.port pins.cipo_io1.pin
    ∷ drive_h0h1 pins.io2.port pins.io2.pin
    ∷ drive_h0h1 pins.io3.port pins.io3.pin
    ∷ drive_h0h1 pins.csn.port pins.csn.pin
    ∷ drive_h0h1 pins.sck.port pins.sck.pin
    ∷ psel io0 pins.copi_io0.psel_bits
    ∷ psel io1 pins.cipo_io1.psel_bits
    ∷ psel io2 pins.io2.psel_bits
    ∷ psel io3 pins.io3.psel_bits
    ∷ psel csn pins.csn.psel_bits
    ∷ psel sck pins.sck.psel_bits
    ∷ ifconfig0 read4o pp4o 24 false 256
    ∷ ifconfig1 255 false 0 1
    ∷ enable true
    ∷ clear_ready
    ∷ activate
    ∷ []

module _ (q : Periph) where
  -- `while events_ready.read().events_ready().bit_is_clear() {}`, and `wait_done`.
  unfoldable pub wait_done : ℕ → q.State → Outcome q.State
  wait_done zero s = out_of_fuel
  wait_done (suc n) s =
      let (is_ready, s') = q.ready s in
      let rest = wait_done n s' in if is_ready then done s' else rest

  unfoldable pub read : ℕ → (start ptr len : ℕ) → q.State → Outcome q.State
  unfolding wait_done
  read polls start ptr len s =
      wait_done polls
        (put_all q (read_dst ptr ∷ read_src start ∷ read_cnt len ∷ clear_ready ∷ read_start ∷ []) s)

  unfoldable pub write : ℕ → (addr ptr len : ℕ) → q.State → Outcome q.State
  unfolding wait_done
  write polls addr ptr len s = wait_done polls (
      put_all q (write_dst addr ∷ write_src ptr ∷ write_cnt len ∷ clear_ready ∷ write_start ∷ []) s)

  -- `none` is the error for a start that is not aligned.
  unfoldable pub erase : ℕ → (start : ℕ) → EraseLength → q.State → Outcome (Option q.State)
  unfolding wait_done is_aligned
  erase polls start len s =
      if is_aligned start len
      then and_then
          (wait_done polls
            (put_all q (erase_ptr start ∷ erase_len len ∷ clear_ready ∷ erase_start ∷ []) s))
          (λ s'. done (some s'))
      else done none

  -- One status register, by its opcode.
  unfoldable pub read_status_reg : ℕ → ℕ → q.State → Outcome (ℕ × q.State)
  unfolding wait_done
  read_status_reg polls code s =
      and_then
        (wait_done polls (
          put_all q
            (clear_ready
              ∷ instruction_data 0xFFFF_FFFF
              ∷ instruction (read_status_instruction code)
              ∷ [])
            s))
        (λ s'. done (q.byte0 s', s'))

  unfoldable pub read_status_regs : ℕ → q.State → Outcome ((ℕ × ℕ) × q.State)
  unfolding read_status_reg
  read_status_regs polls s = and_then (read_status_reg polls 0x05 s) (λ (by_05, s1).
      and_then (read_status_reg polls 0x35 s1) (λ (by_35, s2). done ((by_05, by_35), s2)))

  unfoldable pub write_enable : ℕ → q.State → Outcome q.State
  unfolding wait_done
  write_enable polls s = wait_done polls (
      put_all q
        (clear_ready ∷ instruction (record (read_status_instruction 0x06) { bytes = 1 }) ∷ []) s)

  -- The write of both status registers, with the bit QE set, and its wait.
  unfoldable pub set_qe : ℕ → ℕ × ℕ → q.State → Outcome q.State
  unfolding wait_done with_bit_1
  set_qe polls (by_05, by_35) s = wait_done polls (
      put_all q
        (instruction_bytes by_05 (with_bit_1 by_35)
          ∷ instruction (record (read_status_instruction 0x06) { bytes = 3; wren = true })
          ∷ [])
        s)

  unfoldable pub quad_enable : ℕ → q.State → Outcome q.State
  unfolding read_status_regs set_qe
  quad_enable polls s = and_then (read_status_regs polls (q.put clear_ready s)) (λ (status, s1).
      and_then (set_qe polls status s1) (λ s2.
        and_then (read_status_regs polls s2)
          (λ (status', s3). if status'.1 / 2 % 2 == 1 then done s3 else panic)))

  -- `Qspi::new` and `Qspi::uninit`
  unfoldable pub new : ℕ → QspiPins → q.State → Outcome q.State
  unfolding wait_done quad_enable set_up
  new polls pins s = and_then (wait_done polls (put_all q (set_up pins) s)) (quad_enable polls)

  unfoldable pub uninit : q.State → q.State
  uninit s = put_all q (enable false ∷ errata 1 ∷ []) s
