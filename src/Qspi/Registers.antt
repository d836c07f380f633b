-- ===== src/Qspi/Registers.antt =====
-- The registers of the QSPI peripheral as firmware/kernel/src/qspi.rs writes them, by their fields.
use pellegrino.Base.{ℕ, List, [], ◌∷◌, Bool}

pub data Line : Type 0 where
  io0 io1 io2 io3 csn sck : Line

-- `EraseLength`: 4 KiB, 64 KiB, or the whole chip.
pub data EraseLength : Type 0 where
  len_4kb len_64kb len_all : EraseLength

pub data ReadOpcode : Type 0 where
  fast_read read2o read2io read4o read4io : ReadOpcode

pub data WriteOpcode : Type 0 where
  pp pp2o pp4o pp4io : WriteOpcode

-- `cinstrconf`; a write to it starts the instruction.
pub record Instruction : Type 0 where
  pub opcode : ℕ
  pub bytes : ℕ
  pub lio2 : Bool
  pub lio3 : Bool
  pub wipwait : Bool
  pub wren : Bool
  pub lfen : Bool
  pub lfstop : Bool

-- `errata` is the word at 0x4002_9054, `clear_ready` the reset of `events_ready`.
pub data Write : Type 0 where
  enable : Bool → Write
  errata : ℕ → Write
  drive_h0h1 : (port pin : ℕ) → Write
  psel : Line → ℕ → Write
  ifconfig0 :
      ReadOpcode → WriteOpcode → (address_bits : ℕ) → (dpm_enable : Bool) → (page : ℕ) → Write
  ifconfig1 : (sck_delay : ℕ) → (dpm_enter : Bool) → (mode sck_freq : ℕ) → Write
  clear_ready : Write
  activate : Write
  read_dst read_src read_cnt : ℕ → Write
  read_start : Write
  write_dst write_src write_cnt : ℕ → Write
  write_start : Write
  erase_ptr : ℕ → Write
  erase_len : EraseLength → Write
  erase_start : Write
  instruction_data : ℕ → Write
  instruction_bytes : ℕ → ℕ → Write
  instruction : Instruction → Write

-- The peripheral: a write, a read of the ready flag, and byte 0 of the data of an instruction.
pub record Periph : Type 1 where
  pub State : Type 0
  pub put : Write → State → State
  pub ready : State → Bool × State
  pub byte0 : State → ℕ

abbrev pub put_all : (q : Periph) → List Write → q.State → q.State
put_all q [] s = s
put_all q (w ∷ ws) s = put_all q ws (q.put w s)
