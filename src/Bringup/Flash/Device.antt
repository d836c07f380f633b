-- ===== src/Bringup/Flash/Device.antt =====
-- What the peripheral and the flash chip are documented to do, write by write.
use pellegrino.Base.{ℕ, ◌+◌, ◌%◌, ◌≤◌, ◌<◌, ◌≡◌, ◌⊎◌, false, List, length, replicate}
use pellegrino.Syscall.Memory.{read}
use pellegrino.Qspi.Registers.{
  EraseLength, len_4kb, Write, enable, errata, drive_h0h1, psel, ifconfig0, ifconfig1, clear_ready,
  activate, read_dst, read_src, read_cnt, read_start, write_dst, write_src, write_cnt, write_start,
  erase_ptr, erase_len, erase_start, instruction_data, instruction_bytes, instruction,
}
use pellegrino.Qspi.Laws.{clears, sets, kind_of, Within, PeriphLaws}
use pellegrino.Bringup.Flash.{Board}

-- The registers that tell an operation what to do.
pub record Regs : Type 0 where
  pub dst_of_read : ℕ
  pub src_of_read : ℕ
  pub cnt_of_read : ℕ
  pub dst_of_write : ℕ
  pub src_of_write : ℕ
  pub cnt_of_write : ℕ
  pub ptr_of_erase : ℕ
  pub len_of_erase : EraseLength

abbrev pub set_in : Write → Regs → Regs
set_in (read_dst n) r = record r { dst_of_read = n }
set_in (read_src n) r = record r { src_of_read = n }
set_in (read_cnt n) r = record r { cnt_of_read = n }
set_in (write_dst n) r = record r { dst_of_write = n }
set_in (write_src n) r = record r { src_of_write = n }
set_in (write_cnt n) r = record r { cnt_of_write = n }
set_in (erase_ptr n) r = record r { ptr_of_erase = n }
set_in (erase_len l) r = record r { len_of_erase = l }
set_in (enable b) r = r
set_in (errata n) r = r
set_in (drive_h0h1 p n) r = r
set_in (psel l n) r = r
set_in (ifconfig0 q w a d n) r = r
set_in (ifconfig1 d e m f) r = r
set_in clear_ready r = r
set_in activate r = r
set_in read_start r = r
set_in write_start r = r
set_in erase_start r = r
set_in (instruction_data n) r = r
set_in (instruction_bytes m n) r = r
set_in (instruction i) r = r

-- The bytes from `q` lie apart from those from `p`.
abbrev pub Apart : (p n q m : ℕ) → Type 0
Apart p n q m = (p + n ≤ q) ⊎ (q + m ≤ p)

abbrev pub IsWord : ℕ → Type 0
IsWord n = n % 4 ≡ 0

module _ (b : Board) (cell : b.periph.State → ℕ → ℕ) where
  abbrev pub SameBytes : (s s' : b.periph.State) → Type 0
  SameBytes s s' = ((a : ℕ) → cell s' a ≡ cell s a) × ((p n : ℕ) → b.load p n s' ≡ b.load p n s)

  -- A read copies the flash to the memory, and touches nothing else.
  abbrev pub HasRead : (start ptr len : ℕ) (s s' : b.periph.State) → Type 0
  HasRead start ptr len s s' =
      (b.load ptr len s' ≡ read (cell s) start len)
      × ((a : ℕ) → cell s' a ≡ cell s a)
      × ((p n : ℕ) → Apart p n ptr len → b.load p n s' ≡ b.load p n s)

  -- A sector of 4 KiB, erased.
  abbrev pub HasErased : (start : ℕ) (s s' : b.periph.State) → Type 0
  HasErased start s s' =
      ((a : ℕ) → start ≤ a → a < start + 4096 → cell s' a ≡ 255)
      × ((a : ℕ) → (a < start) ⊎ (start + 4096 ≤ a) → cell s' a ≡ cell s a)
      × ((p n : ℕ) → b.load p n s' ≡ b.load p n s)

  abbrev pub HasWritten : (addr ptr len : ℕ) (s s' : b.periph.State) → Type 0
  HasWritten addr ptr len s s' =
      (read (cell s') addr len ≡ b.load ptr len s)
      × ((a : ℕ) → (a < addr) ⊎ (addr + len ≤ a) → cell s' a ≡ cell s a)

pub record BoardLaws (b : Board) : Type 1 where
  pub device : PeriphLaws b.periph
  -- the byte of the flash at an address, and the registers
  pub cell : b.periph.State → ℕ → ℕ
  pub regs : b.periph.State → Regs
  -- the processor's memory
  pub load-store :
      (p : ℕ) (bs : List ℕ) (s : b.periph.State) → b.load p (length bs) (b.store p bs s) ≡ bs
  pub cell-store :
      (p : ℕ) (bs : List ℕ) (s : b.periph.State) (a : ℕ) → cell (b.store p bs s) a ≡ cell s a
  pub store_rests :
      (p : ℕ) (bs : List ℕ) (s : b.periph.State) → device.IsIdle s → device.IsIdle (b.store p bs s)
  pub length-load : (p n : ℕ) (s : b.periph.State) → length (b.load p n s) ≡ n
  -- a register takes what is written to it and nothing else, and no byte is moved
  pub regs-put :
      (w : Write) (s : b.periph.State)
      → (kind_of w ≡ sets) ⊎ (kind_of w ≡ clears)
      → device.IsIdle s
      → (regs (b.periph.put w s) ≡ set_in w (regs s)) × SameBytes b cell s (b.periph.put w s)
  -- a start with the flag clear does what the registers say, by the time the flag is set; addresses in
  -- the flash and in the memory, and lengths, are those of words
  pub reads_flash :
      (start ptr len : ℕ) (s : b.periph.State)
      → device.IsIdle s
      → (b.periph.ready s).0 ≡ false
      → (regs s).src_of_read ≡ start
      → (regs s).dst_of_read ≡ ptr
      → (regs s).cnt_of_read ≡ len
      → IsWord start
      → IsWord ptr
      → IsWord len
      → Within b.periph (HasRead b cell start ptr len s) device.polls (b.periph.put read_start s)
  pub erases_flash :
      (start : ℕ) (s : b.periph.State)
      → device.IsIdle s
      → (b.periph.ready s).0 ≡ false
      → (regs s).ptr_of_erase ≡ start
      → (regs s).len_of_erase ≡ len_4kb
      → start % 4096 ≡ 0
      → Within b.periph (HasErased b cell start s) device.polls (b.periph.put erase_start s)
  -- an erased stretch of one page, written
  pub writes_flash :
      (addr ptr len : ℕ) (s : b.periph.State)
      → device.IsIdle s
      → (b.periph.ready s).0 ≡ false
      → (regs s).dst_of_write ≡ addr
      → (regs s).src_of_write ≡ ptr
      → (regs s).cnt_of_write ≡ len
      → IsWord addr
      → IsWord ptr
      → IsWord len
      → addr % 256 + len ≤ 256
      → read (cell s) addr len ≡ replicate len 255
      → Within b.periph (HasWritten b cell addr ptr len s) device.polls (b.periph.put write_start s)
