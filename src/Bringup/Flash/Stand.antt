-- ===== src/Bringup/Flash/Stand.antt =====
-- A stand-in for the board that keeps its promises: an operation ends at once.
use pellegrino.Base.{
  ℕ, sym, ap, ◌+◌, ◌≡◌, ◌⊎◌, refl, inl, inr, Bool, true, false, ltb, leb, ◌&&◌, if◌then◌else◌,
  arith, ◌∙◌,
}
use pellegrino.Syscall.Memory.{read, write, read-write, read-write_apart, length-read, write-apart}
use pellegrino.Qspi.Registers.{
  Write, enable, errata, drive_h0h1, psel, ifconfig0, ifconfig1, clear_ready, activate, read_dst,
  read_src, read_cnt, read_start, write_dst, write_src, write_cnt, write_start, erase_ptr,
  erase_len, erase_start, instruction_data, instruction_bytes, instruction, Periph,
}
use pellegrino.Qspi.Laws.{Kind, clears, starts, sets, configures, kind_of, PeriphLaws}
use pellegrino.Bringup.Flash.{Board}
use pellegrino.Bringup.Flash.Device.{
  Regs, set_in, SameBytes, HasRead, HasErased, HasWritten, BoardLaws,
}

-- The memory, the flash, the registers, and the ready flag.
pub record Chip : Type 0 where
  pub mem : ℕ → ℕ
  pub flash : ℕ → ℕ
  pub regs : Regs
  pub flag : Bool

abbrev pub erased_at : ℕ → (ℕ → ℕ) → ℕ → ℕ
erased_at start flash a = if leb start a && ltb a (start + 4096) then 255 else flash a

abbrev perform : Write → Chip → Chip
perform read_start c = record c {
  mem = write c.mem c.regs.dst_of_read (read c.flash c.regs.src_of_read c.regs.cnt_of_read);
}
perform write_start c = record c {
  flash = write c.flash c.regs.dst_of_write (read c.mem c.regs.src_of_write c.regs.cnt_of_write);
}
perform erase_start c = record c { flash = erased_at c.regs.ptr_of_erase c.flash }
perform (read_dst n) c = c
perform (read_src n) c = c
perform (read_cnt n) c = c
perform (write_dst n) c = c
perform (write_src n) c = c
perform (write_cnt n) c = c
perform (erase_ptr n) c = c
perform (erase_len l) c = c
perform (enable b) c = c
perform (errata n) c = c
perform (drive_h0h1 p n) c = c
perform (psel l n) c = c
perform (ifconfig0 r w a d n) c = c
perform (ifconfig1 d e m f) c = c
perform clear_ready c = c
perform activate c = c
perform (instruction_data n) c = c
perform (instruction_bytes m n) c = c
perform (instruction i) c = c

abbrev put_kind : Kind → Write → Chip → Chip
put_kind clears w c = record c { flag = false }
put_kind starts w c = record (perform w c) { flag = true }
put_kind sets w c = record c { regs = set_in w c.regs }
put_kind configures w c = c

abbrev pub chip : Periph
chip = record {
  State = Chip;
  put = λ w c. put_kind (kind_of w) w c;
  ready = λ c. (c.flag, c);
  byte0 = λ c. 0;
}

abbrev pub chip_board : Board
chip_board = record {
  periph = chip;
  load = λ p n c. read c.mem p n;
  store = λ p bs c. record c { mem = write c.mem p bs };
}

abbrev chip_laws : PeriphLaws chip
chip_laws = record {
  polls = 1;
  IsIdle = λ c. Unit {0};
  sets_register = λ w c kind rests. rw kind (tt, refl);
  clears_flag = λ c rests. (tt, refl);
  ends = λ w c kind rests clear. rw kind (inl (refl, (tt, refl)));
  stays_set = λ w c kind rests set. rw kind refl;
}

abbrev cell_of : Chip → ℕ → ℕ
cell_of c = c.flash

chip-keeps : (w : Write) (c : Chip) → kind_of w ≡ clears → c.regs ≡ set_in w c.regs
chip-keeps clear_ready c kind = refl
chip-keeps (read_dst n) c kind = absurd (cc)
chip-keeps (read_src n) c kind = absurd (cc)
chip-keeps (read_cnt n) c kind = absurd (cc)
chip-keeps (write_dst n) c kind = absurd (cc)
chip-keeps (write_src n) c kind = absurd (cc)
chip-keeps (write_cnt n) c kind = absurd (cc)
chip-keeps (erase_ptr n) c kind = absurd (cc)
chip-keeps (erase_len l) c kind = absurd (cc)
chip-keeps (enable b) c kind = refl
chip-keeps (errata n) c kind = refl
chip-keeps (drive_h0h1 p n) c kind = refl
chip-keeps (psel l n) c kind = refl
chip-keeps (ifconfig0 r w a d n) c kind = refl
chip-keeps (ifconfig1 d e m f) c kind = refl
chip-keeps activate c kind = refl
chip-keeps read_start c kind = refl
chip-keeps write_start c kind = refl
chip-keeps erase_start c kind = refl
chip-keeps (instruction_data n) c kind = refl
chip-keeps (instruction_bytes m n) c kind = refl
chip-keeps (instruction i) c kind = refl

pub chip-sets :
    (w : Write) (c : Chip)
    → (kind_of w ≡ sets) ⊎ (kind_of w ≡ clears)
    → ((put_kind (kind_of w) w c).regs ≡ set_in w c.regs)
      × SameBytes chip_board cell_of c (put_kind (kind_of w) w c)
chip-sets w c (inl kind) = rw kind (refl, ((λ a. refl), (λ p n. refl)))
chip-sets w c (inr kind) = rw kind (chip-keeps w c kind, ((λ a. refl), (λ p n. refl)))

pub chip-reads :
    (start ptr len : ℕ) (c : Chip)
    → c.regs.src_of_read ≡ start
    → c.regs.dst_of_read ≡ ptr
    → c.regs.cnt_of_read ≡ len
    → HasRead chip_board cell_of start ptr len c (put_kind starts read_start c)
chip-reads start ptr len c src dst cnt =
    let bytes = read c.flash start len in
    let size = length-read c.flash start len in
    rw (src, dst, cnt)
      (
        ap (λ k. read (write c.mem ptr bytes) ptr k) (sym size) ∙ read-write c.mem ptr bytes,
        (λ a. refl),
        (λ p n apart.
            read-write_apart c.mem ptr p n bytes
              (elim apart [ inl lo ↦ inl lo | inr hi ↦ inr (omega arith) ])),
      )

pub chip-erases :
    (start : ℕ) (c : Chip)
    → c.regs.ptr_of_erase ≡ start
    → HasErased chip_board cell_of start c (put_kind starts erase_start c)
chip-erases start c ptr = rw ptr (
  (λ a lo hi. ground arith),
  (λ a out. elim out [ inl lo ↦ ground arith | inr hi ↦ ground arith ]),
  (λ p n. refl),
)

pub chip-writes :
    (addr ptr len : ℕ) (c : Chip)
    → c.regs.dst_of_write ≡ addr
    → c.regs.src_of_write ≡ ptr
    → c.regs.cnt_of_write ≡ len
    → HasWritten chip_board cell_of addr ptr len c (put_kind starts write_start c)
chip-writes addr ptr len c dst src cnt =
    let bytes = read c.mem ptr len in
    let size = length-read c.mem ptr len in
    rw (dst, src, cnt)
      (
        ap (λ k. read (write c.flash addr bytes) addr k) (sym size) ∙ read-write c.flash addr bytes,
        (λ a out.
            write-apart c.flash addr a bytes
              (elim out [ inl lo ↦ inl lo | inr hi ↦ inr (omega arith) ])),
      )

abbrev pub chip_board_laws : BoardLaws chip_board
chip_board_laws = record {
  device = chip_laws;
  cell = cell_of;
  regs = λ c. c.regs;
  load-store = λ p bs c. read-write c.mem p bs;
  cell-store = λ p bs c a. refl;
  store_rests = λ p bs c rests. tt;
  length-load = λ p n c. length-read c.mem p n;
  regs-put = λ w c kind rests. chip-sets w c kind;
  reads_flash = λ start ptr len c rests clear src dst cnt s p l.
      inl (refl, chip-reads start ptr len c src dst cnt);
  erases_flash = λ start c rests clear ptr len sector. inl (refl, chip-erases start c ptr);
  writes_flash = λ addr ptr len c rests clear dst src cnt a p l page blank.
      inl (refl, chip-writes addr ptr len c dst src cnt);
}
