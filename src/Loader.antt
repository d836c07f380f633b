-- ===== src/Loader.antt =====
-- The application loader of firmware/kernel/src/loader.rs: the header of an application image, its
-- validation, and the copy of the image into the application's memory.
-- A `u32` is a number below 2 ^ 32, with its wrap-around written out. Memory maps an address to the
-- byte there; the image lies at `app_ptr`, as the flash does beside the application's memory.
pub mod Copies
pub mod Validate
pub mod Setup
mod Tests
use pellegrino.Base.{
  ℕ, ◌+◌, ◌-◌, ◌*◌, ◌%◌, ◌^◌, Bool, ◌&&◌, Option, none, some, List, ltb, leb, ◌==◌, if◌then◌else◌,
  length, get_or, take, ◌>>◌, ◌>>=◌, guard,
}

pub record RawHeader : Type 0 where
  pub syscall_in_ptr : ℕ
  pub syscall_in_len : ℕ
  pub syscall_out_ptr : ℕ
  pub syscall_out_len : ℕ
  pub etext : ℕ
  pub srodata : ℕ
  pub sdata : ℕ
  pub edata : ℕ
  pub sbss : ℕ
  pub ebss : ℕ
  pub stack_start : ℕ
  pub entry_point : ℕ

pub record PartingWords : Type 0 where
  pub stack_start : ℕ
  pub entry_point : ℕ

abbrev pub start_addr : ℕ
start_addr = 0x2000_0000

abbrev pub end_addr : ℕ
end_addr = start_addr + 128 * 1024

-- `AlignHdrBuf::SIZE`, twelve words.
abbrev pub header_size : ℕ
header_size = 48

-- Subtraction of `u32`, which wraps in a release build.
abbrev pub sub_u32 : ℕ → ℕ → ℕ
sub_u32 a b = (a + 2 ^ 32 - b) % 2 ^ 32

-- The little-endian word at a byte offset.
unfoldable pub word_at : List ℕ → ℕ → ℕ
word_at bytes i =
    get_or bytes i 0
    + 256 * get_or bytes (i + 1) 0
    + 65536 * get_or bytes (i + 2) 0
    + 16777216 * get_or bytes (i + 3) 0

-- `From<AlignHdrBuf> for RawHeader`: the bytes read as the `repr(C)` record.
unfoldable pub from_ahb : List ℕ → RawHeader
from_ahb ahb = record {
  syscall_in_ptr = word_at ahb 0;
  syscall_in_len = word_at ahb 4;
  syscall_out_ptr = word_at ahb 8;
  syscall_out_len = word_at ahb 12;
  etext = word_at ahb 16;
  srodata = word_at ahb 20;
  sdata = word_at ahb 24;
  edata = word_at ahb 28;
  sbss = word_at ahb 32;
  ebss = word_at ahb 36;
  stack_start = word_at ahb 40;
  entry_point = word_at ahb 44;
}

unfoldable pub addr_in_range : ℕ → Option (Unit {0})
addr_in_range addr = guard ((leb start_addr addr && ltb addr end_addr) && (addr % 4 == 0))

-- `bridge.iter().all(|w| *w == 0)`
unfoldable pub all_zero : RawHeader → Bool
all_zero hdr =
    (hdr.syscall_in_ptr == 0)
    && ((hdr.syscall_in_len == 0) && ((hdr.syscall_out_ptr == 0) && (hdr.syscall_out_len == 0)))

unfoldable pub good_entry : RawHeader → Bool
good_entry hdr =
    (leb start_addr hdr.entry_point && ltb hdr.entry_point end_addr) && (hdr.entry_point % 4 == 1)

-- The checks of `validate_header` on the words, in their order.
unfoldable pub check_header : RawHeader → Option RawHeader
check_header hdr = do
  guard (all_zero hdr)
  addr_in_range hdr.etext
  addr_in_range hdr.srodata
  addr_in_range hdr.sdata
  addr_in_range hdr.edata
  addr_in_range hdr.sbss
  addr_in_range hdr.ebss
  addr_in_range hdr.stack_start
  guard (good_entry hdr)
  guard (leb hdr.sdata hdr.edata)
  guard (leb hdr.sbss hdr.ebss)
  some hdr

-- `none` is `Err(())`.
unfoldable pub validate_header : List ℕ → Option RawHeader
validate_header bytes =
    if ltb (length bytes) header_size
    then none
    else check_header (from_ahb (take header_size bytes))

abbrev pub Memory : Type 0
Memory = ℕ → ℕ

-- `dst.copy_from_nonoverlapping(src, n)`
unfoldable pub copy_bytes : (dst src n : ℕ) → Memory → Memory
copy_bytes dst src n m a = if leb dst a && ltb a (dst + n) then m (src + (a - dst)) else m a

-- `dst.write_bytes(v, n)`
unfoldable pub write_bytes : (dst v n : ℕ) → Memory → Memory
write_bytes dst v n m a = if leb dst a && ltb a (dst + n) then v else m a

unfoldable pub oc_flash_setup : RawHeader → (app_ptr app_len : ℕ) → Memory → Memory × PartingWords
oc_flash_setup hdr app_ptr app_len m =
    let data_size = sub_u32 hdr.edata hdr.sdata in
    let ro_offset = sub_u32 hdr.srodata start_addr in
    let bss_size = sub_u32 hdr.ebss hdr.sbss in
    let text = copy_bytes start_addr app_ptr app_len m in
    let dat =
      if ltb 0 data_size then copy_bytes hdr.sdata (app_ptr + ro_offset) data_size text else text in
    let bss = if ltb 0 bss_size then write_bytes hdr.sbss 0 bss_size dat else dat in
    (bss, record { stack_start = hdr.stack_start; entry_point = hdr.entry_point })
