-- ===== src/Loader/Validate.antt =====
-- What `validate_header` accepts.
use mathlib.Core.Path.{subst}
use pellegrino.Base.{
  ℕ, ◌%◌, ◌≤◌, ◌<◌, ◌≡◌, ◌↔◌, refl, Bool, Option, none, some, List, arith, inl, inr, Bool-cases,
  ltb, leb, length, take, true, false, ◌>>◌, guard, leb→le, le→leb, none≢some, some-inj,
}
use pellegrino.Loader.{
  RawHeader, start_addr, end_addr, header_size, addr_in_range, all_zero, good_entry, check_header,
  from_ahb, validate_header,
}

-- A word-aligned address of the application's memory.
abbrev pub IsAppWord : ℕ → Type 0
IsAppWord a = (start_addr ≤ a) × (a < end_addr) × (a % 4 ≡ 0)

-- A header that may be loaded: no bridge word is set, every address is a word of the application's
-- memory, the entry point is a Thumb address there, and no section ends before it starts.
pub record IsLoadable (hdr : RawHeader) : Type 0 where
  pub in_ptr : hdr.syscall_in_ptr ≡ 0
  pub in_len : hdr.syscall_in_len ≡ 0
  pub out_ptr : hdr.syscall_out_ptr ≡ 0
  pub out_len : hdr.syscall_out_len ≡ 0
  pub etext : IsAppWord hdr.etext
  pub srodata : IsAppWord hdr.srodata
  pub sdata : IsAppWord hdr.sdata
  pub edata : IsAppWord hdr.edata
  pub sbss : IsAppWord hdr.sbss
  pub ebss : IsAppWord hdr.ebss
  pub stack_start : IsAppWord hdr.stack_start
  pub entry_low : start_addr ≤ hdr.entry_point
  pub entry_high : hdr.entry_point < end_addr
  pub entry_thumb : hdr.entry_point % 4 ≡ 1
  pub data_order : hdr.sdata ≤ hdr.edata
  pub bss_order : hdr.sbss ≤ hdr.ebss

addr_in_range-some : (a : ℕ) → IsAppWord a → addr_in_range a ≡ some tt
unfolding addr_in_range
addr_in_range-some a h = ground arith

addr_in_range-IsAppWord : (a : ℕ) → addr_in_range a ≡ some tt → IsAppWord a
unfolding addr_in_range
addr_in_range-IsAppWord a h = (ground arith, ground arith, ground arith)

guard-true : (b : Bool) → guard b ≡ some tt → b ≡ true
guard-true true h = refl
guard-true false h = cc

-- A chain of checks that passes has passed its first check, and the rest of them.
>>-eq-some :
    {A : Type 0} (m : Option (Unit {0})) (k : Option A) {a : A}
    → (m >> k) ≡ some a
    → (m ≡ some tt) × (k ≡ some a)
>>-eq-some none k h = cc
>>-eq-some (some tt) k h = (refl, h)

all_zero_lem :
    (hdr : RawHeader)
    → all_zero hdr ≡ true
    → (hdr.syscall_in_ptr ≡ 0)
      × (hdr.syscall_in_len ≡ 0)
      × (hdr.syscall_out_ptr ≡ 0)
      × (hdr.syscall_out_len ≡ 0)
unfolding all_zero
all_zero_lem hdr h = (ground arith, ground arith, ground arith, ground arith)

good_entry_lem :
    (hdr : RawHeader)
    → good_entry hdr ≡ true
    → (start_addr ≤ hdr.entry_point) × (hdr.entry_point < end_addr) × (hdr.entry_point % 4 ≡ 1)
unfolding good_entry
good_entry_lem hdr h = (ground arith, ground arith, ground arith)

check_header-IsLoadable :
    (hdr : RawHeader) {r : RawHeader} → check_header hdr ≡ some r → (hdr ≡ r) × IsLoadable hdr
unfolding check_header
check_header-IsLoadable hdr h =
    let c0 = >>-eq-some (guard (all_zero hdr)) _ h in
    let c1 = >>-eq-some (addr_in_range hdr.etext) _ c0.1 in
    let c2 = >>-eq-some (addr_in_range hdr.srodata) _ c1.1 in
    let c3 = >>-eq-some (addr_in_range hdr.sdata) _ c2.1 in
    let c4 = >>-eq-some (addr_in_range hdr.edata) _ c3.1 in
    let c5 = >>-eq-some (addr_in_range hdr.sbss) _ c4.1 in
    let c6 = >>-eq-some (addr_in_range hdr.ebss) _ c5.1 in
    let c7 = >>-eq-some (addr_in_range hdr.stack_start) _ c6.1 in
    let c8 = >>-eq-some (guard (good_entry hdr)) _ c7.1 in
    let c9 = >>-eq-some (guard (leb hdr.sdata hdr.edata)) _ c8.1 in
    let c10 = >>-eq-some (guard (leb hdr.sbss hdr.ebss)) _ c9.1 in
    let zero = all_zero_lem hdr (guard-true _ c0.0) in
    let entry = good_entry_lem hdr (guard-true _ c8.0) in
    (
      some-inj c10.1,
      record {
        in_ptr = zero.0;
        in_len = zero.1;
        out_ptr = zero.2;
        out_len = zero.3;
        etext = addr_in_range-IsAppWord hdr.etext c1.0;
        srodata = addr_in_range-IsAppWord hdr.srodata c2.0;
        sdata = addr_in_range-IsAppWord hdr.sdata c3.0;
        edata = addr_in_range-IsAppWord hdr.edata c4.0;
        sbss = addr_in_range-IsAppWord hdr.sbss c5.0;
        ebss = addr_in_range-IsAppWord hdr.ebss c6.0;
        stack_start = addr_in_range-IsAppWord hdr.stack_start c7.0;
        entry_low = entry.0;
        entry_high = entry.1;
        entry_thumb = entry.2;
        data_order = leb→le _ _ (guard-true _ c9.0);
        bss_order = leb→le _ _ (guard-true _ c10.0);
      },
    )

all_zero-true : (hdr : RawHeader) → IsLoadable hdr → all_zero hdr ≡ true
unfolding all_zero
all_zero-true hdr v = rw (v.in_ptr, v.in_len, v.out_ptr, v.out_len)

good_entry-true : (hdr : RawHeader) → IsLoadable hdr → good_entry hdr ≡ true
unfolding good_entry
good_entry-true hdr v = ground (arith, v.entry_low, v.entry_high, v.entry_thumb)

check_header-some : (hdr : RawHeader) → IsLoadable hdr → check_header hdr ≡ some hdr
unfolding check_header
check_header-some hdr v = rw (
  all_zero-true hdr v,
  addr_in_range-some hdr.etext v.etext,
  addr_in_range-some hdr.srodata v.srodata,
  addr_in_range-some hdr.sdata v.sdata,
  addr_in_range-some hdr.edata v.edata,
  addr_in_range-some hdr.sbss v.sbss,
  addr_in_range-some hdr.ebss v.ebss,
  addr_in_range-some hdr.stack_start v.stack_start,
  good_entry-true hdr v,
  le→leb _ _ v.data_order,
  le→leb _ _ v.bss_order,
)

-- `validate_header` returns a header exactly when the image holds a whole header, the words read
-- from it are that header, and it is loadable: nothing else about the image is checked.
pub validate_header_iff :
    (bytes : List ℕ) (hdr : RawHeader)
    → (validate_header bytes ≡ some hdr)
      ↔ ((header_size ≤ length bytes) × (from_ahb (take header_size bytes) ≡ hdr) × IsLoadable hdr)
unfolding validate_header
validate_header_iff bytes hdr = (accepts, accepted)
  where
    accepts :
        validate_header bytes ≡ some hdr
        → (header_size ≤ length bytes) × (from_ahb (take header_size bytes) ≡ hdr) × IsLoadable hdr
    accepts h = elim (Bool-cases (ltb (length bytes) header_size)) [
      | inl short ↦ absurd (none≢some (rw short at h))
      | inr long ↦
          let c = check_header-IsLoadable (from_ahb (take header_size bytes)) (rw long at h) in
          (ground arith, c.0, subst IsLoadable c.0 c.1)
    ]

    accepted :
        (header_size ≤ length bytes) × (from_ahb (take header_size bytes) ≡ hdr) × IsLoadable hdr
        → validate_header bytes ≡ some hdr
    accepted (long, e, v) =
        let fits : ltb (length bytes) header_size ≡ false = ground arith in
        rw (fits, e) (check_header-some hdr v)
