-- ===== src/Loader/Setup.antt =====
-- What `oc_flash_setup` leaves in memory, for a header that was validated.
use pellegrino.Base.{
  ℕ, ◌+◌, ◌-◌, ◌*◌, ◌≤◌, ◌<◌, ◌≡◌, ◌⊎◌, ◌∙◌, refl, arith, ltb, leb, Bool, ◌&&◌, if◌then◌else◌,
}
use pellegrino.Loader.{
  RawHeader, Memory, start_addr, end_addr, sub_u32, copy_bytes, write_bytes, oc_flash_setup,
}
use pellegrino.Loader.Validate.{IsLoadable}

-- An address outside the range from `low` up to `high`.
abbrev pub Out : ℕ → ℕ → ℕ → Type 0
Out a low high = (a < low) ⊎ (high ≤ a)

abbrev within : ℕ → ℕ → ℕ → Bool
within a low high = leb low a && ltb a high

-- The image in place: `.bss` is zero, `.data` holds the bytes that lie in the image at `.rodata`, the
-- rest of the image's range holds the image, `.rodata` included, and all else is as before. The sources are read from
-- the memory before the loader ran.
pub loaded_image : RawHeader → (app_ptr app_len : ℕ) → Memory → Memory
loaded_image hdr app_ptr app_len m a =
    if within a hdr.sbss hdr.ebss
    then 0
    else if within a hdr.sdata hdr.edata
    then m (app_ptr + (hdr.srodata - start_addr) + (a - hdr.sdata))
    else if within a start_addr (start_addr + app_len)
    then m (app_ptr + (a - start_addr))
    else m a

module _ {hdr : RawHeader} (v : IsLoadable hdr) where
  -- No subtraction of `oc_flash_setup` wraps.
  data_size-lem : sub_u32 hdr.edata hdr.sdata ≡ hdr.edata - hdr.sdata
  data_size-lem = omega arith

  ro_offset-lem : sub_u32 hdr.srodata start_addr ≡ hdr.srodata - start_addr
  ro_offset-lem = omega arith

  bss_size-lem : sub_u32 hdr.ebss hdr.sbss ≡ hdr.ebss - hdr.sbss
  bss_size-lem = omega arith

  module _ (app_ptr app_len : ℕ) (m : Memory) (a : ℕ) where
    setup-eq :
        (oc_flash_setup hdr app_ptr app_len m).0 a
        ≡ write_bytes hdr.sbss 0
            (hdr.ebss - hdr.sbss)
            (copy_bytes hdr.sdata
              (app_ptr + (hdr.srodata - start_addr))
              (hdr.edata - hdr.sdata)
              (copy_bytes start_addr app_ptr app_len m))
            a
    unfolding oc_flash_setup write_bytes copy_bytes
    setup-eq = rw (data_size-lem, ro_offset-lem, bss_size-lem) (ground arith)

    -- With a validated header and an image that fits the application's memory, the loader changes
    -- no byte outside that memory, and hands on the header's stack and entry point.
    pub setup-confined :
        app_len ≤ 128 * 1024
        → Out a start_addr end_addr
        → ((oc_flash_setup hdr app_ptr app_len m).0 a ≡ m a)
          × ((oc_flash_setup hdr app_ptr app_len m).1.stack_start ≡ hdr.stack_start)
          × ((oc_flash_setup hdr app_ptr app_len m).1.entry_point ≡ hdr.entry_point)
    unfolding oc_flash_setup write_bytes copy_bytes
    setup-confined fits out = (setup-eq ∙ unfold write_bytes copy_bytes in ground arith, refl, refl)

    -- For a validated header, with the image in the flash below the application's memory, the memory
    -- after the loader is `loaded_image`, at every address: the whole image is copied, its `.rodata`
    -- included.
    pub setup-loaded_image :
        app_ptr + app_len ≤ start_addr
        → app_ptr + (hdr.srodata - start_addr) + (hdr.edata - hdr.sdata) ≤ start_addr
        → (oc_flash_setup hdr app_ptr app_len m).0 a ≡ loaded_image hdr app_ptr app_len m a
    unfolding write_bytes copy_bytes loaded_image
    setup-loaded_image below rodata_below = setup-eq ∙ ground arith
