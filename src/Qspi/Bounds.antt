-- ===== src/Qspi/Bounds.antt =====
-- The ranges that `read_slice` lets through.
use pellegrino.Base.{ℕ, ◌+◌, ◌^◌, ◌<◌, ◌≡◌, ◌↔◌, arith}
use pellegrino.Qspi.{read_slice, slice, flash_len, mapped_base_address}

module _ (flash_addr len : ℕ) where
  -- For a range whose end has 32 bits: `read_slice` gives the slice of the mapped flash exactly where
  -- the start is in the 16 MiB of the flash, and the end more than 16 MiB below the highest address. It
  -- is not looked at whether the end is in the flash.
  pub read_slice_iff :
      flash_addr + len < 2 ^ 32
      → (read_slice flash_addr len ≡ slice (flash_addr + mapped_base_address) len)
        ↔ ((flash_addr < flash_len) × (flash_addr + len + flash_len + 1 < 2 ^ 32))
  unfolding read_slice
  read_slice_iff small = (given, gives)
    where
      given :
          read_slice flash_addr len ≡ slice (flash_addr + mapped_base_address) len
          → (flash_addr < flash_len) × (flash_addr + len + flash_len + 1 < 2 ^ 32)
      given e = ground arith

      gives :
          (flash_addr < flash_len) × (flash_addr + len + flash_len + 1 < 2 ^ 32)
          → read_slice flash_addr len ≡ slice (flash_addr + mapped_base_address) len
      gives h = ground arith
