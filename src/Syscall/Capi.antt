-- ===== src/Syscall/Capi.antt =====
-- The functions of firmware/c-userspace/src/lib.rs. Their argument points to a slice, or is null.
pub mod Bounds
use pellegrino.Base.{
  ℕ, ◌≤◌, ◌+◌, ◌≡◌, ◌⊎◌, inl, inr, refl, Bool, ◌&&◌, not, ◌==◌, leb, leb→le, Bool-cases,
  if◌then◌else◌, Option, none, some, Outcome, done, and_then, arith, Returns,
}
use pellegrino.Syscall.{SysCallSlice, SysCallSliceMut, SysCallRequest, SysCallSuccess, Sys}
use pellegrino.Syscall.Porcelain.{open_port, read_port, write_port}
use pellegrino.Syscall.Porcelain

pub data StatusCode : Type 0 where
  status_bad : StatusCode
  status_good : StatusCode

-- `Slice` and `SliceMut`.
unfoldable pub is_nonnull_nonzero : (ptr len : ℕ) → Bool
is_nonnull_nonzero ptr len = not (ptr == 0) && not (len == 0)

abbrev pub status : {A : Type 0} → Option A → StatusCode
status none = status_bad
status (some a) = status_good

unfoldable pub filled : SysCallSliceMut → Option SysCallSliceMut → SysCallSliceMut × StatusCode
filled slice none = (record slice { len = 0 }, status_bad)
filled slice (some r) =
    if leb r.len slice.len
    then (record slice { len = r.len }, status_good)
    else (record slice { len = 0 }, status_bad)

unfoldable pub remaining : SysCallSlice → Option (Option SysCallSlice) → SysCallSlice × StatusCode
remaining slice none = (record slice { len = 0 }, status_bad)
remaining slice (some none) = (record slice { len = 0 }, status_good)
remaining slice (some (some r)) =
    if leb r.len slice.len
    then (record { ptr = r.ptr; len = r.len }, status_good)
    else (record slice { len = 0 }, status_bad)

module _ {S : Type 0}
    (call : SysCallRequest → Sys S → Outcome (Sys S × Option SysCallSuccess)) where
  unfoldable pub serial_open_port : ℕ → Sys S → Outcome (Sys S × StatusCode)
  serial_open_port port s = and_then (open_port call port s) (λ (s', r). done (s', status r))

  unfoldable pub time_sleep_us : ℕ → Sys S → Outcome (Sys S × StatusCode)
  time_sleep_us us s = and_then (Porcelain.sleep_micros call us s) (λ (s', r). done (s', status r))

  unfoldable pub serial_read_port :
      ℕ → Option SysCallSliceMut → Sys S → Outcome (Sys S × (Option SysCallSliceMut × StatusCode))
  unfolding is_nonnull_nonzero filled
  serial_read_port port none s = done (s, (none, status_bad))
  serial_read_port port (some slice) s =
      if is_nonnull_nonzero slice.ptr slice.len
      then and_then (read_port call port slice s)
          (λ (s', r). done (s', (some (filled slice r).0, (filled slice r).1)))
      else done (s, (some slice, status_bad))

  unfoldable pub serial_read_write :
      ℕ → Option SysCallSlice → Sys S → Outcome (Sys S × (Option SysCallSlice × StatusCode))
  unfolding is_nonnull_nonzero remaining
  serial_read_write port none s = done (s, (none, status_bad))
  serial_read_write port (some slice) s =
      if is_nonnull_nonzero slice.ptr slice.len
      then and_then (write_port call port slice s)
          (λ (s', r). done (s', (some (remaining slice r).0, (remaining slice r).1)))
      else done (s, (some slice, status_bad))
