-- ===== src/Syscall/Capi/Bounds.antt =====
-- The slices that the C functions give back, whatever the kernel answers.
use pellegrino.Base.{
  ℕ, ◌≤◌, ◌+◌, ◌≡◌, ◌⊎◌, inl, inr, refl, leb, leb→le, Bool-cases, Option, none, some, Outcome, done,
  arith,
}
use pellegrino.Syscall.{
  SysCallSlice, SysCallSliceMut, SysCallRequest, serial_receive, SysCallSuccess, port_opened,
  data_received, data_sent, slept_micros, Sys,
}
use pellegrino.Syscall.Porcelain.{read_port, received}
use pellegrino.Syscall.Capi.{StatusCode, status_bad, is_nonnull_nonzero, filled, serial_read_port}

-- A slice that does not reach beyond the one before: it lies within it, or it is empty.
abbrev pub IsWithin : SysCallSlice → SysCallSlice → Type 0
IsWithin new old = (new.len ≡ 0) ⊎ ((old.ptr ≤ new.ptr) × (new.ptr + new.len ≡ old.ptr + old.len))

module _ {S : Type 0}
    (call : SysCallRequest → Sys S → Outcome (Sys S × Option SysCallSuccess)) where
  filled-le :
      (slice : SysCallSliceMut) (r : SysCallSuccess)
      → let new = (filled slice (received slice r)).0 in
        (new.ptr ≡ slice.ptr) × (new.len ≤ slice.len)
  unfolding filled received
  filled-le slice port_opened = (refl, omega arith)
  filled-le slice (data_received d) = elim (Bool-cases (leb d.len slice.len)) [
    | inl fits ↦ rw (fits, fits) (refl, leb→le _ _ fits)
    | inr long ↦ rw long (refl, omega arith)
  ]
  filled-le slice (data_sent r) = (refl, omega arith)
  filled-le slice (slept_micros us) = (refl, omega arith)

  -- Whatever the kernel answers, `serial_read_port` returns, and leaves the slice where it was and no
  -- longer than it was.
  pub serial_read_port-le :
      (port : ℕ) (slice : SysCallSliceMut) (s s1 : Sys S) (r : Option SysCallSuccess)
      → call (serial_receive port slice) s ≡ done (s1, r)
      → (s' : Sys S) × (new : SysCallSliceMut) × (code : StatusCode) × (serial_read_port call port
            (some slice)
            s
          ≡ done (s', (some new, code)))
        × (new.ptr ≡ slice.ptr)
        × (new.len ≤ slice.len)
  unfolding serial_read_port read_port
  serial_read_port-le port slice s s1 none e =
      elim (Bool-cases (is_nonnull_nonzero slice.ptr slice.len)) [
        | inl some_bytes ↦ (
          s1,
          record slice { len = 0 },
          status_bad,
          rw (some_bytes, read_port, e),
          refl,
          omega arith,
        )
        | inr no_bytes ↦ (s, slice, status_bad, rw no_bytes, refl, omega arith)
      ]
  serial_read_port-le port slice s s1 (some resp) e =
      elim (Bool-cases (is_nonnull_nonzero slice.ptr slice.len)) [
        | inl some_bytes ↦
            let got = filled slice (received slice resp) in
            (
              s1,
              got.0,
              got.1,
              rw (some_bytes, read_port, e),
              (filled-le slice resp).0,
              (filled-le slice resp).1,
            )
        | inr no_bytes ↦ (s, slice, status_bad, rw no_bytes, refl, omega arith)
      ]
