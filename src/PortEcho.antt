-- ===== src/PortEcho.antt =====
-- The application firmware/apps/port-1-echo/src/main.rs, over the library of `Syscall.Porcelain`.
pub mod Wire
pub mod Echoes
pub mod Driver
pub mod RoundTrip
mod Tests
use pellegrino.Base.{ℕ, zero, suc, Option, none, some, replicate, Outcome, done, panic, and_then}
use pellegrino.Syscall.{SysCallSlice, SysCallSliceMut, SysCallRequest, SysCallSuccess, Sys}
use pellegrino.Syscall.Memory.{write}
use pellegrino.Syscall.Porcelain.{open_port, read_port, write_port, sleep_micros}

abbrev pub echo_len : ℕ
echo_len = 128

-- `call` is `try_syscall`, and `buf` the address of the array of 128 bytes.
module _ {S : Type 0} (call : SysCallRequest → Sys S → Outcome (Sys S × Option SysCallSuccess))
    (buf : ℕ) where
  -- What `read_port` gives is written to port one; what is not sent is dropped, and so is an error.
  unfoldable pub pass_on : Option SysCallSliceMut → Sys S → Outcome (Sys S)
  unfolding write_port
  pass_on none s = done s
  pass_on (some d) s =
      and_then (write_port call 1 (record { ptr = d.ptr; len = d.len }) s) (λ (s', r). done s')

  -- The body of the loop.
  unfoldable pub echo_round : Sys S → Outcome (Sys S)
  unfolding pass_on read_port sleep_micros
  echo_round s =
      and_then (read_port call 0 (record { ptr = buf; len = echo_len }) s) (λ (s1, heard).
        and_then (pass_on heard s1)
          (λ s2. and_then (sleep_micros call 10_000 s2) (λ (s3, slept). done s3)))

  -- The loop does not end: this is its state after so many rounds.
  unfoldable pub echo_rounds : ℕ → Sys S → Outcome (Sys S)
  unfolding echo_round
  echo_rounds zero s = done s
  echo_rounds (suc n) s = and_then (echo_round s) (echo_rounds n)

  unfoldable pub entry : ℕ → Sys S → Outcome (Sys S)
  unfolding echo_rounds open_port
  entry n s = and_then (open_port call 1 s) (λ (s', opened). elim opened [
    | none ↦ panic
    | some u ↦ echo_rounds n (record s' { mem = write s'.mem buf (replicate echo_len 0) })
  ])
