-- ===== src/Monotonic.antt =====
-- The timer that the tasks are scheduled by, firmware/kernel/src/monotonic.rs: `MonoTimer` over the
-- registers of a 32-bit timer.
pub mod Registers
pub mod Alarm
mod Tests
use pellegrino.Base.{ℕ}
use Registers.{
  Timer, prescaler, bitmode, intenset_compare0, tasks_clear, tasks_start, tasks_capture, cc,
  events_compare,
}

-- An instant is its number of ticks. The tests of the alarm are those of the crate `rtic`.
module _ (t : Timer) where
  unfoldable pub new : t.State → t.State
  new s = t.put (bitmode 32) (t.put (prescaler 4) s)

  unfoldable pub reset : t.State → t.State
  reset s = t.put (tasks_start 1) (t.put (tasks_clear 1) (t.put intenset_compare0 s))

  unfoldable pub now : t.State → ℕ × t.State
  now s = let s' = t.put (tasks_capture 1 1) s in (t.read_cc 1 s', s')

  unfoldable pub set_compare : ℕ → t.State → t.State
  set_compare instant s = t.put (cc 0 instant) s

  unfoldable pub clear_compare_flag : t.State → t.State
  clear_compare_flag s = t.put (events_compare 0 0) s

-- `zero()`
abbrev pub zero_instant : ℕ
zero_instant = 0
