-- ===== src/Monotonic/Registers.antt =====
-- The timer of the microcontroller: its registers as firmware/kernel/src/monotonic.rs writes them, and
-- what they are documented to do.
use pellegrino.Base.{
  ℕ, ◌+◌, ◌-◌, ◌*◌, ◌/◌, ◌%◌, ◌^◌, ◌≡◌, Bool, true, false, ◌||◌, ◌&&◌, leb, ◌==◌, if◌then◌else◌,
}

-- An element of an array of registers has its index, and then the bits that are written to it.
pub data Write : Type 0 where
  prescaler : ℕ → Write
  bitmode : ℕ → Write
  intenset_compare0 : Write
  tasks_clear : ℕ → Write
  tasks_start : ℕ → Write
  tasks_capture : (channel bits : ℕ) → Write
  cc : (channel bits : ℕ) → Write
  events_compare : (channel bits : ℕ) → Write

-- `elapse` is the passing of so many microseconds.
pub record Timer : Type 1 where
  pub State : Type 0
  pub put : Write → State → State
  pub read_cc : ℕ → State → ℕ
  pub elapse : ℕ → State → State

-- What can be seen of a timer, with the two channels that are used.
pub record View : Type 0 where
  pub scale : ℕ
  pub width : ℕ
  pub running : Bool
  pub count : ℕ
  pub cc0 : ℕ
  pub cc1 : ℕ
  pub interrupt0 : Bool
  pub event0 : Bool

abbrev pub written : Write → View → View
written (prescaler n) v = record v { scale = n }
written (bitmode n) v = record v { width = n }
written intenset_compare0 v = record v { interrupt0 = true }
written (tasks_clear b) v = if b == 1 then record v { count = 0 } else v
written (tasks_start b) v = if b == 1 then record v { running = true } else v
written (tasks_capture c b) v = if (c == 1) && (b == 1) then record v { cc1 = v.count } else v
written (cc c n) v = if c == 0 then record v { cc0 = n } else v
written (events_compare c b) v = if (c == 0) && (b == 0) then record v { event0 = false } else v

-- The ticks of so many microseconds, of a clock of 16 MHz.
abbrev pub ticks : View → ℕ → ℕ
ticks v us = us * 16 / 2 ^ v.scale

-- The ticks until the counter is where channel 0 is compared: a whole turn where it is there now.
abbrev pub distance : View → ℕ
distance v =
    let d = (v.cc0 + 2 ^ v.width - v.count) % 2 ^ v.width in if d == 0 then 2 ^ v.width else d

abbrev pub elapsed : ℕ → View → View
elapsed us v =
    if v.running
    then record v {
      count = (v.count + ticks v us) % 2 ^ v.width;
      event0 = v.event0 || leb (distance v) (ticks v us);
    }
    else v

pub record TimerLaws (t : Timer) : Type 0 where
  pub view : t.State → View
  pub view-put : (w : Write) (s : t.State) → view (t.put w s) ≡ written w (view s)
  pub read_cc1 : (s : t.State) → t.read_cc 1 s ≡ (view s).cc1
  pub view-elapse : (us : ℕ) (s : t.State) → view (t.elapse us s) ≡ elapsed us (view s)
