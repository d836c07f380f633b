-- ===== src/Monotonic/Tests.antt =====
-- The timer over one that is no more than its registers.
use pellegrino.Base.{◌%◌, ◌^◌, ◌≡◌, refl, true, false, leb, arith}
use pellegrino.Monotonic.Registers.{Timer, TimerLaws, View, written, elapsed}
use pellegrino.Monotonic.{new, reset, now, set_compare, clear_compare_flag}
use pellegrino.Monotonic.Alarm.{now-alarm}

abbrev registers : Timer
registers = record { State = View; put = written; read_cc = λ c v. v.cc1; elapse = elapsed }

registers_laws : TimerLaws registers
registers_laws = record {
  view = λ v. v;
  view-put = λ w s. refl;
  read_cc1 = λ s. refl;
  view-elapse = λ us s. refl;
}

abbrev at_reset : View
at_reset = record {
  scale = 0;
  width = 16;
  running = false;
  count = 77;
  cc0 = 0;
  cc1 = 0;
  interrupt0 = false;
  event0 = true;
}

now-alarm_example :
    let later = elapsed 100 (
      clear_compare_flag registers
        (set_compare registers 100 (reset registers (new registers at_reset)))) in
    ((now registers later).0 ≡ 100 % 2 ^ 32) × (later.event0 ≡ leb 100 100)
unfolding registers_laws
now-alarm_example = now-alarm registers_laws 100 100 at_reset (omega arith) (omega arith)
