-- ===== src/Monotonic/Alarm.antt =====
-- The time that the timer tells, and when its alarm goes off.
use pellegrino.Base.{ℕ, ◌*◌, ◌/◌, ◌%◌, ◌^◌, ◌<◌, ◌≡◌, ap, ◌∙◌, true, false, leb, arith}
use pellegrino.Monotonic.Registers.{Timer, TimerLaws, View, tasks_capture, elapsed, distance}
use pellegrino.Monotonic.{new, reset, now, set_compare, clear_compare_flag}

module _ {t : Timer} (laws : TimerLaws t) where
  open laws use {view}

  -- The timer as it is after its set-up, with its alarm at an instant.
  abbrev set_up : ℕ → t.State → t.State
  set_up i s = clear_compare_flag t (set_compare t i (reset t (new t s)))

  abbrev ready_for : ℕ → View → View
  ready_for i v = record {
    scale = 4;
    width = 32;
    running = true;
    count = 0;
    cc0 = i;
    cc1 = v.cc1;
    interrupt0 = true;
    event0 = false;
  }

  set_up-view : (i : ℕ) (s : t.State) → view (set_up i s) ≡ ready_for i (view s)
  unfolding new reset set_compare clear_compare_flag
  set_up-view i s = simp (laws.view-put)

  -- A timer that does what is documented is set up, reset, and given an alarm at an instant between
  -- zero and 2^32. After any number of microseconds, `now` tells that number modulo 2^32, so that a
  -- tick is a microsecond and the counter wraps at 32 bits; and the event of the alarm is set exactly
  -- where the instant has been reached.
  pub now-alarm :
      (i us : ℕ) (s : t.State)
      → 0 < i
      → i < 2 ^ 32
      → let later = t.elapse us (clear_compare_flag t (set_compare t i (reset t (new t s)))) in
        ((now t later).0 ≡ us % 2 ^ 32) × ((view later).event0 ≡ leb i us)
  unfolding now
  now-alarm i us s pos small =
      let s1 = set_up i s in
      let later = t.elapse us s1 in
      let there : view later ≡ elapsed us (ready_for i (view s)) =
        laws.view-elapse us s1 ∙ ap (elapsed us) (set_up-view i s) in
      let dist : distance (ready_for i (view s)) ≡ i = ground arith in
      (
        laws.read_cc1 (t.put (tasks_capture 1 1) later)
            ∙ ap (λ v. v.cc1) (laws.view-put (tasks_capture 1 1) later)
            ∙ ap (λ (v : View). v.count) there
            ∙ ap (λ k. k % 2 ^ 32) (omega arith),
        ap (λ (v : View). v.event0) there
            ∙ ap (λ k. leb k (us * 16 / 2 ^ 4)) dist
            ∙ ap (leb i) (omega arith),
      )
