-- ===== src/Qspi/Tests.antt =====
-- The flash driver over stand-ins for the peripheral: runs, and the theorems at concrete calls.
use pellegrino.Base.{
  ℕ, zero, suc, sym, inl, inr, ◌∙◌, IfDone, ◌+◌, ◌^◌, ◌<◌, ◌≡◌, ◌↔◌, refl, List, [], ◌∷◌, ◌++◌,
  Bool, true, false, none, done, Returns, arith,
}
use pellegrino.Qspi.Registers.{
  len_4kb, Write, clear_ready, read_dst, read_src, read_cnt, read_start, Periph,
}
use pellegrino.Qspi.{
  wait_done, read, erase, is_aligned, read_status_regs, set_qe, quad_enable, read_slice, slice,
  mapped_base_address, flash_len,
}
use pellegrino.Qspi.Laws.{Kind, clears, starts, sets, configures, kind_of, Within, PeriphLaws}
use pellegrino.Qspi.Discipline.{
  Phase, idle, busy, broken, watched, AtRest, reads, writes, erases, calls, calls-idle,
}
use pellegrino.Qspi.Futures.{
  Future, unpolled, Poll, poll, poll_wait, start_read, poll_on, at_once, poll_on-at_once,
}
use pellegrino.Qspi.Futures.Abandoned.{poll-abandoned}
use pellegrino.Qspi.QuadEnable.{quad_enable-IsBroken}
use pellegrino.Qspi.Bounds.{read_slice_iff}

-- Its state is the list of what was written.
abbrev logging : Periph
logging = record {
  State = List Write;
  put = λ w s. s ++ w ∷ [];
  ready = λ s. (true, s);
  byte0 = λ s. 2;
}

-- Its state is the ready flag, and how many polls the running operation still takes.
abbrev on_kind : Kind → Bool × ℕ → Bool × ℕ
on_kind clears (set, left) = (false, left)
on_kind starts (set, left) = (set, 2)
on_kind sets s = s
on_kind configures s = s

abbrev look : Bool × ℕ → Bool × (Bool × ℕ)
look (set, zero) = (set, (set, zero))
look (set, suc zero) = (set, (true, zero))
look (set, suc (suc left)) = (set, (set, suc left))

abbrev timed : Periph
timed = record {
  State = Bool × ℕ;
  put = λ w s. on_kind (kind_of w) s;
  ready = look;
  byte0 = λ s. 2;
}

look-zero : (set : Bool) (left : ℕ) → left ≡ 0 → (look (set, left)).0 ≡ set
look-zero set zero e = refl
look-zero set (suc left) e = absurd (omega arith)

timed-ends :
    (set : Bool) (left : ℕ)
    → left ≡ 0
    → (look (set, left)).0 ≡ false
    → Within timed (λ (s : Bool × ℕ). (s.1 ≡ 0) × ((look s).0 ≡ true)) 3 (set, 2)
timed-ends true zero e clear = absurd (cc)
timed-ends false zero e clear = inr (refl, inr (refl, inl (refl, (refl, refl))))
timed-ends set (suc left) e clear = absurd (omega arith)

abbrev timed_laws : PeriphLaws timed
timed_laws = record {
  polls = 3;
  IsIdle = λ (set, left). left ≡ 0;
  sets_register = λ w s kind rests. rw kind (rests, refl);
  clears_flag = λ (set, left) rests. (rests, look-zero false left rests);
  ends = λ w (set, left) kind rests clear. rw kind (timed-ends set left rests clear);
  stays_set = λ w (set, left) kind rests flag. rw kind (sym (look-zero set left rests) ∙ flag);
}

read_log :
    read logging 1 0x100 0x2000_0000 64 []
    ≡ done (read_dst 0x2000_0000 ∷ read_src 0x100 ∷ read_cnt 64 ∷ clear_ready ∷ read_start ∷ [])
unfolding read wait_done
read_log = refl

erase_unaligned : erase logging 1 0x100 len_4kb [] ≡ done none
unfolding erase is_aligned
erase_unaligned = refl

-- A slice of two bytes, the second behind the flash.
slice_behind : read_slice 0xFF_FFFF 2 ≡ slice 0x12FF_FFFF 2
unfolding read_slice
slice_behind = refl

calls-idle_example : Returns (AtRest timed_laws 3 (omega arith)) (
    calls
      (watched timed)
      3
      (erases 0 len_4kb ∷ writes 0 0x2000_0000 256 ∷ reads 0 0x2000_0000 64 ∷ [])
      ((true, 0), idle))
calls-idle_example =
    calls-idle timed_laws 3 (omega arith)
      (erases 0 len_4kb ∷ writes 0 0x2000_0000 256 ∷ reads 0 0x2000_0000 64 ∷ []) (true, 0) refl

quad_enable-IsBroken_example :
    ((status : ℕ × ℕ) × (s1 s2 : Bool × ℕ) × (read_status_regs
          (watched timed)
          3
          ((watched timed).put clear_ready ((false, 0), idle))
        ≡ done (status, (s1, idle)))
      × (set_qe (watched timed) 1 status (s1, idle) ≡ done (s2, broken)))
    × IfDone
        (λ (r : (Bool × ℕ) × Phase). r.1 ≡ broken)
        (quad_enable (watched timed) 3 ((false, 0), idle))
quad_enable-IsBroken_example = quad_enable-IsBroken timed_laws 3 (omega arith) (false, 0) refl

read_slice_iff_example :
    (read_slice 0xFF_FFFF 2 ≡ slice (0xFF_FFFF + mapped_base_address) 2)
    ↔ ((0xFF_FFFF < flash_len) × (0xFF_FFFF + 2 + flash_len + 1 < 2 ^ 32))
read_slice_iff_example = read_slice_iff 0xFF_FFFF 2 (omega arith)

-- A peripheral that takes one poll to be ready, counted from each start.
abbrev slow : Periph
slow = record { State = Bool; put = λ w s. false; ready = λ s. (s, true); byte0 = λ s. 2 }

poll_on-at_once_example :
    poll_on slow 2 (unpolled (erases 0x1000 len_4kb)) false
    ≡ at_once slow 2 (erases 0x1000 len_4kb) false
poll_on-at_once_example = poll_on-at_once slow 1 (erases 0x1000 len_4kb) false

poll-abandoned_example :
    (f : Future) × (r : Poll) × (t' : Bool) × (poll
        (watched slow)
        (unpolled (writes 0 0x2000_0000 256))
        (true, busy)
      ≡ done (f, (r, (t', broken))))
unfolding poll
poll-abandoned_example =
    poll-abandoned slow (reads 0 0x2000_0000 64) (writes 0 0x2000_0000 256) true (true, busy) tt tt
      (unfold poll_wait start_read in refl)
