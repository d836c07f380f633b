-- ===== src/Qspi/Discipline.antt =====
-- One operation at a time: what the driver may write while the peripheral is at work.
use mathlib.Core.Path.{subst}
use pellegrino.Base.{
  ℕ, zero, suc, ◌≤◌, ◌≡◌, inl, inr, refl, sym, List, [], ◌∷◌, none, some, true, false, Bool-cases,
  if◌then◌else◌, Outcome, done, and_then, Returns, Returns-map, Returns-and_then, Returns-done,
  IfDone,
}
use pellegrino.Qspi.Registers.{
  EraseLength, Write, clear_ready, read_dst, read_src, read_cnt, read_start, write_dst, write_src,
  write_cnt, write_start, erase_ptr, erase_len, erase_start, Periph, put_all,
}
use pellegrino.Qspi.{is_aligned, wait_done, read, write, erase}
use pellegrino.Qspi.Laws.{
  Kind, clears, starts, sets, configures, kind_of, PeriphLaws, wait_done-Within,
}

-- Whether the peripheral is idle, idle with its ready flag clear, at work, or was misused.
pub data Phase : Type 0 where
  idle cleared busy broken : Phase

-- An operation may start only where the flag was cleared, and nothing may be written while it runs.
abbrev pub allow : Phase → Kind → Phase
allow idle clears = cleared
allow idle sets = idle
allow idle configures = idle
allow idle starts = broken
allow cleared clears = cleared
allow cleared sets = cleared
allow cleared configures = cleared
allow cleared starts = busy
allow busy k = broken
allow broken k = broken

-- The flag is seen set: the operation has ended.
abbrev pub see : Phase → Phase
see idle = idle
see cleared = cleared
see busy = idle
see broken = broken

-- A peripheral with this watch beside it.
abbrev pub watched : Periph → Periph
watched q = record {
  State = q.State × Phase;
  put = λ w (s, ph). (q.put w s, allow ph (kind_of w));
  ready = λ (s, ph). let (r, s') = q.ready s in (r, (s', if r then see ph else ph));
  byte0 = λ (s, ph). q.byte0 s;
}

-- The calls of the driver's users, one after the other. An erase that is refused is an error to its
-- caller, who may go on.
pub data Call : Type 0 where
  reads writes : (addr ptr len : ℕ) → Call
  erases : (start : ℕ) → EraseLength → Call

unfoldable pub call : (q : Periph) → ℕ → Call → q.State → Outcome q.State
unfolding read write erase
call q polls (reads addr ptr len) s = read q polls addr ptr len s
call q polls (writes addr ptr len) s = write q polls addr ptr len s
call q polls (erases start len) s =
    and_then (erase q polls start len s) (λ r. elim r [ none ↦ done s | some s' ↦ done s' ])

unfoldable pub calls : (q : Periph) → ℕ → List Call → q.State → Outcome q.State
unfolding call
calls q polls [] s = done s
calls q polls (c ∷ cs) s = and_then (call q polls c s) (calls q polls cs)

-- A wait under the watch.
module _ (q : Periph) where
  pub wait_done-see :
      (P : q.State → Type 0) (n : ℕ) (s : q.State) (ph : Phase)
      → Returns P (wait_done q n s)
      → Returns (λ (r : q.State × Phase). (r.1 ≡ see ph) × P r.0) (wait_done (watched q) n (s, ph))
  unfolding wait_done
  wait_done-see P zero s ph h = absurd h
  wait_done-see P (suc n) s ph h = elim (Bool-cases (q.ready s).0) [
    | inl set ↦ rw (wait_done, set) (refl, rw (wait_done, set) at h)
    | inr unset ↦
        rw (wait_done, unset) (wait_done-see P n (q.ready s).1 ph (rw (wait_done, unset) at h))
  ]

  pub wait_done-sees :
      (n : ℕ) (s : q.State) (ph : Phase)
      → IfDone (λ (r : q.State × Phase). r.1 ≡ see ph) (wait_done (watched q) n (s, ph))
  unfolding wait_done
  wait_done-sees zero s ph = tt
  wait_done-sees (suc n) s ph = elim (Bool-cases (q.ready s).0) [
    | inl set ↦ rw (wait_done, set) refl
    | inr unset ↦ rw (wait_done, unset) (wait_done-sees n (q.ready s).1 ph)
  ]

module _ {q : Periph} (laws : PeriphLaws q) (polls : ℕ) (enough : laws.polls ≤ polls) where
  open laws use {IsIdle}

  abbrev pub IsSignalled : q.State → Type 0
  IsSignalled s = IsIdle s × ((q.ready s).0 ≡ true)

  -- Idle, and idle to the watch.
  abbrev pub AtRest : q.State × Phase → Type 0
  AtRest (s, ph) = (ph ≡ idle) × IsIdle s

  abbrev pub Ended : q.State × Phase → Type 0
  Ended (s, ph) = (ph ≡ idle) × IsSignalled s

  -- An operation, started where the flag was just cleared, and waited for.
  pub ends-idle :
      (w : Write) (s : q.State)
      → kind_of w ≡ starts
      → IsIdle s
      → (q.ready s).0 ≡ false
      → Returns Ended (wait_done (watched q) polls (q.put w s, busy))
  ends-idle w s kind rests clear = wait_done-see q IsSignalled polls (q.put w s) busy (
      wait_done-Within q IsSignalled laws.polls polls (q.put w s) enough
        (laws.ends w s kind rests clear))

  start-idle :
      (w : Write) (s : q.State)
      → kind_of w ≡ starts
      → IsIdle s
      → Returns AtRest (wait_done (watched q) polls (put_all q (clear_ready ∷ w ∷ []) s, busy))
  start-idle w s kind rests =
      let (rests', clear) = laws.clears_flag s rests in
      Returns-map Ended AtRest _ (ends-idle w (q.put clear_ready s) kind rests' clear)
        (λ r h. (h.0, h.1.0))

  pub sets-idle : (w : Write) (s : q.State) → kind_of w ≡ sets → IsIdle s → IsIdle (q.put w s)
  sets-idle w s kind rests = (laws.sets_register w s kind rests).0

  call-idle :
      (c : Call) (s : q.State) → IsIdle s → Returns AtRest (call (watched q) polls c (s, idle))
  unfolding call read write erase
  call-idle (reads addr ptr len) s rests =
      start-idle read_start (put_all q (read_dst ptr ∷ read_src addr ∷ read_cnt len ∷ []) s) refl (
        sets-idle (read_cnt len) _ refl
          (sets-idle (read_src addr) _ refl (sets-idle (read_dst ptr) s refl rests)))
  call-idle (writes addr ptr len) s rests =
      start-idle write_start (put_all q (write_dst addr ∷ write_src ptr ∷ write_cnt len ∷ []) s)
        refl
        (sets-idle (write_cnt len) _ refl
          (sets-idle (write_src ptr) _ refl (sets-idle (write_dst addr) s refl rests)))
  call-idle (erases start len) s rests = elim (Bool-cases (is_aligned start len)) [
    | inr unset ↦ rw unset (refl, rests)
    | inl set ↦
        let (r, e, h) = Returns-done AtRest _ (
          start-idle erase_start (put_all q (erase_ptr start ∷ erase_len len ∷ []) s) refl
            (sets-idle (erase_len len) _ refl (sets-idle (erase_ptr start) s refl rests))) in
        rw (set, e) h
  ]

  -- On a peripheral that does what is documented, enabled and with no operation running, and with
  -- polls enough for an operation to end: whatever reads, writes and erases are called, they all
  -- return, and the peripheral is enabled with no operation running again. The driver has then written
  -- nothing while an operation was running, has cleared the flag before it started each, and has seen
  -- it set before it returned.
  pub calls-idle :
      (cs : List Call) (s : q.State)
      → IsIdle s
      → Returns AtRest (calls (watched q) polls cs (s, idle))
  unfolding calls
  calls-idle [] s rests = (refl, rests)
  calls-idle (c ∷ cs) s rests =
      Returns-and_then AtRest AtRest (call (watched q) polls c (s, idle)) _ (call-idle c s rests)
        (λ (s', ph) (h, rests').
          subst (λ k. Returns AtRest (calls (watched q) polls cs (s', k))) (sym h)
            (calls-idle cs s' rests'))
