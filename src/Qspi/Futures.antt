-- ===== src/Qspi/Futures.antt =====
-- The futures of `read`, `write` and `erase`, poll by poll, as the bring-up programs run them:
-- firmware/pelle-bringup/src/qspi.rs, and the loops over `poll_on` of
-- firmware/pelle-bringup/src/bin/qspi.rs. The body of an `async fn` runs up to its wait at the first
-- poll, and not before.
pub mod Abandoned
use pellegrino.Base.{
  ℕ, zero, suc, ◌≡◌, refl, List, [], ◌∷◌, Option, none, some, Bool-cases, inl, inr, if◌then◌else◌,
  Outcome, done, panic, undefined, out_of_fuel, and_then, ◌∙◌,
}
use pellegrino.Qspi.Registers.{
  EraseLength, Write, clear_ready, read_dst, read_src, read_cnt, read_start, write_dst, write_src,
  write_cnt, write_start, erase_ptr, erase_len, erase_start, Periph, put_all,
}
use pellegrino.Qspi.{is_aligned, wait_done, read, write, erase}
use pellegrino.Qspi.Discipline.{Call, reads, writes, erases}

-- A future that was not polled yet, one that waits for the ready flag, and one that has ended.
pub data Future : Type 0 where
  unpolled : Call → Future
  waiting : Future
  ended : Future

-- `some tt` is `Ok(())`, and `none` the error for a start that is not aligned.
pub data Poll : Type 0 where
  pending : Poll
  is_ready : Option (Unit {0}) → Poll

module _ (q : Periph) where
  -- The closure of `wait_done`, and the end of the function behind it.
  unfoldable pub poll_wait : q.State → Future × (Poll × q.State)
  poll_wait s =
      let (set, s') = q.ready s in
      if set then (ended, (is_ready (some tt), s')) else (waiting, (pending, s'))

  -- What is written up to the start of the operation.
  unfoldable pub start_read : (start ptr len : ℕ) → q.State → q.State
  start_read start ptr len =
      put_all q (read_dst ptr ∷ read_src start ∷ read_cnt len ∷ clear_ready ∷ read_start ∷ [])

  unfoldable pub start_write : (addr ptr len : ℕ) → q.State → q.State
  start_write addr ptr len =
      put_all q (write_dst addr ∷ write_src ptr ∷ write_cnt len ∷ clear_ready ∷ write_start ∷ [])

  unfoldable pub start_erase : (start : ℕ) → EraseLength → q.State → q.State
  start_erase start len =
      put_all q (erase_ptr start ∷ erase_len len ∷ clear_ready ∷ erase_start ∷ [])

  -- A future that has ended must not be polled again: it panics.
  unfoldable pub poll : Future → q.State → Outcome (Future × (Poll × q.State))
  unfolding poll_wait start_read start_write start_erase is_aligned
  poll (unpolled (reads start ptr len)) s = done (poll_wait (start_read start ptr len s))
  poll (unpolled (writes addr ptr len)) s = done (poll_wait (start_write addr ptr len s))
  poll (unpolled (erases start len)) s =
      if is_aligned start len
      then done (poll_wait (start_erase start len s))
      else done (ended, (is_ready none, s))
  poll waiting s = done (poll_wait s)
  poll ended s = panic

  -- `while cas.poll_on().is_none() { }`
  unfoldable pub poll_on : ℕ → Future → q.State → Outcome (Option (Unit {0}) × q.State)
  unfolding poll
  poll_on zero f s = out_of_fuel
  poll_on (suc n) f s =
      and_then (poll f s) (λ (f', (r, s')). elim r [
        | pending ↦ poll_on n f' s'
        | is_ready result ↦ done (result, s')
      ])

  -- The same call, waited for in one go.
  abbrev pub at_once : ℕ → Call → q.State → Outcome (Option (Unit {0}) × q.State)
  at_once n (reads start ptr len) s = and_then (read q n start ptr len s) (λ s'. done (some tt, s'))
  at_once n (writes addr ptr len) s = and_then (write q n addr ptr len s) (λ s'. done (some tt, s'))
  at_once n (erases start len) s =
      and_then (erase q n start len s)
        (λ r. elim r [ none ↦ done (none, s) | some s' ↦ done (some tt, s') ])

  -- Once it waits, a future is the loop over the flag.
  poll_on-waiting :
      (n : ℕ) (s : q.State)
      → poll_on n waiting s ≡ and_then (wait_done q n s) (λ s'. done (some tt, s'))
  unfolding poll_on wait_done
  poll_on-waiting zero s = refl
  poll_on-waiting (suc n) s = elim (Bool-cases (q.ready s).0) [
    | inl set ↦ rw (poll_on, wait_done, set) refl
    | inr unset ↦ rw (poll_on, wait_done, unset) (poll_on-waiting n (q.ready s).1)
  ]

  pub erased :
      (s : q.State) (o : Outcome q.State)
      → and_then {B = Option (Unit {0}) × q.State} o (λ s'. done (some tt, s'))
        ≡ and_then
            (and_then {B = Option q.State} o (λ s'. done (some s')))
            (λ r. elim r [ none ↦ done (none, s) | some s' ↦ done (some tt, s') ])
  erased s (done s') = refl
  erased s panic = refl
  erased s undefined = refl
  erased s out_of_fuel = refl

  -- Whatever the call, polling its future until it is ready is the call that waits in one go, with as
  -- many polls: the same writes and polls in the same order, the same result, and the same fuel.
  pub poll_on-at_once :
      (n : ℕ) (c : Call) (s : q.State) → poll_on (suc n) (unpolled c) s ≡ at_once (suc n) c s
  unfolding poll_on read write erase start_read start_write start_erase
  poll_on-at_once n (reads start ptr len) s = poll_on-waiting (suc n) (start_read start ptr len s)
  poll_on-at_once n (writes addr ptr len) s = poll_on-waiting (suc n) (start_write addr ptr len s)
  poll_on-at_once n (erases start len) s = elim (Bool-cases (is_aligned start len)) [
    | inl fits ↦
        rw (poll_on, erase, fits)
          (poll_on-waiting (suc n) (start_erase start len s)
            ∙ erased s (wait_done q (suc n) (start_erase start len s)))
    | inr odd ↦ rw (poll_on, odd) refl
  ]
