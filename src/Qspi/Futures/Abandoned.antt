-- ===== src/Qspi/Futures/Abandoned.antt =====
-- A future that is dropped while it waits leaves its operation running.
use pellegrino.Base.{◌≡◌, refl, sym, ap, true, Bool-cases, inl, inr, some, done, done-inj, ◌∙◌}
use pellegrino.Qspi.Registers.{Periph}
use pellegrino.Qspi.{is_aligned}
use pellegrino.Qspi.Discipline.{
  Call, reads, writes, erases, Phase, idle, cleared, busy, broken, watched,
}
use pellegrino.Qspi.Futures.{
  Future, ended, unpolled, waiting, Poll, pending, is_ready, poll_wait, start_read, start_write,
  start_erase, poll,
}

-- An erase is refused without a start where it is not aligned; all else starts.
abbrev pub Starts : Call → Type 0
Starts (reads start ptr len) = Unit {0}
Starts (writes addr ptr len) = Unit {0}
Starts (erases start len) = is_aligned start len ≡ true

-- The first poll starts the operation where the peripheral is idle, and breaks the discipline where it
-- is at work.
abbrev started : Phase → Phase
started idle = busy
started cleared = busy
started busy = broken
started broken = broken

module _ (q : Periph) where
  poll-started :
      (c : Call) (s : q.State) (ph : Phase)
      → Starts c
      → (s' : q.State) × (poll (watched q) (unpolled c) (s, ph)
          ≡ done (poll_wait (watched q) (s', started ph)))
  unfolding poll start_read start_write start_erase
  poll-started (reads start ptr len) s idle h = (start_read q start ptr len s, refl)
  poll-started (reads start ptr len) s cleared h = (start_read q start ptr len s, refl)
  poll-started (reads start ptr len) s busy h = (start_read q start ptr len s, refl)
  poll-started (reads start ptr len) s broken h = (start_read q start ptr len s, refl)
  poll-started (writes addr ptr len) s idle h = (start_write q addr ptr len s, refl)
  poll-started (writes addr ptr len) s cleared h = (start_write q addr ptr len s, refl)
  poll-started (writes addr ptr len) s busy h = (start_write q addr ptr len s, refl)
  poll-started (writes addr ptr len) s broken h = (start_write q addr ptr len s, refl)
  poll-started (erases start len) s idle h = (start_erase q start len s, rw h refl)
  poll-started (erases start len) s cleared h = (start_erase q start len s, rw h refl)
  poll-started (erases start len) s busy h = (start_erase q start len s, rw h refl)
  poll-started (erases start len) s broken h = (start_erase q start len s, rw h refl)

  abbrev Polled : Type 0
  Polled = Future × (Poll × (q.State × Phase))

  poll_wait-pending :
      (s : q.State) (ph : Phase) (t : q.State × Phase)
      → poll_wait (watched q) (s, ph) ≡ (waiting, (pending, t))
      → t.1 ≡ ph
  unfolding poll_wait
  poll_wait-pending s ph t e = elim (Bool-cases (q.ready s).0) [
    | inl set ↦ let wrong : ended ≡ waiting = ap (λ (x : Polled). x.0) (rw set at e) in absurd cc
    | inr unset ↦ sym (ap (λ (x : Polled). x.1.1.1) (rw unset at e))
  ]

  poll_wait-broken :
      (s : q.State)
      → (f : Future) × (r : Poll) × (t : q.State) × (poll_wait (watched q) (s, broken)
          ≡ (f, (r, (t, broken))))
  unfolding poll_wait
  poll_wait-broken s = elim (Bool-cases (q.ready s).0) [
    | inl set ↦ (ended, is_ready (some tt), (q.ready s).1, rw set refl)
    | inr unset ↦ (waiting, pending, (q.ready s).1, rw unset refl)
  ]

  -- A call is polled once on an idle peripheral, which does not answer at once, and its future is
  -- dropped. The next call, whatever it is, starts its operation at its first poll, while the first
  -- one still runs: the discipline is broken. An erase that is refused counts for neither.
  pub poll-abandoned :
      (c c' : Call) (s : q.State) (t : q.State × Phase)
      → Starts c
      → Starts c'
      → poll (watched q) (unpolled c) (s, idle) ≡ done (waiting, (pending, t))
      → (f : Future) × (r : Poll) × (t' : q.State) × (poll (watched q) (unpolled c') t
          ≡ done (f, (r, (t', broken))))
  poll-abandoned c c' s t h h' e =
      let (s1, run) = poll-started c s idle h in
      let at_work : t.1 ≡ busy = poll_wait-pending s1 busy t (done-inj (sym run ∙ e)) in
      let (s2, run') = poll-started c' t.0 busy h' in
      let (f, r, t', last) = poll_wait-broken s2 in
      let same : poll (watched q) (unpolled c') t ≡ poll (watched q) (unpolled c') (t.0, busy) =
        ap (λ ph. poll (watched q) (unpolled c') (t.0, ph)) at_work in
      (f, r, t', same ∙ run' ∙ ap (λ x. done x) last)
