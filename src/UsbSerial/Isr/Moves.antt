-- ===== src/UsbSerial/Isr/Moves.antt =====
-- The bytes that `poll` moves.
use mathlib.Core.Path.{subst}
use pellegrino.Base.{
  ℕ, ◌≡◌, ◌≢◌, refl, sym, ap, ◌∙◌, List, ◌++◌, append_assoc, append-nil, take-append-drop,
  Option-cases, some, ltb, Bool-cases, inl, inr, take, drop, done, IfDone, IfDone-and_then,
  IfDone-map, arith,
}
use pellegrino.UsbSerial.External.{
  BbQueue, BbQueueLaws, Grant, granted, insufficient_size, grant_error,
}
use pellegrino.UsbSerial.Isr.{
  UsbResult, moved, would_block, usb_error, UsbPort, UsbPortLaws, UsbUartIsr, written, send_out,
  filled, take_in, poll,
}

module _ {b : BbQueue} {u : UsbPort} (queues : BbQueueLaws b) (port : UsbPortLaws u) where
  -- The bytes on their way to the host, and those on their way from it.
  abbrev pub outgoing : UsbUartIsr b u → List ℕ
  outgoing s = port.taken s.ser ++ queues.contents s.out

  abbrev pub incoming : UsbUartIsr b u → List ℕ
  incoming s = queues.contents s.inc ++ port.waiting s.ser

  abbrev Kept : UsbUartIsr b u → UsbUartIsr b u → Type 0
  Kept s s' = (outgoing s' ≡ outgoing s) × (incoming s' ≡ incoming s)

  written-Kept :
      (s : UsbUartIsr b u) (rgr : List ℕ)
      → b.read s.out ≡ some rgr
      → (r : UsbResult) → (u.write rgr s.ser).1 ≡ r
      → IfDone (Kept s) (written s rgr (u.write rgr s.ser).0 r)
  unfolding written
  written-Kept s rgr e (moved sz) w = elim (Bool-cases (ltb 0 sz)) [
    | inl some_bytes ↦
        let (le, taken) = port.taken-moved s.ser rgr sz w in
        let (rest, split, pos) = queues.reads s.out rgr e in
        let released = queues.contents-release s.out rgr rest sz e split le in
        rw some_bytes (
          rw (taken, released)
              (append_assoc (port.taken s.ser) (take sz rgr) (drop sz rgr ++ rest)
                ∙ ap (λ x. port.taken s.ser ++ x)
                    (sym (append_assoc (take sz rgr) (drop sz rgr) rest)
                      ∙ ap (λ x. x ++ rest) (take-append-drop sz rgr)
                      ∙ sym split)),
          ap (λ x. queues.contents s.inc ++ x) (port.waiting-write s.ser rgr),
        )
    | inr no_bytes ↦
        let (le, taken) = port.taken-moved s.ser rgr sz w in
        let none_taken : sz ≡ 0 = ground arith in
        let same : port.taken (u.write rgr s.ser).0 ≡ port.taken s.ser =
          taken
          ∙ ap (λ k. port.taken s.ser ++ take k rgr) none_taken
          ∙ append-nil (port.taken s.ser) in
        rw no_bytes (
          ap (λ x. x ++ queues.contents s.out) same,
          ap (λ x. queues.contents s.inc ++ x) (port.waiting-write s.ser rgr),
        )
  ]
  written-Kept s rgr e would_block w = (
    ap (λ x. x ++ queues.contents s.out) (port.taken-blocked s.ser rgr w),
    ap (λ x. queues.contents s.inc ++ x) (port.waiting-write s.ser rgr),
  )
  written-Kept s rgr e usb_error w = tt

  send_out-Kept : (s : UsbUartIsr b u) → IfDone (Kept s) (send_out s)
  unfolding send_out
  send_out-Kept s = elim (Option-cases (b.read s.out)) [
    | inl e ↦ rw (send_out, e) (refl, refl)
    | inr (rgr, e) ↦ rw (send_out, e) (written-Kept s rgr e (u.write rgr s.ser).1 refl)
  ]

  filled-Kept :
      (s : UsbUartIsr b u) (w : List ℕ)
      → b.grant_max_remaining s.inc 128 ≡ granted w
      → (r : UsbResult) → (u.read w s.ser).1.1 ≡ r
      → IfDone (Kept s) (filled s (u.read w s.ser).1.0 (u.read w s.ser).0 r)
  unfolding filled
  filled-Kept s w e (moved sz) got = elim (Bool-cases (ltb 0 sz)) [
    | inl some_bytes ↦
        let (le, same, split) = port.waiting-moved s.ser w sz got in
        let w' = (u.read w s.ser).1.0 in
        let committed = queues.contents-commit s.inc 128 sz w w' e same le in
        rw some_bytes (
          ap (λ x. x ++ queues.contents s.out) (port.taken-read s.ser w),
          rw committed (
              append_assoc (queues.contents s.inc) (take sz w') (port.waiting (u.read w s.ser).0)
              ∙ ap (λ x. queues.contents s.inc ++ x) (sym split)),
        )
    | inr no_bytes ↦
        let (le, same, split) = port.waiting-moved s.ser w sz got in
        let none_there : 0 ≡ sz = ground arith in
        let still : port.waiting (u.read w s.ser).0 ≡ port.waiting s.ser =
          ap (λ k. take k (u.read w s.ser).1.0 ++ port.waiting (u.read w s.ser).0) none_there
          ∙ sym split in
        rw no_bytes (
          ap (λ x. x ++ queues.contents s.out) (port.taken-read s.ser w),
          ap (λ x. queues.contents s.inc ++ x) still,
        )
  ]
  filled-Kept s w e would_block got = (
    ap (λ x. x ++ queues.contents s.out) (port.taken-read s.ser w),
    ap (λ x. queues.contents s.inc ++ x) (port.waiting-blocked s.ser w got),
  )
  filled-Kept s w e usb_error got = tt

  take_in-Kept :
      (s : UsbUartIsr b u) (g : Grant)
      → b.grant_max_remaining s.inc 128 ≡ g
      → IfDone (Kept s) (take_in s g)
  unfolding take_in
  take_in-Kept s insufficient_size e = (refl, refl)
  take_in-Kept s grant_error e = (refl, refl)
  take_in-Kept s (granted w) e = filled-Kept s w e (u.read w s.ser).1.1 refl

  -- What `poll` leaves: nothing on the way to the host is lost, repeated or reordered, and what is on
  -- the way from it is as before, with the bytes that came in behind.
  abbrev pub Moves : UsbUartIsr b u → UsbUartIsr b u → Type 0
  Moves s s' = (outgoing s' ≡ outgoing s) × (new : List ℕ) × (incoming s' ≡ incoming s ++ new)

  if_poll-Moves : (s : UsbUartIsr b u) → IfDone (Moves s) (poll s)
  unfolding poll
  if_poll-Moves s =
      let polled : UsbUartIsr b u = record s { ser = u.poll s.ser } in
      let (new, arrived) = port.waiting-poll s.ser in
      IfDone-and_then (Kept polled) (Moves s) (send_out polled) _ (send_out-Kept polled)
        (λ s1 (o1, i1).
          IfDone-map (Kept s1) (Moves s) (take_in s1 (b.grant_max_remaining s1.inc 128))
            (take_in-Kept s1 (b.grant_max_remaining s1.inc 128) refl)
            (λ s2 (o2, i2). (
              o2 ∙ o1 ∙ ap (λ x. x ++ queues.contents s.out) (port.taken-poll s.ser),
              new,
              i2
                  ∙ i1
                  ∙ ap (λ x. queues.contents s.inc ++ x) arrived
                  ∙ sym (append_assoc (queues.contents s.inc) (port.waiting s.ser) new),
            )))

  written-done :
      (s : UsbUartIsr b u) (rgr : List ℕ) (ser : u.State) (r : UsbResult)
      → r ≢ usb_error
      → (s' : UsbUartIsr b u) × (written s rgr ser r ≡ done s')
  unfolding written
  written-done s rgr ser (moved sz) ne = elim (Bool-cases (ltb 0 sz)) [
    | inl some_bytes ↦ (record s { ser = ser; out = b.release s.out sz }, rw some_bytes)
    | inr no_bytes ↦ (record s { ser = ser }, rw no_bytes)
  ]
  written-done s rgr ser would_block ne = (record s { ser = ser }, refl)
  written-done s rgr ser usb_error ne = absurd (ne refl)

  filled-done :
      (s : UsbUartIsr b u) (w : List ℕ) (ser : u.State) (r : UsbResult)
      → r ≢ usb_error
      → (s' : UsbUartIsr b u) × (filled s w ser r ≡ done s')
  unfolding filled
  filled-done s w ser (moved sz) ne = elim (Bool-cases (ltb 0 sz)) [
    | inl some_bytes ↦ (record s { ser = ser; inc = b.commit s.inc w sz }, rw some_bytes)
    | inr no_bytes ↦ (record s { ser = ser }, rw no_bytes)
  ]
  filled-done s w ser would_block ne = (record s { ser = ser }, refl)
  filled-done s w ser usb_error ne = absurd (ne refl)

  module _ (write_fine : (bs : List ℕ) (x : u.State) → (u.write bs x).1 ≢ usb_error)
      (read_fine : (w : List ℕ) (x : u.State) → (u.read w x).1.1 ≢ usb_error) where
    send_out-done : (s : UsbUartIsr b u) → (s' : UsbUartIsr b u) × (send_out s ≡ done s')
    unfolding send_out
    send_out-done s = elim (Option-cases (b.read s.out)) [
      | inl e ↦ (s, rw (send_out, e))
      | inr (rgr, e) ↦
          let (s', run) =
            written-done s rgr (u.write rgr s.ser).0 (u.write rgr s.ser).1 (write_fine rgr s.ser) in
          (s', rw (send_out, e) run)
    ]

    take_in-done :
        (s : UsbUartIsr b u) (g : Grant) → (s' : UsbUartIsr b u) × (take_in s g ≡ done s')
    unfolding take_in
    take_in-done s insufficient_size = (s, refl)
    take_in-done s grant_error = (s, refl)
    take_in-done s (granted w) =
        filled-done s (u.read w s.ser).1.0 (u.read w s.ser).0 (u.read w s.ser).1.1
          (read_fine w s.ser)

    -- Where the USB port reports no error, `poll` returns. The bytes on their way to the host, taken
    -- or queued, are the same then, in the same order, and so are those on their way from it, with
    -- what has newly arrived behind them.
    pub poll-Moves : (s : UsbUartIsr b u) → (s' : UsbUartIsr b u) × (poll s ≡ done s') × Moves s s'
    unfolding poll
    poll-Moves s =
        let (s1, out_run) = send_out-done (record s { ser = u.poll s.ser }) in
        let (s2, in_run) = take_in-done s1 (b.grant_max_remaining s1.inc 128) in
        let run : poll s ≡ done s2 = rw (poll, out_run, in_run) refl in
        (s2, run, subst (IfDone (Moves s)) run (if_poll-Moves s))
