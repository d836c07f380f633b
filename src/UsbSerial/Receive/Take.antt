-- ===== src/UsbSerial/Receive/Take.antt =====
-- What `recv` copies to its buffer.
use pellegrino.Base.{
  ℕ, zero, suc, ◌+◌, ◌-◌, ◌≤◌, inl, inr, List, Option, Option-cases, none, some, leb, leb→le,
  Bool-cases, length, length-take, length-append, IfDone, IfDone-and_then, IfDone-any, arith,
}
use pellegrino.Alloc.{AHeap, drop_array}
use pellegrino.UsbSerial.State.{Platform, UsbUartSys, byte}
use pellegrino.UsbSerial.Receive.{process, recv, take_loop, put_back}

module _ (p : Platform) where
  abbrev Fits : ℕ → List ℕ × (p.tables.Deque × AHeap p.crates) → Type 0
  Fits room r = length r.0 ≤ room

  take_loop-le :
      (fuel room : ℕ) (dq : p.tables.Deque) (h : AHeap p.crates)
      → IfDone (Fits room) (take_loop p fuel room dq h)
  unfolding take_loop
  take_loop-le fuel zero dq h = omega arith
  take_loop-le zero (suc r) dq h = tt
  take_loop-le (suc fuel) (suc r) dq h = elim (Option-cases (p.tables.pop_front dq)) [
    | inl e1 ↦ rw (take_loop, e1) (omega arith)
    | inr ((msg, dq'), e1) ↦ elim (Bool-cases (leb (length msg.elems) (suc r))) [
      | inl fits ↦
          rw (take_loop, e1, fits)
            (IfDone-any (Fits (suc r)) (drop_array byte msg h) _ (λ h'.
              IfDone-and_then (Fits (suc r - length msg.elems)) (Fits (suc r))
                (take_loop p fuel (suc r - length msg.elems) dq' h') _
                (take_loop-le fuel (suc r - length msg.elems) dq' h')
                (λ (bs, rest) less. omega (arith, length-append msg.elems bs, leb→le _ _ fits))))
      | inr long ↦
          rw (take_loop, e1, long)
            (IfDone-any (Fits (suc r)) (put_back p msg dq' (suc r) h) _ (λ (h', dq'').
              IfDone-any (Fits (suc r)) (drop_array byte msg h') _
                (λ h''. omega (arith, length-take (suc r) msg.elems))))
    ]
  ]

  -- What `recv` returns holds no more bytes than its buffer.
  abbrev pub Within : ℕ → UsbUartSys p × Option (List ℕ) → Type 0
  Within buflen (s', none) = Unit {0}
  Within buflen (s', some bs) = length bs ≤ buflen

  -- `recv` that returns has copied no more bytes than its buffer holds.
  pub recv-Within :
      (port buflen : ℕ) (s : UsbUartSys p) → IfDone (Within buflen) (recv p port buflen s)
  unfolding recv
  recv-Within port buflen s = IfDone-any (Within buflen) (process p s) _ (λ s1.
      elim (Option-cases (p.tables.get s1.ports port)) [
        | inl e ↦ rw e tt
        | inr (dq, e) ↦ rw e (
            IfDone-and_then (Fits buflen) (Within buflen) (take_loop p (16 + 1) buflen dq s1.heap) _
              (take_loop-le (16 + 1) buflen dq s1.heap) (λ r less. less))
      ])
