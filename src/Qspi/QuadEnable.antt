-- ===== src/Qspi/QuadEnable.antt =====
-- `quad_enable` under the watch of `Discipline`.
use mathlib.Core.Path.{subst}
use pellegrino.Base.{
  ℕ, ◌%◌, ◌/◌, ◌≤◌, ◌≡◌, ◌∙◌, refl, sym, ap, true, inl, inr, Bool-cases, ◌==◌, done, IfDone,
  IfDone-and_then, Returns, Returns-done, Returns-and_then,
}
use pellegrino.Qspi.Registers.{
  clear_ready, instruction_data, instruction_bytes, instruction, Periph,
}
use pellegrino.Qspi.{
  wait_done, read_status_instruction, with_bit_1, read_status_reg, read_status_regs, set_qe,
  quad_enable,
}
use pellegrino.Qspi.Laws.{clears, sets, starts, PeriphLaws}
use pellegrino.Qspi.Discipline.{
  Phase, idle, cleared, broken, allow, watched, wait_done-sees, IsSignalled, Ended, ends-idle,
}

module _ {q : Periph} (laws : PeriphLaws q) (polls : ℕ) (enough : laws.polls ≤ polls) where
  open laws use {IsIdle}

  abbrev HasReg : ℕ × (q.State × Phase) → Type 0
  HasReg (b, r) = Ended laws polls enough r

  abbrev HasRegs : (ℕ × ℕ) × (q.State × Phase) → Type 0
  HasRegs (b, r) = Ended laws polls enough r

  -- A status register is read where the flag may be cleared, and the peripheral is idle behind it, with
  -- its flag set.
  read_status_reg-Ended :
      (code : ℕ) (s : q.State) (ph : Phase)
      → allow ph clears ≡ cleared
      → IsIdle s
      → Returns HasReg (read_status_reg (watched q) polls code (s, ph))
  unfolding read_status_reg
  read_status_reg-Ended code s ph free rests =
      let s1 = q.put clear_ready s in
      let (rests1, clear) = laws.clears_flag s rests in
      let (rests2, same) = laws.sets_register (instruction_data 0xFFFF_FFFF) s1 refl rests1 in
      let s2 = q.put (instruction_data 0xFFFF_FFFF) s1 in
      let i = instruction (read_status_instruction code) in
      Returns-and_then (Ended laws polls enough) HasReg _ _
        (subst
          (λ k.
            Returns (Ended laws polls enough)
              (wait_done (watched q) polls (q.put i s2, allow (allow k sets) starts)))
          (sym free) (ends-idle laws polls enough i s2 refl rests2 (same ∙ clear)))
        (λ r h. h)

  read_status_regs-Ended :
      (s : q.State) → IsIdle s → Returns HasRegs (read_status_regs (watched q) polls (s, cleared))
  unfolding read_status_regs
  read_status_regs-Ended s rests =
      let ((by_05, (s1, ph1)), e1, (idle1, (rests1, set1))) =
        Returns-done HasReg _ (read_status_reg-Ended 0x05 s cleared refl rests) in
      let ((by_35, (s2, ph2)), e2, h2) =
        Returns-done HasReg _
          (read_status_reg-Ended 0x35 s1 ph1 (ap (λ k. allow k clears) idle1) rests1) in
      rw (e1, e2) h2

  abbrev IsBroken : q.State × Phase → Type 0
  IsBroken (s, ph) = ph ≡ broken

  read_status_reg-broken :
      (code : ℕ) (s : q.State) (ph : Phase)
      → ph ≡ broken
      → IfDone
          (λ (r : ℕ × (q.State × Phase)). IsBroken r.1)
          (read_status_reg (watched q) polls code (s, ph))
  unfolding read_status_reg
  read_status_reg-broken code s ph e = rw e (
      IfDone-and_then IsBroken (λ (r : ℕ × (q.State × Phase)). IsBroken r.1) _ _
        (wait_done-sees q polls _ broken) (λ r h. h))

  read_status_regs-broken :
      (s : q.State) (ph : Phase)
      → ph ≡ broken
      → IfDone
          (λ (r : (ℕ × ℕ) × (q.State × Phase)). IsBroken r.1)
          (read_status_regs (watched q) polls (s, ph))
  unfolding read_status_regs
  read_status_regs-broken s ph e =
      IfDone-and_then (λ (r : ℕ × (q.State × Phase)). IsBroken r.1)
        (λ (r : (ℕ × ℕ) × (q.State × Phase)). IsBroken r.1) _ _ (read_status_reg-broken 0x05 s ph e)
        (λ (by_05, (s1, ph1)) h1.
          IfDone-and_then (λ (r : ℕ × (q.State × Phase)). IsBroken r.1)
            (λ (r : (ℕ × ℕ) × (q.State × Phase)). IsBroken r.1) _ _
            (read_status_reg-broken 0x35 s1 ph1 h1) (λ r h. h))

  -- The write of the status registers, where the flag is set still.
  set_qe-at_once :
      (status : ℕ × ℕ) (s : q.State)
      → IsSignalled laws polls enough s
      → (s' : q.State) × (set_qe (watched q) 1 status (s, idle) ≡ done (s', broken))
  unfolding set_qe wait_done
  set_qe-at_once (by_05, by_35) s (rests, set) =
      let w = instruction_bytes by_05 (with_bit_1 by_35) in
      let i = instruction (record (read_status_instruction 0x06) { bytes = 3; wren = true }) in
      let (rests', same) = laws.sets_register w s refl rests in
      let set' = laws.stays_set i (q.put w s) refl rests' (same ∙ set) in
      ((q.ready (q.put i (q.put w s))).1, rw (set_qe, wait_done, set') refl)

  -- On a peripheral that does what is documented, enabled and with no operation running, and with
  -- polls enough for an operation to end: `quad_enable` reads the status registers in good order, and
  -- then starts their write without having cleared the flag, so that its wait ends at the first poll,
  -- whether or not the write has ended. Where `quad_enable` returns, the discipline is broken.
  pub quad_enable-IsBroken :
      (s : q.State)
      → IsIdle s
      → ((status : ℕ × ℕ) × (s1 s2 : q.State) × (read_status_regs
              (watched q)
              polls
              ((watched q).put clear_ready (s, idle))
            ≡ done (status, (s1, idle)))
          × (set_qe (watched q) 1 status (s1, idle) ≡ done (s2, broken)))
        × IfDone (λ (r : q.State × Phase). r.1 ≡ broken) (quad_enable (watched q) polls (s, idle))
  unfolding quad_enable set_qe
  quad_enable-IsBroken s rests =
      let (rests0, clear) = laws.clears_flag s rests in
      let ((status, (s1, ph1)), e1, (idle1, signalled)) =
        Returns-done HasRegs
          (read_status_regs (watched q) polls ((watched q).put clear_ready (s, idle)))
          (read_status_regs-Ended (q.put clear_ready s) rests0) in
      let (s2, e2) = set_qe-at_once status s1 signalled in
      let run = e1 ∙ ap (λ k. done (status, (s1, k))) idle1 in
      (
        (status, s1, s2, run, e2),
        rw (quad_enable, run)
            (IfDone-and_then IsBroken IsBroken (set_qe (watched q) polls status (s1, idle)) _
              (wait_done-sees q polls _ broken)
              (λ (s3, ph3) h3.
                IfDone-and_then (λ (r : (ℕ × ℕ) × (q.State × Phase)). IsBroken r.1) IsBroken _ _
                  (read_status_regs-broken s3 ph3 h3)
                  (λ (status', (s4, ph4)) h4. elim (Bool-cases (status'.1 / 2 % 2 == 1)) [
                    | inl set ↦ rw set h4
                    | inr unset ↦ rw unset tt
                  ]))),
      )
