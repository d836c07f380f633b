-- ===== src/Qspi/Laws.antt =====
-- What the QSPI peripheral is documented to do: its ready flag is set when an operation that was started
-- ends, and stays set until it is cleared.
use pellegrino.Base.{ℕ, zero, suc, ◌≤◌, ◌≡◌, ◌⊎◌, inl, inr, true, false, Returns, arith}
use pellegrino.Qspi.Registers.{
  Write, enable, errata, drive_h0h1, psel, ifconfig0, ifconfig1, clear_ready, activate, read_dst,
  read_src, read_cnt, read_start, write_dst, write_src, write_cnt, write_start, erase_ptr,
  erase_len, erase_start, instruction_data, instruction_bytes, instruction, Periph,
}
use pellegrino.Qspi.{wait_done}

-- Whether a write clears the flag, starts an operation, sets a register of an operation, or
-- configures the peripheral.
pub data Kind : Type 0 where
  clears starts sets configures : Kind

abbrev pub kind_of : Write → Kind
kind_of clear_ready = clears
kind_of activate = starts
kind_of read_start = starts
kind_of write_start = starts
kind_of erase_start = starts
kind_of (instruction i) = starts
kind_of (enable b) = configures
kind_of (errata n) = configures
kind_of (drive_h0h1 p n) = configures
kind_of (psel l n) = configures
kind_of (ifconfig0 r w a d n) = configures
kind_of (ifconfig1 d e m f) = configures
kind_of (read_dst n) = sets
kind_of (read_src n) = sets
kind_of (read_cnt n) = sets
kind_of (write_dst n) = sets
kind_of (write_src n) = sets
kind_of (write_cnt n) = sets
kind_of (erase_ptr n) = sets
kind_of (erase_len l) = sets
kind_of (instruction_data n) = sets
kind_of (instruction_bytes m n) = sets

module _ (q : Periph) where
  -- The flag is read set at one of so many polls, and the state then has the property.
  abbrev pub Within : (q.State → Type 0) → ℕ → q.State → Type 0
  Within P zero s = ⊥
  Within P (suc n) s =
      (((q.ready s).0 ≡ true) × P (q.ready s).1)
      ⊎ (((q.ready s).0 ≡ false) × Within P n (q.ready s).1)

  pub wait_done-Within :
      (P : q.State → Type 0) (k n : ℕ) (s : q.State)
      → k ≤ n
      → Within P k s
      → Returns P (wait_done q n s)
  unfolding wait_done
  wait_done-Within P zero n s le h = absurd h
  wait_done-Within P (suc k) zero s le h = absurd (omega arith)
  wait_done-Within P (suc k) (suc n) s le (inl (set, h)) = rw (wait_done, set) h
  wait_done-Within P (suc k) (suc n) s le (inr (unset, h)) =
      rw (wait_done, unset) (wait_done-Within P k n (q.ready s).1 (omega arith) h)

  pub Within-both :
      (P Q : q.State → Type 0) (k : ℕ) (s : q.State)
      → Within P k s
      → Within Q k s
      → Within (λ s'. P s' × Q s') k s
  Within-both P Q zero s h k = absurd h
  Within-both P Q (suc n) s (inl (set, h)) (inl (set', k)) = inl (set, (h, k))
  Within-both P Q (suc n) s (inl (set, h)) (inr (unset, k)) = absurd (cc)
  Within-both P Q (suc n) s (inr (unset, h)) (inl (set, k)) = absurd (cc)
  Within-both P Q (suc n) s (inr (unset, h)) (inr (unset', k)) =
      inr (unset, Within-both P Q n (q.ready s).1 h k)

pub record PeriphLaws (q : Periph) : Type 1 where
  -- an operation that was started ends within so many polls of the flag
  pub polls : ℕ
  -- the peripheral is enabled, and no operation runs; its flag may be set or not
  pub IsIdle : q.State → Type 0
  -- the registers of an operation may then be set, which leaves the flag as it is
  pub sets_register :
      (w : Write) (s : q.State)
      → kind_of w ≡ sets
      → IsIdle s
      → IsIdle (q.put w s) × ((q.ready (q.put w s)).0 ≡ (q.ready s).0)
  pub clears_flag :
      (s : q.State)
      → IsIdle s
      → IsIdle (q.put clear_ready s) × ((q.ready (q.put clear_ready s)).0 ≡ false)
  -- an operation that is started with the flag clear ends, and sets the flag
  pub ends :
      (w : Write) (s : q.State)
      → kind_of w ≡ starts
      → IsIdle s
      → (q.ready s).0 ≡ false
      → Within q (λ s'. IsIdle s' × ((q.ready s').0 ≡ true)) polls (q.put w s)
  -- the start of an operation does not clear the flag
  pub stays_set :
      (w : Write) (s : q.State)
      → kind_of w ≡ starts
      → IsIdle s
      → (q.ready s).0 ≡ true
      → (q.ready (q.put w s)).0 ≡ true
