-- ===== src/Bringup/Flash.antt =====
-- The bring-up program firmware/pelle-bringup/src/bin/qspi.rs, behind `Qspi::new`: it reads a page of
-- the flash, erases its sector, and writes the page back with every byte incremented. The peripheral
-- moves the bytes between the flash and the memory; what is printed is kept.
pub mod Device
pub mod Runs
pub mod Increments
pub mod Stand
mod Tests
use pellegrino.Base.{ℕ, ◌+◌, ◌%◌, List, [], ◌∷◌, Outcome, done, and_then, replicate}
use pellegrino.Qspi.Registers.{len_4kb, Periph}
use pellegrino.Qspi.Discipline.{Call, reads, writes, erases}
use pellegrino.Qspi.Futures.{unpolled, poll_on}

-- The peripheral, and the processor's view of the memory.
pub record Board : Type 1 where
  pub periph : Periph
  pub load : (ptr len : ℕ) → periph.State → List ℕ
  pub store : ℕ → List ℕ → periph.State → periph.State

abbrev pub page_len : ℕ
page_len = 256

-- `*b = b.wrapping_add(1)` for every byte.
unfoldable pub increment : List ℕ → List ℕ
increment [] = []
increment (b ∷ bs) = (b + 1) % 256 ∷ increment bs

-- `buf1` and `buf2` are the addresses of the two arrays, and `polls` bounds the polls of each future.
module _ (b : Board) (polls buf1 buf2 : ℕ) where
  -- The result of the future, an error or not, is not looked at.
  unfoldable pub finish : Call → b.periph.State → Outcome b.periph.State
  unfolding poll_on
  finish c s = and_then (poll_on b.periph polls (unpolled c) s) (λ (result, s'). done s')

  unfoldable pub fill_buffers : b.periph.State → b.periph.State
  fill_buffers s = b.store buf2 (replicate page_len 0xAC) (b.store buf1 (replicate page_len 0xAC) s)

  unfoldable pub increment_buf : b.periph.State → b.periph.State
  unfolding increment
  increment_buf s = b.store buf1 (increment (b.load buf1 page_len s)) s

  -- The three pages that are printed, and the state at the end.
  unfoldable pub main : b.periph.State → Outcome (List (List ℕ) × b.periph.State)
  unfolding finish fill_buffers increment_buf
  main s = and_then (finish (reads 0 buf1 page_len) (fill_buffers s)) (λ s1.
      and_then (finish (erases 0 len_4kb) s1) (λ s2.
        and_then (finish (reads 0 buf2 page_len) s2) (λ s3.
          and_then (finish (writes 0 buf1 page_len) (increment_buf s3)) (λ s4.
            and_then (finish (reads 0 buf2 page_len) s4) (λ s5. done (
              b.load buf1 page_len s1 ∷ b.load buf2 page_len s3 ∷ b.load buf2 page_len s5 ∷ [],
              s5,
            ))))))
