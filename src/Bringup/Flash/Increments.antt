-- ===== src/Bringup/Flash/Increments.antt =====
-- The program increments the bytes of the first page of the flash.
use mathlib.Core.Path.{ap₂}
use pellegrino.Base.{
  inl, ℕ, zero, suc, ◌+◌, ◌≤◌, ◌<◌, ◌≡◌, ◌%◌, ◌==◌, get_or, drop, Bool-cases, refl, sym, ap, ◌∙◌,
  inr, List, [], ◌∷◌, length, replicate, done, arith,
}
use pellegrino.Syscall.Memory.{read}
use pellegrino.Bringup.Flash.{Board, page_len, increment, fill_buffers, increment_buf, main}
use pellegrino.Bringup.Flash.Device.{IsWord, Apart, BoardLaws}
use pellegrino.Bringup.Flash.Runs.{same_cells, finish-read, finish-erase, finish-write}

-- A stretch of equal bytes.
read-replicate :
    (mem : ℕ → ℕ) (p n v : ℕ)
    → ((a : ℕ) → p ≤ a → a < p + n → mem a ≡ v)
    → read mem p n ≡ replicate n v
unfolding read
read-replicate mem p zero v same = refl
read-replicate mem p (suc n) v same =
    ap₂ ◌∷◌ (same p (omega arith) (omega arith))
      (read-replicate mem (suc p) n v (λ a lo hi. same a (omega arith) (omega arith)))

length-increment : (bs : List ℕ) → length (increment bs) ≡ length bs
unfolding increment
length-increment [] = refl
length-increment (b ∷ bs) = omega (arith, length-increment bs)

-- A stretch with every byte incremented, byte by byte.
read-increment :
    (m m' : ℕ → ℕ) (p n : ℕ)
    → read m' p n ≡ increment (read m p n)
    → (a : ℕ) → p ≤ a
    → a < p + n
    → m' a ≡ (m a + 1) % 256
unfolding read increment
read-increment m m' p zero e a lo hi = absurd (omega arith)
read-increment m m' p (suc n) e a lo hi = elim (Bool-cases (a == p)) [
  | inl same ↦ let here : a ≡ p = ground arith in rw here (ap (λ l. get_or l 0 0) e)
  | inr other ↦ read-increment m m' (suc p) n (ap (λ l. drop 1 l) e) a (ground arith) (omega arith)
]

module _ {b : Board} (laws : BoardLaws b) (n buf1 buf2 : ℕ)
    (enough : laws.device.polls ≤ suc n) where
  open laws use {device, cell, regs}

  fill_buffers-cell :
      (s : b.periph.State) (a : ℕ) → cell (fill_buffers b (suc n) buf1 buf2 s) a ≡ cell s a
  unfolding fill_buffers
  fill_buffers-cell s a =
      laws.cell-store buf2 (replicate page_len 0xAC) (b.store buf1 (replicate page_len 0xAC) s) a
      ∙ laws.cell-store buf1 (replicate page_len 0xAC) s a

  fill_buffers-IsIdle :
      (s : b.periph.State) → device.IsIdle s → device.IsIdle (fill_buffers b (suc n) buf1 buf2 s)
  unfolding fill_buffers
  fill_buffers-IsIdle s rests = laws.store_rests buf2 _ _ (laws.store_rests buf1 _ s rests)

  increment_buf-IsIdle :
      (s : b.periph.State) → device.IsIdle s → device.IsIdle (increment_buf b (suc n) buf1 buf2 s)
  unfolding increment_buf
  increment_buf-IsIdle s rests = laws.store_rests buf1 _ s rests

  increment_buf-load :
      (s : b.periph.State)
      → b.load buf1 page_len (increment_buf b (suc n) buf1 buf2 s)
        ≡ increment (b.load buf1 page_len s)
  unfolding increment_buf
  increment_buf-load s =
      let bytes = increment (b.load buf1 page_len s) in
      let size : length bytes ≡ page_len =
        length-increment (b.load buf1 page_len s) ∙ laws.length-load buf1 page_len s in
      ap (λ k. b.load buf1 k (b.store buf1 bytes s)) (sym size) ∙ laws.load-store buf1 bytes s

  increment_buf-cell :
      (s : b.periph.State) (a : ℕ) → cell (increment_buf b (suc n) buf1 buf2 s) a ≡ cell s a
  unfolding increment_buf
  increment_buf-cell s a = laws.cell-store buf1 (increment (b.load buf1 page_len s)) s a

  -- The flash afterwards: its first page with every byte incremented, the rest of the first sector
  -- erased, and all else as it was.
  abbrev pub Incremented : (s s' : b.periph.State) → Type 0
  Incremented s s' =
      ((a : ℕ) → a < 256 → cell s' a ≡ (cell s a + 1) % 256)
      × ((a : ℕ) → 256 ≤ a → a < 4096 → cell s' a ≡ 255)
      × ((a : ℕ) → 4096 ≤ a → cell s' a ≡ cell s a)

  -- On a board that does what is documented, enabled and with no operation running, with polls enough for
  -- an operation to end, and with the two arrays apart and at addresses of words, the program returns. It has printed the first page of the flash as it was,
  -- an erased page, and the first page as it is now: with every byte incremented, by one and wrapping.
  -- The rest of the first sector of 4 KiB is erased, and all else is as it was.
  pub main-Incremented :
      (s : b.periph.State)
      → device.IsIdle s
      → IsWord buf1
      → IsWord buf2
      → Apart buf1 page_len buf2 page_len
      → (s' : b.periph.State) × (main b (suc n) buf1 buf2 s
          ≡ done (read (cell s) 0 256 ∷ replicate 256 255 ∷ read (cell s') 0 256 ∷ [], s'))
        × Incremented s s'
  unfolding main
  main-Incremented s rests word1 word2 apart =
      let s0 = fill_buffers b (suc n) buf1 buf2 s in
      let (s1, run1, (load1, cell1, mem1), rests1) =
        finish-read laws n buf1 buf2 enough 0 buf1 page_len s0 (fill_buffers-IsIdle s rests) refl
          word1 refl in
      let (s2, run2, (inside, outside, mem2), rests2) =
        finish-erase laws n buf1 buf2 enough s1 rests1 in
      let (s3, run3, (load3, cell3, mem3), rests3) =
        finish-read laws n buf1 buf2 enough 0 buf2 page_len s2 rests2 refl word2 refl in
      let t = increment_buf b (suc n) buf1 buf2 s3 in
      let old = read (cell s) 0 page_len in
      let first : b.load buf1 page_len s1 ≡ old =
        load1 ∙ same_cells laws n buf1 buf2 enough s s0 0 page_len (fill_buffers-cell s) in
      let blank : read (cell s2) 0 page_len ≡ replicate page_len 255 =
        read-replicate (cell s2) 0 page_len 255 (λ a lo hi. inside a lo (omega arith)) in
      let written : b.load buf1 page_len t ≡ increment old =
        increment_buf-load s3
        ∙ ap increment (mem3 buf1 page_len apart ∙ mem2 buf1 page_len ∙ first) in
      let cells_t : (a : ℕ) → cell t a ≡ cell s2 a = λ a. increment_buf-cell s3 a ∙ cell3 a in
      let (s4, run4, (page, rest), rests4) =
        finish-write laws n buf1 buf2 enough buf1 t (increment_buf-IsIdle s3 rests3) word1
          (same_cells laws n buf1 buf2 enough s2 t 0 page_len cells_t ∙ blank) in
      let (s5, run5, (load5, cell5, mem5), rests5) =
        finish-read laws n buf1 buf2 enough 0 buf2 page_len s4 rests4 refl word2 refl in
      let same : (a : ℕ) → page_len ≤ a → cell s5 a ≡ cell s2 a =
        λ a le. cell5 a ∙ rest a (inr le) ∙ cells_t a in
      (
        s5,
        rw
            (
              main,
              run1,
              run2,
              run3,
              run4,
              run5,
              first,
              load3 ∙ blank,
              load5 ∙ sym (same_cells laws n buf1 buf2 enough s4 s5 0 page_len cell5),
            )
            refl,
        (
          (λ a less.
              read-increment (cell s) (cell s5) 0 page_len
                (same_cells laws n buf1 buf2 enough s4 s5 0 page_len cell5 ∙ page ∙ written) a
                (omega arith) (omega arith)),
          (λ a lo hi. same a lo ∙ inside a (omega arith) hi),
          (λ a le. same a (omega arith) ∙ outside a (inr le) ∙ cell1 a ∙ fill_buffers-cell s a),
        ),
      )
