-- ===== src/Bringup/Flash/Runs.antt =====
-- The calls of the program, one by one, on a board that does what is documented.
use pellegrino.Base.{
  inl, ℕ, suc, ◌≤◌, ◌≡◌, refl, sym, ap, ◌∙◌, inr, some, List, [], ◌∷◌, replicate, Returns-done, All,
  true, false, done, and_then, arith,
}
use pellegrino.Syscall.Memory.{read, read-cong}
use pellegrino.Qspi.Registers.{
  len_4kb, Write, clear_ready, read_dst, read_src, read_cnt, read_start, write_dst, write_src,
  write_cnt, write_start, erase_ptr, erase_len, erase_start, put_all,
}
use pellegrino.Qspi.{wait_done, is_aligned}
use pellegrino.Qspi
use pellegrino.Qspi.Laws.{sets, starts, kind_of, Within, Within-both, wait_done-Within}
use pellegrino.Qspi.Discipline.{Call, reads, writes, erases}
use pellegrino.Qspi.Futures.{poll_on, unpolled, poll_on-at_once, erased}
use pellegrino.Bringup.Flash.{Board, page_len, finish}
use pellegrino.Bringup.Flash.Device.{
  Regs, set_in, IsWord, SameBytes, HasRead, HasErased, HasWritten, BoardLaws,
}

module _ {b : Board} (laws : BoardLaws b) (n buf1 buf2 : ℕ)
    (enough : laws.device.polls ≤ suc n) where
  open laws use {device, cell, regs}

  abbrev Set : Write → Type 0
  Set w = kind_of w ≡ sets

  abbrev set_all : List Write → Regs → Regs
  set_all [] r = r
  set_all (w ∷ ws) r = set_all ws (set_in w r)

  -- Behind the writes that prepare an operation and the reset of the flag, the registers hold what was
  -- written, and no byte was moved.
  abbrev Prepared : List Write → (s s' : b.periph.State) → Type 0
  Prepared ws s s' =
      device.IsIdle s'
      × ((b.periph.ready s').0 ≡ false)
      × (regs s' ≡ set_all ws (regs s))
      × SameBytes b cell s s'

  prepared :
      (ws : List Write) (s : b.periph.State)
      → All Set ws
      → device.IsIdle s
      → Prepared ws s (b.periph.put clear_ready (put_all b.periph ws s))
  prepared [] s h rests =
      let (rests', clear) = device.clears_flag s rests in
      let (same, moved) = laws.regs-put clear_ready s (inr refl) rests in
      (rests', clear, same, moved)
  prepared (w ∷ ws) s (kind, h) rests =
      let (same, (cells, bytes)) = laws.regs-put w s (inl kind) rests in
      let (rests', clear, same', (cells', bytes')) =
        prepared ws (b.periph.put w s) h (device.sets_register w s kind rests).0 in
      (
        rests',
        clear,
        same' ∙ ap (set_all ws) same,
        ((λ a. cells' a ∙ cells a), (λ p m. bytes' p m ∙ bytes p m)),
      )

  -- A call whose operation was started where the flag was clear ends, and the peripheral is idle again.
  finish-ends :
      (c : Call) (w : Write) (s s' : b.periph.State) (P : b.periph.State → Type 0)
      → kind_of w ≡ starts
      → device.IsIdle s'
      → (b.periph.ready s').0 ≡ false
      → Within b.periph P device.polls (b.periph.put w s')
      → poll_on b.periph (suc n) (unpolled c) s
        ≡ and_then (wait_done b.periph (suc n) (b.periph.put w s')) (λ t. done (some tt, t))
      → (t : b.periph.State) × (finish b (suc n) buf1 buf2 c s ≡ done t) × P t × device.IsIdle t
  unfolding finish
  finish-ends c w s s' P kind rests clear effect run =
      let Q = λ (t : b.periph.State). device.IsIdle t × ((b.periph.ready t).0 ≡ true) in
      let both =
        Within-both b.periph P Q device.polls (b.periph.put w s') effect
          (device.ends w s' kind rests clear) in
      let (t, e, (h, (rests', set))) =
        Returns-done (λ t. P t × Q t) _
          (wait_done-Within b.periph (λ t. P t × Q t) device.polls (suc n) (b.periph.put w s')
            enough both) in
      (t, rw (finish, run, e) refl, h, rests')

  pub same_cells :
      (s s' : b.periph.State) (start len : ℕ)
      → ((a : ℕ) → cell s' a ≡ cell s a)
      → read (cell s') start len ≡ read (cell s) start len
  same_cells s s' start len same = read-cong (cell s') (cell s) start len (λ a le. same a)

  pub finish-read :
      (start ptr len : ℕ) (s : b.periph.State)
      → device.IsIdle s
      → IsWord start
      → IsWord ptr
      → IsWord len
      → (t : b.periph.State) × (finish b (suc n) buf1 buf2 (reads start ptr len) s ≡ done t)
        × HasRead b cell start ptr len s t
        × device.IsIdle t
  unfolding Qspi.read
  finish-read start ptr len s rests word_start word_ptr word_len =
      let ws = read_dst ptr ∷ read_src start ∷ read_cnt len ∷ [] in
      let s' = b.periph.put clear_ready (put_all b.periph ws s) in
      let (rests', clear, set, (cells, bytes)) = prepared ws s (refl, (refl, (refl, tt))) rests in
      let effect =
        laws.reads_flash start ptr len s' rests' clear (ap (λ r. r.src_of_read) set)
          (ap (λ r. r.dst_of_read) set) (ap (λ r. r.cnt_of_read) set) word_start word_ptr
          word_len in
      let (t, run, (got, cells', bytes'), rests'') =
        finish-ends (reads start ptr len) read_start s s' (HasRead b cell start ptr len s') refl
          rests' clear effect (poll_on-at_once b.periph n (reads start ptr len) s) in
      (
        t,
        run,
        (
          got ∙ same_cells s s' start len cells,
          (λ a. cells' a ∙ cells a),
          (λ p m apart. bytes' p m apart ∙ bytes p m),
        ),
        rests'',
      )

  pub finish-erase :
      (s : b.periph.State)
      → device.IsIdle s
      → (t : b.periph.State) × (finish b (suc n) buf1 buf2 (erases 0 len_4kb) s ≡ done t)
        × HasErased b cell 0 s t
        × device.IsIdle t
  unfolding Qspi.erase is_aligned
  finish-erase s rests =
      let ws = erase_ptr 0 ∷ erase_len len_4kb ∷ [] in
      let s' = b.periph.put clear_ready (put_all b.periph ws s) in
      let (rests', clear, set, (cells, bytes)) = prepared ws s (refl, (refl, tt)) rests in
      let effect =
        laws.erases_flash 0 s' rests' clear (ap (λ r. r.ptr_of_erase) set)
          (ap (λ r. r.len_of_erase) set) refl in
      let o = wait_done b.periph (suc n) (b.periph.put erase_start s') in
      let (t, run, (inside, outside, bytes'), rests'') =
        finish-ends (erases 0 len_4kb) erase_start s s' (HasErased b cell 0 s') refl rests' clear
          effect (poll_on-at_once b.periph n (erases 0 len_4kb) s ∙ sym (erased b.periph s o)) in
      (
        t,
        run,
        (inside, (λ a out. outside a out ∙ cells a), (λ p m. bytes' p m ∙ bytes p m)),
        rests'',
      )

  pub finish-write :
      (ptr : ℕ) (s : b.periph.State)
      → device.IsIdle s
      → IsWord ptr
      → read (cell s) 0 page_len ≡ replicate page_len 255
      → (t : b.periph.State) × (finish b (suc n) buf1 buf2 (writes 0 ptr page_len) s ≡ done t)
        × HasWritten b cell 0 ptr page_len s t
        × device.IsIdle t
  unfolding Qspi.write
  finish-write ptr s rests word_ptr blank =
      let ws = write_dst 0 ∷ write_src ptr ∷ write_cnt page_len ∷ [] in
      let s' = b.periph.put clear_ready (put_all b.periph ws s) in
      let (rests', clear, set, (cells, bytes)) = prepared ws s (refl, (refl, (refl, tt))) rests in
      let effect =
        laws.writes_flash 0 ptr page_len s' rests' clear (ap (λ r. r.dst_of_write) set)
          (ap (λ r. r.src_of_write) set) (ap (λ r. r.cnt_of_write) set) refl word_ptr refl
          (omega arith) (same_cells s s' 0 page_len cells ∙ blank) in
      let (t, run, (page, rest), rests'') =
        finish-ends (writes 0 ptr page_len) write_start s s' (HasWritten b cell 0 ptr page_len s')
          refl rests' clear effect (poll_on-at_once b.periph n (writes 0 ptr page_len) s) in
      (t, run, (page ∙ bytes ptr page_len, λ a out. rest a out ∙ cells a), rests'')
