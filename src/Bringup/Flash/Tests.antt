-- ===== src/Bringup/Flash/Tests.antt =====
-- The program on a stand-in for the board.
use pellegrino.Base.{◌%◌, ◌≡◌, refl, inl, [], ◌∷◌, false, replicate, done, arith}
use pellegrino.Syscall.Memory.{read}
use pellegrino.Qspi.Registers.{len_4kb}
use pellegrino.Bringup.Flash.{main}
use pellegrino.Bringup.Flash.Device.{Regs}
use pellegrino.Bringup.Flash.Stand.{Chip, chip_board, chip_board_laws}
use pellegrino.Bringup.Flash.Increments.{Incremented, main-Incremented}

abbrev zeroed : Regs
zeroed = record {
  dst_of_read = 0;
  src_of_read = 0;
  cnt_of_read = 0;
  dst_of_write = 0;
  src_of_write = 0;
  cnt_of_write = 0;
  ptr_of_erase = 0;
  len_of_erase = len_4kb;
}

-- A flash whose byte at each address is the address, modulo 256.
abbrev counting : Chip
counting = record { mem = λ a. 0; flash = λ a. a % 256; regs = zeroed; flag = false }

main-Incremented_example :
    (s' : Chip) × (main chip_board 1 0x2000_0000 0x2000_0100 counting
      ≡ done (read (λ a. a % 256) 0 256 ∷ replicate 256 255 ∷ read s'.flash 0 256 ∷ [], s'))
    × Incremented chip_board_laws 0 0x2000_0000 0x2000_0100 (omega arith) counting s'
main-Incremented_example =
    main-Incremented chip_board_laws 0 0x2000_0000 0x2000_0100 (omega arith) counting tt refl refl
      (inl (omega arith))
