-- ===== src/Loader/Tests.antt =====
-- The loader at a concrete image: twelve words of header, and two words of text behind it.
use pellegrino.Base.{ℕ, ◌≡◌, ◌≤◌, ◌↔◌, refl, arith, List, [], ◌∷◌, none, some, length, take}
use pellegrino.Loader.{
  RawHeader, header_size, from_ahb, check_header, addr_in_range, all_zero, good_entry, word_at,
  validate_header, oc_flash_setup, Memory,
}
use pellegrino.Loader.Validate.{IsLoadable, validate_header_iff}
use pellegrino.Loader.Setup.{loaded_image, setup-confined, setup-loaded_image}

abbrev word : ℕ → ℕ → ℕ → ℕ → List ℕ → List ℕ
word a b c d rest = a ∷ b ∷ c ∷ d ∷ rest

abbrev image : List ℕ
image = word 0 0 0 0 (
    word 0 0 0 0 (
      word 0 0 0 0 (
        word 0 0 0 0 (
          word 0x40 0 0 0x20 (
            word 0x40 0 0 0x20 (
              word 0 1 0 0x20 (
                word 4 1 0 0x20 (
                  word 4 1 0 0x20 (
                    word 0 2 0 0x20
                      (word 0 0 1 0x20 (word 0x31 0 0 0x20 (word 1 2 3 4 []))))))))))))

abbrev header : RawHeader
header = record {
  syscall_in_ptr = 0;
  syscall_in_len = 0;
  syscall_out_ptr = 0;
  syscall_out_len = 0;
  etext = 0x2000_0040;
  srodata = 0x2000_0040;
  sdata = 0x2000_0100;
  edata = 0x2000_0104;
  sbss = 0x2000_0104;
  ebss = 0x2000_0200;
  stack_start = 0x2001_0000;
  entry_point = 0x2000_0031;
}

image_accepted : validate_header image ≡ some header
unfolding validate_header check_header addr_in_range all_zero good_entry from_ahb word_at
image_accepted = refl

image_truncated : validate_header (take 47 image) ≡ none
unfolding validate_header
image_truncated = refl

header-IsLoadable : IsLoadable header
header-IsLoadable = omega arith

validate_header_iff_example : (validate_header image ≡ some header) ↔ (
    (header_size ≤ length image) × (from_ahb (take header_size image) ≡ header) × IsLoadable header)
validate_header_iff_example = validate_header_iff image header

abbrev flash : Memory
flash a = a

setup-confined_example :
    ((oc_flash_setup header 0x1000 52 flash).0 0x2002_0000 ≡ 0x2002_0000)
    × ((oc_flash_setup header 0x1000 52 flash).1.stack_start ≡ 0x2001_0000)
    × ((oc_flash_setup header 0x1000 52 flash).1.entry_point ≡ 0x2000_0031)
setup-confined_example =
    setup-confined header-IsLoadable 0x1000 52 flash 0x2002_0000 (omega arith) (omega arith)

setup-loaded_image_example :
    (oc_flash_setup header 0x1000 52 flash).0 0x2000_0101
    ≡ loaded_image header 0x1000 52 flash 0x2000_0101
setup-loaded_image_example =
    setup-loaded_image header-IsLoadable 0x1000 52 flash 0x2000_0101 (omega arith) (omega arith)
