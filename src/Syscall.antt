-- ===== src/Syscall.antt =====
-- The system calls: the messages of firmware/common/src/lib.rs, the four words of the bridge between
-- the two sides, and the memory that they share.
pub mod Memory
pub mod Crossing
pub mod Serving
pub mod Handler
pub mod Handling
pub mod Porcelain
pub mod Transfers
pub mod Capi
pub mod Stand
mod Tests
use pellegrino.Base.{ℕ, ◌≤◌, ◌<◌, ◌≡◌, List, Option, some, length}

pub record SysCallSlice : Type 0 where
  pub ptr : ℕ
  pub len : ℕ

pub record SysCallSliceMut : Type 0 where
  pub ptr : ℕ
  pub len : ℕ

pub data SysCallRequest : Type 0 where
  serial_open_port : ℕ → SysCallRequest
  serial_receive : ℕ → SysCallSliceMut → SysCallRequest
  serial_send : ℕ → SysCallSlice → SysCallRequest
  sleep_micros : ℕ → SysCallRequest

pub data SysCallSuccess : Type 0 where
  port_opened : SysCallSuccess
  data_received : SysCallSliceMut → SysCallSuccess
  data_sent : Option SysCallSlice → SysCallSuccess
  slept_micros : ℕ → SysCallSuccess

-- The crate `postcard`, which the repository does not hold: `to_slice` is given the length of the
-- buffer, and gives the bytes at its start.
pub record Postcard : Type 0 where
  pub request_to_slice : SysCallRequest → ℕ → Option (List ℕ)
  pub request_from_bytes : List ℕ → Option SysCallRequest
  pub success_to_slice : SysCallSuccess → ℕ → Option (List ℕ)
  pub success_from_bytes : List ℕ → Option SysCallSuccess

-- An enum takes a byte at least, for its variant.
pub record PostcardLaws (c : Postcard) : Type 0 where
  pub request_within :
      (r : SysCallRequest) (n : ℕ) (bs : List ℕ)
      → c.request_to_slice r n ≡ some bs
      → (0 < length bs) × (length bs ≤ n)
  pub request_round :
      (r : SysCallRequest) (n : ℕ) (bs : List ℕ)
      → c.request_to_slice r n ≡ some bs
      → c.request_from_bytes bs ≡ some r
  pub success_within :
      (r : SysCallSuccess) (n : ℕ) (bs : List ℕ)
      → c.success_to_slice r n ≡ some bs
      → (0 < length bs) × (length bs ≤ n)
  pub success_round :
      (r : SysCallSuccess) (n : ℕ) (bs : List ℕ)
      → c.success_to_slice r n ≡ some bs
      → c.success_from_bytes bs ≡ some r

-- SYSCALL_IN_PTR and the three words behind it.
pub record Bridge : Type 0 where
  pub in_ptr : ℕ
  pub in_len : ℕ
  pub out_ptr : ℕ
  pub out_len : ℕ

abbrev pub idle_bridge : Bridge
idle_bridge = record { in_ptr = 0; in_len = 0; out_ptr = 0; out_len = 0 }

-- The memory, the bridge, and what the kernel keeps.
pub record Sys (S : Type 0) : Type 0 where
  pub mem : ℕ → ℕ
  pub bridge : Bridge
  pub kernel : S
