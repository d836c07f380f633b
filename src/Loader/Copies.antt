-- ===== src/Loader/Copies.antt =====
-- Copies and fills of memory, address by address.
use pellegrino.Base.{ℕ, ◌+◌, ◌-◌, ◌≤◌, ◌<◌, ◌≡◌, ◌⊎◌, arith}
use pellegrino.Loader.{Memory, copy_bytes, write_bytes}

module _ (dst src n : ℕ) (m : Memory) (a : ℕ) where
  pub copy_bytes-inside : dst ≤ a → a < dst + n → copy_bytes dst src n m a ≡ m (src + (a - dst))
  unfolding copy_bytes
  copy_bytes-inside low high = ground arith

  pub copy_bytes-outside : (a < dst) ⊎ (dst + n ≤ a) → copy_bytes dst src n m a ≡ m a
  unfolding copy_bytes
  copy_bytes-outside out = ground arith

module _ (dst v n : ℕ) (m : Memory) (a : ℕ) where
  pub write_bytes-inside : dst ≤ a → a < dst + n → write_bytes dst v n m a ≡ v
  unfolding write_bytes
  write_bytes-inside low high = ground arith

  pub write_bytes-outside : (a < dst) ⊎ (dst + n ≤ a) → write_bytes dst v n m a ≡ m a
  unfolding write_bytes
  write_bytes-outside out = ground arith
