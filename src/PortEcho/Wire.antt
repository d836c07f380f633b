-- ===== src/PortEcho/Wire.antt =====
-- What the application needs of its calls: messages that fit the buffers of the bridge, and an array
-- apart from them.
use pellegrino.Base.{
  ℕ, ◌+◌, ◌≤◌, ◌<◌, ◌^◌, ◌≡◌, ◌⊎◌, inl, inr, ◌∙◌, List, none, some, length, length-replicate,
  replicate, arith,
}
use pellegrino.Syscall.{
  SysCallRequest, serial_open_port, serial_receive, serial_send, sleep_micros, SysCallSuccess,
  port_opened, data_received, data_sent, slept_micros, Postcard,
}
use pellegrino.Syscall.Memory.{read, write, read-write_apart}
use pellegrino.Syscall.Crossing.{buf_len}
use pellegrino.Syscall.Serving.{zeroed, requested}

-- The numbers of a message have the widths of its fields.
abbrev pub RequestFits : SysCallRequest → Type 0
RequestFits (serial_open_port port) = port < 2 ^ 16
RequestFits (serial_receive port d) = (port < 2 ^ 16) × (d.ptr < 2 ^ 32) × (d.len < 2 ^ 32)
RequestFits (serial_send port d) = (port < 2 ^ 16) × (d.ptr < 2 ^ 32) × (d.len < 2 ^ 32)
RequestFits (sleep_micros us) = us < 2 ^ 32

abbrev pub SuccessFits : SysCallSuccess → Type 0
SuccessFits port_opened = Unit {0}
SuccessFits (data_received d) = (d.ptr < 2 ^ 32) × (d.len < 2 ^ 32)
SuccessFits (data_sent none) = Unit {0}
SuccessFits (data_sent (some d)) = (d.ptr < 2 ^ 32) × (d.len < 2 ^ 32)
SuccessFits (slept_micros us) = us < 2 ^ 32

-- Every message takes a few bytes only, far less than a buffer of the bridge.
pub record IsCompact (c : Postcard) : Type 0 where
  pub request :
      (r : SysCallRequest)
      → RequestFits r
      → (bs : List ℕ) × (c.request_to_slice r buf_len ≡ some bs)
  pub success :
      (r : SysCallSuccess)
      → SuccessFits r
      → (bs : List ℕ) × (c.success_to_slice r buf_len ≡ some bs)

-- Two stretches of memory have no byte in common.
abbrev pub Apart : (p n q m : ℕ) → Type 0
Apart p n q m = (p + n ≤ q) ⊎ (q + m ≤ p)

-- The buffers of a call do not touch what lies apart from them.
pub read-requested :
    (inp out : ℕ) (mem : ℕ → ℕ) (iused : List ℕ) (q n : ℕ)
    → length iused ≤ buf_len
    → Apart q n inp buf_len
    → Apart q n out buf_len
    → read (requested inp out mem iused) q n ≡ read mem q n
read-requested inp out mem iused q n fits in_apart out_apart =
    let zeros = replicate buf_len 0 in
    let size = length-replicate {A = ℕ} buf_len 0 in
    let first = write mem inp zeros in
    read-write_apart (zeroed inp out mem) inp q n iused
      (elim in_apart [ inl lo ↦ inl lo | inr hi ↦ inr (omega arith) ])
    ∙ read-write_apart first out q n zeros
        (elim out_apart [ inl lo ↦ inl lo | inr hi ↦ inr (omega arith) ])
    ∙ read-write_apart mem inp q n zeros
        (elim in_apart [ inl lo ↦ inl lo | inr hi ↦ inr (omega arith) ])
