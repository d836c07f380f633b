-- ===== src/Syscall/Porcelain.antt =====
-- The library of the applications, firmware/common/src/porcelain/mod.rs. A slice `&[u8]` is its
-- pointer and its length; both have 32 bits, so that the casts to `u32` keep them.
use pellegrino.Base.{ℕ, ◌+◌, ◌-◌, leb, if◌then◌else◌, Option, none, some, Outcome, done, and_then}
use pellegrino.Syscall.{
  SysCallSlice, SysCallSliceMut, SysCallRequest, serial_open_port, serial_receive, serial_send,
  SysCallSuccess, port_opened, data_received, data_sent, slept_micros, Sys,
}
use pellegrino.Syscall

unfoldable pub opened : SysCallSuccess → Option (Unit {0})
opened port_opened = some tt
opened (data_received d) = none
opened (data_sent r) = none
opened (slept_micros us) = none

unfoldable pub received : SysCallSliceMut → SysCallSuccess → Option SysCallSliceMut
received buf port_opened = none
received buf (data_received dest) =
    if leb dest.len buf.len then some (record { ptr = buf.ptr; len = dest.len }) else none
received buf (data_sent r) = none
received buf (slept_micros us) = none

unfoldable pub not_sent : SysCallSlice → SysCallSuccess → Option (Option SysCallSlice)
not_sent buf port_opened = none
not_sent buf (data_received d) = none
not_sent buf (data_sent none) = some none
not_sent buf (data_sent (some rem)) =
    if leb rem.len buf.len
    then some (some (record { ptr = buf.ptr + (buf.len - rem.len); len = rem.len }))
    else none
not_sent buf (slept_micros us) = none

unfoldable pub slept : SysCallSuccess → Option ℕ
slept port_opened = none
slept (data_received d) = none
slept (data_sent r) = none
slept (slept_micros us) = some us

-- `call` is `try_syscall`.
module _ {S : Type 0}
    (call : SysCallRequest → Sys S → Outcome (Sys S × Option SysCallSuccess)) where
  unfoldable pub open_port : ℕ → Sys S → Outcome (Sys S × Option (Unit {0}))
  unfolding opened
  open_port port s =
      and_then (call (serial_open_port port) s)
        (λ (s', r). done (s', elim r [ none ↦ none | some resp ↦ opened resp ]))

  unfoldable pub read_port : ℕ → SysCallSliceMut → Sys S → Outcome (Sys S × Option SysCallSliceMut)
  unfolding received
  read_port port buf s =
      and_then (call (serial_receive port buf) s)
        (λ (s', r). done (s', elim r [ none ↦ none | some resp ↦ received buf resp ]))

  unfoldable pub write_port :
      ℕ → SysCallSlice → Sys S → Outcome (Sys S × Option (Option SysCallSlice))
  unfolding not_sent
  write_port port buf s =
      and_then (call (serial_send port buf) s)
        (λ (s', r). done (s', elim r [ none ↦ none | some resp ↦ not_sent buf resp ]))

  unfoldable pub sleep_micros : ℕ → Sys S → Outcome (Sys S × Option ℕ)
  unfolding slept
  sleep_micros us s =
      and_then (call (Syscall.sleep_micros us) s)
        (λ (s', r). done (s', elim r [ none ↦ none | some resp ↦ slept resp ]))
