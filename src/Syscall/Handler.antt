-- ===== src/Syscall/Handler.antt =====
-- The kernel's handler, `Machine::handle_syscall`, and the trait `Serial` that it stands on, both of
-- firmware/kernel/src/traits.rs.
use pellegrino.Base.{
  ℕ, zero, suc, ◌+◌, ◌-◌, ◌≤◌, ◌≡◌, leb, if◌then◌else◌, List, Option, none, some, length, drop,
  Outcome, done, out_of_fuel, and_then,
}
use pellegrino.Syscall.{
  SysCallSlice, SysCallRequest, serial_open_port, serial_receive, serial_send, sleep_micros,
  SysCallSuccess, port_opened, data_received, data_sent, slept_micros,
}
use pellegrino.Syscall.Memory.{read, write}
use pellegrino.UsbSerial.Send.{Sent, sent, unsent}

-- `recv` is given the length of the buffer, and gives the bytes received to its start.
pub record Serial : Type 1 where
  pub State : Type 0
  pub register_port : ℕ → State → Option State
  pub release_port : ℕ → State → Outcome (Option State)
  pub process : State → Outcome State
  pub recv : ℕ → ℕ → State → Outcome (State × Option (List ℕ))
  pub send : ℕ → List ℕ → State → Outcome (State × Sent)

-- What the trait promises of the slices that it returns.
pub record SerialLaws (ser : Serial) : Type 0 where
  pub recv-within :
      (port n : ℕ) (s s' : ser.State) (bs : List ℕ)
      → ser.recv port n s ≡ done (s', some bs)
      → length bs ≤ n
  pub send-suffix :
      (port : ℕ) (buf : List ℕ) (s s' : ser.State) (rest : List ℕ)
      → ser.send port buf s ≡ done (s', unsent rest)
      → (n : ℕ) × (rest ≡ drop n buf)

-- The wait: `micros_since i` is what the timer says at the i-th poll, and `polls` bounds the polls.
unfoldable pub wait : (micros_since : ℕ → ℕ) (polls i us : ℕ) → Outcome (Unit {0})
wait micros_since zero i us = out_of_fuel
wait micros_since (suc polls) i us =
    let rest = wait micros_since polls (suc i) us in
    if leb (micros_since i) us then rest else done tt

-- The slice that `send` returns is the end of the slice that it was given.
unfoldable pub sent_response : SysCallSlice → Sent → SysCallSuccess
sent_response src sent = data_sent none
sent_response src (unsent rem) =
    data_sent (some (record { ptr = src.ptr + (src.len - length rem); len = length rem }))

unfoldable pub handle_syscall :
    (ser : Serial) (micros_since : ℕ → ℕ) (polls : ℕ)
    → SysCallRequest
    → (ℕ → ℕ)
    → ser.State
    → Outcome ((ℕ → ℕ) × (ser.State × Option SysCallSuccess))
unfolding wait sent_response
handle_syscall ser micros_since polls (serial_receive port dest) mem s =
    and_then (ser.recv port dest.len s) (λ (s', r). elim r [
      | none ↦ done (mem, (s', none))
      | some used ↦ done (
        write mem dest.ptr used,
        (s', some (data_received (record { ptr = dest.ptr; len = length used }))),
      )
    ])
handle_syscall ser micros_since polls (serial_send port src) mem s =
    and_then (ser.send port (read mem src.ptr src.len) s)
      (λ (s', r). done (mem, (s', some (sent_response src r))))
handle_syscall ser micros_since polls (serial_open_port port) mem s =
    elim (ser.register_port port s) [
      | none ↦ done (mem, (s, none))
      | some s' ↦ done (mem, (s', some port_opened))
    ]
handle_syscall ser micros_since polls (sleep_micros us) mem s =
    and_then (wait micros_since polls 0 us) (λ u. done (mem, (s, some (slept_micros us))))
