-- ===== src/Syscall/Crossing.antt =====
-- The two sides of the bridge: `try_syscall` and `raw_syscall` of firmware/common/src/lib.rs, and
-- `try_recv_syscall` and `syscall_clear` of firmware/kernel/src/syscall.rs.
use pellegrino.Base.{
  ℕ, Bool, true, false, ◌||◌, List, Option, none, some, ◌==◌, leb, if◌then◌else◌, length, replicate,
  Outcome, done, panic, and_then,
}
use pellegrino.Syscall.{SysCallRequest, SysCallSuccess, Postcard, Bridge, idle_bridge, Sys}
use pellegrino.Syscall.Memory.{read, write}

abbrev pub buf_len : ℕ
buf_len = 128

unfoldable pub syscall_clear : {S : Type 0} → Sys S → Sys S
syscall_clear s = record s { bridge = idle_bridge }

unfoldable pub any_zeros : Bridge → Bool
any_zeros b = (b.in_ptr == 0) || (b.in_len == 0) || (b.out_ptr == 0) || (b.out_len == 0)

module _ (c : Postcard) {S : Type 0} where
  -- The state, and `true` for `Ok(())`.
  unfoldable pub refuse : Sys S → Outcome (Sys S × Bool)
  refuse s = done (record s { bridge = record s.bridge { out_len = 0 } }, false)

  unfoldable pub answer : (out_ptr out_len : ℕ) → SysCallSuccess → Sys S → Outcome (Sys S × Bool)
  unfolding refuse
  answer out_ptr out_len response s = elim (c.success_to_slice response out_len) [
    | none ↦ refuse s
    | some ser ↦ done (
      record s { mem = write s.mem out_ptr ser; bridge = record s.bridge { out_len = length ser } },
      true,
    )
  ]

  -- The handler sees the memory and what the kernel keeps; the bridge lies apart from that memory.
  unfoldable pub try_recv_syscall :
      (SysCallRequest → (ℕ → ℕ) → S → Outcome ((ℕ → ℕ) × (S × Option SysCallSuccess)))
      → Sys S
      → Outcome (Sys S × Bool)
  unfolding any_zeros refuse answer
  try_recv_syscall hdlr s =
      if any_zeros s.bridge
      then refuse s
      else elim (c.request_from_bytes (read s.mem s.bridge.in_ptr s.bridge.in_len)) [
        | none ↦ refuse s
        | some req ↦ and_then (hdlr req s.mem s.kernel) (λ (mem, (kernel, r)).
            let s' : Sys S = record s { mem = mem; kernel = kernel } in
            elim r [
              | none ↦ refuse s'
              | some response ↦ answer s.bridge.out_ptr s.bridge.out_len response s'
            ])
      ]

  -- After `svc 0`: the fields are reset, and the bytes of the answer are those at `out_ptr`.
  unfoldable pub collect : (out_ptr out_len : ℕ) → Sys S → Outcome (Sys S × Option (List ℕ))
  collect out_ptr out_len s =
      let new_out_len = s.bridge.out_len in
      let s' : Sys S = record s { bridge = idle_bridge } in
      if new_out_len == 0
      then done (s', none)
      else if leb new_out_len out_len
      then done (s', some (read s.mem out_ptr new_out_len))
      else panic

  -- `svc` is what the supervisor call does.
  unfoldable pub raw_syscall :
      (Sys S → Outcome (Sys S))
      → (in_ptr in_len out_ptr out_len : ℕ) → Sys S
      → Outcome (Sys S × Option (List ℕ))
  unfolding collect
  raw_syscall svc in_ptr in_len out_ptr out_len s =
      if s.bridge.in_ptr == 0
      then and_then
          (svc (record s {
            bridge = record {
              in_ptr = in_ptr;
              in_len = in_len;
              out_ptr = out_ptr;
              out_len = out_len;
            };
          }))
          (collect out_ptr out_len)
      else done (s, none)

  -- The two buffers lie at `inp` and `out` in the caller's stack.
  unfoldable pub try_syscall :
      (Sys S → Outcome (Sys S))
      → (inp out : ℕ) → SysCallRequest
      → Sys S
      → Outcome (Sys S × Option SysCallSuccess)
  unfolding raw_syscall
  try_syscall svc inp out req s =
      let zeroed = write (write s.mem inp (replicate buf_len 0)) out (replicate buf_len 0) in
      elim (c.request_to_slice req buf_len) [
        | none ↦ done (record s { mem = zeroed }, none)
        | some iused ↦
            and_then
              (raw_syscall svc inp (length iused) out buf_len
                (record s { mem = write zeroed inp iused }))
              (λ (s', r). elim r [
                | none ↦ done (s', none)
                | some oused ↦ done (s', c.success_from_bytes oused)
              ])
      ]

  -- The task `svc` of firmware/kernel/src/main.rs: what comes back is in the bridge.
  unfoldable pub svc :
      (SysCallRequest → (ℕ → ℕ) → S → Outcome ((ℕ → ℕ) × (S × Option SysCallSuccess)))
      → Sys S
      → Outcome (Sys S)
  unfolding try_recv_syscall
  svc hdlr s = and_then (try_recv_syscall hdlr s) (λ (s', ok). done s')
