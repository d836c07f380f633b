-- ===== src/Syscall/Serving.antt =====
-- A system call as the application sees it: its request is handled once and its answer comes back.
use pellegrino.Base.{
  ℕ, ◌≡◌, ◌≢◌, ◌≤◌, ◌<◌, ◌∙◌, false, ◌==◌, le→leb, List, Option, none, some, length, replicate,
  Outcome, done, arith, ap,
}
use pellegrino.Syscall.{
  SysCallRequest, SysCallSuccess, Postcard, PostcardLaws, Bridge, idle_bridge, Sys,
}
use pellegrino.Syscall.Memory.{read, write, read-write}
use pellegrino.Syscall.Crossing.{answer, buf_len, any_zeros, collect, try_syscall, svc}

-- The memory with both buffers zeroed, and then with the request.
abbrev pub zeroed : ℕ → ℕ → (ℕ → ℕ) → ℕ → ℕ
zeroed inp out mem = write (write mem inp (replicate buf_len 0)) out (replicate buf_len 0)

abbrev pub requested : ℕ → ℕ → (ℕ → ℕ) → List ℕ → ℕ → ℕ
requested inp out mem iused = write (zeroed inp out mem) inp iused

module _ {c : Postcard} (laws : PostcardLaws c) {S : Type 0}
    (hdlr : SysCallRequest → (ℕ → ℕ) → S → Outcome ((ℕ → ℕ) × (S × Option SysCallSuccess)))
    (inp out : ℕ) (req : SysCallRequest) (s : Sys S) where
  -- The bridge while the supervisor call runs.
  abbrev call_bridge : List ℕ → Bridge
  call_bridge iused = record {
    in_ptr = inp;
    in_len = length iused;
    out_ptr = out;
    out_len = buf_len;
  }

  abbrev calling : List ℕ → Sys S
  calling iused = record s { mem = requested inp out s.mem iused; bridge = call_bridge iused }

  any_zeros-call_bridge :
      (iused : List ℕ)
      → inp ≢ 0
      → out ≢ 0
      → 0 < length iused
      → any_zeros (call_bridge iused) ≡ false
  unfolding any_zeros
  any_zeros-call_bridge iused in_ne out_ne pos = ground arith

  decoded :
      (iused : List ℕ)
      → c.request_to_slice req buf_len ≡ some iused
      → c.request_from_bytes (read (requested inp out s.mem iused) inp (length iused)) ≡ some req
  decoded iused e =
      ap c.request_from_bytes (read-write (zeroed inp out s.mem) inp iused)
      ∙ laws.request_round req buf_len iused e

  svc-err :
      (iused : List ℕ) (m : ℕ → ℕ) (k : S)
      → inp ≢ 0
      → out ≢ 0
      → c.request_to_slice req buf_len ≡ some iused
      → hdlr req (requested inp out s.mem iused) s.kernel ≡ done (m, (k, none))
      → svc c hdlr (calling iused)
        ≡ done (record { mem = m; bridge = record (call_bridge iused) { out_len = 0 }; kernel = k })
  unfolding svc
  svc-err iused m k in_ne out_ne e h = rw (
    any_zeros-call_bridge iused in_ne out_ne (laws.request_within req buf_len iused e).0,
    decoded iused e,
    h,
  )

  -- While no other call is in progress, a request that fits its buffer, the buffers not null, and whose
  -- handler fails, is an error to the caller, and the bridge is idle again.
  pub try_syscall-err :
      (iused : List ℕ) (m : ℕ → ℕ) (k : S)
      → inp ≢ 0
      → out ≢ 0
      → s.bridge.in_ptr ≡ 0
      → c.request_to_slice req buf_len ≡ some iused
      → hdlr req (requested inp out s.mem iused) s.kernel ≡ done (m, (k, none))
      → try_syscall c (svc c hdlr) inp out req s
        ≡ done (record { mem = m; bridge = idle_bridge; kernel = k }, none)
  unfolding try_syscall
  try_syscall-err iused m k in_ne out_ne free e h =
      rw (try_syscall, e, free, svc-err iused m k in_ne out_ne e h)

  svc-ok :
      (iused ser : List ℕ) (m : ℕ → ℕ) (k : S) (response : SysCallSuccess)
      → inp ≢ 0
      → out ≢ 0
      → c.request_to_slice req buf_len ≡ some iused
      → hdlr req (requested inp out s.mem iused) s.kernel ≡ done (m, (k, some response))
      → c.success_to_slice response buf_len ≡ some ser
      → svc c hdlr (calling iused)
        ≡ done (record {
          mem = write m out ser;
          bridge = record (call_bridge iused) { out_len = length ser };
          kernel = k;
        })
  unfolding svc
  svc-ok iused ser m k response in_ne out_ne e h fits = rw (
    any_zeros-call_bridge iused in_ne out_ne (laws.request_within req buf_len iused e).0,
    decoded iused e,
    h,
    answer,
    fits,
  )

  collected :
      (ser : List ℕ) (m : ℕ → ℕ) (k : S) (b : Bridge)
      → 0 < length ser
      → length ser ≤ buf_len
      → collect c out buf_len
          (record { mem = write m out ser; bridge = record b { out_len = length ser }; kernel = k })
        ≡ done (record { mem = write m out ser; bridge = idle_bridge; kernel = k }, some ser)
  unfolding collect
  collected ser m k b pos fits =
      let some_len : (length ser == 0) ≡ false = ground arith in
      rw (some_len, le→leb (length ser) buf_len fits, read-write m out ser)

  -- While no other call is in progress, a request that fits its buffer, the buffers not null, and whose
  -- handler succeeds, with an answer that fits the other, gives that answer to the caller: the handler has run once, on this request, and the
  -- bridge is idle again.
  pub try_syscall-ok :
      (iused ser : List ℕ) (m : ℕ → ℕ) (k : S) (response : SysCallSuccess)
      → inp ≢ 0
      → out ≢ 0
      → s.bridge.in_ptr ≡ 0
      → c.request_to_slice req buf_len ≡ some iused
      → hdlr req (requested inp out s.mem iused) s.kernel ≡ done (m, (k, some response))
      → c.success_to_slice response buf_len ≡ some ser
      → try_syscall c (svc c hdlr) inp out req s
        ≡ done (record { mem = write m out ser; bridge = idle_bridge; kernel = k }, some response)
  unfolding try_syscall
  try_syscall-ok iused ser m k response in_ne out_ne free e h fits =
      let (pos, le) = laws.success_within response buf_len ser fits in
      rw (
        try_syscall,
        e,
        free,
        svc-ok iused ser m k response in_ne out_ne e h fits,
        collected ser m k (call_bridge iused) pos le,
        laws.success_round response buf_len ser fits,
      )
