-- ===== src/Syscall/Transfers.antt =====
-- `read_port` and `write_port` of an application, served by the kernel's handler over any driver that
-- keeps the promises of `Serial`.
use pellegrino.Base.{
  ℕ, ◌+◌, ◌-◌, ◌≤◌, ◌≡◌, ◌≢◌, ◌⊎◌, inl, inr, refl, sym, ◌∙◌, ap, le→leb, List, [], ◌∷◌, Bool-cases,
  leb, leb→le, not-leb→lt, Option, none, some, length, drop, drop-nil, length-drop, zero, suc,
  Outcome, done, arith,
}
use pellegrino.Syscall.{
  SysCallSlice, SysCallSliceMut, SysCallRequest, serial_receive, serial_send, SysCallSuccess,
  data_received, Postcard, PostcardLaws, idle_bridge, Sys,
}
use pellegrino.Syscall.Memory.{read, write, read-write, read-write_apart, length-read}
use pellegrino.Syscall.Crossing.{buf_len, try_syscall, svc}
use pellegrino.Syscall.Serving.{requested, try_syscall-ok}
use pellegrino.Syscall.Handler.{Serial, SerialLaws, sent_response, handle_syscall}
use pellegrino.Syscall.Porcelain.{read_port, write_port}
use pellegrino.UsbSerial.Send.{Sent, sent, unsent}
use pellegrino.UsbSerial.Send.Chunks.{left}

drop-all : (n : ℕ) (xs : List ℕ) → length xs ≤ n → drop n xs ≡ []
drop-all n [] h = drop-nil n
drop-all zero (x ∷ xs) h = absurd (omega arith)
drop-all (suc n) (x ∷ xs) h = drop-all n xs (omega arith)

-- The end of a list is found again by its length.
drop-suffix :
    (n len : ℕ) (xs rest : List ℕ)
    → length xs ≡ len
    → rest ≡ drop n xs
    → drop (len - length rest) xs ≡ rest
drop-suffix n len xs rest size e = elim (Bool-cases (leb n len)) [
  | inl le ↦
      ap (λ k. drop k xs) (omega (arith, length-drop n xs, leb→le _ _ le, ap length e)) ∙ sym e
  | inr gt ↦
      drop-all (len - length rest) xs
        (omega (arith, length-drop n xs, not-leb→lt _ _ gt, ap length e))
      ∙ sym (drop-all n xs (omega (arith, not-leb→lt _ _ gt)))
      ∙ sym e
]

-- The slice of what was not sent.
abbrev pub rest_of : SysCallSlice → Sent → Option SysCallSlice
rest_of buf sent = none
rest_of buf (unsent rest) =
    some (record { ptr = buf.ptr + (buf.len - length rest); len = length rest })

-- An application's call into the kernel, with its buffers at `inp` and `out`.
abbrev pub call :
    (c : Postcard) (ser : Serial) (micros_since : ℕ → ℕ) (polls inp out : ℕ)
    → SysCallRequest
    → Sys ser.State
    → Outcome (Sys ser.State × Option SysCallSuccess)
call c ser micros_since polls inp out =
    try_syscall c (svc c (handle_syscall ser micros_since polls)) inp out

module _ {c : Postcard} (laws : PostcardLaws c) {ser : Serial} (promises : SerialLaws ser)
    (micros_since : ℕ → ℕ) (polls inp out : ℕ) (s : Sys ser.State) (port : ℕ) (in_ne : inp ≢ 0)
    (out_ne : out ≢ 0) (free : s.bridge.in_ptr ≡ 0) where
  -- With the bridge idle, the buffers not null, and a request and an answer that fit them: bytes that
  -- the driver receives for a port arrive at the start of the application's buffer, which
  -- lies apart from the buffer of the answer, and `read_port` returns the slice that holds them.
  pub read_port-recv :
      (buf : SysCallSliceMut) (iused answer bs : List ℕ) (k : ser.State)
      → (out + buf_len ≤ buf.ptr) ⊎ (buf.ptr + buf.len ≤ out)
      → c.request_to_slice (serial_receive port buf) buf_len ≡ some iused
      → ser.recv port buf.len s.kernel ≡ done (k, some bs)
      → c.success_to_slice (data_received (record { ptr = buf.ptr; len = length bs })) buf_len
        ≡ some answer
      → (s' : Sys ser.State) × (read_port (call c ser micros_since polls inp out) port buf s
          ≡ done (s', some (record { ptr = buf.ptr; len = length bs })))
        × (s'.kernel ≡ k)
        × (s'.bridge ≡ idle_bridge)
        × (read s'.mem buf.ptr (length bs) ≡ bs)
  unfolding read_port
  read_port-recv buf iused answer bs k apart e got fits =
      let req = serial_receive port buf in
      let resp = data_received (record { ptr = buf.ptr; len = length bs }) in
      let asked = requested inp out s.mem iused in
      let few = (laws.success_within resp buf_len answer fits).1 in
      let within = promises.recv-within port buf.len s.kernel k bs got in
      (
        record {
          mem = write (write asked buf.ptr bs) out answer;
          bridge = idle_bridge;
          kernel = k;
        },
        rw (
          try_syscall-ok laws (handle_syscall ser micros_since polls) inp out req s iused answer
              (write asked buf.ptr bs) k resp in_ne out_ne free e (unfold handle_syscall in rw got)
              fits,
          le→leb (length bs) buf.len within,
        ),
        refl,
        refl,
        read-write_apart (write asked buf.ptr bs) out buf.ptr (length bs) answer
              (elim apart [ inl above ↦ inr (omega arith) | inr below ↦ inl (omega arith) ])
            ∙ read-write asked buf.ptr bs,
      )

  -- With the bridge idle, the buffers not null, and a request and an answer that fit them: the driver is
  -- given the slice's bytes once, `write_port` returns `None` where it took all of it, and
  -- else the slice of the bytes that it did not take, which is the end of the application's.
  pub write_port-send :
      (buf : SysCallSlice) (iused answer : List ℕ) (k : ser.State) (r : Sent)
      → let asked = requested inp out s.mem iused in
        c.request_to_slice (serial_send port buf) buf_len ≡ some iused
        → ser.send port (read asked buf.ptr buf.len) s.kernel ≡ done (k, r)
        → c.success_to_slice (sent_response buf r) buf_len ≡ some answer
        → (write_port (call c ser micros_since polls inp out) port buf s
            ≡ done (
              record { mem = write asked out answer; bridge = idle_bridge; kernel = k },
              some (rest_of buf r),
            ))
          × (drop (buf.len - length (left r)) (read asked buf.ptr buf.len) ≡ left r)
  unfolding write_port
  write_port-send buf iused answer k sent e given fits =
      let req = serial_send port buf in
      let asked = requested inp out s.mem iused in
      (
        rw
            (try_syscall-ok laws (handle_syscall ser micros_since polls) inp out req s iused answer
              asked k (sent_response buf sent) in_ne out_ne free e
              (unfold handle_syscall in rw given) fits)
            (unfold sent_response in refl),
        drop-all (buf.len - 0) (read asked buf.ptr buf.len)
            (omega (arith, length-read asked buf.ptr buf.len)),
      )
  write_port-send buf iused answer k (unsent rest) e given fits =
      let req = serial_send port buf in
      let asked = requested inp out s.mem iused in
      let bytes = read asked buf.ptr buf.len in
      let size = length-read asked buf.ptr buf.len in
      let (n, suffix) = promises.send-suffix port bytes s.kernel k rest given in
      let few : length rest ≤ buf.len = rw suffix (omega (arith, length-drop n bytes, size)) in
      (
        rw
            (try_syscall-ok laws (handle_syscall ser micros_since polls) inp out req s iused answer
              asked k (sent_response buf (unsent rest)) in_ne out_ne free e
              (unfold handle_syscall in rw given) fits)
            (unfold sent_response in rw (le→leb (length rest) buf.len few) refl),
        drop-suffix n buf.len bytes rest size suffix,
      )
