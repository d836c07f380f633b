-- ===== src/PortEcho/Echoes.antt =====
-- What the application does, seen from the driver: it passes on what port zero receives to port one.
use pellegrino.Base.{
  ℕ, zero, suc, ◌+◌, ◌≤◌, ◌<◌, ◌^◌, ◌≡◌, ◌≢◌, inl, inr, refl, ◌∙◌, ap, List, Option, none, some,
  length, length-drop, replicate, Outcome, done, arith,
}
use pellegrino.Syscall.{
  SysCallSlice, SysCallSliceMut, SysCallRequest, serial_open_port, serial_receive, serial_send,
  sleep_micros, SysCallSuccess, port_opened, data_received, slept_micros, Postcard, PostcardLaws,
  idle_bridge, Sys,
}
use pellegrino.Syscall.Memory.{read, write}
use pellegrino.Syscall.Crossing.{buf_len}
use pellegrino.Syscall.Serving.{requested, try_syscall-ok, try_syscall-err}
use pellegrino.Syscall.Handler.{Serial, SerialLaws, wait, sent_response, handle_syscall}
use pellegrino.Syscall.Transfers.{call, read_port-recv, write_port-send}
use pellegrino.UsbSerial.Send.{Sent, sent, unsent}
use pellegrino.Syscall.Porcelain.{read_port, write_port, open_port}
use pellegrino.Syscall.Porcelain
use pellegrino.PortEcho.Wire.{SuccessFits, IsCompact, Apart, read-requested}
use pellegrino.PortEcho.{echo_len, pass_on, echo_round, echo_rounds, entry}

-- One round at the driver: what port zero receives is sent on port one, and nothing is sent where the
-- driver receives nothing.
abbrev pub Passes : (ser : Serial) → Option (List ℕ) → ser.State → ser.State → Type 0
Passes ser none k k' = k ≡ k'
Passes ser (some bs) k k' = (r : Sent) × (ser.send 1 bs k ≡ done (k', r))

abbrev pub Echo : (ser : Serial) → ser.State → ser.State → Type 0
Echo ser k k' =
    (k1 : ser.State) × (heard : Option (List ℕ)) × (ser.recv 0 echo_len k ≡ done (k1, heard))
    × Passes ser heard k1 k'

module _ {c : Postcard} (laws : PostcardLaws c) (compact : IsCompact c) {ser : Serial}
    (promises : SerialLaws ser) (micros_since : ℕ → ℕ) (polls inp out buf : ℕ) (in_ne : inp ≢ 0)
    (out_ne : out ≢ 0) (in_apart : Apart buf echo_len inp buf_len)
    (out_apart : Apart buf echo_len out buf_len) (in_memory : buf + echo_len < 2 ^ 32) where
  abbrev calls : SysCallRequest → Sys ser.State → Outcome (Sys ser.State × Option SysCallSuccess)
  calls = call c ser micros_since polls inp out

  -- The bridge is idle, and the driver is in this state.
  abbrev pub At : ser.State → Sys ser.State → Type 0
  At k s = (s.bridge ≡ idle_bridge) × (s.kernel ≡ k)

  free : {k : ser.State} (s : Sys ser.State) → At k s → s.bridge.in_ptr ≡ 0
  free s at = ap (λ b. b.in_ptr) at.0

  abbrev whole_buf : SysCallSliceMut
  whole_buf = record { ptr = buf; len = echo_len }

  -- The slice of what was heard, and its bytes in memory.
  abbrev Heard : Option (List ℕ) → Option SysCallSliceMut → Sys ser.State → Type 0
  Heard none d s = d ≡ none
  Heard (some bs) d s =
      (d ≡ some (record { ptr = buf; len = length bs }))
      × (length bs ≤ echo_len)
      × (read s.mem buf (length bs) ≡ bs)

  reads :
      (s : Sys ser.State) (k k1 : ser.State) (heard : Option (List ℕ))
      → At k s
      → ser.recv 0 echo_len k ≡ done (k1, heard)
      → (s1 : Sys ser.State) × (d : Option SysCallSliceMut) × (read_port calls 0 whole_buf s
          ≡ done (s1, d))
        × At k1 s1
        × Heard heard d s1
  unfolding read_port
  reads s k k1 none at got =
      let req = serial_receive 0 whole_buf in
      let (iused, e) = compact.request req (omega arith) in
      let asked = requested inp out s.mem iused in
      let here : ser.recv 0 echo_len s.kernel ≡ done (k1, none) =
        ap (λ x. ser.recv 0 echo_len x) at.1 ∙ got in
      (
        record { mem = asked; bridge = idle_bridge; kernel = k1 },
        none,
        rw
            (try_syscall-err laws (handle_syscall ser micros_since polls) inp out req s iused asked
              k1 in_ne out_ne (free s at) e (unfold handle_syscall in rw here))
            refl,
        (refl, refl),
        refl,
      )
  reads s k k1 (some bs) at got =
      let here : ser.recv 0 echo_len s.kernel ≡ done (k1, some bs) =
        ap (λ x. ser.recv 0 echo_len x) at.1 ∙ got in
      let few = promises.recv-within 0 echo_len s.kernel k1 bs here in
      let (iused, e) = compact.request (serial_receive 0 whole_buf) (omega arith) in
      let (answer, fits) =
        compact.success (data_received (record { ptr = buf; len = length bs })) (omega arith) in
      let (s1, run, kernel, bridge, mem) =
        read_port-recv laws promises micros_since polls inp out s 0 in_ne out_ne (free s at)
          whole_buf iused answer bs k1 (elim out_apart [ inl lo ↦ inr lo | inr hi ↦ inl hi ]) e here
          fits in
      (s1, some (record { ptr = buf; len = length bs }), run, (bridge, kernel), (refl, few, mem))

  sent_response-SuccessFits :
      (bs : List ℕ) (k k' : ser.State) (r : Sent)
      → length bs ≤ echo_len
      → ser.send 1 bs k ≡ done (k', r)
      → SuccessFits (sent_response (record { ptr = buf; len = length bs }) r)
  unfolding sent_response
  sent_response-SuccessFits bs k k' sent few given = tt
  sent_response-SuccessFits bs k k' (unsent rest) few given =
      let (n, suffix) = promises.send-suffix 1 bs k k' rest given in
      let short : length rest ≤ length bs = omega (arith, ap length suffix, length-drop n bs) in
      (omega arith, omega arith)

  sends :
      (s : Sys ser.State) (k k' : ser.State) (bs : List ℕ) (r : Sent)
      → At k s
      → length bs ≤ echo_len
      → read s.mem buf (length bs) ≡ bs
      → ser.send 1 bs k ≡ done (k', r)
      → (s' : Sys ser.State) × (pass_on calls buf (some (record { ptr = buf; len = length bs })) s
          ≡ done s')
        × At k' s'
  unfolding pass_on
  sends s k k' bs r at few mem given =
      let slice : SysCallSlice = record { ptr = buf; len = length bs } in
      let (iused, e) = compact.request (serial_send 1 slice) (omega arith) in
      let (answer, fits) =
        compact.success (sent_response slice r) (sent_response-SuccessFits bs k k' r few given) in
      let size = (laws.request_within (serial_send 1 slice) buf_len iused e).1 in
      let asked = requested inp out s.mem iused in
      let same : read asked buf (length bs) ≡ bs =
        read-requested inp out s.mem iused buf (length bs) size
          (elim in_apart [ inl lo ↦ inl (omega arith) | inr hi ↦ inr hi ])
          (elim out_apart [ inl lo ↦ inl (omega arith) | inr hi ↦ inr hi ])
        ∙ mem in
      let here : ser.send 1 (read asked buf (length bs)) s.kernel ≡ done (k', r) =
        ap (λ x. ser.send 1 x s.kernel) same ∙ ap (λ x. ser.send 1 bs x) at.1 ∙ given in
      let (run, ends) =
        write_port-send laws promises micros_since polls inp out s 1 in_ne out_ne (free s at) slice
          iused answer k' r e here fits in
      (
        record { mem = write asked out answer; bridge = idle_bridge; kernel = k' },
        rw run refl,
        (refl, refl),
      )

  passes :
      (heard : Option (List ℕ)) (d : Option SysCallSliceMut) (s : Sys ser.State) (k k' : ser.State)
      → At k s
      → Heard heard d s
      → Passes ser heard k k'
      → (s' : Sys ser.State) × (pass_on calls buf d s ≡ done s') × At k' s'
  unfolding pass_on
  passes none d s k k' at nothing same = (s, rw nothing refl, (at.0, at.1 ∙ same))
  passes (some bs) d s k k' at (slice, few, mem) (r, given) =
      let (s', run, at') = sends s k k' bs r at few mem given in (s', rw slice run, at')

  sleeps :
      (s : Sys ser.State) (k : ser.State)
      → wait micros_since polls 0 10_000 ≡ done tt
      → At k s
      → (s' : Sys ser.State) × (slept : Option ℕ) × (Porcelain.sleep_micros calls 10_000 s
          ≡ done (s', slept))
        × At k s'
  unfolding Porcelain.sleep_micros
  sleeps s k woken at =
      let req = sleep_micros 10_000 in
      let (iused, e) = compact.request req (omega arith) in
      let (answer, fits) = compact.success (slept_micros 10_000) (omega arith) in
      let asked = requested inp out s.mem iused in
      (
        record { mem = write asked out answer; bridge = idle_bridge; kernel = s.kernel },
        some 10_000,
        rw
            (try_syscall-ok laws (handle_syscall ser micros_since polls) inp out req s iused answer
              asked s.kernel (slept_micros 10_000) in_ne out_ne (free s at) e
              (unfold handle_syscall in rw woken) fits)
            refl,
        (refl, at.1),
      )

  -- Wherever the driver can make such a round, the application does.
  pub echo_round-Echo :
      (s : Sys ser.State) (k k' : ser.State)
      → wait micros_since polls 0 10_000 ≡ done tt
      → At k s
      → Echo ser k k'
      → (s' : Sys ser.State) × (echo_round calls buf s ≡ done s') × At k' s'
  unfolding echo_round
  echo_round-Echo s k k' woken at (k1, heard, got, given) =
      let (s1, d, run1, at1, bytes) = reads s k k1 heard at got in
      let (s2, run2, at2) = passes heard d s1 k1 k' at1 bytes given in
      let (s3, slept, run3, at3) = sleeps s2 k' woken at2 in
      (s3, rw (echo_round, run1, run2, run3) refl, at3)

  echo_rounds-Echo :
      (n : ℕ) (s : Sys ser.State) (k : ℕ → ser.State)
      → wait micros_since polls 0 10_000 ≡ done tt
      → At (k 0) s
      → ((i : ℕ) → i < n → Echo ser (k i) (k (suc i)))
      → (s' : Sys ser.State) × (echo_rounds calls buf n s ≡ done s') × At (k n) s'
  unfolding echo_rounds
  echo_rounds-Echo zero s k woken at echo = (s, refl, at)
  echo_rounds-Echo (suc n) s k woken at echo =
      let (s1, run1, at1) = echo_round-Echo s (k 0) (k 1) woken at (echo 0 (omega arith)) in
      let (s2, run2, at2) =
        echo_rounds-Echo n s1 (λ i. k (suc i)) woken at1 (λ i less. echo (suc i) (omega arith)) in
      (s2, rw (echo_rounds, run1) run2, at2)

  opens :
      (s : Sys ser.State) (k : ser.State) (mem : ℕ → ℕ)
      → ser.register_port 1 s.kernel ≡ some k
      → handle_syscall ser micros_since polls (serial_open_port 1) mem s.kernel
        ≡ done (mem, (k, some port_opened))
  unfolding handle_syscall
  opens s k mem opened = rw (handle_syscall, opened) refl

  -- Over any `Serial` whose slices are as promised, with a timer that goes beyond the sleep, and with
  -- the application's array apart from the buffers of its calls: where the driver opens port one, and
  -- then receives from port zero and sends what it received, if anything, on port one, again and again,
  -- `entry` returns from each such number of rounds with the driver where this leads, and the bridge
  -- idle.
  pub entry-Echo :
      (n : ℕ) (s : Sys ser.State) (k : ℕ → ser.State)
      → wait micros_since polls 0 10_000 ≡ done tt
      → s.bridge ≡ idle_bridge
      → ser.register_port 1 s.kernel ≡ some (k 0)
      → ((i : ℕ) → i < n → Echo ser (k i) (k (suc i)))
      → (s' : Sys ser.State) × (entry calls buf n s ≡ done s') × At (k n) s'
  unfolding entry
  entry-Echo n s k woken idle opened echo =
      let req = serial_open_port 1 in
      let (iused, e) = compact.request req (omega arith) in
      let (answer, fits) = compact.success port_opened tt in
      let asked = requested inp out s.mem iused in
      let s1 : Sys ser.State = record {
        mem = write (write asked out answer) buf (replicate echo_len 0);
        bridge = idle_bridge;
        kernel = k 0;
      } in
      let (s2, run, at) = echo_rounds-Echo n s1 k woken (refl, refl) echo in
      (
        s2,
        rw
            (
              entry,
              Porcelain.open_port,
              try_syscall-ok laws (handle_syscall ser micros_since polls) inp out req s iused answer
                  asked (k 0) port_opened in_ne out_ne (ap (λ b. b.in_ptr) idle) e
                  (opens s (k 0) asked opened) fits,
            )
            run,
        at,
      )
