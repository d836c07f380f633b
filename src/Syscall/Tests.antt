-- ===== src/Syscall/Tests.antt =====
-- System calls over a stand-in for `postcard` and a driver that takes two bytes at a time.
use pellegrino.Base.{
  ℕ, ◌-◌, ◌^◌, ◌≡◌, inl, refl, ap, arith, List, [], ◌∷◌, ◌++◌, Option, none, some, length, take,
  drop, length-take, Outcome, ◌==◌, if◌then◌else◌, sym, done, out_of_fuel, done-inj, some-inj,
}
use pellegrino.Syscall.{
  SysCallSlice, SysCallSliceMut, SysCallRequest, serial_open_port, SysCallSuccess, port_opened,
  data_received, idle_bridge, Sys,
}
use pellegrino.Syscall.Memory.{read, write}
use pellegrino.Syscall.Crossing.{try_syscall, svc}
use pellegrino.Syscall.Serving.{requested, try_syscall-ok, try_syscall-err}
use pellegrino.Syscall.Handler.{Serial, SerialLaws, wait, handle_syscall, sent_response}
use pellegrino.Syscall.Handling.{wait-never_ends}
use pellegrino.Syscall.Porcelain.{read_port, write_port}
use pellegrino.Syscall.Transfers.{call, read_port-recv, write_port-send}
use pellegrino.Syscall.Stand.{word_card, word_card_laws}
use pellegrino.UsbSerial.Send.{unsent}

abbrev two_bytes : Serial
two_bytes = record {
  State = List ℕ;
  register_port = λ port s. if port == 0 then some s else none;
  release_port = λ port s. done none;
  process = λ s. done s;
  recv = λ port n s. done (drop n s, some (take n s));
  send = λ port buf s. done (s ++ take 2 buf, unsent (drop 2 buf));
}

unsent-inj : {a b : List ℕ} → unsent a ≡ unsent b → a ≡ b
unsent-inj e = cc

two_bytes_laws : SerialLaws two_bytes
two_bytes_laws = record {
  recv-within = λ port n s s' bs e.
      let same : take n s ≡ bs = some-inj (ap (λ r. r.1) (done-inj e)) in
      omega (arith, length-take n s, ap length same);
  send-suffix = λ port buf s s' rest e. (2, sym (unsent-inj (ap (λ r. r.1) (done-inj e))));
}

abbrev at_rest : Sys (List ℕ)
at_rest = record { mem = λ a. a; bridge = idle_bridge; kernel = 5 ∷ 6 ∷ 7 ∷ [] }

abbrev serve :
    SysCallRequest → (ℕ → ℕ) → List ℕ → Outcome ((ℕ → ℕ) × (List ℕ × Option SysCallSuccess))
serve = handle_syscall two_bytes (λ i. i) 10

abbrev open_request : List ℕ
open_request = 0 ∷ 0 ∷ []

try_syscall-ok_example :
    try_syscall word_card (svc word_card serve) 1000 2000 (serial_open_port 0) at_rest
    ≡ done (
      record {
        mem = write (requested 1000 2000 (λ a. a) open_request) 2000 (0 ∷ []);
        bridge = idle_bridge;
        kernel = 5 ∷ 6 ∷ 7 ∷ [];
      },
      some port_opened,
    )
unfolding handle_syscall
try_syscall-ok_example =
    try_syscall-ok word_card_laws serve 1000 2000 (serial_open_port 0) at_rest open_request (0 ∷ [])
      (requested 1000 2000 (λ a. a) open_request) (5 ∷ 6 ∷ 7 ∷ []) port_opened (λ e. omega arith)
      (λ e. omega arith) refl refl refl refl

try_syscall-err_example :
    try_syscall word_card (svc word_card serve) 1000 2000 (serial_open_port 4) at_rest
    ≡ done (
      record {
        mem = requested 1000 2000 (λ a. a) (0 ∷ 4 ∷ []);
        bridge = idle_bridge;
        kernel = 5 ∷ 6 ∷ 7 ∷ [];
      },
      none,
    )
unfolding handle_syscall
try_syscall-err_example =
    try_syscall-err word_card_laws serve 1000 2000 (serial_open_port 4) at_rest (0 ∷ 4 ∷ [])
      (requested 1000 2000 (λ a. a) (0 ∷ 4 ∷ [])) (5 ∷ 6 ∷ 7 ∷ []) (λ e. omega arith)
      (λ e. omega arith) refl refl refl

abbrev buffer : SysCallSliceMut
buffer = record { ptr = 3000; len = 2 }

read_port-recv_example :
    (s' : Sys (List ℕ)) × (read_port
        (call word_card two_bytes (λ i. i) 10 1000 2000)
        0
        buffer
        at_rest
      ≡ done (s', some (record { ptr = 3000; len = 2 })))
    × (s'.kernel ≡ 7 ∷ [])
    × (s'.bridge ≡ idle_bridge)
    × (read s'.mem 3000 2 ≡ 5 ∷ 6 ∷ [])
read_port-recv_example =
    read_port-recv word_card_laws two_bytes_laws (λ i. i) 10 1000 2000 at_rest 0 (λ e. omega arith)
      (λ e. omega arith) refl buffer (1 ∷ 0 ∷ 3000 ∷ 2 ∷ []) (1 ∷ 3000 ∷ 2 ∷ []) (5 ∷ 6 ∷ [])
      (7 ∷ []) (inl (omega arith)) refl refl refl

abbrev data_out : SysCallSlice
data_out = record { ptr = 3000; len = 3 }

-- Two of the three bytes are taken.
write_port-send_example :
    let asked = requested 1000 2000 (λ a. a) (2 ∷ 0 ∷ 3000 ∷ 3 ∷ []) in
    (write_port (call word_card two_bytes (λ i. i) 10 1000 2000) 0 data_out at_rest
      ≡ done (
        record {
          mem = write asked 2000 (2 ∷ 3002 ∷ 1 ∷ []);
          bridge = idle_bridge;
          kernel = 5 ∷ 6 ∷ 7 ∷ take 2 (read asked 3000 3);
        },
        some (some (record { ptr = 3002; len = 1 })),
      ))
    × (drop 2 (read asked 3000 3) ≡ drop 2 (read asked 3000 3))
unfolding read sent_response
write_port-send_example =
    let asked = requested 1000 2000 (λ a. a) (2 ∷ 0 ∷ 3000 ∷ 3 ∷ []) in
    write_port-send word_card_laws two_bytes_laws (λ i. i) 10 1000 2000 at_rest 0 (λ e. omega arith)
      (λ e. omega arith) refl data_out (2 ∷ 0 ∷ 3000 ∷ 3 ∷ []) (2 ∷ 3002 ∷ 1 ∷ [])
      (5 ∷ 6 ∷ 7 ∷ take 2 (read asked 3000 3)) (unsent (drop 2 (read asked 3000 3))) refl refl refl

wait-never_ends_example : wait (λ i. 7) 3 0 (2 ^ 32 - 1) ≡ out_of_fuel
wait-never_ends_example = wait-never_ends (λ i. 7) 3 0 (λ j. omega arith)

-- A kernel that answers with more bytes than there were.
abbrev liar : SysCallRequest → Sys (List ℕ) → Outcome (Sys (List ℕ) × Option SysCallSuccess)
liar r s = done (s, some (data_received (record { ptr = 1; len = 99 })))
