-- ===== src/UsbSerial/Steps.antt =====
-- The driver's life: every sequence of its operations, with the interrupt between them.
use mathlib.Core.Path.{subst}
use pellegrino.Base.{
  ℕ, ◌≡◌, sym, ap, ◌∙◌, List, Option, Option-cases, none, some, is_some, true, false, some-inj,
  none≢some, inl, inr, Bool-cases, ◌==◌, total, done, done-inj, IfDone, arith,
}
use pellegrino.Alloc.{AHeap, init_idle}
use pellegrino.Alloc.Blocks.{FreeBox}
use pellegrino.Alloc.Cleaning.{Owners, Ready}
use pellegrino.UsbSerial.State.{Platform, PlatformLaws, UsbUartSys, setup_usb_uart}
use pellegrino.UsbSerial.Arrays.{is_block, owning, owning-total, Ready-same, drop_arrays-idle}
use pellegrino.UsbSerial.Ports.{register_port, release_port}
use pellegrino.UsbSerial.Send.{Sent, send}
use pellegrino.UsbSerial.Receive.{process, recv}
use pellegrino.UsbSerial.Receive.Owned.{queued, Holds, IsOwned}
use pellegrino.UsbSerial.Receive.Kept.{send-IsOwned, process-IsOwned}
use pellegrino.UsbSerial.Receive.Kept.Recv.{recv-IsOwned}

-- `interrupts` is a run of the interrupt, which has the other ends of the two queues.
pub data Step {p : Platform} : UsbUartSys p → UsbUartSys p → Type 0 where
  interrupts :
      (s : UsbUartSys p) (out inc : p.queues.Queue) → Step s (record s { out = out; inc = inc })
  registers : (s s' : UsbUartSys p) (port : ℕ) → register_port port s ≡ some s' → Step s s'
  releases : (s s' : UsbUartSys p) (port : ℕ) → release_port port s ≡ done (some s') → Step s s'
  processes : (s s' : UsbUartSys p) → process p s ≡ done s' → Step s s'
  receives :
      (s s' : UsbUartSys p) (port buflen : ℕ) (r : Option (List ℕ))
      → recv p port buflen s ≡ done (s', r)
      → Step s s'
  sends :
      (s s' : UsbUartSys p) (port : ℕ) (buf : List ℕ) (r : Sent)
      → send port buf s ≡ done (s', r)
      → Step s s'

-- The states that the driver can be in once `setup_usb_uart` has set it up.
pub data Reach {p : Platform} (heap : AHeap p.crates) : UsbUartSys p → Type 0 where
  start :
      (s : UsbUartSys p) (inc out : Option p.queues.Queue)
      → setup_usb_uart p heap inc out ≡ some s
      → Reach heap s
  next : {s s' : UsbUartSys p} → Reach heap s → Step s s' → Reach heap s'

module _ {p : Platform} (laws : PlatformLaws p) (live : Owners) where
  open laws use {tables, crates}

  setup-IsOwned :
      (heap : AHeap p.crates) (inc out : Option p.queues.Queue) (s : UsbUartSys p)
      → setup_usb_uart p heap inc out ≡ some s
      → Holds laws live heap live
      → IsOwned laws live s
  unfolding setup_usb_uart
  setup-IsOwned heap none out s e v = absurd (none≢some e)
  setup-IsOwned heap (some i) none s e v = absurd (none≢some e)
  setup-IsOwned heap (some i) (some o) s e (idle, r) =
      let (m, inserted, more, gets) =
        tables.inserts p.tables.new_map 0 p.tables.new_deque (tables.get-new 0)
          (omega (arith, tables.size-new)) in
      subst (IsOwned laws live) (some-inj (rw inserted at e)) (
        idle,
        Ready-same crates (queued laws live m)
            (λ b. omega (
              arith,
              tables.weigh-insert (is_block b) p.tables.new_map m 0 p.tables.new_deque
                  (tables.get-new 0) inserted,
              tables.weigh-new (is_block b),
              ap (total (is_block b)) tables.items-new,
            ))
            r,
      )

  not_there :
      (port : ℕ) (s : UsbUartSys p)
      → p.tables.contains_key s.ports port ≡ false
      → p.tables.get s.ports port ≡ none
  not_there port s e = elim (Option-cases (p.tables.get s.ports port)) [
    | inl gone ↦ gone
    | inr (d, there) ↦
        let found : p.tables.contains_key s.ports port ≡ true =
          tables.contains_key-get s.ports port ∙ ap is_some there in
        absurd (let both : true ≡ false = sym found ∙ e in cc)
  ]

  register_port-IsOwned :
      (port : ℕ) (s s' : UsbUartSys p)
      → register_port port s ≡ some s'
      → IsOwned laws live s
      → IsOwned laws live s'
  unfolding register_port
  register_port-IsOwned port s s' e (idle, r) =
      elim (Bool-cases (p.tables.contains_key s.ports port)) [
        | inl there ↦ absurd (none≢some (rw (register_port, there) at e))
        | inr free ↦ elim (Option-cases (p.tables.insert s.ports port p.tables.new_deque)) [
          | inl full ↦ absurd (none≢some (rw (register_port, free, full) at e))
          | inr (m, inserted) ↦
              subst (IsOwned laws live) (some-inj (rw (register_port, free, inserted) at e)) (
                idle,
                Ready-same crates (queued laws live m)
                    (λ b. omega (
                      arith,
                      tables.weigh-insert (is_block b) s.ports m port p.tables.new_deque
                          (not_there port s free) inserted,
                      ap (total (is_block b)) tables.items-new,
                    ))
                    r,
              )
        ]
      ]

  release_port-IsOwned :
      (port : ℕ) (s s' : UsbUartSys p)
      → release_port port s ≡ done (some s')
      → IsOwned laws live s
      → IsOwned laws live s'
  unfolding release_port
  release_port-IsOwned port s s' e (idle, r) = elim (Bool-cases (port == 0)) [
    | inl zero_port ↦ absurd (none≢some (done-inj (rw (release_port, zero_port) at e)))
    | inr other ↦ elim (Option-cases (p.tables.get s.ports port)) [
      | inl gone ↦ absurd (
          none≢some
            (done-inj (rw (release_port, other, tables.removes_none s.ports port gone) at e)))
      | inr (d, there) ↦
          let (m, removed, less, gets) = tables.removes s.ports port d there in
          let weight =
            λ (b : FreeBox). tables.weigh-remove (is_block b) s.ports m port d there removed in
          let (h, run, idle', r') =
            drop_arrays-idle crates (tables.items d)
              (Ready-same crates (owning (tables.items d) (queued laws live m))
                (λ b. omega (arith, weight b, owning-total (tables.items d) (queued laws live m) b))
                r)
              idle in
          subst (IsOwned laws live)
            (some-inj
              (done-inj (rw (release_port, other, removed, tables.dropped-items d, run) at e)))
            (idle', r')
    ]
  ]

  -- A step of the driver keeps the ledger.
  pub Step-IsOwned : {s s' : UsbUartSys p} → Step s s' → IsOwned laws live s → IsOwned laws live s'
  Step-IsOwned (interrupts s out inc) v = v
  Step-IsOwned (registers s s' port e) v = register_port-IsOwned port s s' e v
  Step-IsOwned (releases s s' port e) v = release_port-IsOwned port s s' e v
  Step-IsOwned (processes s s' e) v =
      subst (IfDone (IsOwned laws live)) e (process-IsOwned laws live s v)
  Step-IsOwned (receives s s' port buflen r e) v =
      subst (IfDone (λ x. IsOwned laws live x.0)) e (recv-IsOwned laws live port buflen s v)
  Step-IsOwned (sends s s' port buf r e) v =
      subst (IfDone (λ x. IsOwned laws live x.0)) e (send-IsOwned laws live port buf s v)

  -- The driver is set up with the lock free, and `live` are the owners of blocks then. In every state
  -- that its operations and the interrupt lead to, in any order, the lock is free, and every block is
  -- allocated exactly as often as it has one of these owners, is the block of an array that waits in
  -- a port's queue, or has a pending release: no array is lost or given back twice.
  pub Reach-IsOwned :
      (heap : AHeap p.crates) (s : UsbUartSys p)
      → heap.state ≡ init_idle
      → Ready crates heap live
      → Reach heap s
      → IsOwned laws live s
  Reach-IsOwned heap s idle r (start _ inc out e) = setup-IsOwned heap inc out s e (idle, r)
  Reach-IsOwned heap s idle r (next {s = t} reach step) =
      Step-IsOwned step (Reach-IsOwned heap t idle r reach)
