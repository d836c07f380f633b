-- ===== src/Crowtty/Steps.antt =====
-- The life of the host tool: rounds of the main loop and of the worker threads, in any order. A round of
-- a worker is one step: it takes from one channel and then adds to the other, and neither act stands in
-- the way of what the main loop does between them.
use mathlib.Core.Path.{subst}
use pellegrino.Base.{
  ℕ, ◌^◌, ◌<◌, ◌≡◌, ◌⊎◌, sym, ◌∙◌, inl, inr, List, [], ◌∷◌, ◌++◌, Option, some, Bool, Bool-cases,
  true, All, done, panic, Returns, IfDone, done-inj, panic≢done, arith,
}
use pellegrino.Sportty.Codec.{Cobs, CobsLaws}
use pellegrino.Crowtty.{Workers, start_workers, Host, round}
use pellegrino.Crowtty.Worker.{
  Streams, StreamsLaws, read_error, Handle, new_handle, abort, worker_round,
}
use pellegrino.Crowtty.Cut.{All-append}
use pellegrino.Sportty.Encode.{AddsOne}
use pellegrino.Crowtty.Outgoing.{IsSmall}
use pellegrino.Crowtty.Sound.{IsSound, StaysSound, round-StaysSound}
use pellegrino.Crowtty.Worker.Bounds.{worker_round-IsSmall}

-- `joins` is a round of the thread of one worker over a connection, whatever that connection is, and
-- `aborts` is its end.
pub data Step {c : Cobs} {serial : Streams} (socket : Streams)
    : Host c serial → Host c serial → Type 0 where
  rounds : (h h' : Host c serial) → round c serial h ≡ done (some h') → Step socket h h'
  joins :
      (h : Host c serial) (before after : Workers) (p : ℕ) (hdl hdl' : Handle) (skt : socket.Stream)
      (skt' : Option socket.Stream)
      → h.workers ≡ before ++ (p, hdl) ∷ after
      → hdl.alive ≡ true
      → worker_round socket hdl skt ≡ done (hdl', skt')
      → Step socket h (record h { workers = before ++ (p, hdl') ∷ after })
  aborts :
      (h : Host c serial) (before after : Workers) (p : ℕ) (hdl : Handle)
      → h.workers ≡ before ++ (p, hdl) ∷ after
      → Step socket h (record h { workers = before ++ (p, abort hdl) ∷ after })

-- The states from the start of the main loop on, with the workers of ports 0 and 1.
pub data Reach {c : Cobs} {serial : Streams} (socket : Streams) : Host c serial → Type 0 where
  start :
      (binds : ℕ → Bool) (ws : Workers) (port : serial.Stream)
      → start_workers binds (0 ∷ 1 ∷ []) [] ≡ done ws
      → Reach socket (record { carry = []; workers = ws; port = port })
  next : {h h' : Host c serial} → Reach socket h → Step socket h h' → Reach socket h'

All-middle :
    (before after : Workers) (x : ℕ × Handle) → All IsSmall (before ++ x ∷ after) → IsSmall x
All-middle [] after x h = h.0
All-middle (y ∷ ys) after x h = All-middle ys after x h.1

All-replace :
    (before after : Workers) (x x' : ℕ × Handle)
    → All IsSmall (before ++ x ∷ after)
    → IsSmall x'
    → All IsSmall (before ++ x' ∷ after)
All-replace [] after x x' h k = (k, h.1)
All-replace (y ∷ ys) after x x' h k = (h.0, All-replace ys after x x' h.1 k)

start_workers-IsSmall :
    (binds : ℕ → Bool) (is : List ℕ) (ws ws' : Workers)
    → All (λ i. i < 2 ^ 16) is
    → All IsSmall ws
    → start_workers binds is ws ≡ done ws'
    → All IsSmall ws'
unfolding start_workers
start_workers-IsSmall binds [] ws ws' low h e = subst (All IsSmall) (done-inj e) h
start_workers-IsSmall binds (i ∷ is) ws ws' low h e = elim (Bool-cases (binds i)) [
  | inl bound ↦
      start_workers-IsSmall binds is (ws ++ (i, new_handle) ∷ []) ws' low.1
        (All-append IsSmall ws ((i, new_handle) ∷ []) h ((low.0, tt), tt))
        (rw (start_workers, bound) at e)
  | inr refused ↦ absurd (panic≢done (rw (start_workers, refused) at e))
]

module _ {c : Cobs} (laws : CobsLaws c) {serial : Streams} (serial_laws : StreamsLaws serial) where
  module _ (short : AddsOne laws) {socket : Streams} (socket_laws : StreamsLaws socket) where
    Step-IsSound :
        {h h' : Host c serial}
        → Step socket h h'
        → IsSound laws serial_laws h
        → IsSound laws serial_laws h'
    Step-IsSound (rounds h h' e) v = elim (round-StaysSound laws serial_laws h short v) [
      | inl (port, buf, fails, panics) ↦ absurd (panic≢done (sym panics ∙ e))
      | inr ends ↦ subst (Returns (StaysSound laws serial_laws)) e ends
    ]
    Step-IsSound (joins h before after p hdl hdl' skt skt' e lives run) (nz, small) =
        let all : All IsSmall (before ++ (p, hdl) ∷ after) = subst (All IsSmall) e small in
        let kept : IsSmall (p, hdl') =
          subst (IfDone (λ r. IsSmall (p, r.0))) run
            (worker_round-IsSmall socket_laws p hdl skt (All-middle before after (p, hdl) all)) in
        (nz, All-replace before after (p, hdl) (p, hdl') all kept)
    Step-IsSound (aborts h before after p hdl e) (nz, small) =
        let all : All IsSmall (before ++ (p, hdl) ∷ after) = subst (All IsSmall) e small in
        (
          nz,
          All-replace before after (p, hdl) (p, abort hdl) all
              (unfold abort in All-middle before after (p, hdl) all),
        )

    Reach-IsSound : (h : Host c serial) → Reach socket h → IsSound laws serial_laws h
    Reach-IsSound h (start binds ws port e) =
        (tt, start_workers-IsSmall binds (0 ∷ 1 ∷ []) [] ws (omega arith, (omega arith, tt)) tt e)
    Reach-IsSound h (next {h = h0} reach step) = Step-IsSound step (Reach-IsSound h0 reach)

    -- With a COBS that adds one byte at most to 254, in every state that the main loop and the workers
    -- lead to, in any order, a round of the main loop returns, unless the read of the serial port
    -- fails, in which case it panics: no frame is too long for its buffer. Where `main` goes on,
    -- `carry` has no zero byte, and what waits from the workers is 128 bytes at most each.
    pub Reach-round :
        (h : Host c serial)
        → Reach socket h
        → ((port : serial.Stream) × (buf : List ℕ) × ((serial.read port buf).0 ≡ read_error)
            × (round c serial h ≡ panic))
          ⊎ Returns (StaysSound laws serial_laws) (round c serial h)
    Reach-round h reach = round-StaysSound laws serial_laws h short (Reach-IsSound h reach)
