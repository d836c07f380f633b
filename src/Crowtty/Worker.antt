-- ===== src/Crowtty/Worker.antt =====
-- The worker thread of tools/crowtty/src/main.rs, its two channels, and what it and the main loop use of
-- a stream, which the repository does not hold.
pub mod Bounds
use pellegrino.Base.{
  ℕ, zero, suc, ◌≤◌, ◌≡◌, List, [], ◌∷◌, ◌++◌, Option, none, some, Bool, true, false, leb,
  if◌then◌else◌, length, take, replicate, Outcome, done, panic,
}

pub data ReadResult : Type 0 where
  would_block timed_out read_error : ReadResult
  read_ok : ℕ → ReadResult

-- A stream that is written and read: the serial port, or a socket. `write_all` gives no stream where
-- it fails. `read` writes to the start of its buffer. `take_error` tells whether it found an error.
pub record Streams : Type 1 where
  pub Stream : Type 0
  pub write_all : Stream → List ℕ → Option Stream
  pub read : Stream → List ℕ → ReadResult × (List ℕ × Stream)
  pub take_error : Stream → Bool × Stream

pub record StreamsLaws (k : Streams) : Type 0 where
  -- all that has been written
  pub written : k.Stream → List ℕ
  pub written-write_all :
      (s s' : k.Stream) (bytes : List ℕ)
      → k.write_all s bytes ≡ some s'
      → written s' ≡ written s ++ bytes
  pub written-read :
      (s s' : k.Stream) (buf buf' : List ℕ) (r : ReadResult)
      → k.read s buf ≡ (r, (buf', s'))
      → written s' ≡ written s
  pub read-fits :
      (s s' : k.Stream) (buf buf' : List ℕ) (n : ℕ)
      → k.read s buf ≡ (read_ok n, (buf', s'))
      → (n ≤ length buf) × (length buf' ≡ length buf)

-- `WorkerHandle`: the messages that wait in the channel to the worker and in that from it. The worker's
-- ends of both are gone once its thread has panicked.
pub record Handle : Type 0 where
  pub alive : Bool
  pub out : List (List ℕ)
  pub inp : List (List ℕ)

abbrev pub new_handle : Handle
new_handle = record { alive = true; out = []; inp = [] }

-- `hdl.out.send(...).ok()`
unfoldable pub post : List ℕ → Handle → Handle
post bytes hdl = if hdl.alive then record hdl { out = hdl.out ++ bytes ∷ [] } else hdl

-- `socket.incoming()` gave an error: the thread panics, and what waits for it is lost.
unfoldable pub abort : Handle → Handle
abort hdl = record hdl { alive = false; out = [] }

module _ (socket : Streams) where
  -- The end of a round: 128 bytes at most are read and sent to the main loop. `none` is a break, which
  -- waits for the next connection.
  unfoldable pub read_part : Handle → socket.Stream → Outcome (Handle × Option socket.Stream)
  read_part hdl skt =
      let (result, (buf, skt')) = socket.read skt (replicate 128 0) in
      elim result [
        | would_block ↦ done (hdl, some skt')
        | timed_out ↦ done (hdl, none)
        | read_error ↦ done (hdl, none)
        | read_ok zero ↦ done (hdl, none)
        | read_ok (suc n) ↦
            if leb (suc n) (length buf)
            then done (record hdl { inp = hdl.inp ++ take (suc n) buf ∷ [] }, some skt')
            else panic
      ]

  -- One round of the loop over a connection. A message that cannot be written is lost.
  unfoldable pub worker_round : Handle → socket.Stream → Outcome (Handle × Option socket.Stream)
  unfolding read_part
  worker_round hdl skt =
      let (failed, skt1) = socket.take_error skt in
      if failed then done (hdl, none) else elim hdl.out [
        | [] ↦ read_part hdl skt1
        | msg ∷ later ↦ elim (socket.write_all skt1 msg) [
          | none ↦ done (record hdl { out = later }, none)
          | some skt2 ↦ read_part (record hdl { out = later }) skt2
        ]
      ]
