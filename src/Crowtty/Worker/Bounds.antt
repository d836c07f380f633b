-- ===== src/Crowtty/Worker/Bounds.antt =====
-- What a worker thread reads at a time.
use pellegrino.Base.{
  ℕ, zero, suc, ◌≤◌, ◌≡◌, refl, ap, inl, inr, List, [], ◌∷◌, ◌++◌, Option, none, some, Bool,
  Bool-cases, true, false, leb, All, length, length-take, take, replicate, Outcome, done, panic,
  IfDone, arith, if◌then◌else◌,
}
use pellegrino.Crowtty.Worker.{
  Streams, StreamsLaws, ReadResult, would_block, timed_out, read_error, read_ok, Handle, read_part,
  worker_round,
}
use pellegrino.Crowtty.Outgoing.{IsSmall}

module _ {socket : Streams} (socket_laws : StreamsLaws socket) (p : ℕ) where
  IsSmall-append :
      (inp : List (List ℕ)) (msg : List ℕ)
      → All (λ (m : List ℕ). length m ≤ 128) inp
      → length msg ≤ 128
      → All (λ (m : List ℕ). length m ≤ 128) (inp ++ msg ∷ [])
  IsSmall-append [] msg h k = (k, tt)
  IsSmall-append (x ∷ xs) msg h k = (h.0, IsSmall-append xs msg h.1 k)

  read_part-IsSmall :
      (hdl : Handle) (skt : socket.Stream)
      → IsSmall (p, hdl)
      → IfDone (λ r. IsSmall (p, r.0)) (read_part socket hdl skt)
  unfolding read_part
  read_part-IsSmall hdl skt h =
      let (result, (buf, skt')) = socket.read skt (replicate 128 0) in
      got result buf skt' (λ n e.
        (socket_laws.read-fits skt skt' (replicate 128 0) buf n (ap (λ t. (t, (buf, skt'))) e)).1)
    where
      got :
          (result : ReadResult) (buf : List ℕ) (skt' : socket.Stream)
          → ((n : ℕ) → result ≡ read_ok n → length buf ≡ 128)
          → IfDone
              (λ r. IsSmall (p, r.0))
              (elim result as (λ _. Outcome (Handle × Option socket.Stream)) [
                | would_block ↦ done (hdl, some skt')
                | timed_out ↦ done (hdl, none)
                | read_error ↦ done (hdl, none)
                | read_ok zero ↦ done (hdl, none)
                | read_ok (suc n) ↦
                    if leb (suc n) (length buf)
                    then done (record hdl { inp = hdl.inp ++ take (suc n) buf ∷ [] }, some skt')
                    else panic
              ])
      got would_block buf skt' size = h
      got timed_out buf skt' size = h
      got read_error buf skt' size = h
      got (read_ok zero) buf skt' size = h
      got (read_ok (suc n)) buf skt' size = elim (Bool-cases (leb (suc n) (length buf))) [
        | inl fits ↦ rw fits (
          h.0,
          IsSmall-append hdl.inp (take (suc n) buf) h.1
              (omega (arith, length-take (suc n) buf, size (suc n) refl)),
        )
        | inr long ↦ rw long tt
      ]

  -- A round of a worker adds 128 bytes at most.
  pub worker_round-IsSmall :
      (hdl : Handle) (skt : socket.Stream)
      → IsSmall (p, hdl)
      → IfDone (λ r. IsSmall (p, r.0)) (worker_round socket hdl skt)
  unfolding worker_round
  worker_round-IsSmall hdl skt h =
      let (failed, skt1) = socket.take_error skt in first failed skt1 hdl.out
    where
      next :
          (later : List (List ℕ)) (written : Option socket.Stream)
          → IfDone
              (λ r. IsSmall (p, r.0))
              (elim written as (λ _. Outcome (Handle × Option socket.Stream)) [
                | none ↦ done (record hdl { out = later }, none)
                | some skt2 ↦ read_part socket (record hdl { out = later }) skt2
              ])
      next later none = h
      next later (some skt2) = read_part-IsSmall (record hdl { out = later }) skt2 h

      first :
          (failed : Bool) (skt1 : socket.Stream) (out : List (List ℕ))
          → IfDone
              (λ r. IsSmall (p, r.0))
              (if failed
                then done (hdl, none)
                else elim out as (λ _. Outcome (Handle × Option socket.Stream)) [
                  | [] ↦ read_part socket hdl skt1
                  | msg ∷ later ↦
                      elim (socket.write_all skt1 msg)
                        as (λ _. Outcome (Handle × Option socket.Stream)) [
                          | none ↦ done (record hdl { out = later }, none)
                          | some skt2 ↦ read_part socket (record hdl { out = later }) skt2
                        ]
                ])
      first true skt1 out = h
      first false skt1 [] = read_part-IsSmall hdl skt1 h
      first false skt1 (msg ∷ later) = next later (socket.write_all skt1 msg)
