-- ===== src/Crowtty/Sound.antt =====
-- What the rounds of the host tool keep of its state.
use mathlib.Core.Path.{subst}
use pellegrino.Base.{
  ℕ, zero, suc, ◌≤◌, ◌≡◌, ◌⊎◌, refl, sym, ap, ◌∙◌, inl, inr, List, [], ◌∷◌, ◌++◌, Option, none,
  some, Bool, Bool-cases, All, NoZero, length, length-replicate, take, replicate, Outcome, done,
  panic, undefined, out_of_fuel, and_then, Returns, Returns-done, done-inj, le→leb, arith, ◌==◌,
}
use pellegrino.Sportty.{Result, ok, err, Message, decode_in_place}
use pellegrino.Sportty.Codec.{Cobs, CobsLaws}
use pellegrino.UsbSerial.Accumulator.Drain.Delivers.{handle_all}
use pellegrino.Crowtty.{Workers, send_to, route, cut, Host, send_all, take_read, round}
use pellegrino.Crowtty.Worker.{
  Streams, StreamsLaws, ReadResult, would_block, timed_out, read_error, read_ok, Handle, post,
}
use pellegrino.Crowtty.Cut.{parts, route-ends, cut-wire}
use pellegrino.Sportty.Encode.{AddsOne}
use pellegrino.Crowtty.Outgoing.{IsSmall, AllSent, without_firsts, send_all-AllSent}

send_to-IsSmall :
    (port : ℕ) (bytes : List ℕ) (ws : Workers)
    → All IsSmall ws
    → All IsSmall (send_to port bytes ws)
unfolding send_to post
send_to-IsSmall port bytes [] h = tt
send_to-IsSmall port bytes ((p, hdl) ∷ ws) h = elim (Bool-cases (p == port)) [
  | inl same ↦ elim (Bool-cases hdl.alive) [
    | inl lives ↦ rw (same, lives) h
    | inr dead ↦ rw (same, dead) h
  ]
  | inr other ↦ rw other (h.0, send_to-IsSmall port bytes ws h.1)
]

without_one :
    (p : ℕ) (alive : Bool) (out inp : List (List ℕ)) (ws : Workers)
    → let hdl : Handle = record { alive = alive; out = out; inp = inp } in
      IsSmall (p, hdl)
      → All IsSmall (without_firsts ws)
      → All IsSmall (without_firsts ((p, hdl) ∷ ws))
without_one p alive out [] ws h k = (h, k)
without_one p alive out (msg ∷ later) ws h k = ((h.0, h.1.1), k)

without_firsts-IsSmall : (ws : Workers) → All IsSmall ws → All IsSmall (without_firsts ws)
without_firsts-IsSmall [] h = tt
without_firsts-IsSmall ((p, hdl) ∷ ws) h =
    without_one p hdl.alive hdl.out hdl.inp ws h.0 (without_firsts-IsSmall ws h.1)

module _ {c : Cobs} (laws : CobsLaws c) where
  route-IsSmall :
      (ws ws' : Workers) (chunk : List ℕ)
      → All IsSmall ws
      → route c ws chunk ≡ done ws'
      → All IsSmall ws'
  unfolding route
  route-IsSmall ws ws' chunk h e = taken (decode_in_place c chunk) e
    where
      taken :
          (o : Outcome (Result Message))
          → and_then o (λ r. elim r as (λ _. Outcome Workers) [
            | ok m ↦ done (send_to m.port m.bytes ws)
            | err x ↦ done ws
          ])
            ≡ done ws'
          → All IsSmall ws'
      taken (done (ok m)) e' =
          subst (All IsSmall) (done-inj e') (send_to-IsSmall m.port m.bytes ws h)
      taken (done (err x)) e' = subst (All IsSmall) (done-inj e') h
      taken panic e' = absurd cc
      taken undefined e' = absurd cc
      taken out_of_fuel e' = absurd cc

  handle_all-IsSmall :
      (ws ws' : Workers) (bs : List (List ℕ))
      → All IsSmall ws
      → handle_all (route c) ws bs ≡ done ws'
      → All IsSmall ws'
  handle_all-IsSmall ws ws' [] h e = subst (All IsSmall) (done-inj e) h
  handle_all-IsSmall ws ws' (b ∷ bs) h e =
      let (ws1, routed) = route-ends laws ws (b ++ 0 ∷ []) in
      handle_all-IsSmall ws1 ws' bs (route-IsSmall ws ws1 (b ++ 0 ∷ []) h routed) (rw routed at e)

  cut-IsSmall :
      (ws : Workers) (xs : List ℕ)
      → All IsSmall ws
      → (ws' : Workers) × (carry : List ℕ) × (cut c ws xs ≡ done (ws', carry))
        × All IsSmall ws'
        × NoZero carry
  cut-IsSmall ws xs h =
      let p = parts xs in
      let (ws', run, e) = cut-wire laws ws p.whole p.rest p.whole-NoZero p.rest-NoZero in
      (
        ws',
        p.rest,
        ap (cut c ws) p.same ∙ e,
        handle_all-IsSmall ws ws' p.whole h run,
        p.rest-NoZero,
      )

  module _ {serial : Streams} (serial_laws : StreamsLaws serial) where
    -- Between rounds, `carry` has no zero byte, and all that waits from the workers fits a message.
    abbrev pub IsSound : Host c serial → Type 0
    IsSound h = NoZero h.carry × All IsSmall h.workers

    abbrev pub StaysSound : Option (Host c serial) → Type 0
    StaysSound none = Unit {0}
    StaysSound (some h) = IsSound h

    take_read-StaysSound :
        (h : Host c serial) (result : ReadResult) (buf : List ℕ)
        → IsSound h
        → ((n : ℕ) → result ≡ read_ok n → n ≤ length buf)
        → ((result ≡ read_error) × (take_read c serial h result buf ≡ panic))
          ⊎ Returns StaysSound (take_read c serial h result buf)
    unfolding take_read
    take_read-StaysSound h would_block buf v fits = inr v
    take_read-StaysSound h timed_out buf v fits = inr v
    take_read-StaysSound h read_error buf v fits = inl (refl, refl)
    take_read-StaysSound h (read_ok zero) buf v fits = inr v
    take_read-StaysSound h (read_ok (suc n)) buf v fits =
        let (ws', carry', e, small, nz) = cut-IsSmall h.workers (h.carry ++ take (suc n) buf) v.1 in
        inr (rw (le→leb (suc n) (length buf) (fits (suc n) refl), e) (nz, small))

    -- A round of the main loop returns, and leaves a sound state unless it returns an error, or the read
    -- of the serial port fails and it panics.
    pub round-StaysSound :
        (h : Host c serial)
        → AddsOne laws
        → IsSound h
        → ((port : serial.Stream) × (buf : List ℕ) × ((serial.read port buf).0 ≡ read_error)
            × (round c serial h ≡ panic))
          ⊎ Returns StaysSound (round c serial h)
    unfolding round
    round-StaysSound h short v =
        let buf0 : List ℕ = replicate 256 0 in
        let (r, sent, all) =
          Returns-done (AllSent laws serial_laws h.workers h.port)
            (send_all c serial h.workers buf0 h.port)
            (send_all-AllSent laws serial_laws short h.workers buf0 h.port v.1
              (length-replicate {A = ℕ} 256 0)) in
        after r sent all
      where
        after :
            (r : Option (Workers × (List ℕ × serial.Stream)))
            → send_all c serial h.workers (replicate 256 0) h.port ≡ done r
            → AllSent laws serial_laws h.workers h.port r
            → ((port : serial.Stream) × (buf : List ℕ) × ((serial.read port buf).0 ≡ read_error)
                × (round c serial h ≡ panic))
              ⊎ Returns StaysSound (round c serial h)
        after none sent all = inr (rw (round, sent) tt)
        after (some (ws, (buf, port))) sent (same, size, content) =
            let (result, (buf', port')) = serial.read port buf in
            let h' : Host c serial = record h { workers = ws; port = port' } in
            let v' : IsSound h' =
              (v.0, subst (All IsSmall) (sym same) (without_firsts-IsSmall h.workers v.1)) in
            let fits : (n : ℕ) → result ≡ read_ok n → n ≤ length buf' = λ n e.
              let (low, kept) =
                serial_laws.read-fits port port' buf buf' n (ap (λ t. (t, (buf', port'))) e) in
              omega (arith, low, kept) in
            elim (take_read-StaysSound h' result buf' v' fits) [
              | inl (fails, e) ↦ inl (port, buf, fails, rw (round, sent) e)
              | inr ends ↦ inr (rw (round, sent) ends)
            ]
