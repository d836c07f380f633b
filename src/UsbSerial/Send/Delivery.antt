-- ===== src/UsbSerial/Send/Delivery.antt =====
-- `send` as its callers see it.
use pellegrino.Base.{
  ℕ, zero, suc, ◌+◌, ◌≤◌, ◌≡◌, refl, sym, ap, ◌∙◌, List, [], ◌∷◌, Bool-cases, leb, inl, inr, ◌⊎◌,
  panic, undefined, out_of_fuel, drop, drop-nil, take, IfDone, IfDone-and_then, length, some, none,
  Outcome, done, arith,
}
use pellegrino.UsbSerial.State.{Platform, PlatformLaws, UsbUartSys}
use pellegrino.UsbSerial.Send.{Sent, sent, unsent, send, send_loop, send_round, to_use}
use pellegrino.UsbSerial.External.{Grant, granted, insufficient_size, grant_error}
use pellegrino.Sportty.{Message, Result, Error, ok, err, encode_to, max_encoding_length}
use pellegrino.UsbSerial.Send.Chunks.{IsShort, Ended, send_loop-Ended}

module _ {p : Platform} (laws : PlatformLaws p) (port : ℕ) (buf : List ℕ) (s : UsbUartSys p) where
  -- Up to 252 bytes for a registered port, with a COBS that adds one byte at most to 254: `send`
  -- returns, without a panic. The bytes that it says
  -- are unsent are the end of the data, one at least; the data before them have gone into the
  -- outgoing queue as frames for the port, in order, behind what was there; and nothing else changes.
  pub send-Ended :
      (d : p.tables.Deque)
      → IsShort laws
      → p.tables.get s.ports port ≡ some d
      → length buf ≤ 252
      → (out' : p.queues.Queue) × (r : Sent) × (chunks : List (List ℕ)) × (send port buf s
          ≡ done (record s { out = out' }, r))
        × Ended laws port s.out buf out' r chunks
  unfolding send
  send-Ended d short e small =
      let (out', r, chunks, run, ended) =
        send_loop-Ended laws port short (length buf + 1) s.out buf small (omega arith) in
      (out', r, chunks, rw (laws.tables.contains_key-get s.ports port, e, run), ended)

  -- For a port that is not registered nothing is sent, and nothing changes.
  pub send-unregistered : p.tables.get s.ports port ≡ none → send port buf s ≡ done (s, unsent buf)
  unfolding send
  send-unregistered e = rw (laws.tables.contains_key-get s.ports port, e)

drop-drop : (n m : ℕ) (xs : List ℕ) → drop n (drop m xs) ≡ drop (m + n) xs
drop-drop n zero xs = ap (λ k. drop k xs) (omega arith)
drop-drop n (suc m) [] = drop-nil n ∙ sym (drop-nil (suc m + n))
drop-drop n (suc m) (x ∷ xs) =
    let same : suc (m + n) ≡ suc m + n = omega arith in
    drop-drop n m xs ∙ ap (λ k. drop k (x ∷ xs)) same

-- The bytes that are not sent are the end of these.
abbrev pub IsEnd : {A : Type 0} → List ℕ → A × Sent → Type 0
IsEnd xs (a, sent) = Unit {0}
IsEnd xs (a, unsent rest) = (n : ℕ) × (rest ≡ drop n xs)

pub Result-cases :
    {A : Type 0} (r : Result A) → ((a : A) × (r ≡ ok a)) ⊎ ((b : Error) × (r ≡ err b))
Result-cases (ok a) = inl (a, refl)
Result-cases (err b) = inr (b, refl)

module _ (p : Platform) (port : ℕ) where
  later-IsEnd :
      (m : ℕ) (xs : List ℕ) (o : Outcome (p.queues.Queue × Sent))
      → IfDone (IsEnd (drop m xs)) o
      → IfDone (IsEnd xs) o
  later-IsEnd m xs (done (q, sent)) e = tt
  later-IsEnd m xs (done (q, unsent rest)) (n, e) = (m + n, e ∙ drop-drop n m xs)
  later-IsEnd m xs panic e = tt
  later-IsEnd m xs undefined e = tt
  later-IsEnd m xs out_of_fuel e = tt

  send_round-IsEnd :
      (next : p.queues.Queue → List ℕ → Outcome (p.queues.Queue × Sent))
      → ((out : p.queues.Queue) (xs : List ℕ) → IfDone (IsEnd xs) (next out xs))
      → (out : p.queues.Queue) (xs : List ℕ) (g : Grant)
      → IfDone (IsEnd xs) (send_round p port next out xs g)
  unfolding send_round
  send_round-IsEnd next h out xs insufficient_size = (0, refl)
  send_round-IsEnd next h out xs grant_error = tt
  send_round-IsEnd next h out xs (granted w) = elim (Bool-cases (leb (length w) 4)) [
    | inl little ↦ rw little (0, refl)
    | inr room ↦
        let n = to_use p port w xs in
        let m : Message = record { port = port; bytes = take n xs } in
        elim (Result-cases (encode_to p.cobs m w)) [
          | inl (r, e) ↦
              rw (room, e)
                (later-IsEnd n xs (next (p.queues.commit out r.1 r.0) (drop n xs))
                  (h (p.queues.commit out r.1 r.0) (drop n xs)))
          | inr (r, e) ↦ rw (room, e) tt
        ]
  ]

  send_loop-IsEnd :
      (fuel : ℕ) (out : p.queues.Queue) (xs : List ℕ)
      → IfDone (IsEnd xs) (send_loop p port fuel out xs)
  unfolding send_loop
  send_loop-IsEnd fuel out [] = tt
  send_loop-IsEnd zero out (x ∷ xs) = tt
  send_loop-IsEnd (suc fuel) out (x ∷ xs) =
      send_round-IsEnd (send_loop p port fuel) (send_loop-IsEnd fuel) out (x ∷ xs)
        (p.queues.grant_max_remaining out (max_encoding_length p.cobs (length (x ∷ xs))))

same-IsEnd :
    {p : Platform} (buf : List ℕ) (s : UsbUartSys p) (r : p.queues.Queue × Sent)
    → IsEnd buf r
    → IsEnd {A = UsbUartSys p} buf (record s { out = r.0 }, r.1)
same-IsEnd buf s (q, sent) e = tt
same-IsEnd buf s (q, unsent rest) e = e

-- Whatever the queue does, the bytes that `send` that returns says are unsent are the end of the data.
pub send-IsEnd :
    {p : Platform} (port : ℕ) (buf : List ℕ) (s : UsbUartSys p)
    → IfDone (IsEnd buf) (send port buf s)
unfolding send
send-IsEnd {p} port buf s = elim (Bool-cases (p.tables.contains_key s.ports port)) [
  | inl there ↦ rw there (
      IfDone-and_then (IsEnd buf) (IsEnd buf) (send_loop p port (length buf + 1) s.out buf) _
        (send_loop-IsEnd p port (length buf + 1) s.out buf) (same-IsEnd buf s))
  | inr gone ↦ rw gone (0, refl)
]
