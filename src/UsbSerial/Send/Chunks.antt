-- ===== src/UsbSerial/Send/Chunks.antt =====
-- The loop of `send`: its rounds, and what it has put into the outgoing queue when it ends.
use pellegrino.Base.{
  ℕ, zero, suc, ◌-◌, ◌≤◌, ◌<◌, ◌≡◌, ◌⊎◌, inl, inr, refl, sym, ap, ◌∙◌, List, [], ◌∷◌, ◌++◌, leb,
  not-leb→lt, lt→not-leb, Bool-cases, length, take, drop, done, arith, append_assoc, append-nil,
  take-append-drop, length-take, length-drop, length-append,
}
use pellegrino.Sportty.{Message, to_le_bytes, max_encoding_length}
use pellegrino.Sportty.Encode.{AddsOne, frame, encode_to-frame}
use pellegrino.UsbSerial.External.{Grant, granted, insufficient_size, grant_error}
use pellegrino.UsbSerial.State.{Platform, PlatformLaws}
use pellegrino.UsbSerial.Send.{Sent, sent, unsent, to_use, send_loop}

abbrev pub joined : List (List ℕ) → List ℕ
joined [] = []
joined (c ∷ cs) = c ++ joined cs

-- The bytes that a result says were not sent.
abbrev pub left : Sent → List ℕ
left sent = []
left (unsent l) = l

-- An error leaves a byte at least.
abbrev pub IsPartial : Sent → Type 0
IsPartial sent = Unit {0}
IsPartial (unsent l) = 0 < length l

-- COBS adds one byte at most to a message of up to 254 bytes.
abbrev pub IsShort : {p : Platform} → PlatformLaws p → Type 0
IsShort laws = AddsOne laws.cobs

module _ {p : Platform} (laws : PlatformLaws p) (port : ℕ) where
  open laws use {queues}

  abbrev pub message_of : List ℕ → Message
  message_of now = record { port = port; bytes = now }

  -- The frames of data sent in chunks.
  abbrev pub frames : List (List ℕ) → List ℕ
  frames [] = []
  frames (now ∷ cs) = frame laws.cobs (message_of now) ++ frames cs

  Grant-cases :
      (g : Grant) → ((w : List ℕ) × (g ≡ granted w)) ⊎ ((g ≡ insufficient_size) ⊎ (g ≡ grant_error))
  Grant-cases (granted w) = inl (w, refl)
  Grant-cases insufficient_size = inr (inl refl)
  Grant-cases grant_error = inr (inr refl)

  -- A round with a grant that is large enough sends one frame.
  send_round_lem :
      IsShort laws
      → (fuel : ℕ) (out : p.queues.Queue) (x : ℕ) (xs w : List ℕ) → length (x ∷ xs) ≤ 252
      → p.queues.grant_max_remaining out (max_encoding_length p.cobs (length (x ∷ xs))) ≡ granted w
      → 4 < length w
      → let n = to_use p port w (x ∷ xs) in
        (out' : p.queues.Queue) × (send_loop p port (suc fuel) out (x ∷ xs)
          ≡ send_loop p port fuel out' (drop n (x ∷ xs)))
        × (queues.contents out'
            ≡ queues.contents out ++ frame laws.cobs (message_of (take n (x ∷ xs))))
  unfolding send_loop
  send_round_lem short fuel out x xs w small e room =
      let n = to_use p port w (x ∷ xs) in
      let now = take n (x ∷ xs) in
      let m = message_of now in
      let few : length now ≤ length w - 4 = omega (arith, length-take n (x ∷ xs)) in
      let code_le = short (to_le_bytes port ++ now) (omega (arith, length-take n (x ∷ xs))) in
      let size = length-append (laws.cobs.encoded (to_le_bytes port ++ now)) (0 ∷ []) in
      let fits : length (frame laws.cobs m) ≤ length w = omega arith in
      let (w', enc, body, same) = encode_to-frame laws.cobs m w fits in
      (
        p.queues.commit out w' (length (frame laws.cobs m)),
        rw (e, lt→not-leb (length w) 4 room, enc),
        queues.contents-commit out (max_encoding_length p.cobs (length (x ∷ xs)))
              (length (frame laws.cobs m)) w w' e same fits
            ∙ ap (λ t. queues.contents out ++ t) body,
      )

  -- What the loop has done when it ends.
  abbrev pub Ended : p.queues.Queue → List ℕ → p.queues.Queue → Sent → List (List ℕ) → Type 0
  Ended out remaining out' r chunks =
      (remaining ≡ joined chunks ++ left r)
      × (queues.contents out' ≡ queues.contents out ++ frames chunks)
      × IsPartial r

  stopped :
      (out : p.queues.Queue) (x : ℕ) (xs : List ℕ) → Ended out (x ∷ xs) out (unsent (x ∷ xs)) []
  stopped out x xs = (refl, sym (append-nil (queues.contents out)), omega arith)

  pub send_loop-Ended :
      IsShort laws
      → (fuel : ℕ) (out : p.queues.Queue) (remaining : List ℕ) → length remaining ≤ 252
      → length remaining < fuel
      → (out' : p.queues.Queue) × (r : Sent) × (chunks : List (List ℕ)) × (send_loop p port fuel out
            remaining
          ≡ done (out', r))
        × Ended out remaining out' r chunks
  unfolding send_loop
  send_loop-Ended short fuel out [] small less =
      (out, sent, [], refl, (refl, sym (append-nil (queues.contents out)), tt))
  send_loop-Ended short zero out (x ∷ xs) small less = absurd (omega arith)
  send_loop-Ended short (suc fuel) out (x ∷ xs) small less =
      let size : ℕ = max_encoding_length p.cobs (length (x ∷ xs)) in
      elim (Grant-cases (p.queues.grant_max_remaining out size)) [
        | inr (inl e) ↦ (out, unsent (x ∷ xs), [], rw e, stopped out x xs)
        | inr (inr e) ↦ absurd (queues.grants out size e)
        | inl (w, e) ↦ elim (Bool-cases (leb (length w) 4)) [
          | inl little ↦ (out, unsent (x ∷ xs), [], rw (e, little), stopped out x xs)
          | inr room ↦
              let n = to_use p port w (x ∷ xs) in
              let more = not-leb→lt (length w) 4 room in
              let (out1, round, content) = send_round_lem short fuel out x xs w small e more in
              let later : List ℕ = drop n (x ∷ xs) in
              let fewer = length-drop n (x ∷ xs) in
              let (out2, r, chunks, run, ended) =
                send_loop-Ended short fuel out1 later (omega arith) (omega arith) in
              (
                out2,
                r,
                take n (x ∷ xs) ∷ chunks,
                round ∙ run,
                (
                  sym (take-append-drop n (x ∷ xs))
                      ∙ ap (λ t. take n (x ∷ xs) ++ t) ended.0
                      ∙ sym (append_assoc (take n (x ∷ xs)) (joined chunks) (left r)),
                  ended.1
                      ∙ ap (λ t. t ++ frames chunks) content
                      ∙ append_assoc (queues.contents out)
                          (frame laws.cobs (message_of (take n (x ∷ xs)))) (frames chunks),
                  ended.2,
                ),
              )
        ]
      ]
