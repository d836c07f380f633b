-- ===== src/UsbSerial/Accumulator/Drain/Delivers.antt =====
-- What the loop over a grant hands on: every whole frame, in order, and nothing of what follows the
-- last zero byte.
use pellegrino.Base.{
  ℕ, zero, suc, ◌+◌, ◌-◌, ◌≤◌, ◌<◌, ◌≡◌, ◌∙◌, ap, refl, List, [], ◌∷◌, ◌++◌, inl, inr, arith,
  length, take, NoZero, All, Outcome, done, panic, undefined, out_of_fuel, and_then, length-append,
  IfDone, IfDone-any,
}
use pellegrino.UsbSerial.Accumulator.{Accumulator, message, pending, no_room_no_rem, as_slice, feed}
use pellegrino.UsbSerial.Accumulator.Refine.{IsValid, held, feed_refines, feed-IsValid}
use pellegrino.UsbSerial.Accumulator.Drain.{resume, drain}
use pellegrino.UsbSerial.Accumulator.Drain.Ends.{feed-Gains}
use pellegrino.UsbSerial.Accumulator.Drain.Feeds.{
  accept-panic, view-panic, feed-frame, feed-unfinished,
}

-- Whatever else it holds, a frame that with the bytes held before fills the accumulator exactly, and
-- so leaves no room for its own terminator, makes `feed` panic.
pub feed_panics :
    (capacity : ℕ) (acc : Accumulator) (b rest : List ℕ)
    → IsValid capacity acc
    → NoZero b
    → acc.idx + length b ≡ capacity
    → feed capacity acc (b ++ 0 ∷ rest) ≡ panic
feed_panics capacity acc b rest v nz full =
    view-panic (feed capacity acc (b ++ 0 ∷ rest))
      (feed_refines capacity acc (b ++ 0 ∷ rest) v ∙ accept-panic capacity acc v b rest nz full)

-- A stream of frames, each behind its own zero byte, and an unfinished frame behind them.
abbrev pub wire : List (List ℕ) → List ℕ → List ℕ
wire [] tail = tail
wire (b ∷ bs) tail = b ++ 0 ∷ wire bs tail

-- The frames of a stream, handled one after the other.
abbrev pub handle_all : {S : Type 0} → (S → List ℕ → Outcome S) → S → List (List ℕ) → Outcome S
handle_all on_message s [] = done s
handle_all on_message s (b ∷ bs) =
    and_then (on_message s (b ++ 0 ∷ [])) (λ s'. handle_all on_message s' bs)

abbrev pub state_of : {S : Type 0} → Outcome (Accumulator × S) → Outcome S
state_of o = and_then o (λ (acc, s). done s)

state_of-and_then :
    {S : Type 0} (o : Outcome S) (f : S → Outcome (Accumulator × S)) (g : S → Outcome S)
    → ((s : S) → state_of (f s) ≡ g s)
    → state_of (and_then o f) ≡ and_then o g
state_of-and_then (done s) f g h = h s
state_of-and_then panic f g h = refl
state_of-and_then undefined f g h = refl
state_of-and_then out_of_fuel f g h = refl

-- A frame, without its terminator, that fits the accumulator.
abbrev pub IsFrame : ℕ → List ℕ → Type 0
IsFrame capacity b = NoZero b × (length b + 1 ≤ capacity)

module _ {S : Type 0} (on_message : S → List ℕ → Outcome S) (capacity : ℕ) where
  -- Bytes with no zero byte behind them are fed again until they no longer fit, and are dropped.
  drain-unfinished :
      (fuel : ℕ) (acc : Accumulator) (s : S) (tail : List ℕ)
      → IsValid capacity acc
      → NoZero tail
      → capacity + 1 - acc.idx < fuel
      → state_of (drain on_message capacity fuel acc s tail) ≡ done s
  unfolding drain resume
  drain-unfinished fuel acc s [] v nz h = refl
  drain-unfinished zero acc s (x ∷ w) v nz h = absurd (omega arith)
  drain-unfinished (suc fuel) acc s (x ∷ w) v nz h =
      elim (feed-unfinished capacity acc v (x ∷ w) nz) [
        | inl (acc', e) ↦
            let g = feed-Gains capacity acc (x ∷ w) acc' pending (omega arith) e in
            rw e (
              drain-unfinished fuel acc' s (x ∷ w)
                (feed-IsValid capacity acc (x ∷ w) acc' pending v e) nz (omega arith))
        | inr (acc', e) ↦ rw e
      ]

  drain-round :
      (fuel : ℕ) (acc : Accumulator) (s : S) (w : List ℕ)
      → 0 < length w
      → drain on_message capacity (suc fuel) acc s w
        ≡ and_then
            (feed capacity acc w)
            (λ (acc', fed). resume on_message (drain on_message capacity fuel) acc' s w fed)
  unfolding drain
  drain-round fuel acc s [] h = absurd (omega arith)
  drain-round fuel acc s (x ∷ w) h = refl

  frames-handled :
      (fuel : ℕ) (acc : Accumulator) (s : S) (bs : List (List ℕ)) (tail : List ℕ)
      → IsValid capacity acc
      → acc.idx ≡ 0
      → All (IsFrame capacity) bs
      → NoZero tail
      → length bs + (capacity + 1) < fuel
      → state_of (drain on_message capacity fuel acc s (wire bs tail)) ≡ handle_all on_message s bs
  unfolding resume
  frames-handled fuel acc s [] tail v zeroed fit nz h =
      drain-unfinished fuel acc s tail v nz (omega arith)
  frames-handled zero acc s (b ∷ bs) tail v zeroed fit nz h = absurd (omega arith)
  frames-handled (suc fuel) acc s (b ∷ bs) tail v zeroed fit nz h =
      let w : List ℕ = b ++ 0 ∷ wire bs tail in
      let (acc', m, e, body) = feed-frame capacity acc v b (wire bs tail) fit.0.0 (omega arith) in
      let pos : 0 < length w = omega (arith, length-append b (0 ∷ wire bs tail)) in
      let g = feed-Gains capacity acc w acc' (message m (wire bs tail)) pos e in
      let v' = feed-IsValid capacity acc w acc' (message m (wire bs tail)) v e in
      let none_held : held acc ≡ [] = ap (λ k. take k acc.buf) zeroed in
      rw (drain-round fuel acc s w pos, e, resume, body, none_held)
        (state_of-and_then (on_message s (b ++ 0 ∷ [])) _ _
          (λ s'. frames-handled fuel acc' s' bs tail v' g.1 fit.1 nz (omega arith)))

  -- No byte is held.
  abbrev pub IsEmptied : Accumulator × S → Type 0
  IsEmptied (acc, s) = acc.idx ≡ 0

  unfinished-IsEmptied :
      (fuel : ℕ) (acc : Accumulator) (s : S) (x : ℕ) (w : List ℕ)
      → IsValid capacity acc
      → NoZero (x ∷ w)
      → IfDone IsEmptied (drain on_message capacity fuel acc s (x ∷ w))
  unfolding drain resume
  unfinished-IsEmptied zero acc s x w v nz = tt
  unfinished-IsEmptied (suc fuel) acc s x w v nz =
      elim (feed-unfinished capacity acc v (x ∷ w) nz) [
        | inl (acc', e) ↦ rw e (
            unfinished-IsEmptied fuel acc' s x w
              (feed-IsValid capacity acc (x ∷ w) acc' pending v e) nz)
        | inr (acc', e) ↦ rw e (feed-Gains capacity acc (x ∷ w) acc' no_room_no_rem (omega arith) e)
      ]

  frames-IsEmptied :
      (fuel : ℕ) (acc : Accumulator) (s : S) (bs : List (List ℕ)) (tail : List ℕ)
      → IsValid capacity acc
      → acc.idx ≡ 0
      → All (IsFrame capacity) bs
      → NoZero tail
      → length bs + (capacity + 1) < fuel
      → IfDone IsEmptied (drain on_message capacity fuel acc s (wire bs tail))
  unfolding drain resume
  frames-IsEmptied zero acc s bs tail v zeroed fit nz h = absurd (omega arith)
  frames-IsEmptied (suc fuel) acc s [] [] v zeroed fit nz h = zeroed
  frames-IsEmptied (suc fuel) acc s [] (x ∷ w) v zeroed fit nz h =
      unfinished-IsEmptied (suc fuel) acc s x w v nz
  frames-IsEmptied (suc fuel) acc s (b ∷ bs) tail v zeroed fit nz h =
      let w : List ℕ = b ++ 0 ∷ wire bs tail in
      let (acc', m, e, body) = feed-frame capacity acc v b (wire bs tail) fit.0.0 (omega arith) in
      let pos : 0 < length w = omega (arith, length-append b (0 ∷ wire bs tail)) in
      let g = feed-Gains capacity acc w acc' (message m (wire bs tail)) pos e in
      let v' = feed-IsValid capacity acc w acc' (message m (wire bs tail)) v e in
      rw (drain-round fuel acc s w pos, e, resume)
        (IfDone-any IsEmptied (on_message s (as_slice m)) _
          (λ s'. frames-IsEmptied fuel acc' s' bs tail v' g.1 fit.1 nz (omega arith)))

  -- From a valid accumulator that holds no bytes, and with fuel for it, a grant that holds
  -- zero-terminated frames which fit, and then bytes with no zero among them: exactly the frames are
  -- handed on, in order. Where the loop returns, no byte is held, so that the bytes behind the frames
  -- are dropped.
  pub drain_delivers :
      (fuel : ℕ) (acc : Accumulator) (s : S) (bs : List (List ℕ)) (tail : List ℕ)
      → IsValid capacity acc
      → acc.idx ≡ 0
      → All (IsFrame capacity) bs
      → NoZero tail
      → length bs + (capacity + 1) < fuel
      → (state_of (drain on_message capacity fuel acc s (wire bs tail))
          ≡ handle_all on_message s bs)
        × IfDone IsEmptied (drain on_message capacity fuel acc s (wire bs tail))
  drain_delivers fuel acc s bs tail v zeroed fit nz h = (
    frames-handled fuel acc s bs tail v zeroed fit nz h,
    frames-IsEmptied fuel acc s bs tail v zeroed fit nz h,
  )
