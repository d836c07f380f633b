-- ===== src/UsbSerial/Accumulator/Drain/Feeds.antt =====
-- What one call of `feed` does with a grant, by where its first zero byte is.
use pellegrino.Base.{
  ℕ, ◌+◌, ◌≤◌, ◌<◌, ◌≡◌, ◌∙◌, ap, leb→le, not-leb→lt, refl, ◌⊎◌, List, [], ◌∷◌, ◌++◌, none, some,
  inl, inr, arith, leb, Bool-cases, length, NoZero, Outcome, done, panic, undefined, out_of_fuel,
  length-append, length-take,
}
use pellegrino.UsbSerial.Accumulator.{
  Accumulator, AccMsg, Fed, message, pending, no_room_no_rem, no_room_with_rem, as_slice, feed,
}
use pellegrino.UsbSerial.Accumulator.Framer.{split_zero, whole, waiting, dropped, accept}
use pellegrino.UsbSerial.Accumulator.Refine.{IsValid, held, view, feed_refines}

split_zero-none : (b : List ℕ) → NoZero b → split_zero b ≡ none
unfolding split_zero
split_zero-none [] h = refl
split_zero-none (x ∷ xs) h = ground (arith, split_zero-none xs h.1)

split_zero-frame :
    (b rest : List ℕ) → NoZero b → split_zero (b ++ 0 ∷ rest) ≡ some (b ++ 0 ∷ [], rest)
unfolding split_zero
split_zero-frame [] rest h = refl
split_zero-frame (x ∷ xs) rest h = ground (arith, split_zero-frame xs rest h.1)

-- What a call did, from what can be seen of it.
view-whole :
    (o : Outcome (Accumulator × Fed)) (h f r : List ℕ)
    → view o ≡ done (h, whole f r)
    → (acc' : Accumulator) × (m : AccMsg) × (o ≡ done (acc', message m r)) × (as_slice m ≡ f)
view-whole (done (acc', message m rest)) h f r e =
    (acc', m, ap (λ t. done (acc', message m t)) (cc), cc)
view-whole (done (acc', pending)) h f r e = absurd (cc)
view-whole (done (acc', no_room_no_rem)) h f r e = absurd (cc)
view-whole (done (acc', no_room_with_rem rest)) h f r e = absurd (cc)
view-whole panic h f r e = absurd (cc)
view-whole undefined h f r e = absurd (cc)
view-whole out_of_fuel h f r e = absurd (cc)

view-waiting :
    (o : Outcome (Accumulator × Fed)) (h : List ℕ)
    → view o ≡ done (h, waiting)
    → (acc' : Accumulator) × (o ≡ done (acc', pending))
view-waiting (done (acc', message m rest)) h e = absurd (cc)
view-waiting (done (acc', pending)) h e = (acc', refl)
view-waiting (done (acc', no_room_no_rem)) h e = absurd (cc)
view-waiting (done (acc', no_room_with_rem rest)) h e = absurd (cc)
view-waiting panic h e = absurd (cc)
view-waiting undefined h e = absurd (cc)
view-waiting out_of_fuel h e = absurd (cc)

view-dropped :
    (o : Outcome (Accumulator × Fed)) (h : List ℕ)
    → view o ≡ done (h, dropped)
    → (acc' : Accumulator) × (o ≡ done (acc', no_room_no_rem))
view-dropped (done (acc', message m rest)) h e = absurd (cc)
view-dropped (done (acc', pending)) h e = absurd (cc)
view-dropped (done (acc', no_room_no_rem)) h e = (acc', refl)
view-dropped (done (acc', no_room_with_rem rest)) h e = absurd (cc)
view-dropped panic h e = absurd (cc)
view-dropped undefined h e = absurd (cc)
view-dropped out_of_fuel h e = absurd (cc)

module _ (capacity : ℕ) (acc : Accumulator) (v : IsValid capacity acc) where
  length-held : length (held acc) ≡ acc.idx
  length-held = omega (arith, v.fill, v.size, length-take acc.idx acc.buf)

  accept-frame :
      (b rest : List ℕ)
      → NoZero b
      → acc.idx + length b + 1 ≤ capacity
      → accept capacity (held acc) (b ++ 0 ∷ rest)
        ≡ done ([], whole (held acc ++ (b ++ 0 ∷ [])) rest)
  unfolding accept
  accept-frame b rest nz fits =
      rw (split_zero-frame b rest nz, accept)
        (ground (arith, length-held, length-append b (0 ∷ [])))

  pub accept-panic :
      (b rest : List ℕ)
      → NoZero b
      → acc.idx + length b ≡ capacity
      → accept capacity (held acc) (b ++ 0 ∷ rest) ≡ panic
  unfolding accept
  accept-panic b rest nz full =
      rw (split_zero-frame b rest nz, accept)
        (ground (arith, length-held, length-append b (0 ∷ [])))

  accept-waiting :
      (b : List ℕ)
      → NoZero b
      → acc.idx + length b ≤ capacity
      → accept capacity (held acc) b ≡ done (held acc ++ b, waiting)
  unfolding accept
  accept-waiting b nz fits = rw (split_zero-none b nz, accept) (ground (arith, length-held))

  accept-dropped :
      (b : List ℕ)
      → NoZero b
      → capacity < acc.idx + length b
      → accept capacity (held acc) b ≡ done ([], dropped)
  unfolding accept
  accept-dropped b nz full = rw (split_zero-none b nz, accept) (ground (arith, length-held))

pub feed-frame :
    (capacity : ℕ) (acc : Accumulator) (v : IsValid capacity acc) (b rest : List ℕ)
    → NoZero b
    → acc.idx + length b + 1 ≤ capacity
    → (acc' : Accumulator) × (m : AccMsg) × (feed capacity acc (b ++ 0 ∷ rest)
        ≡ done (acc', message m rest))
      × (as_slice m ≡ held acc ++ (b ++ 0 ∷ []))
feed-frame capacity acc v b rest nz fits =
    view-whole (feed capacity acc (b ++ 0 ∷ rest)) [] (held acc ++ (b ++ 0 ∷ [])) rest
      (feed_refines capacity acc (b ++ 0 ∷ rest) v ∙ accept-frame capacity acc v b rest nz fits)

pub view-panic : (o : Outcome (Accumulator × Fed)) → view o ≡ panic → o ≡ panic
view-panic (done (acc', r)) e = absurd (cc)
view-panic panic e = refl
view-panic undefined e = absurd (cc)
view-panic out_of_fuel e = absurd (cc)

-- Bytes with no zero among them are kept, or dropped where they do not fit.
pub feed-unfinished :
    (capacity : ℕ) (acc : Accumulator)
    → IsValid capacity acc
    → (b : List ℕ) → NoZero b
    → ((acc' : Accumulator) × (feed capacity acc b ≡ done (acc', pending)))
      ⊎ ((acc' : Accumulator) × (feed capacity acc b ≡ done (acc', no_room_no_rem)))
feed-unfinished capacity acc v b nz = elim (Bool-cases (leb (acc.idx + length b) capacity)) [
  | inl fits ↦ inl (
      view-waiting (feed capacity acc b) (held acc ++ b)
        (feed_refines capacity acc b v ∙ accept-waiting capacity acc v b nz (leb→le _ _ fits)))
  | inr full ↦ inr (
      view-dropped (feed capacity acc b) []
        (feed_refines capacity acc b v ∙ accept-dropped capacity acc v b nz (not-leb→lt _ _ full)))
]
