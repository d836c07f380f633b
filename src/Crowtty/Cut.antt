-- ===== src/Crowtty/Cut.antt =====
-- How the main loop cuts what it has read: behind every zero byte, however the stream falls into reads.
pub mod Reads
use pellegrino.Base.{
  ℕ, zero, suc, ◌+◌, ◌≤◌, ◌<◌, ◌≡◌, refl, sym, ap, ◌∙◌, inl, inr, List, [], ◌∷◌, ◌++◌, Option-cases,
  none, some, Bool-cases, ◌==◌, NoZero, All, arith, length, take, drop, take-append_exact,
  drop-append_exact, length-append, ◌≢◌, done-inj, append_assoc, Returns, Returns-done, Outcome,
  done, panic, undefined, out_of_fuel, and_then,
}
use pellegrino.UsbSerial.Send.Delivery.{Result-cases}
use pellegrino.Sportty.{Result, Message, decode_in_place}
use pellegrino.Sportty.Codec.{Cobs, CobsLaws}
use pellegrino.Sportty.RoundTrip.{decode-total}
use pellegrino.UsbSerial.Accumulator.{position}
use pellegrino.UsbSerial.Accumulator.Drain.Delivers.{wire, handle_all}
use pellegrino.Crowtty.{Workers, send_to, route, cut_loop, cut}

position-frame : (b rest : List ℕ) → NoZero b → position (b ++ 0 ∷ rest) ≡ some (length b)
unfolding position
position-frame [] rest h = refl
position-frame (x ∷ xs) rest h = ground (arith, position-frame xs rest h.1)

position-NoZero : (b : List ℕ) → NoZero b → position b ≡ none
unfolding position
position-NoZero [] h = refl
position-NoZero (x ∷ xs) h = ground (arith, position-NoZero xs h.1)

module _ (b rest : List ℕ) where
  length-frame : length (b ++ 0 ∷ []) ≡ length b + 1
  length-frame = length-append b (0 ∷ [])

  take-frame : take (length b + 1) (b ++ 0 ∷ rest) ≡ b ++ 0 ∷ []
  take-frame =
      ap (take (length b + 1)) (sym (append_assoc b (0 ∷ []) rest))
      ∙ take-append_exact (length b + 1) (b ++ 0 ∷ []) rest length-frame

  drop-frame : drop (length b + 1) (b ++ 0 ∷ rest) ≡ rest
  drop-frame =
      ap (drop (length b + 1)) (sym (append_assoc b (0 ∷ []) rest))
      ∙ drop-append_exact (length b + 1) (b ++ 0 ∷ []) rest length-frame

-- A stream as frames with no zero byte, each behind its own, and a rest without one.
pub record Parts (xs : List ℕ) : Type 0 where
  pub whole : List (List ℕ)
  pub rest : List ℕ
  pub same : xs ≡ wire whole rest
  pub whole-NoZero : All NoZero whole
  pub rest-NoZero : NoZero rest

pub parts : (xs : List ℕ) → Parts xs
parts [] = record { whole = []; rest = []; same = refl; whole-NoZero = tt; rest-NoZero = tt }
parts (x ∷ xs) = elim (Bool-cases (x == 0)) [
  | inl zeroed ↦ record {
    whole = [] ∷ (parts xs).whole;
    rest = (parts xs).rest;
    same =
        let zeroed' : x ≡ 0 = ground arith in
        ap (λ t. t ∷ xs) zeroed' ∙ ap (λ t. 0 ∷ t) (parts xs).same;
    whole-NoZero = (tt, (parts xs).whole-NoZero);
    rest-NoZero = (parts xs).rest-NoZero;
  }
  | inr other ↦
      longer x xs (λ e. ground arith) (parts xs).whole (parts xs).rest (parts xs).same
        (parts xs).whole-NoZero (parts xs).rest-NoZero
]
  where
    longer :
        (x : ℕ) (xs : List ℕ)
        → x ≢ 0
        → (bs : List (List ℕ)) (tail : List ℕ) → xs ≡ wire bs tail
        → All NoZero bs
        → NoZero tail
        → Parts (x ∷ xs)
    longer x xs pos [] tail same nz nz' = record {
      whole = [];
      rest = x ∷ tail;
      same = ap (λ t. x ∷ t) same;
      whole-NoZero = tt;
      rest-NoZero = (pos, nz');
    }
    longer x xs pos (b ∷ bs) tail same nz nz' = record {
      whole = (x ∷ b) ∷ bs;
      rest = tail;
      same = ap (λ t. x ∷ t) same;
      whole-NoZero = ((pos, nz.0), nz.1);
      rest-NoZero = nz';
    }

pub wire-append :
    (bs : List (List ℕ)) (tail ys : List ℕ) → wire bs tail ++ ys ≡ wire bs (tail ++ ys)
wire-append [] tail ys = refl
wire-append (b ∷ bs) tail ys =
    append_assoc b (0 ∷ wire bs tail) ys ∙ ap (λ t. b ++ 0 ∷ t) (wire-append bs tail ys)

pub wire-wire :
    (bs cs : List (List ℕ)) (tail : List ℕ) → wire bs (wire cs tail) ≡ wire (bs ++ cs) tail
wire-wire [] cs tail = refl
wire-wire (b ∷ bs) cs tail = ap (λ t. b ++ 0 ∷ t) (wire-wire bs cs tail)

length-wire : (bs : List (List ℕ)) (tail : List ℕ) → length bs ≤ length (wire bs tail)
length-wire [] tail = omega arith
length-wire (b ∷ bs) tail = omega (arith, length-wire bs tail, length-append b (0 ∷ wire bs tail))

pub All-append :
    {A : Type 0} (P : A → Type 0) (xs ys : List A) → All P xs → All P ys → All P (xs ++ ys)
All-append P [] ys h k = k
All-append P (x ∷ xs) ys h k = (h.0, All-append P xs ys h.1 k)

and_then-instead :
    {A B : Type 0} (o : Outcome A) (f g : A → Outcome B) (b : B) (r : Outcome B)
    → ((a : A) → f a ≡ done b → g a ≡ r)
    → and_then o f ≡ done b
    → and_then o g ≡ r
and_then-instead (done a) f g b r h e = h a e
and_then-instead panic f g b r h e = absurd cc
and_then-instead undefined f g b r h e = absurd cc
and_then-instead out_of_fuel f g b r h e = absurd cc

pub handle_all-append :
    {S : Type 0} (f : S → List ℕ → Outcome S) (s s1 : S) (bs cs : List (List ℕ))
    → handle_all f s bs ≡ done s1
    → handle_all f s (bs ++ cs) ≡ handle_all f s1 cs
handle_all-append f s s1 [] cs e = ap (λ t. handle_all f t cs) (done-inj e)
handle_all-append f s s1 (b ∷ bs) cs e =
    and_then-instead (f s (b ++ 0 ∷ [])) (λ s'. handle_all f s' bs) _ s1 (handle_all f s1 cs)
      (λ s'. handle_all-append f s' s1 bs cs) e

module _ {c : Cobs} (laws : CobsLaws c) where
  -- Whatever a chunk is, it is routed or dropped.
  pub route-ends : (ws : Workers) (chunk : List ℕ) → (ws' : Workers) × (route c ws chunk ≡ done ws')
  unfolding route
  route-ends ws chunk =
      let (r, e, _) =
        Returns-done (λ a. Unit {0}) (decode_in_place c chunk) (decode-total laws chunk []).0 in
      elim (Result-cases r) [
        | inl (m, ok_m) ↦ (send_to m.port m.bytes ws, rw (e, ok_m))
        | inr (x, err_x) ↦ (ws, rw (e, err_x))
      ]

  handle_all-ends :
      (ws : Workers) (bs : List (List ℕ))
      → (ws' : Workers) × (handle_all (route c) ws bs ≡ done ws')
  handle_all-ends ws [] = (ws, refl)
  handle_all-ends ws (b ∷ bs) =
      let (ws1, e) = route-ends ws (b ++ 0 ∷ []) in
      let (ws2, run) = handle_all-ends ws1 bs in (ws2, rw e run)

  cut_loop-wire :
      (fuel : ℕ) (ws ws' : Workers) (bs : List (List ℕ)) (tail : List ℕ)
      → All NoZero bs
      → NoZero tail
      → length bs < fuel
      → handle_all (route c) ws bs ≡ done ws'
      → cut_loop c fuel ws (wire bs tail) ≡ done (ws', tail)
  unfolding cut_loop
  cut_loop-wire zero ws ws' bs tail nz nz' h e = absurd (omega arith)
  cut_loop-wire (suc fuel) ws ws' [] tail nz nz' h e =
      rw (cut_loop, position-NoZero tail nz') (ap (λ t. done (t, tail)) (done-inj e))
  cut_loop-wire (suc fuel) ws ws' (b ∷ bs) tail nz nz' h e =
      let (ws1, routed) = route-ends ws (b ++ 0 ∷ []) in
      rw
        (
          cut_loop,
          position-frame b (wire bs tail) nz.0,
          take-frame b (wire bs tail),
          drop-frame b (wire bs tail),
          routed,
        )
        (cut_loop-wire fuel ws1 ws' bs tail nz.1 nz' (omega arith) (rw routed at e))

  -- The frames of what has been read go to their workers, and the rest is kept.
  pub cut-wire :
      (ws : Workers) (bs : List (List ℕ)) (tail : List ℕ)
      → All NoZero bs
      → NoZero tail
      → (ws' : Workers) × (handle_all (route c) ws bs ≡ done ws')
        × (cut c ws (wire bs tail) ≡ done (ws', tail))
  unfolding cut
  cut-wire ws bs tail nz nz' =
      let (ws', run) = handle_all-ends ws bs in
      (
        ws',
        run,
        cut_loop-wire (length (wire bs tail) + 1) ws ws' bs tail nz nz'
            (omega (arith, length-wire bs tail)) run,
      )
