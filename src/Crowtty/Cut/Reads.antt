-- ===== src/Crowtty/Cut/Reads.antt =====
-- The reads of the main loop: where the stream is cut into reads makes no difference.
use pellegrino.Base.{
  ℕ, ◌≡◌, sym, ap, ◌∙◌, List, [], ◌∷◌, ◌++◌, NoZero, append_assoc, append-nil, Outcome, done,
  done-inj, and_then,
}
use pellegrino.Sportty.Codec.{Cobs, CobsLaws}
use pellegrino.UsbSerial.Accumulator.Drain.Delivers.{wire}
use pellegrino.UsbSerial.Send.Chunks.{joined}
use pellegrino.Crowtty.{Workers, route, cut}
use pellegrino.Crowtty.Cut.{parts, wire-append, wire-wire, All-append, handle_all-append, cut-wire}

-- What the reads of the main loop do to the workers and to `carry`, one after the other.
abbrev pub cut_reads : Cobs → Workers → List ℕ → List (List ℕ) → Outcome (Workers × List ℕ)
cut_reads c ws carry [] = done (ws, carry)
cut_reads c ws carry (r ∷ rs) =
    and_then (cut c ws (carry ++ r)) (λ (ws', carry'). cut_reads c ws' carry' rs)

module _ {c : Cobs} (laws : CobsLaws c) where
  cut-NoZero : (ws : Workers) (carry : List ℕ) → NoZero carry → cut c ws carry ≡ done (ws, carry)
  cut-NoZero ws carry nz =
      let (ws', run, e) = cut-wire laws ws [] carry tt nz in
      e ∙ ap (λ t. done (t, carry)) (sym (done-inj run))

  -- Two parts of a stream: what the first leaves in `carry` stands before the second.
  cut-append :
      (ws : Workers) (xs ys : List ℕ)
      → (ws1 : Workers) × (carry : List ℕ) × (cut c ws xs ≡ done (ws1, carry))
        × NoZero carry
        × (cut c ws (xs ++ ys) ≡ cut c ws1 (carry ++ ys))
  cut-append ws xs ys =
      let p = parts xs in
      let q = parts (p.rest ++ ys) in
      let (ws1, run1, e1) = cut-wire laws ws p.whole p.rest p.whole-NoZero p.rest-NoZero in
      let (ws2, run2, e2) = cut-wire laws ws1 q.whole q.rest q.whole-NoZero q.rest-NoZero in
      let (ws3, run3, e3) =
        cut-wire laws ws (p.whole ++ q.whole) q.rest
          (All-append NoZero p.whole q.whole p.whole-NoZero q.whole-NoZero) q.rest-NoZero in
      let same : xs ++ ys ≡ wire (p.whole ++ q.whole) q.rest =
        ap (λ t. t ++ ys) p.same
        ∙ wire-append p.whole p.rest ys
        ∙ ap (wire p.whole) q.same
        ∙ wire-wire p.whole q.whole q.rest in
      let runs = handle_all-append (route c) ws ws1 p.whole q.whole run1 in
      let ends : ws2 ≡ ws3 = done-inj (sym run2 ∙ sym runs ∙ run3) in
      (
        ws1,
        p.rest,
        ap (cut c ws) p.same ∙ e1,
        p.rest-NoZero,
        ap (cut c ws) same
            ∙ e3
            ∙ ap (λ t. done (t, q.rest)) (sym ends)
            ∙ sym e2
            ∙ ap (cut c ws1) (sym q.same),
      )

  -- Where `carry` has no zero byte, any sequence of reads leaves the workers and `carry` as one read of
  -- all their bytes does: it makes no difference where the reads cut the stream.
  pub cut_reads-joined :
      (ws : Workers) (carry : List ℕ) (reads : List (List ℕ))
      → NoZero carry
      → cut_reads c ws carry reads ≡ cut c ws (carry ++ joined reads)
  cut_reads-joined ws carry [] nz =
      sym (cut-NoZero ws carry nz) ∙ ap (cut c ws) (sym (append-nil carry))
  cut_reads-joined ws carry (r ∷ rs) nz =
      let (ws1, carry1, e, nz1, e') = cut-append ws (carry ++ r) (joined rs) in
      rw e (
        cut_reads-joined ws1 carry1 rs nz1
        ∙ sym e'
        ∙ ap (cut c ws) (append_assoc carry r (joined rs)))
