-- ===== src/UsbSerial/Isr/Tests.antt =====
-- The interrupt over a USB port that takes two bytes and gives one at a time.
use pellegrino.Base.{
  ℕ, ◌≤◌, ◌≡◌, ◌≢◌, refl, sym, ap, List, [], ◌∷◌, ◌++◌, append-nil, length, take, min, done, arith,
}
use pellegrino.UsbSerial.Stand.{byte_list, byte_list_laws}
use pellegrino.UsbSerial.Isr.{
  UsbResult, moved, would_block, usb_error, UsbPort, UsbPortLaws, UsbUartIsr, poll,
}
use pellegrino.UsbSerial.Isr.Moves.{Moves, poll-Moves}

abbrev Wire : Type 0
Wire = List ℕ × List ℕ

abbrev read_one : List ℕ → Wire → Wire × (List ℕ × UsbResult)
read_one [] s = (s, ([], would_block))
read_one (y ∷ ys) (t, []) = ((t, []), (y ∷ ys, would_block))
read_one (y ∷ ys) (t, x ∷ xs) = ((t, xs), (x ∷ ys, moved 1))

abbrev wire : UsbPort
wire = record {
  State = Wire;
  poll = λ s. s;
  write = λ bs s. ((s.0 ++ take (min 2 (length bs)) bs, s.1), moved (min 2 (length bs)));
  read = read_one;
}

moved-inj : {n m : ℕ} → moved n ≡ moved m → n ≡ m
moved-inj e = cc

taken-written :
    (s : Wire) (bs : List ℕ) (n : ℕ)
    → moved (min 2 (length bs)) ≡ moved n
    → (n ≤ length bs) × (s.0 ++ take (min 2 (length bs)) bs ≡ s.0 ++ take n bs)
taken-written s bs n e = (omega (arith, moved-inj e), ap (λ k. s.0 ++ take k bs) (moved-inj e))

taken-read_one : (s : Wire) (w : List ℕ) → (read_one w s).0.0 ≡ s.0
taken-read_one s [] = refl
taken-read_one (t, []) (y ∷ ys) = refl
taken-read_one (t, x ∷ xs) (y ∷ ys) = refl

waiting-read_one :
    (s : Wire) (w : List ℕ) (n : ℕ)
    → (read_one w s).1.1 ≡ moved n
    → (n ≤ length w)
      × (length (read_one w s).1.0 ≡ length w)
      × (s.1 ≡ take n (read_one w s).1.0 ++ (read_one w s).0.1)
waiting-read_one s [] n e = absurd cc
waiting-read_one (t, []) (y ∷ ys) n e = absurd cc
waiting-read_one (t, x ∷ xs) (y ∷ ys) n e =
    (omega (arith, moved-inj e), refl, ap (λ k. take k (x ∷ ys) ++ xs) (moved-inj e))

waiting-blocked_one :
    (s : Wire) (w : List ℕ) → (read_one w s).1.1 ≡ would_block → (read_one w s).0.1 ≡ s.1
waiting-blocked_one s [] e = refl
waiting-blocked_one (t, []) (y ∷ ys) e = refl
waiting-blocked_one (t, x ∷ xs) (y ∷ ys) e = absurd cc

wire_laws : UsbPortLaws wire
wire_laws = record {
  taken = λ s. s.0;
  waiting = λ s. s.1;
  taken-poll = λ s. refl;
  waiting-poll = λ s. ([], sym (append-nil s.1));
  waiting-write = λ s bs. refl;
  taken-moved = taken-written;
  taken-blocked = λ s bs e. absurd cc;
  taken-read = taken-read_one;
  waiting-moved = waiting-read_one;
  waiting-blocked = waiting-blocked_one;
}

read_one-fine : (w : List ℕ) (s : Wire) → (read_one w s).1.1 ≢ usb_error
read_one-fine [] s = λ e. cc
read_one-fine (y ∷ ys) (t, []) = λ e. cc
read_one-fine (y ∷ ys) (t, x ∷ xs) = λ e. cc

abbrev line : UsbUartIsr byte_list wire
line = record { ser = ([], 4 ∷ 5 ∷ []); out = 1 ∷ 2 ∷ 3 ∷ []; inc = 9 ∷ [] }

poll-Moves_example :
    (s' : UsbUartIsr byte_list wire) × (poll line ≡ done s')
    × Moves byte_list_laws wire_laws line s'
poll-Moves_example = poll-Moves byte_list_laws wire_laws (λ bs s e. cc) read_one-fine line
