-- ===== src/UsbSerial/Stand.antt =====
-- Stand-ins for the crates of the driver that keep their promises: a list of up to 64 bytes for the
-- queue, and those of `Ports`. They show
-- that the promises can be kept, and serve in the tests.
pub mod Ports
use pellegrino.Base.{
  ℕ, suc, ◌-◌, ◌≤◌, ◌<◌, ◌≡◌, ◌≢◌, refl, sym, ◌∙◌, ap, arith, List, [], ◌∷◌, ◌++◌, append-nil,
  Option, none, some, length, take, drop, replicate, length-replicate, min, ltb, ◌==◌, lt→ltb,
  le→not-ltb, if◌then◌else◌, is_some, Bool-cases, inl, inr, none≢some, some-inj, length-append,
}
use pellegrino.Alloc.{HeapArray}
use pellegrino.Alloc.Stand.{stand, stand_laws}
use pellegrino.Sportty.Shift.{shift, shift_laws}
use pellegrino.UsbSerial.External.{
  Grant, granted, insufficient_size, grant_error, BbQueue, BbQueueLaws, Tables, TablesLaws,
  deque_len, map_len,
}
use pellegrino.UsbSerial.Stand.Ports.{port_tables}
use pellegrino.UsbSerial.Stand.Ports.Laws.{port_tables_laws}
use pellegrino.UsbSerial.State.{Platform, PlatformLaws}

unfoldable pub grant : List ℕ → ℕ → Grant
grant q n =
    if ltb (length q) 64 then granted (replicate (min n (64 - length q)) 0) else insufficient_size

unfoldable pub read_all : List ℕ → Option (List ℕ)
read_all [] = none
read_all (x ∷ xs) = some (x ∷ xs)

abbrev pub byte_list : BbQueue
byte_list = record {
  Queue = List ℕ;
  grant_max_remaining = grant;
  commit = λ q w used. q ++ take used w;
  read = read_all;
  release = λ q n. drop n q;
}

granted-inj : {w w' : List ℕ} → granted w ≡ granted w' → w ≡ w'
granted-inj e = cc

pub length-grant : (q : List ℕ) (n : ℕ) (w : List ℕ) → grant q n ≡ granted w → length w ≤ n
unfolding grant
length-grant q n w e = elim (Bool-cases (ltb (length q) 64)) [
  | inl room ↦
      let same : replicate (min n (64 - length q)) 0 ≡ w = granted-inj (rw room at e) in
      omega (arith, ap length same, length-replicate {A = ℕ} (min n (64 - length q)) 0)
  | inr full ↦ absurd (let no_grant = rw full at e in cc)
]

pub grant-ne : (q : List ℕ) (n : ℕ) → grant q n ≢ grant_error
unfolding grant
grant-ne q n e = elim (Bool-cases (ltb (length q) 64)) [
  | inl room ↦ let h = rw room at e in cc
  | inr full ↦ let h = rw full at e in cc
]

pub read_all-some :
    (q bs : List ℕ) → read_all q ≡ some bs → (rest : List ℕ) × (q ≡ bs ++ rest) × (0 < length bs)
unfolding read_all
read_all-some [] bs e = absurd (none≢some e)
read_all-some (x ∷ xs) bs e =
    ([], some-inj e ∙ sym (append-nil bs), omega (arith, ap length (some-inj e)))

pub read_all-none : (q : List ℕ) → read_all q ≡ none → q ≡ []
unfolding read_all
read_all-none [] e = refl
read_all-none (x ∷ xs) e = absurd cc

pub read_all-release :
    (q bs rest : List ℕ) (n : ℕ)
    → read_all q ≡ some bs
    → q ≡ bs ++ rest
    → n ≤ length bs
    → drop n q ≡ drop n bs ++ rest
unfolding read_all
read_all-release [] bs rest n e split le = absurd (none≢some e)
read_all-release (x ∷ xs) bs [] n e split le =
    ap (λ q. drop n q) (some-inj e) ∙ sym (append-nil (drop n bs))
read_all-release (x ∷ xs) bs (r ∷ rs) n e split le =
    absurd (omega (arith, ap length (some-inj e), ap length split, length-append bs (r ∷ rs)))

abbrev pub byte_list_laws : BbQueueLaws byte_list
byte_list_laws = record {
  contents = λ q. q;
  length-granted = length-grant;
  grants = grant-ne;
  contents-commit = λ q n used w w' e same le. refl;
  reads = read_all-some;
  reads_none = read_all-none;
  contents-release = read_all-release;
}

abbrev pub stand_platform : Platform
stand_platform = record { cobs = shift; crates = stand; queues = byte_list; tables = port_tables }

abbrev pub stand_platform_laws : PlatformLaws stand_platform
stand_platform_laws = record {
  cobs = shift_laws;
  crates = stand_laws;
  queues = byte_list_laws;
  tables = port_tables_laws;
}
