-- ===== src/UsbSerial/Arrays.antt =====
-- The arrays of received bytes: their drops, and their place in the ledger of the heap.
use pellegrino.Base.{
  ℕ, ◌+◌, ◌≡◌, ◌≢◌, ◌⊎◌, inl, inr, panic, refl, List, [], ◌∷◌, total, Outcome, done, and_then,
  arith,
}
use pellegrino.Alloc.{AHeap, HeapArray, init_idle, array_free_box, drop_array}
use pellegrino.Alloc.Blocks.{FreeBox, one_if_same}
use pellegrino.Alloc.External.{Crates, CratesLaws}
use pellegrino.Alloc.Cleaning.{Owners, gain, Ready}
use pellegrino.Alloc.Boxes.{box_drop-free, box_drop-busy}
use pellegrino.UsbSerial.State.{byte}

-- The drop of some arrays, one after the other.
unfoldable pub drop_arrays : {c : Crates} → List (HeapArray ℕ) → AHeap c → Outcome (AHeap c)
drop_arrays [] h = done h
drop_arrays (a ∷ as') h = and_then (drop_array byte a h) (λ h'. drop_arrays as' h')

-- The owners with those of some arrays.
abbrev pub owning : List (HeapArray ℕ) → Owners → Owners
owning [] live = live
owning (m ∷ ms) live = gain (array_free_box byte m) (owning ms live)

-- Whether a block is that of an array.
abbrev pub is_block : FreeBox → HeapArray ℕ → ℕ
is_block b a = one_if_same (array_free_box byte a) b

pub owning-total :
    (ms : List (HeapArray ℕ)) (live : Owners) (b : FreeBox)
    → owning ms live b ≡ live b + total (is_block b) ms
owning-total [] live b = omega arith
owning-total (m ∷ ms) live b = omega (arith, owning-total ms live b)

module _ {c : Crates} (laws : CratesLaws c) where
  -- The same owners, counted in another way.
  pub Ready-same :
      {h : AHeap c} {live : Owners} (live' : Owners)
      → ((b : FreeBox) → live b ≡ live' b)
      → Ready laws h live
      → Ready laws h live'
  Ready-same live' same r = record {
    heap = r.heap;
    queue = r.queue;
    has_heap = r.has_heap;
    has_queue = r.has_queue;
    fits = r.fits;
    ledger = λ b. omega (arith, same b, r.ledger b);
  }

  -- With the lock free a drop gives the array's block back, and an owner goes.
  pub drop_array-idle :
      (m : HeapArray ℕ) {h : AHeap c} {live : Owners}
      → Ready laws h (gain (array_free_box byte m) live)
      → h.state ≡ init_idle
      → (h' : AHeap c) × (drop_array byte m h ≡ done h')
        × (h'.state ≡ init_idle)
        × Ready laws h' live
  unfolding drop_array
  drop_array-idle m r idle = box_drop-free laws (array_free_box byte m) r idle

  -- With the lock taken a drop panics, or leaves the release to the next allocation.
  pub drop_array-busy :
      (m : HeapArray ℕ) {h : AHeap c} {live : Owners}
      → Ready laws h (gain (array_free_box byte m) live)
      → h.state ≢ init_idle
      → (drop_array byte m h ≡ panic)
        ⊎ ((h' : AHeap c) × (drop_array byte m h ≡ done h') × Ready laws h' live)
  unfolding drop_array
  drop_array-busy m r busy = elim (box_drop-busy laws (array_free_box byte m) r busy) [
    | inl (full, panics) ↦ inl panics
    | inr (h', run, same, r') ↦ inr (h', run, r')
  ]

  pub drop_arrays-idle :
      (ms : List (HeapArray ℕ)) {h : AHeap c} {live : Owners}
      → Ready laws h (owning ms live)
      → h.state ≡ init_idle
      → (h' : AHeap c) × (drop_arrays ms h ≡ done h') × (h'.state ≡ init_idle) × Ready laws h' live
  unfolding drop_arrays
  drop_arrays-idle [] {h} r idle = (h, refl, idle, r)
  drop_arrays-idle (m ∷ ms) r idle =
      let (h1, dropped, idle1, r1) = drop_array-idle m r idle in
      let (h2, run, idle2, r2) = drop_arrays-idle ms r1 idle1 in
      (h2, rw (drop_arrays, dropped) run, idle2, r2)
