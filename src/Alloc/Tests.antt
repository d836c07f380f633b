-- ===== src/Alloc/Tests.antt =====
-- The allocator over stand-ins for its crates: runs, and the theorems at concrete states.
use pellegrino.Base.{
  ℕ, ◌≡◌, ◌⊎◌, refl, arith, false, List, [], ◌∷◌, Option, none, some, done, panic, length,
}
use pellegrino.Alloc.{AHeap, busy_locked, init_idle, new, init, try_lock, box_drop, alloc_box}
use pellegrino.Alloc.Blocks.{Layout, FreeBox, free_box, count}
use pellegrino.Alloc.External.{free_q_len}
use pellegrino.Alloc.Stand.{
  Bump, stand, stand_laws, bump_allocate, list_enqueue, list_dequeue, forget,
}
use pellegrino.Alloc.Cleaning.{gain, Ready}
use pellegrino.Alloc.Ledger.{
  world, inits, locks, boxes, Reach, start, next, IsSound, Reach-IsSound, box_drop-outcome,
}

abbrev word : Layout
word = record { size = 4; align = 4 }

abbrev heap_of : List FreeBox → ℕ → Bump
heap_of bs n = record { blocks = bs; next = n; limit = 0x2004_0000 }

abbrev aheap : ℕ → List FreeBox → ℕ → List FreeBox → AHeap stand
aheap st bs n q = record { state = st; heap = some (heap_of bs n); queue = some q }

abbrev block : FreeBox
block = free_box 0x2003_0000 word

abbrev idle : AHeap stand
idle = aheap init_idle [] 0x2003_0000 []

abbrev locked : AHeap stand
locked = aheap busy_locked [] 0x2003_0000 []

abbrev held_once : AHeap stand
held_once = aheap busy_locked (block ∷ []) 0x2003_0004 []

init_twice : (init {c = stand} 0x2003_0000 (init 0x2003_0000 (new stand)).0).1 ≡ false
unfolding init
init_twice = refl

lock_twice : try_lock locked ≡ none
unfolding try_lock
lock_twice = refl

-- A drop while the lock is taken waits, and the next allocation makes the release.
drop_waits :
    box_drop block held_once ≡ done (aheap busy_locked (block ∷ []) 0x2003_0004 (block ∷ []))
unfolding box_drop list_enqueue
drop_waits = refl

clean_first :
    alloc_box {V = ℕ} word 9 (aheap busy_locked (block ∷ []) 0x2003_0004 (block ∷ []))
    ≡ done (
      aheap busy_locked (free_box 0x2003_0004 word ∷ []) 0x2003_0008 [],
      some (record { ptr = 0x2003_0004; value = 9 }),
    )
unfolding alloc_box list_dequeue bump_allocate forget
clean_first = refl

-- Initialise, lock, allocate a box.
locked-Reach : Reach (world locked 1 (λ b. 0))
unfolding init try_lock
locked-Reach =
    next (next start (inits (new stand) 0 (λ b. 0) 0x2003_0000)) (locks idle 0 (λ b. 0) locked refl)

held_once-Reach : Reach (world held_once 1 (gain block (λ b. 0)))
unfolding alloc_box list_dequeue bump_allocate
held_once-Reach =
    next locked-Reach
      (boxes locked 0 (λ b. 0) word 9 held_once (record { ptr = 0x2003_0000; value = 9 }) refl)

Reach-IsSound_example : IsSound stand_laws (world held_once 1 (gain block (λ b. 0)))
Reach-IsSound_example = Reach-IsSound stand_laws held_once-Reach

box_drop-outcome_example :
    ((busy_locked ≡ busy_locked)
      × (q : List FreeBox) × (◌≡◌ {A = Option (List FreeBox)} (some []) (some q))
      × (length q ≡ free_q_len)
      × (box_drop block held_once ≡ panic))
    ⊎ ((s' : AHeap stand) × (box_drop block held_once ≡ done s') × (s'.state ≡ busy_locked))
box_drop-outcome_example = box_drop-outcome stand_laws held_once 1 (λ b. 0) block held_once-Reach

locked-Ready : Ready stand_laws locked (λ b. 0)
unfolding count
locked-Ready = record {
  heap = heap_of [] 0x2003_0000;
  queue = [];
  has_heap = refl;
  has_queue = refl;
  fits = omega arith;
  ledger = λ b. omega arith;
}
