-- ===== src/Alloc.antt =====
-- The kernel's allocator, firmware/kernel/src/alloc.rs. `AHeap` here is the state of the three
-- singletons HEAP, FREE_Q and HEAP_BUF; storage that is not yet initialised is `none`, and reading it
-- is undefined behaviour. A `HeapGuard` is the right to the operations of the guard. A box owns its
-- contents, as Rust's ownership has it. `usize` has 32 bits.
pub mod Blocks
pub mod External
pub mod Cleaning
pub mod Boxes
pub mod Ledger
pub mod Stand
mod Tests
use pellegrino.Base.{
  ℕ, zero, suc, ◌-◌, ◌*◌, ◌%◌, ◌^◌, List, Option, none, some, Bool, true, false, leb, ◌==◌,
  if◌then◌else◌, replicate, Outcome, done, panic, undefined, out_of_fuel, and_then,
}
use Blocks.{Layout, FreeBox, free_box}
use External.{Crates}

-- `AHeap::UNINIT`, `AHeap::INIT_IDLE`, `AHeap::BUSY_LOCKED`
abbrev pub uninit : ℕ
uninit = 0

abbrev pub init_idle : ℕ
init_idle = 1

abbrev pub busy_locked : ℕ
busy_locked = 2

-- `HeapStorage::SIZE_BYTES`
abbrev pub size_bytes : ℕ
size_bytes = 64 * 1024

pub record HeapBox (V : Type 0) : Type 0 where
  pub ptr : ℕ
  pub value : V

pub record HeapArray (V : Type 0) : Type 0 where
  pub count : ℕ
  pub ptr : ℕ
  pub elems : List V

-- `HeapBox::free_box`, for a `T` of this layout.
abbrev pub box_free_box : {V : Type 0} → Layout → HeapBox V → FreeBox
box_free_box t b = free_box b.ptr t

-- `HeapArray::free_box`: the size is a product of `usize`, which wraps.
abbrev pub array_free_box : {V : Type 0} → Layout → HeapArray V → FreeBox
array_free_box t a = free_box a.ptr (record { size = (t.size * a.count) % 2 ^ 32; align = t.align })

-- `Layout::array::<T>(count)`, which fails where the size exceeds `isize::MAX`.
unfoldable pub layout_array : Layout → ℕ → Option Layout
layout_array t count =
    if leb (t.size * count) (2 ^ 31 - 1)
    then some (record { size = t.size * count; align = t.align })
    else none

pub record AHeap (c : Crates) : Type 0 where
  pub state : ℕ
  pub heap : Option c.Heap
  pub queue : Option c.Queue

-- `HeapStorage::addr_sz`, for the storage at this address, and `take_heap`.
abbrev pub addr_sz : ℕ → ℕ × ℕ
addr_sz addr = (addr, size_bytes)

abbrev pub take_heap : (c : Crates) → ℕ → c.Heap
take_heap c storage = let (addr, size) = addr_sz storage in c.init addr size

-- `FreeQueue::new` and `FreeQueue::init`
abbrev pub free_queue_new : (c : Crates) → Option c.Queue
free_queue_new c = none

abbrev pub free_queue_init : (c : Crates) → Option c.Queue
free_queue_init c = some c.new

abbrev pub new : (c : Crates) → AHeap c
new c = record { state = uninit; heap = none; queue = free_queue_new c }

-- `HeapBox::leak` and `HeapArray::leak`: the reference that is left when the box is forgotten.
abbrev pub leak : {V : Type 0} → HeapBox V → ℕ × V
leak b = (b.ptr, b.value)

abbrev pub leak_array : {V : Type 0} → HeapArray V → ℕ × List V
leak_array a = (a.ptr, a.elems)

-- The loop of `clean_allocs` over the queue and the heap.
clean_loop : (c : Crates) → ℕ → c.Queue → c.Heap → Outcome (c.Queue × c.Heap)
clean_loop c zero q h = out_of_fuel
clean_loop c (suc fuel) q h = elim (c.dequeue q) [
  | none ↦ done (q, h)
  | some (b, q') ↦ clean_loop c fuel q' (c.deallocate h b.ptr b.layout)
]

module _ {c : Crates} where
  open c use {allocate_first_fit, deallocate, enqueue, free, used}

  -- `AHeap::init`, with the address of HEAP_BUF. The state is BUSY_LOCKED between its two writes.
  -- The result is `is_ok()`.
  unfoldable pub init : ℕ → AHeap c → AHeap c × Bool
  init addr s =
      if s.state == uninit
      then (
        record { state = init_idle; heap = some (take_heap c addr); queue = free_queue_init c },
        true,
      )
      else (s, false)

  -- `none` where the heap is not idle. Otherwise the caller has the guard.
  unfoldable pub try_lock : AHeap c → Option (AHeap c)
  try_lock s = if s.state == init_idle then some (record s { state = busy_locked }) else none

  -- `Drop for HeapGuard`
  unfoldable pub unlock : AHeap c → AHeap c
  unlock s = record s { state = init_idle }

  -- `HeapGuard::deref` and `deref_mut`, for a use of the heap.
  abbrev pub with_heap : {A : Type 0} → AHeap c → (c.Heap → Outcome A) → Outcome A
  with_heap s f = elim s.heap [ none ↦ undefined | some h ↦ f h ]

  abbrev pub with_queue : {A : Type 0} → AHeap c → (c.Queue → Outcome A) → Outcome A
  with_queue s f = elim s.queue [ none ↦ undefined | some q ↦ f q ]

  unfoldable pub free_space : AHeap c → Outcome ℕ
  free_space s = with_heap s (λ h. done (free h))

  unfoldable pub used_space : AHeap c → Outcome ℕ
  used_space s = with_heap s (λ h. done (used h))

  -- `FreeBox::box_drop`: at once where the heap can be locked, or by way of the queue.
  unfoldable pub box_drop : FreeBox → AHeap c → Outcome (AHeap c)
  unfolding try_lock unlock
  box_drop b s = elim (try_lock s) [
    | some g ↦
        with_heap g (λ h. done (unlock (record g { heap = some (deallocate h b.ptr b.layout) })))
    | none ↦
        with_queue s
          (λ q. elim (enqueue q b) [ some q' ↦ done (record s { queue = some q' }) | none ↦ panic ])
  ]

  -- The queue holds 128 blocks at most, so 129 rounds are enough.
  unfoldable pub clean_allocs : AHeap c → Outcome (AHeap c)
  unfolding clean_loop
  clean_allocs s = with_queue s (λ q. with_heap s (λ h.
      and_then (clean_loop c 129 q h)
        (λ (q', h'). done (record s { queue = some q'; heap = some h' }))))

  -- The call of `allocate_first_fit` in both ways to allocate.
  allocate : Layout → AHeap c → Outcome (AHeap c × Option ℕ)
  allocate l s = with_heap s (λ h. elim (allocate_first_fit h l) [
    | none ↦ done (s, none)
    | some (p, h') ↦ done (record s { heap = some h' }, some p)
  ])

  module _ {V : Type 0} (t : Layout) where
    unfoldable pub alloc_box : V → AHeap c → Outcome (AHeap c × Option (HeapBox V))
    unfolding clean_allocs allocate
    alloc_box value s = and_then (clean_allocs s) (λ s'. and_then (allocate t s') (λ (s'', p).
        elim p [
          | none ↦ done (s'', none)
          | some ptr ↦ done (s'', some (record { ptr = ptr; value = value }))
        ]))

    unfoldable pub alloc_box_array : V → ℕ → AHeap c → Outcome (AHeap c × Option (HeapArray V))
    unfolding clean_allocs allocate layout_array
    alloc_box_array value count s = and_then (clean_allocs s) (λ s'. elim (layout_array t count) [
      | none ↦ done (s', none)
      | some l ↦ and_then (allocate l s') (λ (s'', p). elim p [
        | none ↦ done (s'', none)
        | some ptr ↦
            done (s'', some (record { count = count; ptr = ptr; elems = replicate count value }))
      ])
    ])

    -- `Drop` for both kinds of boxes.
    unfoldable pub drop_box : HeapBox V → AHeap c → Outcome (AHeap c)
    unfolding box_drop
    drop_box b s = box_drop (box_free_box t b) s

    unfoldable pub drop_array : HeapArray V → AHeap c → Outcome (AHeap c)
    unfolding box_drop
    drop_array a s = box_drop (array_free_box t a) s
