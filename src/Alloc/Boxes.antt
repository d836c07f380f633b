-- ===== src/Alloc/Boxes.antt =====
-- What allocating and dropping a box do to the ledger of an initialised allocator.
use mathlib.Core.Option
use pellegrino.Base.{
  ℕ, ◌+◌, ◌-◌, ◌*◌, ◌%◌, ◌^◌, ◌≡◌, ◌≢◌, ◌⊎◌, inl, inr, refl, ap, ◌∙◌, arith, List, [], ◌∷◌, Option,
  none, some, length, Outcome, done, panic, undefined, ◌==◌, leb, leb→le, Option-cases, Bool-cases,
  length-append, replicate, not-leb→lt, none≢some, some-inj,
}
use pellegrino.Alloc.{
  AHeap, HeapBox, HeapArray, init_idle, busy_locked, with_heap, with_queue, try_lock, box_drop,
  allocate, alloc_box, alloc_box_array, layout_array, box_free_box, array_free_box,
}
use pellegrino.Alloc.Blocks.{Layout, FreeBox, free_box, count, count-append}
use pellegrino.Alloc.External.{Crates, CratesLaws, free_q_len}
use pellegrino.Alloc.Cleaning.{Owners, gain, Ready, pending, held-pos, clean_allocs-Ready}

with_heap-some :
    {c : Crates} {A : Type 0} (s : AHeap c) (h : c.Heap) (f : c.Heap → Outcome A)
    → s.heap ≡ some h
    → with_heap s f ≡ f h
with_heap-some {A} s h f e = ap {B = Outcome A} (λ o. elim o [ none ↦ undefined | some k ↦ f k ]) e

with_queue-some :
    {c : Crates} {A : Type 0} (s : AHeap c) (q : c.Queue) (f : c.Queue → Outcome A)
    → s.queue ≡ some q
    → with_queue s f ≡ f q
with_queue-some {A} s q f e = ap {B = Outcome A} (λ o. elim o [ none ↦ undefined | some k ↦ f k ]) e

module _ {c : Crates} (laws : CratesLaws c) {s : AHeap c} {live : Owners}
    (r : Ready laws s live) where
  open laws use {held, contents}

  allocate-Ready :
      (l : Layout)
      → (allocate l s ≡ done (s, none))
        ⊎ ((s' : AHeap c) × (p : ℕ) × (allocate l s ≡ done (s', some p))
            × (s'.state ≡ s.state)
            × (r' : Ready laws s' (gain (free_box p l) live)) × (pending r' ≡ pending r))
  unfolding allocate
  allocate-Ready l = elim (Option-cases (c.allocate_first_fit r.heap l)) [
    | inl e ↦ inl (with_heap-some s r.heap _ r.has_heap ∙ rw e)
    | inr ((p, h'), e) ↦ inr (
      record s { heap = some h' },
      p,
      with_heap-some s r.heap _ r.has_heap ∙ rw e,
      refl,
      record {
        heap = h';
        queue = r.queue;
        has_heap = refl;
        has_queue = r.has_queue;
        fits = r.fits;
        ledger = λ b. omega (arith, laws.held-allocate r.heap h' l p b e, r.ledger b);
      },
      refl,
    )
  ]

pub try_lock-idle :
    {c : Crates} (s : AHeap c)
    → s.state ≡ init_idle
    → try_lock s ≡ some (record s { state = busy_locked })
unfolding try_lock
try_lock-idle s e = rw e

try_lock-busy : {c : Crates} (s : AHeap c) → s.state ≢ init_idle → try_lock s ≡ none
unfolding try_lock
try_lock-busy s h = elim (Bool-cases (s.state == init_idle)) [
  | inl e ↦ absurd (h (ground arith))
  | inr e ↦ rw e
]

-- The ledger does not depend on the lock.
pub Ready-state :
    {c : Crates} (laws : CratesLaws c) (s : AHeap c) (n : ℕ) {live : Owners}
    → Ready laws s live
    → Ready laws (record s { state = n }) live
Ready-state laws s n r = record {
  heap = r.heap;
  queue = r.queue;
  has_heap = r.has_heap;
  has_queue = r.has_queue;
  fits = r.fits;
  ledger = r.ledger;
}

-- Dropping a box that has an owner. With the lock free the block is given back at once.
pub box_drop-free :
    {c : Crates} (laws : CratesLaws c) {s : AHeap c} (b : FreeBox) {live : Owners}
    → Ready laws s (gain b live)
    → s.state ≡ init_idle
    → (s' : AHeap c) × (box_drop b s ≡ done s') × (s'.state ≡ init_idle) × Ready laws s' live
unfolding box_drop
box_drop-free {c} laws {s} b {live} r idle =
    let pending_blocks = laws.contents r.queue in
    let pos =
      held-pos laws b (laws.held r.heap b) (live b + count b pending_blocks)
        (omega (arith, r.ledger b)) in
    let given = laws.held-deallocate r.heap b.ptr b.layout in
    (
      record s { state = init_idle; heap = some (c.deallocate r.heap b.ptr b.layout) },
      rw (try_lock-idle s idle, box_drop, r.has_heap),
      refl,
      record {
        heap = c.deallocate r.heap b.ptr b.layout;
        queue = r.queue;
        has_heap = refl;
        has_queue = r.has_queue;
        fits = r.fits;
        ledger = λ x. omega (arith, r.ledger x, given x pos);
      },
    )

-- With the lock taken it waits in the queue, or the kernel panics where the queue is full.
pub box_drop-busy :
    {c : Crates} (laws : CratesLaws c) {s : AHeap c} (b : FreeBox) {live : Owners}
    (r : Ready laws s (gain b live))
    → s.state ≢ init_idle
    → ((length (pending r) ≡ free_q_len) × (box_drop b s ≡ panic))
      ⊎ ((s' : AHeap c) × (box_drop b s ≡ done s') × (s'.state ≡ s.state) × Ready laws s' live)
unfolding box_drop count
box_drop-busy {c} laws {s} b {live} r busy =
    elim (Bool-cases (leb free_q_len (length (pending r)))) [
      | inl full ↦ inl (
        omega (arith, leb→le _ _ full, r.fits),
        rw (try_lock-busy s busy, box_drop)
            (with_queue-some s r.queue _ r.has_queue
              ∙ rw (laws.enqueue-none r.queue b (leb→le _ _ full))),
      )
      | inr room ↦
          let (q', e, more) = laws.enqueue-some r.queue b (not-leb→lt _ _ room) in
          inr (
            record s { queue = some q' },
            rw (try_lock-busy s busy, box_drop) (with_queue-some s r.queue _ r.has_queue ∙ rw e),
            refl,
            record {
              heap = r.heap;
              queue = q';
              has_heap = r.has_heap;
              has_queue = refl;
              fits =
                  rw more (omega (arith, length-append (pending r) (b ∷ []), not-leb→lt _ _ room));
              ledger =
                  λ x. rw more (omega (arith, r.ledger x, count-append x (pending r) (b ∷ [])));
            },
          )
    ]

-- What a call to allocate leaves, `block` being the block of what it returned: nothing pending, the
-- lock as it was, and one owner more where a block was found.
abbrev pub Allocated :
    {c : Crates} (laws : CratesLaws c) {B : Type 0}
    → (B → FreeBox)
    → AHeap c
    → Owners
    → AHeap c
    → Option B
    → Type 0
Allocated laws block s live s' none =
    (s'.state ≡ s.state) × (r' : Ready laws s' live) × (pending r' ≡ [])
Allocated laws block s live s' (some b) =
    (s'.state ≡ s.state) × (r' : Ready laws s' (gain (block b) live)) × (pending r' ≡ [])

module _ {c : Crates} (laws : CratesLaws c) {V : Type 0} (t : Layout) where
  -- `alloc_box` returns: it fails or gives a box of the value, with its block in the ledger.
  pub alloc_box-Ready :
      (value : V) {s : AHeap c} {live : Owners}
      → Ready laws s live
      → (s' : AHeap c) × (b : Option (HeapBox V)) × (alloc_box t value s ≡ done (s', b))
        × Allocated laws (box_free_box t) s live s' b
        × (Option.map (λ (x : HeapBox V). x.value) b ≡ Option.map (λ (x : HeapBox V). value) b)
  unfolding alloc_box
  alloc_box-Ready value {s} {live} r =
      let (s1, e1, same1, r1, clean) = clean_allocs-Ready laws r in
      elim (allocate-Ready laws r1 t) [
        | inl e ↦ (s1, none, rw (e1, e), (same1, r1, clean), refl)
        | inr (s2, p, e, same2, r2, kept) ↦ (
          s2,
          some (record { ptr = p; value = value }),
          rw (e1, e),
          (same2 ∙ same1, r2, kept ∙ clean),
          refl,
        )
      ]

  -- The block of an array is the block that was allocated for it: its size does not wrap.
  array_block :
      (count p : ℕ) (l : Layout) (elems : List V)
      → layout_array t count ≡ some l
      → array_free_box {V = V} t (record { count = count; ptr = p; elems = elems }) ≡ free_box p l
  unfolding layout_array
  array_block count p l elems e = elim (Bool-cases (leb (t.size * count) (2 ^ 31 - 1))) [
    | inl fits ↦
        let got : some (record { size = t.size * count; align = t.align }) ≡ some l =
          rw fits at e in
        let small : t.size * count % 2 ^ 32 ≡ t.size * count = omega (arith, leb→le _ _ fits) in
        ap (free_box p) (rw small (some-inj got))
    | inr long ↦ absurd (none≢some (rw long at e))
  ]

  -- `alloc_box_array` returns: it fails or gives an array of `count` copies, and the block that a drop
  -- of the array will give back is the one in the ledger.
  pub alloc_box_array-Ready :
      (value : V) (count : ℕ) {s : AHeap c} {live : Owners}
      → Ready laws s live
      → (s' : AHeap c) × (a : Option (HeapArray V)) × (alloc_box_array t value count s
          ≡ done (s', a))
        × Allocated laws (array_free_box t) s live s' a
        × (Option.map (λ (x : HeapArray V). x.elems) a
            ≡ Option.map (λ (x : HeapArray V). replicate count value) a)
  unfolding alloc_box_array
  alloc_box_array-Ready value count {s} {live} r =
      let (s1, e1, same1, r1, clean) = clean_allocs-Ready laws r in
      elim (Option-cases (layout_array t count)) [
        | inl e ↦ (s1, none, rw (e1, e), (same1, r1, clean), refl)
        | inr (l, e) ↦ elim (allocate-Ready laws r1 l) [
          | inl e' ↦ (s1, none, rw (e1, e, e'), (same1, r1, clean), refl)
          | inr (s2, p, e', same2, r2, kept) ↦
              let copies = replicate count value in
              let block = array_block count p l copies e in
              (
                s2,
                some (record { count = count; ptr = p; elems = copies }),
                rw (e1, e, e'),
                rw block (same2 ∙ same1, r2, kept ∙ clean),
                refl,
              )
        ]
      ]
