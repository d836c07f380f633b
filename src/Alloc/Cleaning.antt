-- ===== src/Alloc/Cleaning.antt =====
-- The allocator once it is initialised: its ledger, and what one operation does to it. The ledger says
-- of every block how often it is allocated: once for each owner, and once for each pending release.
use pellegrino.Base.{
  ℕ, zero, suc, ◌+◌, ◌≤◌, ◌<◌, ◌≡◌, refl, arith, List, [], ◌∷◌, some, length, done,
}
use pellegrino.Alloc.{AHeap, clean_loop, clean_allocs}
use pellegrino.Alloc.Blocks.{FreeBox, one_if_same, count, same_refl}
use pellegrino.Alloc.External.{Crates, CratesLaws, free_q_len}

-- How often each block has an owner.
abbrev pub Owners : Type 0
Owners = FreeBox → ℕ

-- One owner more of a block.
abbrev pub gain : FreeBox → Owners → Owners
gain b live x = one_if_same b x + live x

pub record Ready {c : Crates} (laws : CratesLaws c) (s : AHeap c) (live : Owners) : Type 0 where
  pub heap : c.Heap
  pub queue : c.Queue
  pub has_heap : s.heap ≡ some heap
  pub has_queue : s.queue ≡ some queue
  pub fits : length (laws.contents queue) ≤ free_q_len
  pub ledger : (b : FreeBox) → laws.held heap b ≡ live b + count b (laws.contents queue)

-- The releases that wait in the queue.
abbrev pub pending :
    {c : Crates} {laws : CratesLaws c} {s : AHeap c} {live : Owners}
    → Ready laws s live
    → List FreeBox
pending {laws} r = laws.contents r.queue

module _ {c : Crates} (laws : CratesLaws c) where
  open laws use {held, contents}

  pub held-pos : (b : FreeBox) (n m : ℕ) → n ≡ one_if_same b b + m → 0 < n
  held-pos b n m e = ground (arith, same_refl b)

  clean_loop-lem :
      (fuel : ℕ) (bs : List FreeBox) (q : c.Queue) (h : c.Heap) (live : Owners)
      → contents q ≡ bs
      → length bs < fuel
      → ((b : FreeBox) → held h b ≡ live b + count b bs)
      → (q' : c.Queue) × (h' : c.Heap) × (clean_loop c fuel q h ≡ done (q', h'))
        × (contents q' ≡ [])
        × ((b : FreeBox) → held h' b ≡ live b)
  unfolding clean_loop count
  clean_loop-lem zero bs q h live e less ledger = absurd (omega arith)
  clean_loop-lem (suc fuel) [] q h live e less ledger =
      (q, h, rw (laws.dequeue-nil q e, clean_loop), e, λ b. omega (arith, ledger b))
  clean_loop-lem (suc fuel) (x ∷ xs) q h live e less ledger =
      let (q', d, rest) = laws.dequeue-cons q x xs e in
      let given = laws.held-deallocate h x.ptr x.layout in
      let pos = held-pos x (held h x) (live x + count x xs) (omega (arith, ledger x)) in
      let (q'', h'', run, empty, kept) =
        clean_loop-lem fuel xs q' (c.deallocate h x.ptr x.layout) live rest (omega arith)
          (λ b. omega (arith, ledger b, given b pos)) in
      (q'', h'', rw (d, clean_loop) run, empty, kept)

  module _ {s : AHeap c} {live : Owners} (r : Ready laws s live) where
    -- All pending releases are made, each once, and nothing else changes.
    pub clean_allocs-Ready :
        (s' : AHeap c) × (clean_allocs s ≡ done s')
        × (s'.state ≡ s.state)
        × (r' : Ready laws s' live) × (pending r' ≡ [])
    unfolding clean_allocs count
    clean_allocs-Ready =
        let (q', h', run, empty, kept) =
          clean_loop-lem 129 (contents r.queue) r.queue r.heap live refl (omega (arith, r.fits))
            r.ledger in
        (
          record s { queue = some q'; heap = some h' },
          rw (r.has_queue, r.has_heap, run),
          refl,
          record {
            heap = h';
            queue = q';
            has_heap = refl;
            has_queue = refl;
            fits = rw empty (omega arith);
            ledger = λ b. rw empty (omega (arith, kept b));
          },
          empty,
        )
