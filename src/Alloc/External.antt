-- ===== src/Alloc/External.antt =====
-- The crates that firmware/kernel/src/alloc.rs uses and the repository does not hold: the allocator
-- `linked_list_allocator::Heap` and the queue `heapless::mpmc::MpMcQueue<FreeBox, 128>`, with what
-- their documentation promises.
use pellegrino.Base.{ℕ, ◌+◌, ◌≤◌, ◌<◌, ◌≡◌, List, [], ◌∷◌, ◌++◌, Option, none, some, length}
use pellegrino.Alloc.Blocks.{Layout, FreeBox, free_box, one_if_same}

-- `FREE_Q_LEN`
abbrev pub free_q_len : ℕ
free_q_len = 128

pub record Crates : Type 1 where
  -- `Heap::empty()` followed by `init(addr, size)`, and the operations of a heap
  pub Heap : Type 0
  pub init : (addr size : ℕ) → Heap
  pub allocate_first_fit : Heap → Layout → Option (ℕ × Heap)
  pub deallocate : Heap → ℕ → Layout → Heap
  pub free : Heap → ℕ
  pub used : Heap → ℕ
  pub Queue : Type 0
  pub new : Queue
  pub enqueue : Queue → FreeBox → Option Queue
  pub dequeue : Queue → Option (FreeBox × Queue)

pub record CratesLaws (c : Crates) : Type 0 where
  -- how often a block is allocated and not yet given back
  pub held : c.Heap → FreeBox → ℕ
  pub held-init : (addr size : ℕ) (b : FreeBox) → held (c.init addr size) b ≡ 0
  pub held-allocate :
      (h h' : c.Heap) (l : Layout) (p : ℕ) (b : FreeBox)
      → c.allocate_first_fit h l ≡ some (p, h')
      → held h' b ≡ one_if_same (free_box p l) b + held h b
  -- giving back is allowed of a block that is allocated, at its own layout
  pub held-deallocate :
      (h : c.Heap) (p : ℕ) (l : Layout) (b : FreeBox)
      → 0 < held h (free_box p l)
      → held h b ≡ one_if_same (free_box p l) b + held (c.deallocate h p l) b
  -- a queue of at most `free_q_len` blocks, first in first out
  pub contents : c.Queue → List FreeBox
  pub contents-new : contents c.new ≡ []
  pub enqueue-some :
      (q : c.Queue) (b : FreeBox)
      → length (contents q) < free_q_len
      → (q' : c.Queue) × (c.enqueue q b ≡ some q') × (contents q' ≡ contents q ++ b ∷ [])
  pub enqueue-none :
      (q : c.Queue) (b : FreeBox) → free_q_len ≤ length (contents q) → c.enqueue q b ≡ none
  pub dequeue-nil : (q : c.Queue) → contents q ≡ [] → c.dequeue q ≡ none
  pub dequeue-cons :
      (q : c.Queue) (b : FreeBox) (bs : List FreeBox)
      → contents q ≡ b ∷ bs
      → (q' : c.Queue) × (c.dequeue q ≡ some (b, q')) × (contents q' ≡ bs)
