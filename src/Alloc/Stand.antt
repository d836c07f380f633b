-- ===== src/Alloc/Stand.antt =====
-- Stand-ins for the two crates that keep their promises: a heap that hands out fresh addresses up to a
-- limit, and a bounded list. They show that the promises can be kept, and serve in the tests.
use pellegrino.Base.{
  ℕ, ◌+◌, ◌-◌, ◌≤◌, ◌<◌, ◌≡◌, refl, arith, List, [], ◌∷◌, ◌++◌, Option, none, some, length, leb,
  ltb, inl, inr, if◌then◌else◌, Bool-cases, true, lt→ltb, le→not-ltb,
}
use pellegrino.Alloc.Blocks.{Layout, FreeBox, free_box, same, one_if_same, count}
use pellegrino.Alloc.External.{Crates, CratesLaws, free_q_len}

pub record Bump : Type 0 where
  pub blocks : List FreeBox
  pub next : ℕ
  pub limit : ℕ

unfoldable pub forget : FreeBox → List FreeBox → List FreeBox
unfolding same
forget b [] = []
forget b (x ∷ xs) = if same x b then xs else x ∷ forget b xs

unfoldable pub bump_allocate : Bump → Layout → Option (ℕ × Bump)
bump_allocate h l =
    if leb (h.next + l.size) h.limit
    then some (h.next, record h { blocks = free_box h.next l ∷ h.blocks; next = h.next + l.size })
    else none

unfoldable pub list_enqueue : List FreeBox → FreeBox → Option (List FreeBox)
list_enqueue q b = if ltb (length q) free_q_len then some (q ++ b ∷ []) else none

unfoldable pub list_dequeue : List FreeBox → Option (FreeBox × List FreeBox)
list_dequeue [] = none
list_dequeue (b ∷ bs) = some (b, bs)

abbrev pub stand : Crates
stand = record {
  Heap = Bump;
  init = λ addr size. record { blocks = []; next = addr; limit = addr + size };
  allocate_first_fit = bump_allocate;
  deallocate = λ h p l. record h { blocks = forget (free_box p l) h.blocks };
  free = λ h. h.limit - h.next;
  used = λ h. h.next;
  Queue = List FreeBox;
  new = [];
  enqueue = list_enqueue;
  dequeue = list_dequeue;
}

one_if_same-eq : (x y b : FreeBox) → same x y ≡ true → one_if_same x b ≡ one_if_same y b
unfolding same
one_if_same-eq x y b h = ground arith

pub count-forget :
    (x b : FreeBox) (xs : List FreeBox)
    → 0 < count x xs
    → count b xs ≡ one_if_same x b + count b (forget x xs)
unfolding count forget
count-forget x b [] h = absurd (omega arith)
count-forget x b (y ∷ ys) h = elim (Bool-cases (same y x)) [
  | inl e ↦ rw e (omega (arith, one_if_same-eq y x b e))
  | inr e ↦
      let pos : 0 < count x ys = omega (arith, (rw e at h)) in
      rw e (omega (arith, count-forget x b ys pos))
]

pub stand-allocate :
    (h h' : Bump) (l : Layout) (p : ℕ) (b : FreeBox)
    → bump_allocate h l ≡ some (p, h')
    → count b h'.blocks ≡ one_if_same (free_box p l) b + count b h.blocks
unfolding bump_allocate count
stand-allocate h h' l p b e = ground arith

pub stand-enqueue :
    (q : List FreeBox) (b : FreeBox)
    → length q < free_q_len
    → (q' : List FreeBox) × (list_enqueue q b ≡ some q') × (q' ≡ q ++ b ∷ [])
unfolding list_enqueue
stand-enqueue q b h = (q ++ b ∷ [], rw (lt→ltb _ _ h), refl)

pub stand-enqueue_full :
    (q : List FreeBox) (b : FreeBox) → free_q_len ≤ length q → list_enqueue q b ≡ none
unfolding list_enqueue
stand-enqueue_full q b h = rw (le→not-ltb _ _ h)

pub stand-dequeue_nil : (q : List FreeBox) → q ≡ [] → list_dequeue q ≡ none
unfolding list_dequeue
stand-dequeue_nil q e = rw e

pub stand-dequeue_cons :
    (q : List FreeBox) (b : FreeBox) (bs : List FreeBox)
    → q ≡ b ∷ bs
    → (q' : List FreeBox) × (list_dequeue q ≡ some (b, q')) × (q' ≡ bs)
unfolding list_dequeue
stand-dequeue_cons q b bs e = (bs, rw e, refl)

pub count-nil : (b : FreeBox) → count b [] ≡ 0
unfolding count
count-nil b = refl

abbrev pub stand_laws : CratesLaws stand
stand_laws = record {
  held = λ h b. count b h.blocks;
  held-init = λ addr size b. count-nil b;
  held-allocate = stand-allocate;
  held-deallocate = λ h p l b pos. count-forget (free_box p l) b h.blocks pos;
  contents = λ q. q;
  contents-new = refl;
  enqueue-some = stand-enqueue;
  enqueue-none = stand-enqueue_full;
  dequeue-nil = stand-dequeue_nil;
  dequeue-cons = stand-dequeue_cons;
}
