-- ===== src/Alloc/Blocks.antt =====
-- `core::alloc::Layout`, and the `FreeBox` of firmware/kernel/src/alloc.rs: a block of memory by its
-- address and layout.
use pellegrino.Base.{ℕ, ◌+◌, ◌≡◌, Bool, true, ◌&&◌, List, [], ◌∷◌, ◌==◌, if◌then◌else◌, arith, ◌++◌}

pub record Layout : Type 0 where
  pub size : ℕ
  pub align : ℕ

pub record FreeBox : Type 0 where
  pub ptr : ℕ
  pub layout : Layout

abbrev pub free_box : ℕ → Layout → FreeBox
free_box p l = record { ptr = p; layout = l }

-- The same block.
unfoldable pub same : FreeBox → FreeBox → Bool
same a b =
    (a.ptr == b.ptr) && ((a.layout.size == b.layout.size) && (a.layout.align == b.layout.align))

-- One for the block itself, and zero for all others.
abbrev pub one_if_same : FreeBox → FreeBox → ℕ
one_if_same a b = if same a b then 1 else 0

unfoldable pub count : FreeBox → List FreeBox → ℕ
count b [] = 0
count b (x ∷ xs) = one_if_same x b + count b xs

pub count-append :
    (b : FreeBox) (xs ys : List FreeBox) → count b (xs ++ ys) ≡ count b xs + count b ys
unfolding count
count-append b [] ys = omega arith
count-append b (x ∷ xs) ys = omega (arith, count-append b xs ys)

pub same_refl : (b : FreeBox) → same b b ≡ true
unfolding same
same_refl b = ground arith
