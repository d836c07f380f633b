-- ===== src/Syscall/Memory.antt =====
-- Slices of the memory.
use pellegrino.Base.{
  ℕ, zero, suc, ◌+◌, ◌≤◌, ◌<◌, ◌≡◌, ◌∙◌, ◌⊎◌, inl, inr, false, refl, List, [], ◌∷◌, ◌==◌,
  if◌then◌else◌, length, arith,
}
use mathlib.Core.Path.{ap₂}

unfoldable pub read : (ℕ → ℕ) → ℕ → ℕ → List ℕ
read mem p zero = []
read mem p (suc n) = mem p ∷ read mem (suc p) n

unfoldable pub write : (ℕ → ℕ) → ℕ → List ℕ → ℕ → ℕ
write mem p [] = mem
write mem p (b ∷ bs) = λ a. if a == p then b else write mem (suc p) bs a

pub read-cong : (m m' : ℕ → ℕ) (p n : ℕ) → ((a : ℕ) → p ≤ a → m a ≡ m' a) → read m p n ≡ read m' p n
unfolding read
read-cong m m' p zero same = refl
read-cong m m' p (suc n) same =
    ap₂ ◌∷◌ (same p (omega arith)) (read-cong m m' (suc p) n (λ a le. same a (omega arith)))

-- What is written is read back.
pub read-write : (m : ℕ → ℕ) (p : ℕ) (bs : List ℕ) → read (write m p bs) p (length bs) ≡ bs
unfolding read write
read-write m p [] = refl
read-write m p (b ∷ bs) = ap₂ ◌∷◌ (ground arith) (
    read-cong (λ a. if a == p then b else write m (suc p) bs a) (write m (suc p) bs) (suc p)
      (length bs) (λ a le. ground arith)
    ∙ read-write m (suc p) bs)

pub length-read : (m : ℕ → ℕ) (p n : ℕ) → length (read m p n) ≡ n
unfolding read
length-read m p zero = refl
length-read m p (suc n) = omega (arith, length-read m (suc p) n)

-- Bytes apart from a slice that is written keep theirs.
pub write-apart :
    (m : ℕ → ℕ) (p a : ℕ) (bs : List ℕ) → (a < p) ⊎ (p + length bs ≤ a) → write m p bs a ≡ m a
unfolding write
write-apart m p a [] apart = refl
write-apart m p a (b ∷ bs) apart =
    let later : (a < suc p) ⊎ (suc p + length bs ≤ a) = elim apart [
      | inl lo ↦ inl (omega arith)
      | inr hi ↦ inr (omega arith)
    ] in
    let ne : (a == p) ≡ false = elim apart [ inl lo ↦ ground arith | inr hi ↦ ground arith ] in
    rw ne (write-apart m (suc p) a bs later)

pub read-write_apart :
    (m : ℕ → ℕ) (p q n : ℕ) (bs : List ℕ)
    → (q + n ≤ p) ⊎ (p + length bs ≤ q)
    → read (write m p bs) q n ≡ read m q n
unfolding read
read-write_apart m p q zero bs apart = refl
read-write_apart m p q (suc n) bs apart = elim apart [
  | inl lo ↦
      ap₂ ◌∷◌ (write-apart m p q bs (inl (omega arith)))
        (read-write_apart m p (suc q) n bs (inl (omega arith)))
  | inr hi ↦
      ap₂ ◌∷◌ (write-apart m p q bs (inr hi))
        (read-write_apart m p (suc q) n bs (inr (omega arith)))
]
