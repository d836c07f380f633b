-- ===== src/Alloc/Ledger.antt =====
-- The allocator as the kernel uses it: the steps that code can make with guards and boxes, in any
-- order, and what holds in every state that they reach. A step of the driver's interrupt may come
-- between any two steps.
use pellegrino.Base.{
  ℕ, suc, ◌≡◌, ◌⊎◌, inl, inr, refl, sym, ap, ◌∙◌, arith, Option, none, some, length, done, panic,
  ◌==◌, Bool-cases, true, false, none≢some, some-inj, done-inj, panic≢done,
}
use mathlib.Core.Path.{subst}
use pellegrino.Alloc.{
  AHeap, HeapBox, HeapArray, uninit, init_idle, busy_locked, size_bytes, new, init, try_lock,
  unlock, box_drop, alloc_box, alloc_box_array, box_free_box, array_free_box,
}
use pellegrino.Alloc.Blocks.{Layout, FreeBox, count, same_refl}
use pellegrino.Alloc.External.{Crates, CratesLaws, free_q_len}
use pellegrino.Alloc.Cleaning.{Owners, gain, Ready}
use pellegrino.Alloc.Boxes.{
  Allocated, alloc_box-Ready, alloc_box_array-Ready, box_drop-free, box_drop-busy,
}

-- The allocator, the number of guards, and the owners of boxes.
pub record World (c : Crates) : Type 0 where
  pub heap : AHeap c
  pub guards : ℕ
  pub live : Owners

abbrev pub world : {c : Crates} → AHeap c → ℕ → Owners → World c
world s g live = record { heap = s; guards = g; live = live }

-- What code can do. Only the holder of a guard allocates and unlocks, and only the owner of a box
-- drops it.
pub data Step {c : Crates} : World c → World c → Type 0 where
  inits :
      (s : AHeap c) (g : ℕ) (live : Owners) (addr : ℕ)
      → Step (world s g live) (world (init addr s).0 g live)
  locks :
      (s : AHeap c) (g : ℕ) (live : Owners) (s' : AHeap c)
      → try_lock s ≡ some s'
      → Step (world s g live) (world s' (suc g) live)
  unlocks :
      (s : AHeap c) (g : ℕ) (live : Owners) → Step (world s (suc g) live) (world (unlock s) g live)
  boxes :
      (s : AHeap c) (g : ℕ) (live : Owners) (t : Layout) (value : ℕ) (s' : AHeap c) (b : HeapBox ℕ)
      → alloc_box t value s ≡ done (s', some b)
      → Step (world s (suc g) live) (world s' (suc g) (gain (box_free_box t b) live))
  arrays :
      (s : AHeap c) (g : ℕ) (live : Owners) (t : Layout) (value n : ℕ) (s' : AHeap c)
      (a : HeapArray ℕ)
      → alloc_box_array t value n s ≡ done (s', some a)
      → Step (world s (suc g) live) (world s' (suc g) (gain (array_free_box t a) live))
  box_fails :
      (s : AHeap c) (g : ℕ) (live : Owners) (t : Layout) (value : ℕ) (s' : AHeap c)
      → alloc_box t value s ≡ done (s', none)
      → Step (world s (suc g) live) (world s' (suc g) live)
  array_fails :
      (s : AHeap c) (g : ℕ) (live : Owners) (t : Layout) (value n : ℕ) (s' : AHeap c)
      → alloc_box_array t value n s ≡ done (s', none)
      → Step (world s (suc g) live) (world s' (suc g) live)
  drops :
      (s : AHeap c) (g : ℕ) (live : Owners) (b : FreeBox) (s' : AHeap c)
      → box_drop b s ≡ done s'
      → Step (world s g (gain b live)) (world s' g live)

pub data Reach {c : Crates} : World c → Type 0 where
  start : Reach (world (new c) 0 (λ b. 0))
  next : {w w' : World c} → Reach w → Step w w' → Reach w'

-- The lock is taken exactly while there is a guard.
abbrev pub IsLocked : {c : Crates} → AHeap c → ℕ → Type 0
IsLocked s g = ((s.state ≡ init_idle) × (g ≡ 0)) ⊎ ((s.state ≡ busy_locked) × (g ≡ 1))

-- Before `init` there are no guards and no boxes. After it the lock is sound, and the ledger is right.
pub data IsSound {c : Crates} (laws : CratesLaws c) (w : World c) : Type 0 where
  fresh : w.heap.state ≡ uninit → w.guards ≡ 0 → ((b : FreeBox) → w.live b ≡ 0) → IsSound laws w
  running : IsLocked w.heap w.guards → Ready laws w.heap w.live → IsSound laws w

module _ {c : Crates} (laws : CratesLaws c) where
  IsLocked-eq : (s s' : AHeap c) (g : ℕ) → s'.state ≡ s.state → IsLocked s g → IsLocked s' g
  IsLocked-eq s s' g e (inl (i, n)) = inl (e ∙ i, n)
  IsLocked-eq s s' g e (inr (i, n)) = inr (e ∙ i, n)

  init-IsSound :
      (s : AHeap c) (g : ℕ) (live : Owners) (addr : ℕ)
      → IsSound laws (world s g live)
      → IsSound laws (world (init addr s).0 g live)
  unfolding init count
  init-IsSound s g live addr (fresh e n owners) =
      let new_state : (s.state == uninit) ≡ true = ground arith in
      rw new_state (
        running (inl (refl, n)) (record {
          heap = _;
          queue = _;
          has_heap = refl;
          has_queue = refl;
          fits = rw laws.contents-new (omega arith);
          ledger =
              λ b. rw laws.contents-new (omega (arith, owners b, laws.held-init addr size_bytes b));
        }))
  init-IsSound s g live addr (running locked r) =
      let old_state : (s.state == uninit) ≡ false = ground arith in rw old_state (running locked r)

  Allocated-IsSound :
      {B : Type 0} (block : B → FreeBox) (s s' : AHeap c) (g : ℕ) (live : Owners) (b : Option B)
      → IsLocked s (suc g)
      → Allocated laws block s live s' b
      → IsSound laws (world s' (suc g) (elim b [ none ↦ live | some x ↦ gain (block x) live ]))
  Allocated-IsSound block s s' g live none locked (same, r, e) =
      running (IsLocked-eq s s' (suc g) same locked) r
  Allocated-IsSound block s s' g live (some b) locked (same, r, e) =
      running (IsLocked-eq s s' (suc g) same locked) r

  try_lock-IsSound :
      (s : AHeap c) (g : ℕ) (live : Owners) (s' : AHeap c)
      → try_lock s ≡ some s'
      → IsSound laws (world s g live)
      → IsSound laws (world s' (suc g) live)
  unfolding try_lock
  try_lock-IsSound s g live s' e sound = elim (Bool-cases (s.state == init_idle)) [
    | inr busy ↦ absurd (none≢some (rw busy at e))
    | inl idle ↦
        subst (λ x. IsSound laws (world x (suc g) live)) (some-inj (rw idle at e))
          (taken sound (ground arith))
  ]
    where
      taken :
          IsSound laws (world s g live)
          → s.state ≡ init_idle
          → IsSound laws (world (record s { state = busy_locked }) (suc g) live)
      taken (fresh i n owners) idle = absurd (omega arith)
      taken (running (inr (i, n)) r) idle = absurd (omega arith)
      taken (running (inl (i, n)) r) idle = running (inr (refl, ap suc n)) (record {
        heap = r.heap;
        queue = r.queue;
        has_heap = r.has_heap;
        has_queue = r.has_queue;
        fits = r.fits;
        ledger = r.ledger;
      })

  unlock-IsSound :
      (s : AHeap c) (g : ℕ) (live : Owners)
      → IsSound laws (world s (suc g) live)
      → IsSound laws (world (unlock s) g live)
  unfolding unlock
  unlock-IsSound s g live (fresh i n owners) = absurd (omega arith)
  unlock-IsSound s g live (running (inl (i, n)) r) = absurd (omega arith)
  unlock-IsSound s g live (running (inr (i, n)) r) = running (inl (refl, omega arith)) (record {
    heap = r.heap;
    queue = r.queue;
    has_heap = r.has_heap;
    has_queue = r.has_queue;
    fits = r.fits;
    ledger = r.ledger;
  })

  alloc_box-IsSound :
      (s : AHeap c) (g : ℕ) (live : Owners) (t : Layout) (value : ℕ) (s' : AHeap c)
      (b : Option (HeapBox ℕ))
      → alloc_box t value s ≡ done (s', b)
      → IsSound laws (world s (suc g) live)
      → IsSound laws
          (world s' (suc g) (elim b [ none ↦ live | some x ↦ gain (box_free_box t x) live ]))
  alloc_box-IsSound s g live t value s' b e (fresh i n owners) = absurd (omega arith)
  alloc_box-IsSound s g live t value s' b e (running locked r) =
      let (s1, b1, e1, got, kept) = alloc_box-Ready laws t value r in
      let p : ◌≡◌ {A = AHeap c × Option (HeapBox ℕ)} (s1, b1) (s', b) = done-inj (sym e1 ∙ e) in
      Allocated-IsSound (box_free_box t) s s' g live b locked
        (subst (λ x. Allocated laws (box_free_box t) s live x.0 x.1) p got)

  alloc_box_array-IsSound :
      (s : AHeap c) (g : ℕ) (live : Owners) (t : Layout) (value n : ℕ) (s' : AHeap c)
      (a : Option (HeapArray ℕ))
      → alloc_box_array t value n s ≡ done (s', a)
      → IsSound laws (world s (suc g) live)
      → IsSound laws
          (world s' (suc g) (elim a [ none ↦ live | some x ↦ gain (array_free_box t x) live ]))
  alloc_box_array-IsSound s g live t value n s' a e (fresh i m owners) = absurd (omega arith)
  alloc_box_array-IsSound s g live t value n s' a e (running locked r) =
      let (s1, a1, e1, got, kept) = alloc_box_array-Ready laws t value n r in
      let p : ◌≡◌ {A = AHeap c × Option (HeapArray ℕ)} (s1, a1) (s', a) = done-inj (sym e1 ∙ e) in
      Allocated-IsSound (array_free_box t) s s' g live a locked
        (subst (λ x. Allocated laws (array_free_box t) s live x.0 x.1) p got)

  box_drop-IsSound :
      (s : AHeap c) (g : ℕ) (live : Owners) (b : FreeBox) (s' : AHeap c)
      → box_drop b s ≡ done s'
      → IsSound laws (world s g (gain b live))
      → IsSound laws (world s' g live)
  box_drop-IsSound s g live b s' e (fresh i n owners) =
      absurd (ground (arith, owners b, same_refl b))
  box_drop-IsSound s g live b s' e (running (inl (idle, n)) r) =
      let (s1, e1, same, r1) = box_drop-free laws b r idle in
      subst (λ x. IsSound laws (world x g live)) (done-inj (sym e1 ∙ e))
        (running (inl (same, n)) r1)
  box_drop-IsSound s g live b s' e (running (inr (busy, n)) r) =
      elim (box_drop-busy laws b r (λ idle. omega arith)) [
        | inl (full, panics) ↦ absurd (panic≢done (sym panics ∙ e))
        | inr (s1, e1, same, r1) ↦
            subst (λ x. IsSound laws (world x g live)) (done-inj (sym e1 ∙ e))
              (running (inr (same ∙ busy, n)) r1)
      ]

  Step-IsSound : {w w' : World c} → Step w w' → IsSound laws w → IsSound laws w'
  Step-IsSound (inits s g live addr) sound = init-IsSound s g live addr sound
  Step-IsSound (locks s g live s' e) sound = try_lock-IsSound s g live s' e sound
  Step-IsSound (unlocks s g live) sound = unlock-IsSound s g live sound
  Step-IsSound (boxes s g live t value s' b e) sound =
      alloc_box-IsSound s g live t value s' (some b) e sound
  Step-IsSound (arrays s g live t value n s' a e) sound =
      alloc_box_array-IsSound s g live t value n s' (some a) e sound
  Step-IsSound (box_fails s g live t value s' e) sound =
      alloc_box-IsSound s g live t value s' none e sound
  Step-IsSound (array_fails s g live t value n s' e) sound =
      alloc_box_array-IsSound s g live t value n s' none e sound
  Step-IsSound (drops s g live b s' e) sound = box_drop-IsSound s g live b s' e sound

  -- In every state that the kernel's code can reach the lock is taken exactly while there is a guard,
  -- there is one guard at most, and every block is allocated exactly as often as it has an owner or a
  -- pending release: no block is given back twice, lost, or given back at another layout.
  pub Reach-IsSound : {w : World c} → Reach w → IsSound laws w
  Reach-IsSound start = fresh refl refl (λ b. refl)
  Reach-IsSound (next reach step) = Step-IsSound step (Reach-IsSound reach)

  -- Once initialised, an owner's drop panics only where the lock is taken and 128 releases are
  -- pending, and otherwise returns: it never touches storage that is not initialised.
  pub box_drop-outcome :
      (s : AHeap c) (g : ℕ) (live : Owners) (b : FreeBox)
      → Reach (world s g (gain b live))
      → ((s.state ≡ busy_locked)
          × (q : c.Queue) × (s.queue ≡ some q)
          × (length (laws.contents q) ≡ free_q_len)
          × (box_drop b s ≡ panic))
        ⊎ ((s' : AHeap c) × (box_drop b s ≡ done s') × (s'.state ≡ s.state))
  box_drop-outcome s g live b reach = outcome (Reach-IsSound reach)
    where
      outcome :
          IsSound laws (world s g (gain b live))
          → ((s.state ≡ busy_locked)
              × (q : c.Queue) × (s.queue ≡ some q)
              × (length (laws.contents q) ≡ free_q_len)
              × (box_drop b s ≡ panic))
            ⊎ ((s' : AHeap c) × (box_drop b s ≡ done s') × (s'.state ≡ s.state))
      outcome (fresh i n owners) = absurd (ground (arith, owners b, same_refl b))
      outcome (running (inl (idle, n)) r) =
          let (s1, e1, same, r1) = box_drop-free laws b r idle in inr (s1, e1, same ∙ sym idle)
      outcome (running (inr (busy, n)) r) = elim (box_drop-busy laws b r (λ idle. omega arith)) [
        | inl (full, panics) ↦ inl (busy, r.queue, r.has_queue, full, panics)
        | inr (s1, e1, same, r1) ↦ inr (s1, e1, same)
      ]
