-- ===== src/Syscall/Handling.antt =====
-- What the handler answers, and how long it waits.
use pellegrino.Base.{ℕ, zero, suc, ◌-◌, ◌<◌, ◌^◌, ◌≡◌, refl, le→leb, out_of_fuel, arith}
use pellegrino.Syscall.Handler.{wait}

-- The timer's 32 bits never go beyond the longest wait: it does not end, however often it polls.
pub wait-never_ends :
    (micros_since : ℕ → ℕ) (polls i : ℕ)
    → ((j : ℕ) → micros_since j < 2 ^ 32)
    → wait micros_since polls i (2 ^ 32 - 1) ≡ out_of_fuel
unfolding wait
wait-never_ends micros_since zero i bound = refl
wait-never_ends micros_since (suc polls) i bound =
    rw (le→leb (micros_since i) (2 ^ 32 - 1) (omega (arith, bound i)))
      (wait-never_ends micros_since polls (suc i) bound)
