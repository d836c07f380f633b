-- ===== src/Startup/Launch.antt =====
-- What the task `idle` starts.
use pellegrino.Base.{
  ℕ, ◌*◌, ◌≤◌, ◌≡◌, ◌⊎◌, inl, inr, refl, List, Option-cases, none, some, true, length, panic,
  Returns,
}
use pellegrino.Loader.{RawHeader, Memory, start_addr, end_addr, validate_header}
use pellegrino.Loader.Validate.{IsLoadable, validate_header_iff}
use pellegrino.Loader.Setup.{Out, setup-confined}
use pellegrino.Startup.{Cpu, idle, letsago}

-- An image of at most 128 KiB: `idle` panics where the image has no valid header. Otherwise there is a
-- loadable header, and it branches to its entry point without privilege, on a stack of its own that
-- starts where the header says; no byte outside the application's memory has changed.
pub idle-starts :
    (image : List ℕ) (app_ptr : ℕ) (m : Memory) (cpu : Cpu)
    → length image ≤ 128 * 1024
    → ((validate_header image ≡ none) × (idle image app_ptr m cpu ≡ panic))
      ⊎ ((hdr : RawHeader) × (validate_header image ≡ some hdr)
          × IsLoadable hdr
          × Returns
              (λ (r : Memory × Cpu).
                (r.1 ≡ record {
                  unprivileged = true;
                  uses_psp = true;
                  psp = hdr.stack_start;
                  branch = hdr.entry_point;
                })
                × ((a : ℕ) → Out a start_addr end_addr → r.0 a ≡ m a))
              (idle image app_ptr m cpu))
unfolding idle letsago
idle-starts image app_ptr m cpu small = elim (Option-cases (validate_header image)) [
  | inl refused ↦ inl (refused, rw (idle, refused))
  | inr (hdr, e) ↦
      let (long, words, v) = (validate_header_iff image hdr).0 e in
      let kept = λ (a : ℕ). setup-confined v app_ptr (length image) m a small in
      inr (hdr, e, v, rw (idle, e) (refl, λ a out. (kept a out).0))
]
