-- ===== src/UsbSerial/Ports.antt =====
-- `register_port` and `release_port` of the driver, and what they do to the table of ports.
use mathlib.Core.Option
use pellegrino.Base.{
  ℕ, ◌<◌, ◌≤◌, ◌≡◌, ◌≢◌, true, false, Option, none, some, ◌==◌, if◌then◌else◌, arith, refl, Outcome,
  done, and_then,
}
use pellegrino.Alloc.{init_idle}
use pellegrino.Alloc.Cleaning.{Owners, Ready}
use pellegrino.UsbSerial.Arrays.{owning, drop_arrays, drop_arrays-idle}
use pellegrino.UsbSerial.State.{Platform, PlatformLaws, UsbUartSys}
use pellegrino.UsbSerial.External.{map_len}

-- `none` is `Err(())`, after which the driver is as it was.
unfoldable pub register_port : {p : Platform} → ℕ → UsbUartSys p → Option (UsbUartSys p)
register_port {p} port s =
    if p.tables.contains_key s.ports port
    then none
    else Option.map (λ m. record s { ports = m }) (p.tables.insert s.ports port p.tables.new_deque)

-- `none` is `Err(())` again. The queue that is taken out of the table is dropped, with its arrays.
unfoldable pub release_port : {p : Platform} → ℕ → UsbUartSys p → Outcome (Option (UsbUartSys p))
unfolding drop_arrays
release_port {p} port s = if port == 0 then done none else elim (p.tables.remove s.ports port) [
  | none ↦ done none
  | some (d, m) ↦
      and_then (drop_arrays (p.tables.dropped d) s.heap)
        (λ h. done (some (record s { ports = m; heap = h })))
]

module _ {p : Platform} (laws : PlatformLaws p) (port : ℕ) (s : UsbUartSys p) where
  open laws use {tables, crates}

  contains_key-true :
      {d : p.tables.Deque}
      → p.tables.get s.ports port ≡ some d
      → p.tables.contains_key s.ports port ≡ true
  contains_key-true e = rw (tables.contains_key-get s.ports port, e)

  contains_key-false : p.tables.get s.ports port ≡ none → p.tables.contains_key s.ports port ≡ false
  contains_key-false e = rw (tables.contains_key-get s.ports port, e)

  -- A port that is not registered, in a table with room, is registered with no messages; all other
  -- ports keep theirs.
  pub register_port-new :
      p.tables.get s.ports port ≡ none
      → tables.size s.ports < map_len
      → (s' : UsbUartSys p) × (register_port port s ≡ some s')
        × ((j : ℕ)
            → p.tables.get s'.ports j
              ≡ (if port == j then some p.tables.new_deque else p.tables.get s.ports j))
  unfolding register_port
  register_port-new e room =
      let (m, i, more, gets) = tables.inserts s.ports port p.tables.new_deque e room in
      (record s { ports = m }, rw (contains_key-false e, i), gets)

  -- A port that is registered, or a full table, is an error.
  pub register_port-err :
      (d : p.tables.Deque) → p.tables.get s.ports port ≡ some d → register_port port s ≡ none
  unfolding register_port
  register_port-err d e = rw (contains_key-true e)

  pub register_port-full :
      p.tables.get s.ports port ≡ none → map_len ≤ tables.size s.ports → register_port port s ≡ none
  unfolding register_port
  register_port-full e full =
      rw (contains_key-false e, tables.insert_full s.ports port p.tables.new_deque e full)

  -- With the lock free and the arrays of its queue owned by it, a registered port other than zero is
  -- released, which gives back the arrays, and it can be registered anew: it has no messages then, and
  -- all other ports keep theirs.
  pub register_port-release_port :
      (d : p.tables.Deque) (live : Owners)
      → port ≢ 0
      → p.tables.get s.ports port ≡ some d
      → Ready crates s.heap (owning (tables.items d) live)
      → s.heap.state ≡ init_idle
      → (s' : UsbUartSys p) × (s'' : UsbUartSys p) × (release_port port s ≡ done (some s'))
        × (p.tables.get s'.ports port ≡ none)
        × (s'.heap.state ≡ init_idle)
        × Ready crates s'.heap live
        × (register_port port s' ≡ some s'')
        × ((j : ℕ)
            → p.tables.get s''.ports j
              ≡ (if port == j then some p.tables.new_deque else p.tables.get s.ports j))
  unfolding release_port
  register_port-release_port d live ne e r idle =
      let (m, gone, less, gets) = tables.removes s.ports port d e in
      let free : p.tables.get m port ≡ none = ground (arith, gets port) in
      let (m', i, more, gets') =
        tables.inserts m port p.tables.new_deque free (omega (arith, tables.size_le s.ports)) in
      let other : (port == 0) ≡ false = ground arith in
      let (h, run, idle', r') = drop_arrays-idle crates (tables.items d) r idle in
      (
        record s { ports = m; heap = h },
        record s { ports = m'; heap = h },
        rw (other, gone, tables.dropped-items d, run),
        free,
        idle',
        r',
        unfold register_port in rw (tables.contains_key-get m port, free, i),
        λ j. ground (arith, gets j, gets' j),
      )

-- Port zero is never released.
pub release_port-zero : {p : Platform} (s : UsbUartSys p) → release_port 0 s ≡ done none
unfolding release_port
release_port-zero s = refl
