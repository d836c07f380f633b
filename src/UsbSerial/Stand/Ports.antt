-- ===== src/UsbSerial/Stand/Ports.antt =====
-- Stand-ins for `heapless`: a list of up to 16 arrays, and a table of up to 8 such lists, at the index
-- of their port.
pub mod Laws
use native.Mathlib.Decide.{dec_le}
use pellegrino.Base.{
  ℕ, zero, suc, ◌+◌, ◌≤◌, ◌<◌, ◌≡◌, refl, sym, ◌∙◌, ap, arith, List, [], ◌∷◌, ◌++◌, Option, none,
  some, length, length-append, total, ◌==◌, if◌then◌else◌, is_some, none≢some, some-inj,
}
use pellegrino.Alloc.{HeapArray}
use pellegrino.UsbSerial.External.{Tables, TablesLaws, deque_len, map_len}

pub record ArrayQueue : Type 0 where
  pub arrays : List (HeapArray ℕ)
  pub few : length arrays ≤ deque_len

unfoldable pub queue_of : List (HeapArray ℕ) → Option ArrayQueue
unfolding dec_le
queue_of l = elim (dec_le (length l) deque_len) [
  | yes few ↦ some (record { arrays = l; few = few })
  | no many ↦ none
]

unfoldable pub pop :
    (l : List (HeapArray ℕ)) → length l ≤ deque_len → Option (HeapArray ℕ × ArrayQueue)
pop [] few = none
pop (a ∷ l) few = some (a, record { arrays = l; few = omega arith })

-- A table of slots, and the slot of a port.
abbrev pub Slots : Type 0
Slots = List (Option ArrayQueue)

unfoldable pub slot : ℕ → Slots → Option ArrayQueue
slot p [] = none
slot zero (x ∷ l) = x
slot (suc p) (x ∷ l) = slot p l

unfoldable pub set_slot : ℕ → Option ArrayQueue → Slots → Slots
set_slot zero v [] = v ∷ []
set_slot zero v (x ∷ l) = v ∷ l
set_slot (suc p) v [] = none ∷ set_slot p v []
set_slot (suc p) v (x ∷ l) = x ∷ set_slot p v l

abbrev pub one_if_some : Option ArrayQueue → ℕ
one_if_some none = 0
one_if_some (some d) = 1

pub record PortMap : Type 0 where
  pub slots : Slots
  pub few : total one_if_some slots ≤ map_len

unfoldable pub map_of : Slots → Option PortMap
unfolding dec_le
map_of l = elim (dec_le (total one_if_some l) map_len) [
  | yes few ↦ some (record { slots = l; few = few })
  | no many ↦ none
]

unfoldable pub put_port : PortMap → ℕ → ArrayQueue → PortMap
unfolding map_of
put_port m p d = elim (map_of (set_slot p (some d) m.slots)) [ none ↦ m | some m' ↦ m' ]

unfoldable pub remove_port : PortMap → ℕ → Option (ArrayQueue × PortMap)
unfolding map_of
remove_port m p = elim (slot p m.slots) [
  | none ↦ none
  | some d ↦ elim (map_of (set_slot p none m.slots)) [ none ↦ none | some m' ↦ some (d, m') ]
]

abbrev pub port_tables : Tables (HeapArray ℕ)
port_tables = record {
  Deque = ArrayQueue;
  new_deque = record { arrays = []; few = omega arith };
  push_back = λ d a. queue_of (d.arrays ++ a ∷ []);
  push_front = λ d a. queue_of (a ∷ d.arrays);
  pop_front = λ d. pop d.arrays d.few;
  dropped = λ d. d.arrays;
  Map = PortMap;
  new_map = record { slots = []; few = omega arith };
  contains_key = λ m p. is_some (slot p m.slots);
  get = λ m p. slot p m.slots;
  put = put_port;
  insert = λ m p d. map_of (set_slot p (some d) m.slots);
  remove = remove_port;
}

-- A weight of the arrays of a slot.
abbrev pub weight_of : (HeapArray ℕ → ℕ) → Option ArrayQueue → ℕ
weight_of w none = 0
weight_of w (some d) = total w d.arrays

abbrev pub weigh_ports : (HeapArray ℕ → ℕ) → PortMap → ℕ
weigh_ports w m = total (weight_of w) m.slots
