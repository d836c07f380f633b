-- ===== src/UsbSerial/Stand/Ports/Laws.antt =====
-- The stand-ins of `Ports` keep what is promised of `heapless`.
use native.Mathlib.Decide.{dec_le}
use pellegrino.Base.{
  ℕ, zero, suc, ◌+◌, ◌≤◌, ◌<◌, ◌≡◌, refl, sym, ◌∙◌, ap, arith, List, [], ◌∷◌, ◌++◌, Option, none,
  some, length, length-append, total, ◌==◌, if◌then◌else◌, none≢some, some-inj,
}
use pellegrino.Alloc.{HeapArray}
use pellegrino.UsbSerial.External.{TablesLaws, deque_len, map_len}
use pellegrino.UsbSerial.Stand.Ports.{
  ArrayQueue, queue_of, pop, Slots, slot, set_slot, one_if_some, PortMap, map_of, put_port,
  remove_port, weight_of, weigh_ports, port_tables,
}

queue_of-some :
    (l : List (HeapArray ℕ))
    → length l ≤ deque_len
    → (d : ArrayQueue) × (queue_of l ≡ some d) × (d.arrays ≡ l)
unfolding queue_of
queue_of-some l h =
    elim (dec_le (length l) deque_len)
      as (λ t.
        (d : ArrayQueue) × (elim t as (λ _. Option ArrayQueue) [
          | yes few ↦ some (record { arrays = l; few = few })
          | no many ↦ none
        ]
          ≡ some d)
        × (d.arrays ≡ l)) [
          | yes few ↦ (record { arrays = l; few = few }, refl, refl)
          | no many ↦ absurd (many h)
        ]

queue_of-none : (l : List (HeapArray ℕ)) → deque_len < length l → queue_of l ≡ none
unfolding queue_of
queue_of-none l h =
    elim (dec_le (length l) deque_len)
      as (λ t.
        elim t as (λ _. Option ArrayQueue) [
          | yes few ↦ some (record { arrays = l; few = few })
          | no many ↦ none
        ]
        ≡ none) [ yes few ↦ absurd (omega arith) | no many ↦ refl ]

map_of-some :
    (l : Slots)
    → total one_if_some l ≤ map_len
    → (m : PortMap) × (map_of l ≡ some m) × (m.slots ≡ l)
unfolding map_of
map_of-some l h =
    elim (dec_le (total one_if_some l) map_len)
      as (λ t.
        (m : PortMap) × (elim t as (λ _. Option PortMap) [
          | yes few ↦ some (record { slots = l; few = few })
          | no many ↦ none
        ]
          ≡ some m)
        × (m.slots ≡ l)) [
          | yes few ↦ (record { slots = l; few = few }, refl, refl)
          | no many ↦ absurd (many h)
        ]

map_of-none : (l : Slots) → map_len < total one_if_some l → map_of l ≡ none
unfolding map_of
map_of-none l h =
    elim (dec_le (total one_if_some l) map_len)
      as (λ t.
        elim t as (λ _. Option PortMap) [
          | yes few ↦ some (record { slots = l; few = few })
          | no many ↦ none
        ]
        ≡ none) [ yes few ↦ absurd (omega arith) | no many ↦ refl ]

map_of-slots : (l : Slots) (m : PortMap) → map_of l ≡ some m → m.slots ≡ l
map_of-slots l m e = elim (dec_le (total one_if_some l) map_len) [
  | yes few ↦
      let (m', got, same) = map_of-some l few in
      let eq : m ≡ m' = some-inj (sym e ∙ got) in ap (λ x. x.slots) eq ∙ same
  | no many ↦ absurd (none≢some (sym (map_of-none l (omega arith)) ∙ e))
]

slot-set_slot :
    (p j : ℕ) (v : Option ArrayQueue) (l : Slots)
    → slot j (set_slot p v l) ≡ (if p == j then v else slot j l)
unfolding slot set_slot
slot-set_slot zero zero v [] = refl
slot-set_slot zero (suc j) v [] = ground arith
slot-set_slot zero zero v (x ∷ l) = refl
slot-set_slot zero (suc j) v (x ∷ l) = ground arith
slot-set_slot (suc p) zero v [] = ground arith
slot-set_slot (suc p) (suc j) v [] = ground (arith, slot-set_slot p j v [])
slot-set_slot (suc p) zero v (x ∷ l) = ground arith
slot-set_slot (suc p) (suc j) v (x ∷ l) = ground (arith, slot-set_slot p j v l)

total-set_slot :
    (w : Option ArrayQueue → ℕ)
    → w none ≡ 0
    → (p : ℕ) (v : Option ArrayQueue) (l : Slots)
    → total w (set_slot p v l) + w (slot p l) ≡ total w l + w v
unfolding slot set_slot
total-set_slot w z zero v [] = omega arith
total-set_slot w z zero v (x ∷ l) = omega arith
total-set_slot w z (suc p) v [] = omega (arith, total-set_slot w z p v [])
total-set_slot w z (suc p) v (x ∷ l) = omega (arith, total-set_slot w z p v l)

pub push_back-some :
    (d : ArrayQueue) (a : HeapArray ℕ)
    → length d.arrays < deque_len
    → (d' : ArrayQueue) × (queue_of (d.arrays ++ a ∷ []) ≡ some d')
      × (d'.arrays ≡ d.arrays ++ a ∷ [])
push_back-some d a h =
    queue_of-some (d.arrays ++ a ∷ []) (omega (arith, length-append d.arrays (a ∷ [])))

pub push_back-none :
    (d : ArrayQueue) (a : HeapArray ℕ)
    → deque_len ≤ length d.arrays
    → queue_of (d.arrays ++ a ∷ []) ≡ none
push_back-none d a h =
    queue_of-none (d.arrays ++ a ∷ []) (omega (arith, length-append d.arrays (a ∷ [])))

pub push_front-some :
    (d : ArrayQueue) (a : HeapArray ℕ)
    → length d.arrays < deque_len
    → (d' : ArrayQueue) × (queue_of (a ∷ d.arrays) ≡ some d') × (d'.arrays ≡ a ∷ d.arrays)
push_front-some d a h = queue_of-some (a ∷ d.arrays) (omega arith)

pub push_front-none :
    (d : ArrayQueue) (a : HeapArray ℕ)
    → deque_len ≤ length d.arrays
    → queue_of (a ∷ d.arrays) ≡ none
push_front-none d a h = queue_of-none (a ∷ d.arrays) (omega arith)

pub pop-none : (l : List (HeapArray ℕ)) (few : length l ≤ deque_len) → l ≡ [] → pop l few ≡ none
unfolding pop
pop-none [] few e = refl
pop-none (a ∷ l) few e = absurd cc

pub pop-some :
    (l : List (HeapArray ℕ)) (few : length l ≤ deque_len) (a : HeapArray ℕ)
    (as' : List (HeapArray ℕ))
    → l ≡ a ∷ as'
    → (d' : ArrayQueue) × (pop l few ≡ some (a, d')) × (d'.arrays ≡ as')
unfolding pop
pop-some [] few a as' e = absurd cc
pop-some (x ∷ l) few a as' e =
    let d' : ArrayQueue = record { arrays = l; few = omega arith } in
    let same : x ≡ a = cc in (d', ap (λ y. some (y, d')) same, cc)

pub put_port-slots :
    (m : PortMap) (p : ℕ) (d d' : ArrayQueue)
    → slot p m.slots ≡ some d
    → (put_port m p d').slots ≡ set_slot p (some d') m.slots
unfolding put_port
put_port-slots m p d d' e =
    let counted = total-set_slot one_if_some refl p (some d') m.slots in
    let one = ap one_if_some e in
    let (m', got, same) = map_of-some (set_slot p (some d') m.slots) (omega (arith, m.few)) in
    rw (put_port, got) same

pub get-put :
    (m : PortMap) (p j : ℕ) (d d' : ArrayQueue)
    → slot p m.slots ≡ some d
    → slot j (put_port m p d').slots ≡ (if p == j then some d' else slot j m.slots)
get-put m p j d d' e = rw (put_port-slots m p d d' e) (slot-set_slot p j (some d') m.slots)

pub insert-some :
    (m : PortMap) (p : ℕ) (d : ArrayQueue)
    → slot p m.slots ≡ none
    → total one_if_some m.slots < map_len
    → (m' : PortMap) × (map_of (set_slot p (some d) m.slots) ≡ some m')
      × (total one_if_some m'.slots ≡ suc (total one_if_some m.slots))
      × ((j : ℕ) → slot j m'.slots ≡ (if p == j then some d else slot j m.slots))
insert-some m p d e room =
    let counted = total-set_slot one_if_some refl p (some d) m.slots in
    let one = ap one_if_some e in
    let (m', got, same) = map_of-some (set_slot p (some d) m.slots) (omega arith) in
    (m', got, rw same (omega arith), λ j. rw same (slot-set_slot p j (some d) m.slots))

pub insert-none :
    (m : PortMap) (p : ℕ) (d : ArrayQueue)
    → slot p m.slots ≡ none
    → map_len ≤ total one_if_some m.slots
    → map_of (set_slot p (some d) m.slots) ≡ none
insert-none m p d e full =
    let counted = total-set_slot one_if_some refl p (some d) m.slots in
    let one = ap one_if_some e in map_of-none (set_slot p (some d) m.slots) (omega arith)

pub remove-some :
    (m : PortMap) (p : ℕ) (d : ArrayQueue)
    → slot p m.slots ≡ some d
    → (m' : PortMap) × (remove_port m p ≡ some (d, m'))
      × (suc (total one_if_some m'.slots) ≡ total one_if_some m.slots)
      × ((j : ℕ) → slot j m'.slots ≡ (if p == j then none else slot j m.slots))
unfolding remove_port
remove-some m p d e =
    let counted = total-set_slot one_if_some refl p none m.slots in
    let one = ap one_if_some e in
    let (m', got, same) = map_of-some (set_slot p none m.slots) (omega (arith, m.few)) in
    (
      m',
      rw (remove_port, e, got),
      rw same (omega arith),
      λ j. rw same (slot-set_slot p j none m.slots),
    )

remove-slots :
    (m m' : PortMap) (p : ℕ) (d : ArrayQueue)
    → slot p m.slots ≡ some d
    → remove_port m p ≡ some (d, m')
    → m'.slots ≡ set_slot p none m.slots
remove-slots m m' p d e got =
    let counted = total-set_slot one_if_some refl p none m.slots in
    let one = ap one_if_some e in
    let (m1, made, same) = map_of-some (set_slot p none m.slots) (omega (arith, m.few)) in
    let run : remove_port m p ≡ some (d, m1) =
      unfold remove_port in rw (remove_port, e, made) refl in
    let eq : m' ≡ m1 = ap (λ x. x.1) (some-inj (sym got ∙ run)) in ap (λ x. x.slots) eq ∙ same

pub remove-none : (m : PortMap) (p : ℕ) → slot p m.slots ≡ none → remove_port m p ≡ none
unfolding remove_port
remove-none m p e = rw (remove_port, e)

pub weigh-put :
    (w : HeapArray ℕ → ℕ) (m : PortMap) (p : ℕ) (d d' : ArrayQueue)
    → slot p m.slots ≡ some d
    → weigh_ports w (put_port m p d') + total w d.arrays ≡ weigh_ports w m + total w d'.arrays
weigh-put w m p d d' e =
    let counted = total-set_slot (weight_of w) refl p (some d') m.slots in
    let one = ap (weight_of w) e in rw (put_port-slots m p d d' e) (omega arith)

pub weigh-insert :
    (w : HeapArray ℕ → ℕ) (m m' : PortMap) (p : ℕ) (d : ArrayQueue)
    → slot p m.slots ≡ none
    → map_of (set_slot p (some d) m.slots) ≡ some m'
    → weigh_ports w m' ≡ weigh_ports w m + total w d.arrays
weigh-insert w m m' p d e got =
    let counted = total-set_slot (weight_of w) refl p (some d) m.slots in
    let nothing = ap (weight_of w) e in
    rw (map_of-slots (set_slot p (some d) m.slots) m' got) (omega arith)

pub weigh-remove :
    (w : HeapArray ℕ → ℕ) (m m' : PortMap) (p : ℕ) (d : ArrayQueue)
    → slot p m.slots ≡ some d
    → remove_port m p ≡ some (d, m')
    → weigh_ports w m' + total w d.arrays ≡ weigh_ports w m
weigh-remove w m m' p d e got =
    let counted = total-set_slot (weight_of w) refl p none m.slots in
    let one = ap (weight_of w) e in rw (remove-slots m m' p d e got) (omega arith)

pub slot-nil : (p : ℕ) → slot p [] ≡ none
unfolding slot
slot-nil p = refl

abbrev pub port_tables_laws : TablesLaws port_tables
port_tables_laws = record {
  items = λ d. d.arrays;
  length-items = λ d. d.few;
  dropped-items = λ d. refl;
  items-new = refl;
  pushes_back = push_back-some;
  push_back_full = push_back-none;
  pushes_front = push_front-some;
  push_front_full = push_front-none;
  pops_none = λ d e. pop-none d.arrays d.few e;
  pops = λ d a as' e. pop-some d.arrays d.few a as' e;
  size = λ m. total one_if_some m.slots;
  size_le = λ m. m.few;
  size-new = refl;
  get-new = slot-nil;
  contains_key-get = λ m p. refl;
  get-put = get-put;
  inserts = insert-some;
  insert_full = insert-none;
  removes = remove-some;
  removes_none = remove-none;
  weigh = weigh_ports;
  weigh-new = λ w. refl;
  weigh-put = weigh-put;
  weigh-insert = weigh-insert;
  weigh-remove = weigh-remove;
}
