-- ===== src/UsbSerial/External.antt =====
-- The crates that firmware/kernel/src/drivers/usb_serial.rs uses and the repository does not hold:
-- `bbqueue`, whose producer and consumer are the two ends of one queue of bytes here, and `heapless`,
-- for the map from ports to queues of received arrays; with what their documentation promises.
use pellegrino.Base.{
  ℕ, suc, ◌≤◌, ◌<◌, ◌≡◌, ◌≢◌, List, [], ◌∷◌, ◌++◌, Option, none, some, Bool, length, take, drop,
  ◌+◌, ◌==◌, if◌then◌else◌, is_some, total,
}

-- What `grant_max_remaining` returns: a slice to write to, `InsufficientSize`, or another error.
pub data Grant : Type 0 where
  granted : List ℕ → Grant
  insufficient_size : Grant
  grant_error : Grant

-- `commit` is given the slice as it was written, and the number of bytes used.
pub record BbQueue : Type 1 where
  pub Queue : Type 0
  pub grant_max_remaining : Queue → ℕ → Grant
  pub commit : Queue → List ℕ → ℕ → Queue
  pub read : Queue → Option (List ℕ)
  pub release : Queue → ℕ → Queue

pub record BbQueueLaws (b : BbQueue) : Type 0 where
  -- the bytes committed and not yet released
  pub contents : b.Queue → List ℕ
  pub length-granted :
      (q : b.Queue) (n : ℕ) (w : List ℕ) → b.grant_max_remaining q n ≡ granted w → length w ≤ n
  -- with no other grant held, a grant fails for lack of room alone
  pub grants : (q : b.Queue) (n : ℕ) → b.grant_max_remaining q n ≢ grant_error
  pub contents-commit :
      (q : b.Queue) (n used : ℕ) (w w' : List ℕ)
      → b.grant_max_remaining q n ≡ granted w
      → length w' ≡ length w
      → used ≤ length w
      → contents (b.commit q w' used) ≡ contents q ++ take used w'
  pub reads :
      (q : b.Queue) (bs : List ℕ)
      → b.read q ≡ some bs
      → (rest : List ℕ) × (contents q ≡ bs ++ rest) × (0 < length bs)
  pub reads_none : (q : b.Queue) → b.read q ≡ none → contents q ≡ []
  pub contents-release :
      (q : b.Queue) (bs rest : List ℕ) (n : ℕ)
      → b.read q ≡ some bs
      → contents q ≡ bs ++ rest
      → n ≤ length bs
      → contents (b.release q n) ≡ drop n bs ++ rest

-- `Deque<A, 16>` and `LinearMap<u16, Deque<A, 16>, 8>`. `put` is a write through what `get_mut` gives;
-- `remove` gives what it took out and the map left; `dropped` is what the drop of a queue drops.
pub record Tables (A : Type 0) : Type 1 where
  pub Deque : Type 0
  pub new_deque : Deque
  pub push_back : Deque → A → Option Deque
  pub push_front : Deque → A → Option Deque
  pub pop_front : Deque → Option (A × Deque)
  pub dropped : Deque → List A
  pub Map : Type 0
  pub new_map : Map
  pub contains_key : Map → ℕ → Bool
  pub get : Map → ℕ → Option Deque
  pub put : Map → ℕ → Deque → Map
  pub insert : Map → ℕ → Deque → Option Map
  pub remove : Map → ℕ → Option (Deque × Map)

abbrev pub deque_len : ℕ
deque_len = 16

abbrev pub map_len : ℕ
map_len = 8

pub record TablesLaws {A : Type 0} (t : Tables A) : Type 0 where
  pub items : t.Deque → List A
  pub length-items : (d : t.Deque) → length (items d) ≤ deque_len
  pub dropped-items : (d : t.Deque) → t.dropped d ≡ items d
  pub items-new : items t.new_deque ≡ []
  pub pushes_back :
      (d : t.Deque) (a : A)
      → length (items d) < deque_len
      → (d' : t.Deque) × (t.push_back d a ≡ some d') × (items d' ≡ items d ++ a ∷ [])
  pub push_back_full : (d : t.Deque) (a : A) → deque_len ≤ length (items d) → t.push_back d a ≡ none
  pub pushes_front :
      (d : t.Deque) (a : A)
      → length (items d) < deque_len
      → (d' : t.Deque) × (t.push_front d a ≡ some d') × (items d' ≡ a ∷ items d)
  pub push_front_full :
      (d : t.Deque) (a : A) → deque_len ≤ length (items d) → t.push_front d a ≡ none
  pub pops_none : (d : t.Deque) → items d ≡ [] → t.pop_front d ≡ none
  pub pops :
      (d : t.Deque) (a : A) (as' : List A)
      → items d ≡ a ∷ as'
      → (d' : t.Deque) × (t.pop_front d ≡ some (a, d')) × (items d' ≡ as')
  -- the number of keys, and the queue of each
  pub size : t.Map → ℕ
  pub size_le : (m : t.Map) → size m ≤ map_len
  pub size-new : size t.new_map ≡ 0
  pub get-new : (p : ℕ) → t.get t.new_map p ≡ none
  pub contains_key-get : (m : t.Map) (p : ℕ) → t.contains_key m p ≡ is_some (t.get m p)
  pub get-put :
      (m : t.Map) (p j : ℕ) (d d' : t.Deque)
      → t.get m p ≡ some d
      → t.get (t.put m p d') j ≡ (if p == j then some d' else t.get m j)
  pub inserts :
      (m : t.Map) (p : ℕ) (d : t.Deque)
      → t.get m p ≡ none
      → size m < map_len
      → (m' : t.Map) × (t.insert m p d ≡ some m')
        × (size m' ≡ suc (size m))
        × ((j : ℕ) → t.get m' j ≡ (if p == j then some d else t.get m j))
  pub insert_full :
      (m : t.Map) (p : ℕ) (d : t.Deque)
      → t.get m p ≡ none
      → map_len ≤ size m
      → t.insert m p d ≡ none
  pub removes :
      (m : t.Map) (p : ℕ) (d : t.Deque)
      → t.get m p ≡ some d
      → (m' : t.Map) × (t.remove m p ≡ some (d, m'))
        × (suc (size m') ≡ size m)
        × ((j : ℕ) → t.get m' j ≡ (if p == j then none else t.get m j))
  pub removes_none : (m : t.Map) (p : ℕ) → t.get m p ≡ none → t.remove m p ≡ none
  -- a weight of the items, added up over all queues
  pub weigh : (A → ℕ) → t.Map → ℕ
  pub weigh-new : (w : A → ℕ) → weigh w t.new_map ≡ 0
  pub weigh-put :
      (w : A → ℕ) (m : t.Map) (p : ℕ) (d d' : t.Deque)
      → t.get m p ≡ some d
      → weigh w (t.put m p d') + total w (items d) ≡ weigh w m + total w (items d')
  pub weigh-insert :
      (w : A → ℕ) (m m' : t.Map) (p : ℕ) (d : t.Deque)
      → t.get m p ≡ none
      → t.insert m p d ≡ some m'
      → weigh w m' ≡ weigh w m + total w (items d)
  pub weigh-remove :
      (w : A → ℕ) (m m' : t.Map) (p : ℕ) (d : t.Deque)
      → t.get m p ≡ some d
      → t.remove m p ≡ some (d, m')
      → weigh w m' + total w (items d) ≡ weigh w m
