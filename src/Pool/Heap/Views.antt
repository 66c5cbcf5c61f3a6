-- ===== src/Pool/Heap/Views.antt =====
-- IndexedHeap: a heap as a map from the tasks that wait to their keys.
use pyservicelib.Base.{
  ℕ, zero, suc, ◌-◌, ◌<◌, ◌≡◌, inl, inr, refl, Bool, true, ◌==◌, if◌then◌else◌, Option, none, some,
  length, get_elem?, arith, Option-cases,
}
use pyservicelib.Base.Dicts.{is_some}
use pyservicelib.Pool.Heap.Order.{KeyOrder, le_of, le_of_total, le_of_trans}
use pyservicelib.Pool.Heap.{Entry, IndexedHeap, empty, parent}
use pyservicelib.Pool.Heap.Swaps.{IsIndexed, key_at, lookup, get_elem?_inside, get_elem?_outside}
use pyservicelib.Pool.Heap.Up.{Risen}
use pyservicelib.Pool.Heap.Down.{IsHeap}

abbrev pub map_option : {A B : Type 0} → (A → B) → Option A → Option B
map_option f none = none
map_option f (some a) = some (f a)

-- What the operations should do to the keys of the tasks that wait.
module _ {K : Type 0} where
  abbrev pub with_task : (ℕ → Option K) → (task : ℕ) → K → ℕ → Option K
  with_task view task key t = if task == t then some key else view t

  abbrev pub without_task : (ℕ → Option K) → (task : ℕ) → ℕ → Option K
  without_task view task t = if task == t then none else view t

  abbrev pub with_key : (K → K) → (ℕ → Option K) → (task : ℕ) → ℕ → Option K
  with_key f view task t = if task == t then map_option f (view t) else view t

pub record IsValid {K : Type 0} (order : KeyOrder K) (h : IndexedHeap K) : Type 0 where
  pub heap : IsHeap order h
  pub indexed : IsIndexed h

-- A valid heap of `size` tasks whose keys are those of `view`.
pub record Holds {K : Type 0} (order : KeyOrder K) (size : ℕ) (view : ℕ → Option K)
    (h : IndexedHeap K) : Type 0 where
  pub valid : IsValid order h
  pub sized : length h.items ≡ size
  pub shown : (task : ℕ) → lookup h task ≡ view task

-- How `remove` and `promote` end: what they leave, and whether the task was there.
pub record Answers {K : Type 0} (order : KeyOrder K) (present : Bool) (size : ℕ)
    (view : ℕ → Option K) (r : IndexedHeap K × Bool) : Type 0 where
  pub held : Holds order size view (r.0)
  pub answer : r.1 ≡ present

-- How `pop` ends: the entry that it returns stood in the heap, no key was less, and it is gone.
pub record Popped {K : Type 0} (order : KeyOrder K) (h : IndexedHeap K)
    (r : IndexedHeap K × Entry K) : Type 0 where
  pub held : Holds order (length h.items - 1) (without_task (lookup h) ((r.1).task)) (r.0)
  pub found : lookup h ((r.1).task) ≡ some ((r.1).key)
  pub least : (task : ℕ) (key : K) → lookup h task ≡ some key → order.le ((r.1).key) key ≡ true

module _ {K : Type 0} where
  pub absent_position :
      (h : IndexedHeap K) (t : ℕ) → IsIndexed h → lookup h t ≡ none → h.positions t ≡ none
  absent_position h t v absent = elim (Option-cases (h.positions t)) [
    | inl e ↦ e
    | inr (i, e) ↦ ground (arith, v t i)
  ]

  pub lookup_inside :
      (h : IndexedHeap K) (t : ℕ) → IsIndexed h → is_some (lookup h t) ≡ true → 0 < length h.items
  lookup_inside h t v there = elim (Option-cases (h.positions t)) [
    | inl e ↦ absurd (ground arith)
    | inr (i, e) ↦ ground (arith, v t i, get_elem?_outside h.items i)
  ]

  pub found_there :
      (h : IndexedHeap K) (task index : ℕ)
      → IsIndexed h
      → h.positions task ≡ some index
      → (x : Entry K) × (get_elem? h.items index ≡ some x)
        × (x.task ≡ task)
        × (lookup h task ≡ some (x.key))
  found_there h task index v e =
      let inside : index < length h.items =
        ground (arith, v task index, get_elem?_outside h.items index) in
      let (x, ex) = get_elem?_inside h.items index inside in
      (x, ex, ground (arith, v task index), ground arith)

module _ {K : Type 0} (order : KeyOrder K) where
  -- After `_up` in a heap that has only one entry too low.
  pub raised-Holds :
      (h : IndexedHeap K) (i : ℕ) (r : IndexedHeap K × ℕ)
      → Risen order true h i r
      → Holds order (length h.items) (lookup h) (r.0)
  raised-Holds h i r t = record {
    valid = record { heap = λ c p. t.placed.edges c p (inl refl); indexed = t.sifted.indexed };
    sized = t.sifted.size;
    shown = t.sifted.same;
  }

  pub empty-IsValid : IsValid order empty
  empty-IsValid = record { heap = λ c p. refl; indexed = λ t i. ground arith }

  pub root_least :
      (fuel : ℕ) (h : IndexedHeap K) (c : ℕ)
      → IsHeap order h
      → c < fuel
      → le_of order (key_at h 0) (key_at h c) ≡ true
  root_least zero h c v p = absurd (omega arith)
  root_least (suc fuel) h zero v p = ground (arith, le_of_total order (key_at h 0) (key_at h 0))
  root_least (suc fuel) h (suc c) v p = ground (
    arith,
    v (suc c),
    root_least fuel h (parent (suc c)) v,
    le_of_trans order (key_at h 0) (key_at h (parent (suc c))) (key_at h (suc c)),
  )

  -- No task has a key less than the first one's.
  pub root_le :
      (h : IndexedHeap K) (t : ℕ) → IsValid order h → le_of order (key_at h 0) (lookup h t) ≡ true
  root_le h t v = elim (Option-cases (h.positions t)) [
    | inl f ↦ ground arith
    | inr (n, f) ↦ ground (arith, root_least (suc n) h n v.heap)
  ]
