-- ===== src/Pool/Heap/Dropping.antt =====
-- IndexedHeap.remove: the list once an entry has left it.
use pyservicelib.Base.{
  ℕ, suc, ◌-◌, ◌<◌, ◌≡◌, inl, inr, false, ltb, ◌==◌, if◌then◌else◌, none, some, length, get_elem?,
  arith, Option-cases,
}
use pyservicelib.Pool.Heap.Order.{KeyOrder, le_of_trans}
use pyservicelib.Pool.Heap.{Entry, IndexedHeap, parent, set, init, assign, erase}
use pyservicelib.Pool.Heap.Swaps.{
  IsIndexed, key_at, lookup, get_elem?_outside, get_elem?-set, get_elem?-init, length-init,
}
use pyservicelib.Pool.Heap.Up.{IsAlmostUp}
use pyservicelib.Pool.Heap.Views.{IsValid, Holds, without_task}

module _ {K : Type 0} (order : KeyOrder K) where
  -- What `remove_at` leaves where the task stands last: its entry is gone.
  abbrev pub dropped : IndexedHeap K → ℕ → IndexedHeap K
  dropped h task = record { items = init h.items; positions = erase h.positions task }

  pub dropped-Holds :
      (h : IndexedHeap K) (task : ℕ)
      → IsValid order h
      → h.positions task ≡ some (length h.items - 1)
      → Holds order (length h.items - 1) (without_task (lookup h) task) (dropped h task)
  dropped-Holds h task v e = record {
    valid = record {
      heap = λ c p.
          ground (arith, get_elem?-init h.items c, get_elem?-init h.items (parent c), v.heap c);
      indexed = λ t i. ground (
        arith,
        get_elem?-init h.items i,
        v.indexed t i,
        v.indexed task i,
        get_elem?_outside h.items i,
        v.indexed task (length h.items - 1),
      );
    };
    sized = length-init h.items;
    shown = λ t. elim (Option-cases (h.positions t)) [
      | inl f ↦ ground arith
      | inr (n, f) ↦ ground (
        arith,
        get_elem?-init h.items n,
        v.indexed t n,
        v.indexed task n,
        v.indexed task (length h.items - 1),
        get_elem?_outside h.items n,
      )
    ];
  }

  -- What it leaves elsewhere, before the last entry finds its place.
  abbrev pub replaced : IndexedHeap K → (task index : ℕ) → Entry K → IndexedHeap K
  replaced h task index last = record {
    items = set (init h.items) index last;
    positions = assign (erase h.positions task) last.task index;
  }

  entries-replaced :
      (h : IndexedHeap K) (task index : ℕ) (last : Entry K)
      → index < length h.items - 1
      → (c : ℕ)
      → get_elem? (replaced h task index last).items c ≡ (
          if index == c
          then some last
          else if ltb (suc c) (length h.items)
          then get_elem? h.items c
          else none)
  entries-replaced h task index last p c = ground (
    arith,
    get_elem?-set (init h.items) index last c,
    length-init h.items,
    get_elem?-init h.items c,
  )

  pub replaced-IsAlmostUp :
      (h : IndexedHeap K) (task index : ℕ) (last : Entry K)
      → IsValid order h
      → index < length h.items - 1
      → h.positions task ≡ some index
      → get_elem? h.items (length h.items - 1) ≡ some last
      → IsAlmostUp order false (replaced h task index last) index
  replaced-IsAlmostUp h task index last v p e el = record {
    edges = λ c q r s. ground (
      arith,
      entries-replaced h task index last p c,
      entries-replaced h task index last p (parent c),
      v.heap c,
    );
    bridged = λ c q r s. ground (
      arith,
      entries-replaced h task index last p c,
      entries-replaced h task index last p (parent index),
      v.heap c,
      v.heap index,
      le_of_trans order (key_at h (parent index)) (key_at h index) (key_at h c),
    );
  }

  pub replaced-IsIndexed :
      (h : IndexedHeap K) (task index : ℕ) (last : Entry K)
      → IsIndexed h
      → index < length h.items - 1
      → h.positions task ≡ some index
      → get_elem? h.items (length h.items - 1) ≡ some last
      → IsIndexed (replaced h task index last)
  replaced-IsIndexed h task index last v p e el t i = ground (
    arith,
    entries-replaced h task index last p i,
    v t i,
    v task index,
    v last.task (length h.items - 1),
    v t (length h.items - 1),
    v t index,
    v task i,
    v last.task i,
    get_elem?_outside h.items i,
  )

  pub replaced-lookup :
      (h : IndexedHeap K) (task index : ℕ) (last : Entry K)
      → IsIndexed h
      → index < length h.items - 1
      → h.positions task ≡ some index
      → get_elem? h.items (length h.items - 1) ≡ some last
      → (t : ℕ) → lookup (replaced h task index last) t ≡ (if task == t then none else lookup h t)
  replaced-lookup h task index last v p e el t = elim (Option-cases (h.positions t)) [
    | inl f ↦ ground (arith, v last.task (length h.items - 1))
    | inr (n, f) ↦ ground (
      arith,
      entries-replaced h task index last p n,
      entries-replaced h task index last p index,
      v t n,
      v task n,
      v task index,
      v last.task (length h.items - 1),
      get_elem?_outside h.items n,
    )
  ]
