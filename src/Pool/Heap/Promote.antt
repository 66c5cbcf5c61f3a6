-- ===== src/Pool/Heap/Promote.antt =====
-- IndexedHeap.promote.
use pyservicelib.Base.{
  ℕ, ◌<◌, ◌≡◌, inl, inr, refl, true, ◌==◌, if◌then◌else◌, Option, some, length, get_elem?, arith,
  Option-cases,
}
use pyservicelib.Base.Dicts.{is_some}
use pyservicelib.Base.Loops.{Ends, Ends-bind, Ends-found, Ends-option}
use pyservicelib.Pool.Heap.Order.{KeyOrder, le_of_trans}
use pyservicelib.Pool.Heap.{Entry, IndexedHeap, parent, set, promote}
use pyservicelib.Pool.Heap.Swaps.{
  IsIndexed, key_at, lookup, get_elem?_outside, get_elem?-set, length-set,
}
use pyservicelib.Pool.Heap.Up.{IsAlmostUp, Risen, up-Risen}
use pyservicelib.Pool.Heap.Down.{IsHeap}
use pyservicelib.Pool.Heap.Views.{IsValid, Answers, map_option, with_key, raised-Holds, found_there}

module _ {K : Type 0} (order : KeyOrder K) where
  abbrev expedited_at : IndexedHeap K → ℕ → Entry K → IndexedHeap K
  expedited_at h index x = record h {
    items = set h.items index (record { key = order.expedite (x.key); task = x.task });
  }

  expedited-IsAlmostUp :
      (h : IndexedHeap K) (index : ℕ) (x : Entry K)
      → IsHeap order h
      → index < length h.items
      → get_elem? h.items index ≡ some x
      → IsAlmostUp order true (expedited_at h index x) index
  expedited-IsAlmostUp h index x v p e =
      let y : Entry K = record { key = order.expedite (x.key); task = x.task } in
      record {
        edges = λ c q r s. ground (
          arith,
          get_elem?-set h.items index y c,
          get_elem?-set h.items index y (parent c),
          v c,
          order.expedited (x.key),
          le_of_trans order (some (y.key)) (key_at h index) (key_at h c),
        );
        bridged = λ c q r s. ground (
          arith,
          get_elem?-set h.items index y c,
          get_elem?-set h.items index y (parent index),
          v c,
          v index,
          le_of_trans order (key_at h (parent index)) (key_at h index) (key_at h c),
        );
      }

  expedited-IsIndexed :
      (h : IndexedHeap K) (index : ℕ) (x : Entry K)
      → IsIndexed h
      → index < length h.items
      → get_elem? h.items index ≡ some x
      → IsIndexed (expedited_at h index x)
  expedited-IsIndexed h index x v p e t i =
      let y : Entry K = record { key = order.expedite (x.key); task = x.task } in
      ground (arith, get_elem?-set h.items index y i, v t i)

  expedited-lookup :
      (h : IndexedHeap K) (index : ℕ) (x : Entry K)
      → IsIndexed h
      → index < length h.items
      → get_elem? h.items index ≡ some x
      → (t : ℕ)
      → lookup (expedited_at h index x) t
        ≡ (if x.task == t then map_option order.expedite (lookup h t) else lookup h t)
  expedited-lookup h index x v p e t =
      let y : Entry K = record { key = order.expedite (x.key); task = x.task } in
      elim (Option-cases (h.positions t)) [
        | inl f ↦ ground (arith, v t index)
        | inr (n, f) ↦ ground (arith, get_elem?-set h.items index y n, v t n, v x.task index)
      ]

  -- Promoting a task in a valid heap ends without an exception: the answer says whether the task
  -- was there, the heap stays valid and of its size, and where the task was there its key is the
  -- expedited one; the other tasks keep their keys.
  pub promote-Answers :
      (h : IndexedHeap K) (task : ℕ)
      → IsValid order h
      → Ends
          (Answers order
            (is_some (lookup h task))
            (length h.items)
            (with_key order.expedite (lookup h) task))
          (promote order h task)
  unfolding promote
  promote-Answers h task v =
      let view : ℕ → Option K = with_key order.expedite (lookup h) task in
      let all = Answers order (is_some (lookup h task)) (length h.items) view in
      Ends-option all (h.positions task) _ _
        (λ e. record {
          held = record { valid = v; sized = refl; shown = λ t. ground arith };
          answer = ground arith;
        })
        (λ index e.
          let (x, at, named, there) = found_there h task index v.indexed e in
          let inside : index < length h.items = ground (arith, get_elem?_outside h.items index) in
          let g = expedited_at h index x in
          let size : length g.items ≡ length h.items = length-set h.items index _ in
          Ends-found all _ x _ _ at (
            Ends-bind (Risen order true g index) all _ _
              (up-Risen order true g index (omega (arith, size))
                (expedited-IsIndexed h index x v.indexed inside at)
                (expedited-IsAlmostUp h index x v.heap inside at))
              λ r t.
                let e = raised-Holds order g index r t in
                record {
                  held = record {
                    valid = e.valid;
                    sized = cc (e.sized, size);
                    shown = λ u.
                        ground (arith, e.shown u, expedited-lookup h index x v.indexed inside at u);
                  };
                  answer = ground arith;
                }))
