-- ===== src/Pool/Heap/Push.antt =====
-- IndexedHeap.push.
use pyservicelib.Base.{
  ℕ, suc, ◌-◌, ◌≡◌, inl, inr, true, [], ◌∷◌, ◌++◌, ◌==◌, if◌then◌else◌, none, some, length, arith,
  Option-cases, length-append,
}
use pyservicelib.Base.Loops.{Ends, Ends-bind}
use pyservicelib.Pool.Heap.Order.{KeyOrder}
use pyservicelib.Pool.Heap.{Entry, IndexedHeap, parent, assign, up, push}
use pyservicelib.Pool.Heap.Swaps.{IsIndexed, lookup, get_elem?_outside, get_elem?-snoc}
use pyservicelib.Pool.Heap.Up.{IsAlmostUp, Risen, up-Risen}
use pyservicelib.Pool.Heap.Down.{IsHeap}
use pyservicelib.Pool.Heap.Views.{IsValid, Holds, with_task, raised-Holds, absent_position}

module _ {K : Type 0} (order : KeyOrder K) where
  abbrev pushed : IndexedHeap K → Entry K → IndexedHeap K
  pushed h x = record {
    items = h.items ++ (x ∷ []);
    positions = assign h.positions x.task (length h.items);
  }

  pushed-IsIndexed :
      (h : IndexedHeap K) (x : Entry K)
      → IsIndexed h
      → h.positions x.task ≡ none
      → IsIndexed (pushed h x)
  pushed-IsIndexed h x v absent t i = ground (
    arith,
    get_elem?-snoc h.items x i,
    v t i,
    v (x.task) i,
    v t (length h.items),
    get_elem?_outside h.items (length h.items),
  )

  pushed-lookup :
      (h : IndexedHeap K) (x : Entry K)
      → IsIndexed h
      → (t : ℕ) → lookup (pushed h x) t ≡ (if x.task == t then some (x.key) else lookup h t)
  pushed-lookup h x v t = elim (Option-cases (h.positions t)) [
    | inl e ↦ ground (arith, get_elem?-snoc h.items x (length h.items))
    | inr (n, e) ↦ ground (
      arith,
      get_elem?-snoc h.items x (length h.items),
      get_elem?-snoc h.items x n,
      v t n,
      get_elem?_outside h.items n,
    )
  ]

  pushed-IsAlmostUp :
      (h : IndexedHeap K) (x : Entry K)
      → IsHeap order h
      → IsAlmostUp order true (pushed h x) (length h.items)
  pushed-IsAlmostUp h x v = record {
    edges = λ c p q r. ground (
      arith,
      get_elem?-snoc h.items x c,
      get_elem?-snoc h.items x (parent c),
      v c,
      get_elem?_outside h.items c,
    );
    bridged = λ c p q r. ground (arith, get_elem?-snoc h.items x c, get_elem?_outside h.items c);
  }

  -- Pushing a task that is not in a valid heap ends without an exception and gives a valid heap
  -- with one entry more: that task has the key given, and the other tasks keep theirs.
  pub push-Holds :
      (h : IndexedHeap K) (task : ℕ) (key : K)
      → IsValid order h
      → lookup h task ≡ none
      → Ends
          (Holds order (suc (length h.items)) (with_task (lookup h) task key))
          (push order h task key)
  unfolding push
  push-Holds h task key v absent =
      let x : Entry K = record { key = key; task = task } in
      let g = pushed h x in
      let ready = pushed-IsIndexed h x v.indexed (absent_position h task v.indexed absent) in
      let size : length g.items ≡ suc (length h.items) =
        omega (arith, length-append h.items (x ∷ [])) in
      let last : length g.items - 1 ≡ length h.items = omega arith in
      Ends-bind (Risen order true g (length h.items)) _ (up order g (length g.items - 1)) _
        (rw last (
          up-Risen order true g (length h.items) (omega (arith, size)) ready
            (pushed-IsAlmostUp h x v.heap)))
        λ r t.
          let e = raised-Holds order g (length h.items) r t in
          record {
            valid = e.valid;
            sized = cc (e.sized, size);
            shown = λ u. cc (e.shown u, pushed-lookup h x v.indexed u);
          }
