-- ===== src/Pool/Heap/Remove.antt =====
-- IndexedHeap.remove and pop.
use pyservicelib.Base.{
  ℕ, suc, ◌-◌, ◌<◌, ◌≡◌, inl, inr, Bool, false, ltb, if◌then◌else◌, Option, some, length, arith,
  Option-cases,
}
use pyservicelib.Base.Dicts.{is_some}
use pyservicelib.Base.Loops.{Ends, Ends-bind, Ends-map, Ends-cases, Ends-found, Ends-option}
use pyservicelib.Pool.Heap.Order.{KeyOrder}
use pyservicelib.Pool.Heap.{IndexedHeap, init, remove_at, remove, pop}
use pyservicelib.Pool.Heap.Swaps.{
  lookup, get_elem?_inside, get_elem?_outside, length-init, length-set,
}
use pyservicelib.Pool.Heap.Up.{Risen, up-Risen}
use pyservicelib.Pool.Heap.Down.{Sunk, down-Sunk}
use pyservicelib.Pool.Heap.Views.{
  IsValid, Holds, Answers, Popped, without_task, found_there, root_least,
}
use pyservicelib.Pool.Heap.Dropping.{
  dropped-Holds, replaced, replaced-IsAlmostUp, replaced-IsIndexed, replaced-lookup,
}

module _ {K : Type 0} (order : KeyOrder K) where
  remove_at-Holds :
      (h : IndexedHeap K) (task index : ℕ)
      → IsValid order h
      → h.positions task ≡ some index
      → Ends
          (Holds order (length h.items - 1) (without_task (lookup h) task))
          (remove_at order h task index)
  unfolding remove_at
  remove_at-Holds h task index v e =
      let view : ℕ → Option K = without_task (lookup h) task in
      let all = Holds order (length h.items - 1) view in
      let inside : index < length h.items =
        ground (arith, v.indexed task index, get_elem?_outside h.items index) in
      let (last, el) = get_elem?_inside h.items (length h.items - 1) (omega arith) in
      let g = replaced order h task index last in
      Ends-found all _ last _ _ el (
        Ends-cases all (ltb index (length (init h.items))) _ _
          (λ before.
            let p : index < length h.items - 1 = ground (arith, length-init h.items) in
            let size : length g.items ≡ length h.items - 1 =
              omega (arith, length-set (init h.items) index last, length-init h.items) in
            Ends-bind (Risen order false g index) all _ _
              (up-Risen order false g index (omega (arith, size))
                (replaced-IsIndexed order h task index last v.indexed p e el)
                (replaced-IsAlmostUp order h task index last v p e el))
              λ r t.
                Ends-map (Sunk order (r.0)) all _
                  (down-Sunk order (r.0) (r.1) t.sifted.indexed t.placed)
                  λ k w. record {
                    valid = record { heap = w.heap; indexed = w.sifted.indexed };
                    sized = cc (w.sifted.size, t.sifted.size, size);
                    shown = λ u. cc (
                      w.sifted.same u,
                      t.sifted.same u,
                      replaced-lookup order h task index last v.indexed p e el u,
                    );
                  })
          (λ end. dropped-Holds order h task v (ground (arith, length-init h.items))))

  -- How `remove` should end.
  abbrev pub Removal : IndexedHeap K → (task : ℕ) → IndexedHeap K × Bool → Type 0
  Removal h task =
      Answers order (is_some (lookup h task))
        (length h.items - (if is_some (lookup h task) then 1 else 0)) (without_task (lookup h) task)

  -- Taking a task out of a valid heap ends without an exception: the answer says whether the task
  -- was there, the heap stays valid, only that task is gone and the other tasks keep their keys,
  -- and the heap has one entry less exactly if the task was there.
  pub remove-Answers :
      (h : IndexedHeap K) (task : ℕ) → IsValid order h → Ends (Removal h task) (remove order h task)
  unfolding remove
  remove-Answers h task v =
      let present = is_some (lookup h task) in
      let size = length h.items - (if present then 1 else 0) in
      let view : ℕ → Option K = without_task (lookup h) task in
      let all = Answers order present size view in
      Ends-option all (h.positions task) _ _
        (λ e. record {
          held = record { valid = v; sized = ground arith; shown = λ t. ground arith };
          answer = ground arith;
        })
        (λ index e.
          let (x, at, named, there) = found_there h task index v.indexed e in
          Ends-bind (Holds order (length h.items - 1) view) all _ _
            (remove_at-Holds h task index v e)
            λ g held. record {
              held = record {
                valid = held.valid;
                sized = ground (arith, held.sized);
                shown = held.shown;
              };
              answer = ground arith;
            })

  -- Popping a valid heap that has an entry ends without an exception. It returns a task that stood
  -- in the heap with its key; no task of the heap had a lesser key; and it leaves a valid heap with
  -- one entry less, which lacks that task and keeps the other tasks with their keys.
  pub pop-Popped :
      (h : IndexedHeap K)
      → IsValid order h
      → 0 < length h.items
      → Ends (Popped order h) (pop order h)
  unfolding pop
  pop-Popped h v p =
      let all = Popped order h in
      let (x, ex) = get_elem?_inside h.items 0 p in
      let placed : h.positions x.task ≡ some 0 = ground (arith, v.indexed (x.task) 0) in
      let there : lookup h (x.task) ≡ some (x.key) = ground arith in
      Ends-found all _ x _ _ ex (
        Ends-bind (Removal h (x.task)) all _ _ (remove-Answers h (x.task) v) λ r t. record {
          held = record {
            valid = t.held.valid;
            sized = ground (arith, t.held.sized);
            shown = t.held.shown;
          };
          found = there;
          least = λ task key e. elim (Option-cases (h.positions task)) [
            | inl f ↦ absurd (ground arith)
            | inr (n, f) ↦ ground (arith, root_least order (suc n) h n v.heap)
          ];
        })
