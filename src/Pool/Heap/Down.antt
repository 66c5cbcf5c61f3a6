-- ===== src/Pool/Heap/Down.antt =====
-- IndexedHeap._down: an entry that may be too high in the tree sinks to its place.
use pyservicelib.Base.{
  ℕ, zero, suc, ◌+◌, ◌-◌, ◌*◌, ◌<◌, ◌≡◌, ◌⊎◌, inl, inr, true, false, ltb, length, arith, Bool-cases,
}
use pyservicelib.Base.Loops.{Ends, Ends-bind, Ends-map, Ends-cases, Ends-found}
use pyservicelib.Pool.Heap.Order.{KeyOrder, le_of, le_of_total, le_of_trans}
use pyservicelib.Pool.Heap.{IndexedHeap, parent, smaller_child, down, down_loop}
use pyservicelib.Pool.Heap.Swaps.{
  IsIndexed, key_at, get_elem?_inside, get_elem?_outside, Sifted, Sifted-refl, Sifted-trans,
  Swapped, swap-Swapped,
}
use pyservicelib.Pool.Heap.Up.{IsAlmostDown}

-- No key is less than its parent's.
abbrev pub IsHeap : {K : Type 0} → KeyOrder K → IndexedHeap K → Type 0
IsHeap order h = (c : ℕ) → 0 < c → le_of order (key_at h (parent c)) (key_at h c) ≡ true

-- What `_down` returns.
pub record Sunk {K : Type 0} (order : KeyOrder K) (h g : IndexedHeap K) : Type 0 where
  pub heap : IsHeap order g
  pub sifted : Sifted h g

-- `m` is the child of `i` with the least key.
record IsSmallerChild {K : Type 0} (order : KeyOrder K) (h : IndexedHeap K) (i m : ℕ) : Type 0 where
  inside : m < length h.items
  child : (m ≡ 2 * i + 1) ⊎ (m ≡ 2 * i + 2)
  least : (c : ℕ) → 0 < c → parent c ≡ i → le_of order (key_at h m) (key_at h c) ≡ true

module _ {K : Type 0} (order : KeyOrder K) where
  IsSmallerChild-pick :
      (h : IndexedHeap K) (i m other : ℕ)
      → m < length h.items
      → (m ≡ 2 * i + 1) × (other ≡ 2 * i + 2) ⊎ (m ≡ 2 * i + 2) × (other ≡ 2 * i + 1)
      → le_of order (key_at h m) (key_at h other) ≡ true
      → IsSmallerChild order h i m
  IsSmallerChild-pick h i m other p q l = record {
    inside = p;
    child = ground arith;
    least = λ c r s. ground (arith, le_of_total order (key_at h m) (key_at h m));
  }

  smaller_child-IsSmallerChild :
      (h : IndexedHeap K) (i : ℕ)
      → 2 * i + 1 < length h.items
      → Ends (IsSmallerChild order h i) (smaller_child order h i)
  unfolding smaller_child
  smaller_child-IsSmallerChild h i p =
      let (l, el) = get_elem?_inside h.items (2 * i + 1) p in
      let all = IsSmallerChild order h i in
      Ends-cases all (ltb (2 * i + 1 + 1) (length h.items)) _ _
        (λ two.
          let (r, er) = get_elem?_inside h.items (2 * i + 1 + 1) (ground arith) in
          Ends-found all _ r _ _ er (
            Ends-found all _ l _ _ el (elim (Bool-cases (order.le l.key r.key)) [
              | inl e ↦ rw e (
                  IsSmallerChild-pick h i (2 * i + 1) (2 * i + 1 + 1) (ground arith) (ground arith)
                    (ground arith))
              | inr e ↦ rw e (
                  IsSmallerChild-pick h i (2 * i + 1 + 1) (2 * i + 1) (ground arith) (ground arith)
                    (ground (arith, order.total (l.key) (r.key))))
            ])))
        (λ one.
          IsSmallerChild-pick h i (2 * i + 1) (2 * i + 2) p (ground arith)
            (ground (arith, get_elem?_outside h.items (2 * i + 2))))

  swap-IsAlmostDown :
      (h g : IndexedHeap K) (i m : ℕ)
      → IsAlmostDown order false h i
      → IsSmallerChild order h i m
      → le_of order (key_at h m) (key_at h i) ≡ true
      → Swapped h i m g
      → IsAlmostDown order false g m
  swap-IsAlmostDown h g i m v s below w = record {
    edges = λ c p q.
        ground (arith, w.keys c, w.keys (parent c), v.edges c, v.bridged m, s.least c, s.child);
    bridged = λ c p q r. ground (arith, w.keys c, w.keys (parent m), v.edges c, s.child);
  }

  stays-Sunk :
      (h : IndexedHeap K) (i : ℕ)
      → IsIndexed h
      → IsAlmostDown order false h i
      → ((c : ℕ) → 0 < c → parent c ≡ i → le_of order (key_at h i) (key_at h c) ≡ true)
      → Sunk order h h
  stays-Sunk h i x v settled = record {
    heap = λ c p. ground (arith, v.edges c p, settled c p);
    sifted = Sifted-refl h x;
  }

  down_loop-Sunk :
      (fuel : ℕ) (h : IndexedHeap K) (i : ℕ)
      → length h.items - i < fuel
      → IsIndexed h
      → IsAlmostDown order false h i
      → Ends (Sunk order h) (down_loop order fuel h i)
  unfolding down_loop
  down_loop-Sunk zero h i f x v = absurd (omega arith)
  down_loop-Sunk (suc fuel) h i f x v =
      let all = Sunk order h in
      Ends-cases all (ltb (2 * i + 1) (length h.items)) _ _
        (λ inner.
          Ends-bind (IsSmallerChild order h i) all _ _
            (smaller_child-IsSmallerChild h i (ground arith))
            λ m s.
              let (y, ey) = get_elem?_inside h.items i (ground arith) in
              let (z, ez) = get_elem?_inside h.items m s.inside in
              Ends-found all _ y _ _ ey (
                Ends-found all _ z _ _ ez (
                  Ends-cases all (order.le y.key z.key) _ _
                    (λ settled. stays-Sunk h i x v λ c p q.
                      ground (
                        arith,
                        s.least c,
                        le_of_trans order (key_at h i) (key_at h m) (key_at h c),
                      ))
                    (λ below.
                      Ends-bind (Swapped h i m) all _ _
                        (swap-Swapped h i m x (ground arith) s.inside)
                        λ g w.
                          Ends-map (Sunk order g) all _
                            (down_loop-Sunk fuel g m
                              (ground (arith, s.child, s.inside, w.sifted.size)) w.sifted.indexed
                              (swap-IsAlmostDown h g i m v s
                                (ground (arith, order.total (y.key) (z.key))) w))
                            λ r t. record {
                              heap = t.heap;
                              sifted = Sifted-trans h g r w.sifted t.sifted;
                            }))))
        (λ leaf. stays-Sunk h i x v λ c p q. ground (arith, get_elem?_outside h.items c))

  pub down-Sunk :
      (h : IndexedHeap K) (i : ℕ)
      → IsIndexed h
      → IsAlmostDown order false h i
      → Ends (Sunk order h) (down order h i)
  unfolding down
  down-Sunk h i x v = down_loop-Sunk (suc (length h.items)) h i (omega arith) x v
