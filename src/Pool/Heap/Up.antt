-- ===== src/Pool/Heap/Up.antt =====
-- IndexedHeap._up: an entry that may be too low in the tree rises to its place.
use pyservicelib.Base.{ℕ, zero, suc, ◌≤◌, ◌<◌, ◌≡◌, ◌≢◌, ◌⊎◌, Bool, true, ◌==◌, length, arith}
use pyservicelib.Base.Loops.{Ends, Ends-bind, Ends-map, Ends-cases, Ends-found}
use pyservicelib.Pool.Heap.Order.{KeyOrder, le_of, le_of_trans}
use pyservicelib.Pool.Heap.{IndexedHeap, parent, up, up_loop}
use pyservicelib.Pool.Heap.Swaps.{
  IsIndexed, key_at, get_elem?_inside, Sifted, Sifted-refl, Sifted-trans, Swapped, swap-Swapped,
}

-- What `_up` starts from. The edge above `i` may be out of order; where `full` is false, so may
-- the edges below `i`, as after `remove` has put another entry at `i`.
pub record IsAlmostUp {K : Type 0} (order : KeyOrder K) (full : Bool) (h : IndexedHeap K) (i : ℕ)
    : Type 0 where
  pub edges :
      (c : ℕ)
      → 0 < c
      → c ≢ i
      → (full ≡ true) ⊎ (parent c ≢ i)
      → le_of order (key_at h (parent c)) (key_at h c) ≡ true
  pub bridged :
      (c : ℕ) → 0 < c → parent c ≡ i → 0 < i → le_of order (key_at h (parent i)) (key_at h c) ≡ true

-- Every edge is in order, save those below `i` where `full` is false.
pub record IsAlmostDown {K : Type 0} (order : KeyOrder K) (full : Bool) (h : IndexedHeap K) (i : ℕ)
    : Type 0 where
  pub edges :
      (c : ℕ)
      → 0 < c
      → (full ≡ true) ⊎ (parent c ≢ i)
      → le_of order (key_at h (parent c)) (key_at h c) ≡ true
  pub bridged :
      (c : ℕ) → 0 < c → parent c ≡ i → 0 < i → le_of order (key_at h (parent i)) (key_at h c) ≡ true

-- What `_up` returns: the list and the index at which the entry stands.
pub record Risen {K : Type 0} (order : KeyOrder K) (full : Bool) (h : IndexedHeap K) (i : ℕ)
    (r : IndexedHeap K × ℕ) : Type 0 where
  pub placed : IsAlmostDown order full (r.0) (r.1)
  pub sifted : Sifted h (r.0)
  pub above : r.1 ≤ i

module _ {K : Type 0} (order : KeyOrder K) where
  swap-IsAlmostUp :
      (full : Bool) (h g : IndexedHeap K) (i : ℕ)
      → IsAlmostUp order full h i
      → 0 < i
      → le_of order (key_at h i) (key_at h (parent i)) ≡ true
      → Swapped h i (parent i) g
      → IsAlmostUp order full g (parent i)
  swap-IsAlmostUp full h g i v pos below s = record {
    edges = λ c p q r. ground (
      arith,
      s.keys c,
      s.keys (parent c),
      v.edges c,
      v.bridged c,
      le_of_trans order (key_at h i) (key_at h (parent i)) (key_at h c),
    );
    bridged = λ c p q r. ground (
      arith,
      s.keys c,
      s.keys (parent (parent i)),
      v.edges c,
      v.edges (parent i),
      le_of_trans order (key_at h (parent (parent i))) (key_at h (parent i)) (key_at h c),
    );
  }

  stays-Risen :
      (full : Bool) (h : IndexedHeap K) (i : ℕ)
      → IsIndexed h
      → IsAlmostUp order full h i
      → (0 < i → le_of order (key_at h (parent i)) (key_at h i) ≡ true)
      → Risen order full h i (h, i)
  stays-Risen full h i x v settled = record {
    placed = record { edges = λ c p q. ground (arith, v.edges c p, settled); bridged = v.bridged };
    sifted = Sifted-refl h x;
    above = omega arith;
  }

  up_loop-Risen :
      (fuel : ℕ) (full : Bool) (h : IndexedHeap K) (i : ℕ)
      → i < fuel
      → i < length h.items
      → IsIndexed h
      → IsAlmostUp order full h i
      → Ends (Risen order full h i) (up_loop order fuel h i)
  unfolding up_loop
  up_loop-Risen zero full h i f p x v = absurd (omega arith)
  up_loop-Risen (suc fuel) full h i f p x v =
      let above : parent i < length h.items = ground arith in
      let (y, ey) = get_elem?_inside h.items (parent i) above in
      let (z, ez) = get_elem?_inside h.items i p in
      let all = Risen order full h i in
      Ends-cases all (i == 0) _ _ (λ root. stays-Risen full h i x v (λ pos. absurd (ground arith)))
        (λ inner. Ends-found all _ y _ _ ey (
          Ends-found all _ z _ _ ez (
            Ends-cases all (order.le y.key z.key) _ _
              (λ settled. stays-Risen full h i x v (λ pos. ground arith))
              (λ below.
                Ends-bind (Swapped h i (parent i)) all _ _ (swap-Swapped h i (parent i) x p above)
                  λ g s.
                    Ends-map (Risen order full g (parent i)) all _
                      (up_loop-Risen fuel full g (parent i) (ground arith)
                        (ground (arith, s.sifted.size)) s.sifted.indexed
                        (swap-IsAlmostUp full h g i v (ground arith)
                          (ground (arith, order.total (y.key) (z.key))) s))
                      λ r t. record {
                        placed = t.placed;
                        sifted = Sifted-trans h g (r.0) s.sifted t.sifted;
                        above = ground (arith, t.above);
                      }))))

  pub up-Risen :
      (full : Bool) (h : IndexedHeap K) (i : ℕ)
      → i < length h.items
      → IsIndexed h
      → IsAlmostUp order full h i
      → Ends (Risen order full h i) (up order h i)
  unfolding up
  up-Risen full h i p x v = up_loop-Risen (suc i) full h i (omega arith) p x v
