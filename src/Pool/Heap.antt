-- ===== src/Pool/Heap.antt =====
-- runtime/pool/_scheduling.py: IndexedHeap, a binary heap that knows where each task stands. A
-- task is named by a number, as by its `id`; `positions` is a map from these names.
pub mod Order
pub mod Swaps
pub mod Up
pub mod Down
pub mod Views
pub mod Keys
pub mod Push
pub mod Dropping
pub mod Remove
pub mod Promote
use pyservicelib.Base.{
  ℕ, zero, suc, ◌+◌, ◌-◌, ◌*◌, ◌/◌, Bool, true, false, not, ◌&&◌, List, [], ◌∷◌, ◌++◌, Option, none,
  some, ltb, ◌==◌, if◌then◌else◌, length, get_elem?, index_error,
}
use pyservicelib.Base.Loops.{Loop, out_of_fuel, raises, ends, ◌>>=◌, found_or}
use pyservicelib.Pool.Heap.Order.{KeyOrder}

pub record Entry (K : Type 0) : Type 0 where
  pub key : K
  pub task : ℕ

pub record IndexedHeap (K : Type 0) : Type 0 where
  pub items : List (Entry K)
  pub positions : ℕ → Option ℕ

-- `items[i] = x`, where something stands.
abbrev pub set : {A : Type 0} → List A → ℕ → A → List A
set [] i x = []
set (y ∷ ys) zero x = x ∷ ys
set (y ∷ ys) (suc i) x = y ∷ set ys i x

-- What `items.pop()` leaves.
abbrev pub init : {A : Type 0} → List A → List A
init [] = []
init (x ∷ []) = []
init (x ∷ y ∷ ys) = x ∷ init (y ∷ ys)

abbrev pub assign : (ℕ → Option ℕ) → ℕ → ℕ → ℕ → Option ℕ
assign positions task index other = if task == other then some index else positions other

abbrev pub erase : (ℕ → Option ℕ) → ℕ → ℕ → Option ℕ
erase positions task other = if task == other then none else positions other

abbrev pub parent : ℕ → ℕ
parent index = (index - 1) / 2

module _ {K : Type 0} where
  abbrev pub empty : IndexedHeap K
  empty = record { items = []; positions = λ task. none }

  abbrev pub read : IndexedHeap K → ℕ → Loop (Entry K)
  read h index = found_or (get_elem? h.items index) index_error

  -- `_swap`
  abbrev pub swap : IndexedHeap K → ℕ → ℕ → Loop (IndexedHeap K)
  swap h a b = read h a >>= λ x. read h b >>= λ y. ends (record {
    items = set (set h.items a y) b x;
    positions = assign (assign h.positions y.task a) x.task b;
  })

module _ {K : Type 0} (order : KeyOrder K) where
  unfoldable pub up_loop : ℕ → IndexedHeap K → ℕ → Loop (IndexedHeap K × ℕ)
  up_loop zero h index = out_of_fuel
  up_loop (suc fuel) h index = elim (index == 0) [
    | true ↦ ends (h, index)
    | false ↦ read h (parent index) >>= λ p. read h index >>= λ x. elim (order.le p.key x.key) [
      | true ↦ ends (h, index)
      | false ↦ swap h index (parent index) >>= λ g. up_loop fuel g (parent index)
    ]
  ]

  -- `_up`
  unfoldable pub up : IndexedHeap K → ℕ → Loop (IndexedHeap K × ℕ)
  up h index = up_loop (suc index) h index

  -- The child that `_down` compares with: the right one if it is there and less than the left.
  pub smaller_child : IndexedHeap K → ℕ → Loop ℕ
  smaller_child h index =
      let child = 2 * index + 1 in
      elim (ltb (child + 1) (length h.items)) [
        | false ↦ ends child
        | true ↦ read h (child + 1) >>= λ r.
            read h child >>= λ l. ends (if not (order.le l.key r.key) then child + 1 else child)
      ]

  pub down_loop : ℕ → IndexedHeap K → ℕ → Loop (IndexedHeap K)
  down_loop zero h index = out_of_fuel
  down_loop (suc fuel) h index = elim (ltb (2 * index + 1) (length h.items)) [
    | false ↦ ends h
    | true ↦ smaller_child h index >>= λ child. read h index >>= λ x. read h child >>= λ c.
        elim (order.le x.key c.key) [
          | true ↦ ends h
          | false ↦ swap h index child >>= λ g. down_loop fuel g child
        ]
  ]

  -- `_down`
  pub down : IndexedHeap K → ℕ → Loop (IndexedHeap K)
  down h index = down_loop (suc (length h.items)) h index

  unfoldable pub push : IndexedHeap K → (task : ℕ) (key : K) → Loop (IndexedHeap K)
  push h task key =
      let g : IndexedHeap K = record {
        items = h.items ++ (record { key = key; task = task } ∷ []);
        positions = assign h.positions task (length h.items);
      } in
      up g (length g.items - 1) >>= λ r. ends (r.0)

  -- The task leaves the list; the last entry takes its place.
  pub remove_at : IndexedHeap K → (task index : ℕ) → Loop (IndexedHeap K)
  remove_at h task index = found_or (get_elem? h.items (length h.items - 1)) index_error >>= λ last.
      elim (ltb index (length (init h.items))) [
        | false ↦ ends (record { items = init h.items; positions = erase h.positions task })
        | true ↦
            up
              (record {
                items = set (init h.items) index last;
                positions = assign (erase h.positions task) last.task index;
              })
              index
            >>= λ r. down (r.0) (r.1)
      ]

  pub remove : IndexedHeap K → (task : ℕ) → Loop (IndexedHeap K × Bool)
  remove h task = elim (h.positions task) [
    | none ↦ ends (h, false)
    | some index ↦ remove_at h task index >>= λ g. ends (g, true)
  ]

  pub promote : IndexedHeap K → (task : ℕ) → Loop (IndexedHeap K × Bool)
  promote h task = elim (h.positions task) [
    | none ↦ ends (h, false)
    | some index ↦ read h index >>= λ x.
        up
          (record h {
            items = set h.items index (record { key = order.expedite (x.key); task = x.task });
          })
          index
        >>= λ r. ends (r.0, true)
  ]

  pub pop : IndexedHeap K → Loop (IndexedHeap K × Entry K)
  pop h = read h 0 >>= λ x. remove h (x.task) >>= λ r. ends (r.0, x)
