-- ===== src/Pool/Heap/Swaps.antt =====
-- IndexedHeap: what `_swap` and the writes to the list change and keep.
use pyservicelib.Base.{
  ℕ, zero, suc, ◌-◌, ◌<◌, ◌≡◌, ◌↔◌, inl, inr, refl, ap, List, [], ◌∷◌, ◌++◌, Option, none, some,
  ltb, ◌==◌, if◌then◌else◌, length, get_elem?, arith, Option-cases,
}
use pyservicelib.Base.Loops.{Ends}
use pyservicelib.Pool.Heap.{Entry, IndexedHeap, set, init, assign, swap}

pub get_elem?-set :
    {A : Type 0} (xs : List A) (i : ℕ) (x : A) (j : ℕ)
    → i < length xs
    → get_elem? (set xs i x) j ≡ (if i == j then some x else get_elem? xs j)
get_elem?-set [] i x j h = absurd (omega arith)
get_elem?-set (y ∷ ys) zero x zero h = refl
get_elem?-set (y ∷ ys) zero x (suc j) h = ground arith
get_elem?-set (y ∷ ys) (suc i) x zero h = ground arith
get_elem?-set (y ∷ ys) (suc i) x (suc j) h = ground (arith, get_elem?-set ys i x j)

pub length-set : {A : Type 0} (xs : List A) (i : ℕ) (x : A) → length (set xs i x) ≡ length xs
length-set [] i x = refl
length-set (y ∷ ys) zero x = refl
length-set (y ∷ ys) (suc i) x = ap suc (length-set ys i x)

pub get_elem?-init :
    {A : Type 0} (xs : List A) (j : ℕ)
    → get_elem? (init xs) j ≡ (if ltb (suc j) (length xs) then get_elem? xs j else none)
get_elem?-init [] j = ground arith
get_elem?-init (x ∷ []) zero = ground arith
get_elem?-init (x ∷ []) (suc j) = ground arith
get_elem?-init (x ∷ y ∷ ys) zero = ground arith
get_elem?-init (x ∷ y ∷ ys) (suc j) = ground (arith, get_elem?-init (y ∷ ys) j)

pub length-init : {A : Type 0} (xs : List A) → length (init xs) ≡ length xs - 1
length-init [] = omega arith
length-init (x ∷ []) = omega arith
length-init (x ∷ y ∷ ys) = omega (arith, length-init (y ∷ ys))

pub get_elem?_inside :
    {A : Type 0} (xs : List A) (i : ℕ) → i < length xs → (x : A) × (get_elem? xs i ≡ some x)
get_elem?_inside [] i h = absurd (omega arith)
get_elem?_inside (x ∷ xs) zero h = (x, refl)
get_elem?_inside (x ∷ xs) (suc i) h = get_elem?_inside xs i (omega arith)

pub get_elem?_outside :
    {A : Type 0} (xs : List A) (i : ℕ) → length xs < suc i → get_elem? xs i ≡ none
get_elem?_outside [] i h = refl
get_elem?_outside (x ∷ xs) zero h = absurd (omega arith)
get_elem?_outside (x ∷ xs) (suc i) h = get_elem?_outside xs i (omega arith)

pub get_elem?-snoc :
    {A : Type 0} (xs : List A) (x : A) (j : ℕ)
    → get_elem? (xs ++ (x ∷ [])) j ≡ (if length xs == j then some x else get_elem? xs j)
get_elem?-snoc [] x zero = ground arith
get_elem?-snoc [] x (suc j) = ground arith
get_elem?-snoc (y ∷ ys) x zero = ground arith
get_elem?-snoc (y ∷ ys) x (suc j) = ground (arith, get_elem?-snoc ys x j)

abbrev pub task_of : {K : Type 0} → Option (Entry K) → Option ℕ
task_of none = none
task_of (some x) = some (x.task)

abbrev pub key_of : {K : Type 0} → Option (Entry K) → Option K
key_of none = none
key_of (some x) = some (x.key)

module _ {K : Type 0} where
  abbrev pub key_at : IndexedHeap K → ℕ → Option K
  key_at h i = key_of (get_elem? h.items i)

  abbrev pub task_at : IndexedHeap K → ℕ → Option ℕ
  task_at h i = task_of (get_elem? h.items i)

  -- `positions` says where each task stands, and nothing else.
  abbrev pub IsIndexed : IndexedHeap K → Type 0
  IsIndexed h = (task index : ℕ) → (h.positions task ≡ some index) ↔ (task_at h index ≡ some task)

  abbrev key_found : IndexedHeap K → Option ℕ → Option K
  key_found h none = none
  key_found h (some index) = key_at h index

  -- The abstract view: which tasks wait, and with which keys.
  abbrev pub lookup : IndexedHeap K → ℕ → Option K
  lookup h task = key_found h (h.positions task)

  -- `g` holds the tasks of `h` with the same keys, and knows where they stand.
  pub record Sifted (h g : IndexedHeap K) : Type 0 where
    pub size : length g.items ≡ length h.items
    pub same : (task : ℕ) → lookup g task ≡ lookup h task
    pub indexed : IsIndexed g

  pub Sifted-refl : (h : IndexedHeap K) → IsIndexed h → Sifted h h
  Sifted-refl h v = record { size = refl; same = λ task. refl; indexed = v }

  pub Sifted-trans : (h g k : IndexedHeap K) → Sifted h g → Sifted g k → Sifted h k
  Sifted-trans h g k s t = record {
    size = cc (s.size, t.size);
    same = λ task. cc (s.same task, t.same task);
    indexed = t.indexed;
  }

  -- What a swap of the entries at `a` and `b` does to the keys.
  pub record Swapped (h : IndexedHeap K) (a b : ℕ) (g : IndexedHeap K) : Type 0 where
    pub sifted : Sifted h g
    pub keys :
        (c : ℕ)
        → key_at g c ≡ (if b == c then key_at h a else if a == c then key_at h b else key_at h c)

  entries-swap :
      (h : IndexedHeap K) (a b : ℕ) (x y : Entry K)
      → a < length h.items
      → b < length h.items
      → (c : ℕ)
      → get_elem? (set (set h.items a y) b x) c
        ≡ (if b == c then some x else if a == c then some y else get_elem? h.items c)
  entries-swap h a b x y p q c = ground (
    arith,
    get_elem?-set h.items a y c,
    get_elem?-set (set h.items a y) b x c,
    length-set h.items a y,
  )

  lookup_found :
      (h : IndexedHeap K) (task index : ℕ)
      → h.positions task ≡ some index
      → lookup h task ≡ key_at h index
  lookup_found h task index e = rw e (refl)

  abbrev swapped : IndexedHeap K → (a b : ℕ) (x y : Entry K) → IndexedHeap K
  swapped h a b x y = record {
    items = set (set h.items a y) b x;
    positions = assign (assign h.positions y.task a) x.task b;
  }

  swapped-IsIndexed :
      (h : IndexedHeap K) (a b : ℕ) (x y : Entry K)
      → IsIndexed h
      → a < length h.items
      → b < length h.items
      → get_elem? h.items a ≡ some x
      → get_elem? h.items b ≡ some y
      → IsIndexed (swapped h a b x y)
  swapped-IsIndexed h a b x y v p q ex ey task index = ground (
    arith,
    entries-swap h a b x y p q index,
    v task index,
    v x.task a,
    v y.task b,
    v x.task index,
    v y.task index,
  )

  swapped-lookup :
      (h : IndexedHeap K) (a b : ℕ) (x y : Entry K)
      → IsIndexed h
      → a < length h.items
      → b < length h.items
      → get_elem? h.items a ≡ some x
      → get_elem? h.items b ≡ some y
      → (task : ℕ) → lookup (swapped h a b x y) task ≡ lookup h task
  swapped-lookup h a b x y v p q ex ey task = elim (Option-cases (h.positions task)) [
    | inl e ↦ ground (arith, v x.task a, v y.task b)
    | inr (n, e) ↦ ground (
      arith,
      entries-swap h a b x y p q n,
      entries-swap h a b x y p q a,
      entries-swap h a b x y p q b,
      v x.task a,
      v y.task b,
      v task n,
      lookup_found h task n e,
    )
  ]

  pub swap-Swapped :
      (h : IndexedHeap K) (a b : ℕ)
      → IsIndexed h
      → a < length h.items
      → b < length h.items
      → Ends (Swapped h a b) (swap h a b)
  swap-Swapped h a b v p q =
      let (x, ex) = get_elem?_inside h.items a p in
      let (y, ey) = get_elem?_inside h.items b q in
      let done : Swapped h a b (swapped h a b x y) = record {
        sifted = record {
          size = cc (length-set (set h.items a y) b x, length-set h.items a y);
          same = swapped-lookup h a b x y v p q ex ey;
          indexed = swapped-IsIndexed h a b x y v p q ex ey;
        };
        keys = λ c. ground (arith, entries-swap h a b x y p q c);
      } in
      rw (ex, ey) done
