-- ===== src/Store/Rotating/View.antt =====
-- The two buckets seen as one dict: what each call does to it, and that a rotation does nothing.
use mathlib.Core.Logic.{ite}
use pyservicelib.Base.{ℕ, ◌≡◌, refl, inl, true, false, [], arith, none, some, ok, err, value_error}
use pyservicelib.Base.Dicts.{
  get, put, delete, update, IsUnique, AreDisjoint, get-put, get-delete, get-update, put-IsUnique,
  delete-IsUnique, update-IsUnique, length-update,
}
use pyservicelib.Store.Rotating.{RotatingMap, init, total, rotate, set, get_or_create, find, pop}

module _ {K V : Type 0} (dec : Discrete K) where
  -- No bucket holds a key twice, and no key stands in both.
  pub record IsValid (m : RotatingMap K V) : Type 0 where
    pub current_unique : IsUnique dec m.current
    pub prev_unique : IsUnique dec m.prev
    pub apart : AreDisjoint dec m.current m.prev

  pub init-IsValid : (n : ℕ) → IsValid (init n)
  unfolding init get
  init-IsValid n = record { current_unique = tt; prev_unique = tt; apart = λ k. inl refl }

  pub find-init : (n : ℕ) (j : K) → find dec (init {K = K} {V = V} n) j ≡ none
  unfolding init find get
  find-init n j = refl

  merged-IsValid :
      (m : RotatingMap K V) (mark : ℕ)
      → IsValid m
      → IsValid
          (record m { current = []; prev = update dec m.current m.prev; high_water_mark = mark })
  unfolding get
  merged-IsValid m mark v = record {
    current_unique = tt;
    prev_unique = update-IsUnique dec m.current m.prev v.current_unique;
    apart = λ k. inl refl;
  }

  pub rotate-IsValid : (m : RotatingMap K V) → IsValid m → IsValid (rotate dec m)
  unfolding rotate
  rotate-IsValid m v = ground (arith, merged-IsValid m (total m) v)

  -- A rotation keeps every entry, whatever the buckets hold and whether or not it swaps them.
  pub find-rotate :
      (m : RotatingMap K V) (j : K) → IsValid m → find dec (rotate dec m) j ≡ find dec m j
  unfolding rotate find get
  find-rotate m j v = ground (arith, get-update dec m.current m.prev j v.prev_unique, v.apart j)

  total-rotate : (m : RotatingMap K V) → IsValid m → total (rotate dec m) ≡ total m
  unfolding rotate
  total-rotate m v = ground (arith, length-update dec m.current m.prev v.prev_unique v.apart)

  -- A key that is in neither bucket goes into the current one.
  pub inserted : RotatingMap K V → K → V → RotatingMap K V
  inserted m key value = record m { current = put dec m.current key value }

  pub inserted-IsValid :
      (m : RotatingMap K V) (key : K) (value : V)
      → get dec m.prev key ≡ none
      → IsValid m
      → IsValid (inserted m key value)
  unfolding inserted
  inserted-IsValid m key value absent v = record {
    current_unique = put-IsUnique dec m.current key value v.current_unique;
    prev_unique = v.prev_unique;
    apart = λ j. ground (arith, get-put dec m.current key value j, v.apart j);
  }

  pub find-inserted :
      (m : RotatingMap K V) (key : K) (value : V) (j : K)
      → find dec (inserted m key value) j ≡ ite (dec key j) (some value) (find dec m j)
  unfolding inserted find
  find-inserted m key value j = ground (arith, get-put dec m.current key value j)

  -- A removal from the bucket that holds the key.
  without_current-IsValid :
      (m : RotatingMap K V) (key : K)
      → IsValid m
      → IsValid (record m { current = delete dec m.current key })
  without_current-IsValid m key v = record {
    current_unique = delete-IsUnique dec m.current key v.current_unique;
    prev_unique = v.prev_unique;
    apart = λ j. ground (arith, get-delete dec m.current key j, v.apart j);
  }

  without_prev-IsValid :
      (m : RotatingMap K V) (key : K)
      → IsValid m
      → IsValid (record m { prev = delete dec m.prev key })
  without_prev-IsValid m key v = record {
    current_unique = v.current_unique;
    prev_unique = delete-IsUnique dec m.prev key v.prev_unique;
    apart = λ j. ground (arith, get-delete dec m.prev key j, v.apart j);
  }

  pub pop-IsValid : (m : RotatingMap K V) (key : K) → IsValid m → IsValid (pop dec m key).0
  unfolding pop
  pop-IsValid m key v =
      ground (arith, without_current-IsValid m key v, without_prev-IsValid m key v)

  pub find-pop :
      (m : RotatingMap K V) (key j : K)
      → IsValid m
      → find dec (pop dec m key).0 j ≡ ite (dec key j) none (find dec m j)
  unfolding pop find
  find-pop m key j v =
      ground (arith, get-delete dec m.current key j, get-delete dec m.prev key j, v.apart j)

  pub pop-find : (m : RotatingMap K V) (key : K) → (pop dec m key).1 ≡ find dec m key
  unfolding pop find
  pop-find m key = ground arith

  pub set-inserted :
      (m : RotatingMap K V) (key : K) (value : V)
      → find dec m key ≡ none
      → (set dec m key value ≡ ok (inserted m key value)) × (get dec m.prev key ≡ none)
  unfolding set find inserted
  set-inserted m key value h = ground arith

  pub set-taken :
      (m : RotatingMap K V) (key : K) (value w : V)
      → find dec m key ≡ some w
      → set dec m key value ≡ err value_error
  unfolding set find
  set-taken m key value w h = ground arith

  pub get_or_create-find :
      (m : RotatingMap K V) (key : K) (value : V)
      → get_or_create dec m key value ≡ elim (find dec m key) [
        | some v ↦ (m, (v, true))
        | none ↦ (inserted m key value, (value, false))
      ]
  unfolding get_or_create find inserted
  get_or_create-find m key value = ground arith
