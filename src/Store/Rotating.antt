-- ===== src/Store/Rotating.antt =====
-- runtime/store/rotatingmap.py: RotatingMap, a map in two buckets. The timer that calls `_rotate`
-- is a step that may come between any two calls.
pub mod View
pub mod Refinement
use pyservicelib.Base.{
  ℕ, ◌+◌, ◌*◌, max, Bool, true, false, ◌||◌, List, [], ltb, ◌==◌, if◌then◌else◌, length, Option,
  none, some, Result, ok, err, value_error,
}
use pyservicelib.Base.Dicts.{Dict, get, put, delete, update}

abbrev pub shrink_factor : ℕ
shrink_factor = 4

abbrev pub default_min_capacity : ℕ
default_min_capacity = 1000

pub record RotatingMap (K V : Type 0) : Type 0 where
  pub current : Dict K V
  pub prev : Dict K V
  pub high_water_mark : ℕ
  pub min_capacity : ℕ

unfoldable pub init : {K V : Type 0} → ℕ → RotatingMap K V
init min_capacity = record {
  current = [];
  prev = [];
  high_water_mark = 0;
  min_capacity = min_capacity;
}

abbrev pub total : {K V : Type 0} → RotatingMap K V → ℕ
total m = length m.current + length m.prev

module _ {K V : Type 0} (dec : Discrete K) where
  abbrev pub should_rotate : RotatingMap K V → Bool
  should_rotate m = m.high_water_mark == 0 || ltb (total m * shrink_factor) m.high_water_mark

  unfoldable pub rotate : RotatingMap K V → RotatingMap K V
  rotate m =
      let mark = max (total m) m.high_water_mark in
      if ltb mark m.min_capacity
      then record m { high_water_mark = mark }
      else if should_rotate m
      then record m { current = []; prev = update dec m.current m.prev; high_water_mark = total m }
      else record m { high_water_mark = mark }

  unfoldable pub set : RotatingMap K V → K → V → Result (RotatingMap K V)
  set m key value = elim (get dec m.current key) [
    | some v ↦ err value_error
    | none ↦ elim (get dec m.prev key) [
      | some v ↦ err value_error
      | none ↦ ok (record m { current = put dec m.current key value })
    ]
  ]

  -- `factory` is the value that it makes. The Boolean says whether the key was there.
  pub get_or_create : RotatingMap K V → K → V → RotatingMap K V × (V × Bool)
  get_or_create m key factory = elim (get dec m.current key) [
    | some v ↦ (m, (v, true))
    | none ↦ elim (get dec m.prev key) [
      | some v ↦ (m, (v, true))
      | none ↦ (record m { current = put dec m.current key factory }, (factory, false))
    ]
  ]

  -- `(None, False)` is `none`.
  pub find : RotatingMap K V → K → Option V
  find m key = elim (get dec m.current key) [ some v ↦ some v | none ↦ get dec m.prev key ]

  pub pop : RotatingMap K V → K → RotatingMap K V × Option V
  pop m key = elim (get dec m.current key) [
    | some v ↦ (record m { current = delete dec m.current key }, some v)
    | none ↦ elim (get dec m.prev key) [
      | some v ↦ (record m { prev = delete dec m.prev key }, some v)
      | none ↦ (m, none)
    ]
  ]
