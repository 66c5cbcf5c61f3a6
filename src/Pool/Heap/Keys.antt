-- ===== src/Pool/Heap/Keys.antt =====
-- The keys of the pools: tuples of a priority or a time, which is a float, and a number. Python
-- compares them by the first place in which they differ.
use pyservicelib.Base.{ℕ, ◌≡◌, ◌⊎◌, Bool, true, ◌&&◌, leb, if◌then◌else◌, arith}
use pyservicelib.Pool.Heap.Order.{KeyOrder}

-- What is used of floats, none of them a NaN: `<=`, and `float('-inf')`.
pub record Floats (F : Type 0) : Type 0 where
  pub le : F → F → Bool
  pub total : (a b : F) → (le a b ≡ true) ⊎ (le b a ≡ true)
  pub trans : (a b c : F) → le a b ≡ true → le b c ≡ true → le a c ≡ true
  pub minus_inf : F
  pub minus_inf_least : (a : F) → le minus_inf a ≡ true

module _ {F : Type 0} (floats : Floats F) where
  -- `a == b`
  abbrev pub same : F → F → Bool
  same a b = floats.le a b && floats.le b a

  abbrev pub le : F × ℕ → F × ℕ → Bool
  le (a, m) (b, n) = if same a b then leb m n else floats.le a b

  pub le_total : (a b : F × ℕ) → (le a b ≡ true) ⊎ (le b a ≡ true)
  le_total (a, m) (b, n) = ground (arith, floats.total a b)

  pub le_trans : (a b c : F × ℕ) → le a b ≡ true → le b c ≡ true → le a c ≡ true
  le_trans (a, m) (b, n) (c, k) p q =
      ground (arith, floats.trans a b c, floats.trans b c a, floats.trans c a b, floats.trans c b a)

  abbrev pub expedite : F × ℕ → F × ℕ
  expedite (a, m) = (floats.minus_inf, m)

  pub expedite_le : (a : F × ℕ) → le (expedite a) a ≡ true
  expedite_le (a, m) = ground (arith, floats.minus_inf_least a)

  abbrev pub keys : KeyOrder (F × ℕ)
  keys = record {
    le = le;
    total = le_total;
    trans = le_trans;
    expedite = expedite;
    expedited = expedite_le;
  }
