-- ===== src/Pool/Heap/Order.antt =====
-- The keys of the heap: Python compares the tuples of a time or a priority and a number.
use pyservicelib.Base.{◌≡◌, ◌⊎◌, inl, inr, refl, Bool, true, false, arith, Option, none, some}

-- What the heap uses of its keys: `<=`, and the key that `promote` puts in place of another.
pub record KeyOrder (K : Type 0) : Type 0 where
  pub le : K → K → Bool
  pub total : (a b : K) → (le a b ≡ true) ⊎ (le b a ≡ true)
  pub trans : (a b c : K) → le a b ≡ true → le b c ≡ true → le a c ≡ true
  -- `(float('-inf'), key[1])`
  pub expedite : K → K
  pub expedited : (a : K) → le (expedite a) a ≡ true

-- The entries' keys by position: where nothing stands counts as greater than every key.
abbrev pub le_of : {K : Type 0} → KeyOrder K → Option K → Option K → Bool
le_of order a none = true
le_of order none (some b) = false
le_of order (some a) (some b) = order.le a b

pub le_of_total :
    {K : Type 0} (order : KeyOrder K) (a b : Option K)
    → (le_of order a b ≡ true) ⊎ (le_of order b a ≡ true)
le_of_total order a none = inl refl
le_of_total order none (some b) = inr refl
le_of_total order (some a) (some b) = order.total a b

pub le_of_trans :
    {K : Type 0} (order : KeyOrder K) (a b c : Option K)
    → le_of order a b ≡ true
    → le_of order b c ≡ true
    → le_of order a c ≡ true
le_of_trans order a b none p q = refl
le_of_trans order a none (some c) p q = absurd (ground arith)
le_of_trans order none (some b) (some c) p q = p
le_of_trans order (some a) (some b) (some c) p q = order.trans a b c p q
