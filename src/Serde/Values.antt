-- ===== src/Serde/Values.antt =====
-- runtime/serde/serde.py: the Python values that the serializers are handed, and what their code
-- uses of them. `F` is the type of floating point numbers.
use pyservicelib.Base.{
  ℕ, ◌≡◌, refl, ap, Bool, true, false, not, List, [], ◌∷◌, map, ◌==◌, if◌then◌else◌, Result, ok,
  err, Error, type_error, ◌>>=◌,
}
use pyservicelib.Base.Int.{ℤ, pos, negsuc}
use pyservicelib.Serde.Struct.{Bytes}

mutual
  pub data Value (F : Type 0) : Type 0 where
    null : Value F
    bool : Bool → Value F
    int : ℤ → Value F
    float : F → Value F
    str : List ℕ → Value F
    bytes : Bytes → Value F
    list : Items F → Value F
    tuple : Items F → Value F
    dict : Entries F → Value F

  pub data Items (F : Type 0) : Type 0 where
    nil : Items F
    cons : Value F → Items F → Items F

  pub data Entries (F : Type 0) : Type 0 where
    end : Entries F
    entry : Value F → Value F → Entries F → Entries F

-- What CPython decides about the keys of a dict, and about numbers.
pub record Dynamic (F : Type 0) : Type 0 where
  pub hashable : Value F → Bool
  pub same_key : Value F → Value F → Bool
  pub float_of_int : ℤ → Result F
  pub float_truth : F → Bool

-- A bool is an int.
abbrev pub of_bool : Bool → ℤ
of_bool b = if b then pos 1 else pos 0

abbrev pub is_empty {ℓ} : {A : Type ℓ} → List A → Bool
is_empty [] = true
is_empty (x ∷ xs) = false

abbrev pub is_zero : ℤ → Bool
is_zero (pos n) = n == 0
is_zero (negsuc n) = false

-- `[f(x) for x in xs]`
unfoldable pub each {ℓ κ} : {A : Type ℓ} {B : Type κ} → (A → Result B) → List A → Result (List B)
each f [] = ok []
each f (x ∷ xs) = do y ← f x; ys ← each f xs; ok (y ∷ ys)

module _ {F : Type 0} where
  abbrev pub elements : Items F → List (Value F)
  elements nil = []
  elements (cons x xs) = x ∷ elements xs

  abbrev pub items : List (Value F) → Items F
  items [] = nil
  items (x ∷ xs) = cons x (items xs)

  abbrev pub pairs : Entries F → List (Value F × Value F)
  pairs end = []
  pairs (entry k v m) = (k, v) ∷ pairs m

  abbrev pub entries : List (Value F × Value F) → Entries F
  entries [] = end
  entries ((k, v) ∷ m) = entry k v (entries m)

  pub items-elements : (xs : Items F) → items (elements xs) ≡ xs
  items-elements nil = refl
  items-elements (cons x xs) = ap (cons x) (items-elements xs)

  pub elements-items : (xs : List (Value F)) → elements (items xs) ≡ xs
  elements-items [] = refl
  elements-items (x ∷ xs) = ap (◌∷◌ x) (elements-items xs)

  pub entries-pairs : (m : Entries F) → entries (pairs m) ≡ m
  entries-pairs end = refl
  entries-pairs (entry k v m) = ap (entry k v) (entries-pairs m)

  -- `v & mask`, or `struct` on an integer format: the error where `v` is no integer.
  unfoldable pub as_int : Error → Value F → Result ℤ
  as_int e (int v) = ok v
  as_int e (bool b) = ok (of_bool b)
  as_int e _ = err e

  -- What `for x in value` goes through.
  unfoldable pub iterate : Value F → Result (List (Value F))
  iterate (list xs) = ok (elements xs)
  iterate (tuple xs) = ok (elements xs)
  iterate (str s) = ok (map (λ c. str (c ∷ [])) s)
  iterate (bytes s) = ok (map (λ c. int (pos c)) s)
  iterate (dict m) = ok (map (λ e. e.0) (pairs m))
  iterate _ = err type_error

  module _ (dyn : Dynamic F) where
    -- `struct` on a float format.
    unfoldable pub as_float : Error → Value F → Result F
    as_float e (float x) = ok x
    as_float e (int v) = dyn.float_of_int v
    as_float e (bool b) = dyn.float_of_int (of_bool b)
    as_float e _ = err e

    -- `bool(value)`
    unfoldable pub truth : Value F → Bool
    truth null = false
    truth (bool b) = b
    truth (int v) = not (is_zero v)
    truth (float x) = dyn.float_truth x
    truth (str s) = not (is_empty s)
    truth (bytes s) = not (is_empty s)
    truth (list xs) = not (is_empty (elements xs))
    truth (tuple xs) = not (is_empty (elements xs))
    truth (dict m) = not (is_empty (pairs m))

    -- `d[k] = v`: a key keeps its place.
    unfoldable pub set_item :
        Value F → Value F → List (Value F × Value F) → List (Value F × Value F)
    set_item k v [] = (k, v) ∷ []
    set_item k v ((j, w) ∷ m) = if dyn.same_key j k then (j, v) ∷ m else (j, w) ∷ set_item k v m

    -- `dict(zip(keys, values))`, from a dict on.
    unfoldable pub dict_zip :
        List (Value F × Value F)
        → List (Value F)
        → List (Value F)
        → Result (List (Value F × Value F))
    dict_zip m [] values = ok m
    dict_zip m (k ∷ ks) [] = ok m
    dict_zip m (k ∷ ks) (v ∷ vs) =
        let rest = dict_zip (set_item k v m) ks vs in
        if dyn.hashable k then rest else err type_error
