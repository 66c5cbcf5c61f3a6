-- ===== src/Base/Dicts.antt =====
-- Python's dict as an association list, over keys with a decidable equality.
use Prim.Native.Nat.{◌+◌}
use mathlib.Core.Path.{◌≡◌, refl}
use mathlib.Core.Logic.{◌⊎◌, ite}
use mathlib.Core.Bool.{Bool, true, false}
use mathlib.Core.List.{List, [], ◌∷◌}
use mathlib.Core.Option.{Option, none, some}
use native.Mathlib.Omega.{arith}
use pyservicelib.Base.Lists.{length}

abbrev pub Dict : Type 0 → Type 0 → Type 0
Dict K V = List (K × V)

abbrev pub is_some {ℓ} : {A : Type ℓ} → Option A → Bool
is_some none = false
is_some (some a) = true

-- The first of two that is there.
abbrev pub or_else {ℓ} : {A : Type ℓ} → Option A → Option A → Option A
or_else (some a) o = some a
or_else none o = o

module _ {K V : Type 0} (dec : Discrete K) where
  -- `d.get(k)`
  unfoldable pub get : Dict K V → K → Option V
  get [] k = none
  get ((j, v) ∷ m) k = ite (dec j k) (some v) (get m k)

  -- `d[k] = v`: a key that is there keeps its place.
  unfoldable pub put : Dict K V → K → V → Dict K V
  put [] k v = (k, v) ∷ []
  put ((j, w) ∷ m) k v = ite (dec j k) ((j, v) ∷ m) ((j, w) ∷ put m k v)

  -- `del d[k]`
  pub delete : Dict K V → K → Dict K V
  delete [] k = []
  delete ((j, w) ∷ m) k = ite (dec j k) (delete m k) ((j, w) ∷ delete m k)

  -- `k in d`
  abbrev pub has : Dict K V → K → Bool
  has m k = is_some (get m k)

  -- `for k, v in other.items(): d[k] = v`
  unfoldable pub update : Dict K V → Dict K V → Dict K V
  update m [] = m
  update m ((k, v) ∷ other) = update (put m k v) other

  -- No key stands twice.
  abbrev pub IsUnique : Dict K V → Type 0
  IsUnique [] = Unit {0}
  IsUnique ((k, v) ∷ m) = (get m k ≡ none) × IsUnique m

  pub get-put :
      (m : Dict K V) (k : K) (v : V) (j : K) → get (put m k v) j ≡ ite (dec k j) (some v) (get m j)
  unfolding get put
  get-put [] k v j = refl
  get-put ((i, w) ∷ m) k v j = ground (arith, get-put m k v j)

  pub get-delete : (m : Dict K V) (k j : K) → get (delete m k) j ≡ ite (dec k j) none (get m j)
  unfolding get delete
  get-delete [] k j = ground arith
  get-delete ((i, w) ∷ m) k j = ground (arith, get-delete m k j)

  -- What stands in the other dict wins.
  pub get-update :
      (m other : Dict K V) (j : K)
      → IsUnique other
      → get (update m other) j ≡ or_else (get other j) (get m j)
  unfolding get update
  get-update m [] j u = refl
  get-update m ((k, v) ∷ other) j (new, u) =
      ground (arith, get-update (put m k v) other j u, get-put m k v j)

  pub put-IsUnique : (m : Dict K V) (k : K) (v : V) → IsUnique m → IsUnique (put m k v)
  unfolding get put
  put-IsUnique [] k v u = (ground arith, tt)
  put-IsUnique ((j, w) ∷ m) k v (new, u) = ground (arith, get-put m k v j, put-IsUnique m k v u)

  pub delete-IsUnique : (m : Dict K V) (k : K) → IsUnique m → IsUnique (delete m k)
  unfolding delete
  delete-IsUnique [] k u = tt
  delete-IsUnique ((j, w) ∷ m) k (new, u) = ground (arith, get-delete m k j, delete-IsUnique m k u)

  pub update-IsUnique : (m other : Dict K V) → IsUnique m → IsUnique (update m other)
  unfolding update
  update-IsUnique m [] u = u
  update-IsUnique m ((k, v) ∷ other) u = update-IsUnique (put m k v) other (put-IsUnique m k v u)

  length-put_new :
      (m : Dict K V) (k : K) (v : V) → get m k ≡ none → length (put m k v) ≡ length m + 1
  unfolding get put
  length-put_new [] k v h = omega arith
  length-put_new ((j, w) ∷ m) k v h = ground (arith, length-put_new m k v)

  length-put_old :
      (m : Dict K V) (k : K) (v w : V) → get m k ≡ some w → length (put m k v) ≡ length m
  unfolding get put
  length-put_old [] k v w h = cc
  length-put_old ((j, x) ∷ m) k v w h = ground (arith, length-put_old m k v w)

  delete_absent : (m : Dict K V) (k : K) → get m k ≡ none → delete m k ≡ m
  unfolding get delete
  delete_absent [] k h = refl
  delete_absent ((j, w) ∷ m) k h = ground (arith, delete_absent m k)

  length-delete :
      (m : Dict K V) (k : K) (v : V)
      → IsUnique m
      → get m k ≡ some v
      → length (delete m k) + 1 ≡ length m
  unfolding get delete
  length-delete [] k v u h = cc
  length-delete ((j, w) ∷ m) k v (new, u) h =
      ground (arith, length-delete m k v u, delete_absent m k)

  -- Two dicts with no key in common.
  abbrev pub AreDisjoint : Dict K V → Dict K V → Type 0
  AreDisjoint m other = (k : K) → (get m k ≡ none) ⊎ (get other k ≡ none)

  pub length-update :
      (m other : Dict K V)
      → IsUnique other
      → AreDisjoint m other
      → length (update m other) ≡ length m + length other
  unfolding update get
  length-update m [] u d = omega arith
  length-update m ((k, v) ∷ other) (new, u) d =
      let absent : get m k ≡ none = ground (arith, d k) in
      let apart : AreDisjoint (put m k v) other = λ j. ground (arith, d j, get-put m k v j) in
      omega (arith, length-update (put m k v) other u apart, length-put_new m k v absent)

  pub length-put :
      (m : Dict K V) (k : K) (v : V)
      → length (put m k v) ≡ length m + elim (get m k) [ none ↦ 1 | some w ↦ 0 ]
  unfolding get put
  length-put [] k v = omega arith
  length-put ((j, w) ∷ m) k v = ground (arith, length-put m k v)

  pub length-delete_count :
      (m : Dict K V) (k : K)
      → IsUnique m
      → length (delete m k) + elim (get m k) [ none ↦ 0 | some w ↦ 1 ] ≡ length m
  unfolding get delete
  length-delete_count [] k u = omega arith
  length-delete_count ((j, w) ∷ m) k (new, u) =
      ground (arith, length-delete_count m k u, delete_absent m k)
