-- ===== src/Runtime/Contexts/Subscriptions.antt =====
-- Contexts: what entries of a subscription come and go.
use pyservicelib.Base.{ℕ, ◌+◌, ◌≤◌, ◌<◌, ◌≡◌, refl, List, [], ◌∷◌, ◌++◌, ◌==◌, if◌then◌else◌, arith}
use pyservicelib.Pool.Queued.{without}
use pyservicelib.Pool.Queued.Steps.{occurs, occurs-append, occurs-without}
use pyservicelib.Runtime.Contexts.{write, cleanup, install}

pub occurs-install :
    (callbacks : ℕ → List ℕ) (n : ℕ) (path : List ℕ) (c m : ℕ)
    → occurs m (install callbacks n path c)
      ≡ occurs m (callbacks c) + (if n == m then occurs c path else 0)
occurs-install callbacks n [] c m = ground arith
occurs-install callbacks n (d ∷ path) c m = ground (
  arith,
  occurs-install (write callbacks d (callbacks d ++ (n ∷ []))) n path c m,
  occurs-append m (callbacks d) (n ∷ []),
)

pub occurs-cleanup :
    (callbacks : ℕ → List ℕ) (n : ℕ) (path : List ℕ)
    → ((c : ℕ) → occurs c path ≤ occurs n (callbacks c))
    → (c m : ℕ)
    → occurs m (cleanup callbacks n path c) + (if n == m then occurs c path else 0)
      ≡ occurs m (callbacks c)
occurs-cleanup callbacks n [] there c m = ground arith
occurs-cleanup callbacks n (d ∷ path) there c m =
    let at : 0 < occurs n (callbacks d) = ground (arith, there d) in
    let next : ℕ → List ℕ = write callbacks d (without n (callbacks d)) in
    let rest : (c : ℕ) → occurs c path ≤ occurs n (next c) =
      λ c. ground (arith, there c, occurs-without n n (callbacks d) at) in
    ground (arith, occurs-cleanup next n path rest c m, occurs-without n m (callbacks d) at)

without_absent : (n : ℕ) (xs : List ℕ) → occurs n xs ≡ 0 → without n xs ≡ xs
without_absent n [] e = refl
without_absent n (x ∷ xs) e = ground (arith, without_absent n xs)

pub cleanup_absent :
    (callbacks : ℕ → List ℕ) (n : ℕ) (path : List ℕ)
    → ((c : ℕ) → occurs n (callbacks c) ≡ 0)
    → (c m : ℕ) → occurs m (cleanup callbacks n path c) ≡ occurs m (callbacks c)
cleanup_absent callbacks n [] gone c m = refl
cleanup_absent callbacks n (d ∷ path) gone c m =
    let next : ℕ → List ℕ = write callbacks d (without n (callbacks d)) in
    let still : (c : ℕ) → occurs n (next c) ≡ 0 =
      λ c. ground (arith, gone c, without_absent n (callbacks d) (gone d)) in
    ground (arith, cleanup_absent next n path still c m, without_absent n (callbacks d) (gone d))
