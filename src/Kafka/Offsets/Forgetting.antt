-- ===== src/Kafka/Offsets/Forgetting.antt =====
-- What a flush leaves of the marks, and what it commits.
use pyservicelib.Base.{
  ℕ, max, ◌≡◌, inl, inr, refl, [], ◌∷◌, none, some, leb, if◌then◌else◌, ℕ_discrete, arith,
  Bool-cases,
}
use pyservicelib.Base.Dicts.{Dict, get, delete, get-delete, IsUnique, delete-IsUnique}
use pyservicelib.Kafka.Offsets.{or_default, nonempty, forget}
use pyservicelib.Kafka.Offsets.Histories.{raise_to, raise_all, in_flight, IsFlight}

pub in_flight-nonempty : (m : Dict ℕ ℕ) (p : ℕ) → in_flight (nonempty m) p ≡ get ℕ_discrete m p
unfolding get
in_flight-nonempty [] p = refl
in_flight-nonempty (entry ∷ m) p = refl

pub nonempty-IsFlight : (m : Dict ℕ ℕ) → IsUnique ℕ_discrete m → IsFlight (nonempty m)
nonempty-IsFlight [] u = tt
nonempty-IsFlight (entry ∷ m) u = u

-- What the loop after a commit leaves of the marks, and what the commit says.
pub get-forget :
    (marked offsets : Dict ℕ ℕ) (p : ℕ)
    → IsUnique ℕ_discrete offsets
    → get ℕ_discrete (forget marked offsets) p ≡ elim (get ℕ_discrete offsets p) [
      | none ↦ get ℕ_discrete marked p
      | some offset ↦
          if leb (or_default (get ℕ_discrete marked p) 0) offset
          then none
          else get ℕ_discrete marked p
    ]
unfolding get
get-forget marked [] p u = refl
get-forget marked ((q, offset) ∷ offsets) p (new, u) = ground (
  arith,
  get-delete ℕ_discrete marked q p,
  get-forget
      (if leb (or_default (get ℕ_discrete marked q) 0) offset
        then delete ℕ_discrete marked q
        else marked)
      offsets p u,
)

pub raise_all_at :
    (f : ℕ → ℕ) (offsets : Dict ℕ ℕ) (p : ℕ)
    → IsUnique ℕ_discrete offsets
    → raise_all f offsets p ≡ max (f p) (or_default (get ℕ_discrete offsets p) 0)
unfolding get
raise_all_at f [] p u = omega arith
raise_all_at f ((q, offset) ∷ offsets) p (new, u) =
    ground (arith, raise_all_at (raise_to f q offset) offsets p u)

pub forget-IsUnique :
    (marked offsets : Dict ℕ ℕ)
    → IsUnique ℕ_discrete marked
    → IsUnique ℕ_discrete (forget marked offsets)
forget-IsUnique marked [] u = u
forget-IsUnique marked ((q, offset) ∷ offsets) u =
    elim (Bool-cases (leb (or_default (get ℕ_discrete marked q) 0) offset)) [
      | inl e ↦ rw e (
          forget-IsUnique (delete ℕ_discrete marked q) offsets
            (delete-IsUnique ℕ_discrete marked q u))
      | inr e ↦ rw e (forget-IsUnique marked offsets u)
    ]
