-- ===== src/Base/Loops.antt =====
-- A loop on fuel, and how it ends: `out_of_fuel` still runs when the fuel is used up.
use mathlib.Core.Path.{◌≡◌, refl, subst}
use mathlib.Core.Bool.{Bool, true, false}
use native.Mathlib.Omega.{arith}
use mathlib.Core.Option.{Option, none, some}
use pyservicelib.Base.Outcome.{Error}

pub data Loop {ℓ} (R : Type ℓ) : Type ℓ where
  out_of_fuel : Loop R
  raises : Error → Loop R
  ends : R → Loop R

infixl 5 ◌>>=◌
abbrev pub ◌>>=◌ {ℓ κ} : {R : Type ℓ} {S : Type κ} → Loop R → (R → Loop S) → Loop S
out_of_fuel >>= next = out_of_fuel
raises e >>= next = raises e
ends value >>= next = next value

-- What is read at a position or a key, or the exception where nothing is there.
abbrev pub found_or {ℓ} : {R : Type ℓ} → Option R → Error → Loop R
found_or none e = raises e
found_or (some value) e = ends value

-- The loop ends by itself, without an exception, in a state with `P`.
abbrev pub Ends : {R : Type 0} → (R → Type 0) → Loop R → Type 0
Ends P out_of_fuel = ⊥
Ends P (raises e) = ⊥
Ends P (ends value) = P value

pub Ends-bind :
    {R S : Type 0} (P : R → Type 0) (Q : S → Type 0) (l : Loop R) (next : R → Loop S)
    → Ends P l
    → ((r : R) → P r → Ends Q (next r))
    → Ends Q (l >>= next)
Ends-bind P Q out_of_fuel next h k = h
Ends-bind P Q (raises e) next h k = h
Ends-bind P Q (ends r) next h k = k r h

pub Ends-map :
    {R : Type 0} (P Q : R → Type 0) (l : Loop R) → Ends P l → ((r : R) → P r → Q r) → Ends Q l
Ends-map P Q out_of_fuel h k = h
Ends-map P Q (raises e) h k = h
Ends-map P Q (ends r) h k = k r h

pub Ends-cases :
    {R : Type 0} (P : R → Type 0) (b : Bool) (l r : Loop R)
    → (b ≡ true → Ends P l)
    → (b ≡ false → Ends P r)
    → Ends P (elim b [ true ↦ l | false ↦ r ])
Ends-cases P true l r h k = h refl
Ends-cases P false l r h k = k refl

-- A read where something stands.
pub Ends-found :
    {R S : Type 0} (Q : S → Type 0) (o : Option R) (r : R) (e : Error) (next : R → Loop S)
    → o ≡ some r
    → Ends Q (next r)
    → Ends Q (found_or o e >>= next)
Ends-found Q none r e next h k = absurd (ground arith)
Ends-found Q (some s) r e next h k = subst (λ t. Ends Q (next t)) (ground arith) k

pub Ends-option :
    {A R : Type 0} (P : R → Type 0) (o : Option A) (l : Loop R) (next : A → Loop R)
    → (o ≡ none → Ends P l)
    → ((a : A) → o ≡ some a → Ends P (next a))
    → Ends P (elim o [ none ↦ l | some a ↦ next a ])
Ends-option P none l next h k = h refl
Ends-option P (some a) l next h k = k a refl
