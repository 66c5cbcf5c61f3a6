-- ===== src/Base/Outcome.antt =====
-- Exceptions as values. The constructors are the exception classes that the modelled code raises.
pub data Error : Type 0 where
  value_error struct_error type_error attribute_error unicode_error not_implemented_error : Error
  index_error key_error runtime_error overflow_error cancelled_error : Error

pub data Result {ℓ} (R : Type ℓ) : Type ℓ where
  ok : R → Result R
  err : Error → Result R

-- What follows a call that may raise.
infixl 5 ◌>>=◌
abbrev pub ◌>>=◌ {ℓ κ} : {R : Type ℓ} {S : Type κ} → Result R → (R → Result S) → Result S
err raised >>= next = err raised
ok value >>= next = next value
