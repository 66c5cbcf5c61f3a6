-- ===== src/Operators/Pass/Laws.antt =====
-- What FlatMapIterableStream hands on.
use pyservicelib.Base.{
  ◌≡◌, refl, ap, fun_ext, Bool, true, ◌&&◌, List, [], ◌∷◌, if◌then◌else◌, some, Result, ok, err,
  value_error, Bool-cases, inl, inr,
}
use pyservicelib.Operators.Flow.{Effect, Caller, Spans, done, raise, follow, for_each, spanned}
use pyservicelib.Operators.Pass.{element_consume, elements_consume, flat_map_consume}

module _ {A : Type 0} (is_instance : A → Bool) where
  -- The elements before the first one of a wrong type.
  abbrev pub instances : List A → List A
  instances [] = []
  instances (x ∷ xs) = if is_instance x then x ∷ instances xs else []

  abbrev pub all_instances : List A → Bool
  all_instances [] = true
  all_instances (x ∷ xs) = is_instance x && all_instances xs

module _ {S A : Type 0} (is_instance : A → Bool) where
  -- What is left to do after the elements of the right type.
  abbrev pub remainder : List A → Effect S
  remainder xs = if all_instances is_instance xs then done else raise value_error

  follow-right :
      (r : S × Result (Unit {0})) (f g : Effect S) → ((s : S) → f s ≡ g s) → follow r f ≡ follow r g
  follow-right (s, ok u) f g h = h s
  follow-right (s, err e) f g h = refl

  follow_assoc :
      (r : S × Result (Unit {0})) (f g : Effect S)
      → follow (follow r f) g ≡ follow r (λ s. follow (f s) g)
  follow_assoc (s, ok u) f g = refl
  follow_assoc (s, err e) f g = refl

  elements-instances :
      (c : Caller S A) (xs : List A) (s : S)
      → for_each (element_consume is_instance c) xs s
        ≡ follow (for_each c.call (instances is_instance xs) s) (remainder xs)
  unfolding for_each element_consume
  elements-instances c [] s = refl
  elements-instances c (x ∷ xs) s = elim (Bool-cases (is_instance x)) [
    | inl right ↦
        rw
          (
            right,
            follow_assoc (c.call x s) (for_each c.call (instances is_instance xs)) (remainder xs),
          )
          (follow-right (c.call x s) _ _ (elements-instances c xs))
    | inr wrong ↦ rw wrong refl
  ]

  -- A FlatMapIterableStream with a caller hands on the elements before the first one of a wrong
  -- type, each in its turn and as long as the caller does not raise; then it raises `ValueError`
  -- if there is an element of a wrong type. The span around it is the one of any stream.
  pub flat_map_consume-instances :
      (tracing : Bool) (c : Caller S A) (xs : List A) (w : S × Spans)
      → flat_map_consume tracing is_instance (some c) xs w
        ≡ spanned tracing
            (λ s. follow (for_each c.call (instances is_instance xs) s) (remainder xs))
            w
  unfolding flat_map_consume elements_consume
  flat_map_consume-instances tracing c xs w =
      ap (λ body. spanned tracing body w) (fun_ext (elements-instances c xs))
