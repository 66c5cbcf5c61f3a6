-- ===== src/Operators/Pass.antt =====
-- operators/: filter.py, flatmapiterable.py, merge.py, link.py, input.py and error.py, the streams
-- that hand on a value, a part of it, or nothing.
pub mod Laws
use pyservicelib.Base.{
  ℕ, suc, Bool, true, false, List, [], ◌∷◌, if◌then◌else◌, Option, none, some, Result, ok, err,
  value_error,
}
use pyservicelib.Operators.Flow.{Effect, Caller, Spans, done, raise, for_each, hand_on, spanned}

module _ {S A : Type 0} where
  -- FilterStream, by the answer of the function of the user.
  abbrev pub filter_answer : Result Bool → Option (Caller S A) → A → Effect S
  filter_answer (err e) caller value = raise e
  filter_answer (ok true) caller value = hand_on caller value
  filter_answer (ok false) caller value = done

  abbrev pub filter_consume :
      (tracing : Bool) → (filter : A → Result Bool) → Option (Caller S A) → A → Effect (S × Spans)
  filter_consume tracing filter caller value =
      spanned tracing (filter_answer (filter value) caller value)

  -- FlatMapIterableStream: one element, and all.
  pub element_consume : (is_instance : A → Bool) → Caller S A → A → Effect S
  element_consume is_instance c elem = if is_instance elem then c.call elem else raise value_error

  pub elements_consume : (is_instance : A → Bool) → Option (Caller S A) → List A → Effect S
  elements_consume is_instance none value = done
  elements_consume is_instance (some c) value = for_each (element_consume is_instance c) value

  pub flat_map_consume :
      (tracing : Bool)
      → (is_instance : A → Bool) → Option (Caller S A)
      → List A
      → Effect (S × Spans)
  flat_map_consume tracing is_instance caller value =
      spanned tracing (elements_consume is_instance caller value)

  abbrev pub merge_consume : (tracing : Bool) → Option (Caller S A) → A → Effect (S × Spans)
  merge_consume tracing caller value = spanned tracing (hand_on caller value)

  abbrev pub link_consume : (tracing : Bool) → Option (Caller S A) → A → Effect (S × Spans)
  link_consume tracing caller value = spanned tracing (hand_on caller value)

  abbrev pub input_consume : (tracing : Bool) → Option (Caller S A) → A → Effect (S × Spans)
  input_consume tracing caller value = spanned tracing (hand_on caller value)

  -- ErrorStream counts what it hands on, also where the caller raises.
  abbrev pub error_out : Option (Caller S A) → A → Effect (S × ℕ)
  error_out none value (s, emitted_count) = ((s, emitted_count), ok tt)
  error_out (some c) value (s, emitted_count) =
      let (s', r) = c.call value s in ((s', suc emitted_count), r)
