-- ===== src/Operators/Case.antt =====
-- operators/case.py: CaseStream, which hands a value to one of its branches.
pub mod Laws
use pyservicelib.Base.{
  ℕ, zero, suc, Bool, true, false, List, [], ◌∷◌, ◌++◌, leb, length, get_elem?, if◌then◌else◌,
  Option, none, some, Result, ok, err, index_error, runtime_error,
}
use pyservicelib.Base.Int.{ℤ, pos, negsuc}
use pyservicelib.Operators.Flow.{Effect, Caller, Spans, raise, hand_on, spanned}

pub record WhenStream (S R : Type 0) : Type 0 where
  pub index : ℕ
  pub caller : Option (Caller S R)

-- The selector is there once the stream is built.
pub record CaseStream (S R : Type 0) : Type 0 where
  pub when_streams : List (WhenStream S R)
  pub when_func : Option (R → Result ℤ)

module _ {S A : Type 0} where
  pub when_consume : WhenStream S A → A → Effect S
  when_consume w = hand_on w.caller

  pub fresh : CaseStream S A
  fresh = record { when_streams = []; when_func = none }

  -- The index of a branch is set when it is added.
  pub add_stream : CaseStream S A → WhenStream S A → CaseStream S A
  add_stream c w = record c {
    when_streams = c.when_streams ++ (record w { index = length c.when_streams } ∷ []);
  }

  unfoldable pub build :
      (build_switch : List (WhenStream S A) → A → Result ℤ) → CaseStream S A → CaseStream S A
  build build_switch c = record c { when_func = some (build_switch c.when_streams) }

  -- The branch at a position that is in range.
  pub branch : List (WhenStream S A) → ℕ → A → Effect S
  branch [] i value = raise index_error
  branch (w ∷ ws) zero value = when_consume w value
  branch (w ∷ ws) (suc i) value = branch ws i value

  pub route : List (WhenStream S A) → Result ℤ → A → Effect S
  route ws (err e) value = raise e
  route ws (ok (negsuc n)) value = raise index_error
  route ws (ok (pos i)) value = if leb (length ws) i then raise index_error else branch ws i value

  pub consume_case : CaseStream S A → A → Effect S
  consume_case c value = elim c.when_func [
    | none ↦ raise runtime_error
    | some when_func ↦ route c.when_streams (when_func value) value
  ]

  unfoldable pub consume : (tracing : Bool) → CaseStream S A → A → Effect (S × Spans)
  consume tracing c value = spanned tracing (consume_case c value)
