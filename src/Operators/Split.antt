-- ===== src/Operators/Split.antt =====
-- operators/split.py: SplitStream and its links.
pub mod Laws
use pyservicelib.Base.{
  ℕ, Bool, true, false, not, ◌&&◌, ◌||◌, List, [], ◌∷◌, ◌++◌, if◌then◌else◌, Option, none, some,
  Result, ok, err, value_error,
}
use pyservicelib.Operators.Flow.{Effect, Caller, Spans, for_each, hand_on, spanned}

-- `consumer` says whether one is set; setting it makes the caller.
pub record SplitLink (S A : Type 0) : Type 0 where
  pub consumer : Bool
  pub caller : Option (Caller S A)

module _ {S A : Type 0} where
  abbrev pub link_consume : SplitLink S A → A → Effect S
  link_consume link = hand_on link.caller

  unfoldable pub consume : (tracing : Bool) → List (SplitLink S A) → A → Effect (S × Spans)
  consume tracing links value = spanned tracing (for_each (λ link. link_consume link value) links)

  unfoldable pub add_stream : List (SplitLink S A) → SplitLink S A → List (SplitLink S A)
  add_stream links link = links ++ (link ∷ [])

  -- The key of the sort is `not (caller is not None and caller.is_async)`.
  abbrev pub sort_key : SplitLink S A → Bool
  sort_key link = elim link.caller [ none ↦ true | some c ↦ not c.is_async ]

  -- Python's stable sort by a key that is a bool: False stands before True.
  pub insert : SplitLink S A → List (SplitLink S A) → List (SplitLink S A)
  insert x [] = x ∷ []
  insert x (y ∷ ys) = if not (sort_key x) || sort_key y then x ∷ y ∷ ys else y ∷ insert x ys

  pub sort : List (SplitLink S A) → List (SplitLink S A)
  sort [] = []
  sort (x ∷ xs) = insert x (sort xs)

  abbrev pub all_consumed : List (SplitLink S A) → Bool
  all_consumed [] = true
  all_consumed (x ∷ xs) = x.consumer && all_consumed xs

  unfoldable pub build : List (SplitLink S A) → Result (List (SplitLink S A))
  build links = if all_consumed links then ok (sort links) else err value_error
