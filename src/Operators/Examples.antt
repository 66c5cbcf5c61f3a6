-- ===== src/Operators/Examples.antt =====
-- The theorems about the join operators at small inputs.
use pyservicelib.Base.{
  ◌↔◌, replicate, some, err, value_error, ltb, ◌++◌, ℕ, ◌≡◌, refl, Bool, true, false, List, [], ◌∷◌,
  none, ℕ_discrete, Result, ok, if◌then◌else◌, index_error,
}
use pyservicelib.Base.Int.{ℤ, pos}
use pyservicelib.Base.Dicts.{get}
use pyservicelib.Store.Joining.{Storage, Times, raised, returned, append_at, init}
use pyservicelib.Store.Joining.Rounds.{Leaves, live}
use pyservicelib.Store.Joining.Steps.{fresh, Reachable-IsValid}
use pyservicelib.Operators.Join.{multi_consume, left, outer, join_callback, consume}
use pyservicelib.Operators.Join.Laws.{
  multi_consume-first_right, emits, join_callback-emits, consume-first_left,
}
use pyservicelib.Operators.Flow.{Caller, Spans, follow, for_each, spanned}
use pyservicelib.Operators.Split.{SplitLink, build}
use pyservicelib.Operators.Split.Laws.{HaveConsumers, asynchronous, direct, build-asynchronous}
use pyservicelib.Operators.Case.{WhenStream, fresh as fresh_case, build as build_case, consume_case}
use pyservicelib.Operators.Case.Laws.{added, numbered, expected, consume_case-expected}
use pyservicelib.Operators.Pass.{flat_map_consume}
use pyservicelib.Operators.Pass.Laws.{instances, remainder, flat_map_consume-instances}

abbrev always : List ℕ → List ℕ → Result Bool
always xs ys = ok true

join_callback-emits_example :
    join_callback left always ((3 ∷ []) ∷ [] ∷ [])
    ≡ (if emits left false true then always (3 ∷ []) [] else ok false)
join_callback-emits_example = join_callback-emits left always (3 ∷ []) [] []

abbrev no_items : Storage ℕ ℕ
no_items = init false true

abbrev at_ten : Times
at_ten = record { looked = 10; created = 10; locked = 11; renewed = 12 }

no_items-live : live ℕ_discrete no_items 7 10 ≡ none
unfolding init get
no_items-live = refl

consume-first_left_example :
    (consume ℕ_discrete outer (λ k. always) no_items 7 0 3 100 at_ten false).1 ≡ raised index_error
consume-first_left_example =
    consume-first_left ℕ_discrete outer (λ k. always) no_items 7 3 100 at_ten false refl
      (Reachable-IsValid ℕ_discrete false true no_items fresh) no_items-live refl

-- A caller that writes down what it is given.
abbrev noting : Bool → Caller (List ℕ) ℕ
noting is_async = record { call = λ value log. (value ∷ log, ok tt); is_async = is_async }

abbrev link_to : Bool → SplitLink (List ℕ) ℕ
link_to is_async = record { consumer = true; caller = some (noting is_async) }

abbrev two_links : List (SplitLink (List ℕ) ℕ)
two_links = link_to false ∷ link_to true ∷ []

build-asynchronous_example :
    ((build two_links ≡ ok (link_to true ∷ link_to false ∷ [])) ↔ (
      HaveConsumers two_links
      × (link_to true ∷ link_to false ∷ [] ≡ asynchronous two_links ++ direct two_links)))
    × ((build two_links ≡ err value_error) ↔ ¬ HaveConsumers two_links)
build-asynchronous_example = build-asynchronous two_links (link_to true ∷ link_to false ∷ [])

abbrev one_branch : List (WhenStream (List ℕ) ℕ)
one_branch = record { index = 5; caller = some (noting false) } ∷ []

abbrev to_first : List (WhenStream (List ℕ) ℕ) → ℕ → Result ℤ
to_first ws value = ok (pos 0)

consume_case-expected_example :
    consume_case (build_case to_first (added fresh_case one_branch)) 8 []
    ≡ expected one_branch (to_first (numbered 0 one_branch) 8) 8 []
consume_case-expected_example = consume_case-expected to_first one_branch 8 []

abbrev small : ℕ → Bool
small n = ltb n 10

abbrev no_spans : Spans
no_spans = record { started = 0; ended = 0 }

flat_map_consume-instances_example :
    flat_map_consume true small (some (noting false)) (3 ∷ 12 ∷ 4 ∷ []) ([], no_spans)
    ≡ spanned true
        (λ s.
          follow
            (for_each (noting false).call (instances small (3 ∷ 12 ∷ 4 ∷ [])) s)
            (remainder small (3 ∷ 12 ∷ 4 ∷ [])))
        ([], no_spans)
flat_map_consume-instances_example =
    flat_map_consume-instances small true (noting false) (3 ∷ 12 ∷ 4 ∷ []) ([], no_spans)

abbrev takes_all : ℕ → List (List ℕ) → Result Bool
takes_all key values = ok true

multi_consume-first_right_example :
    ((multi_consume ℕ_discrete takes_all no_items 7 2 3 100 at_ten false).1 ≡ returned false)
    × Leaves ℕ_discrete 7
        (append_at (replicate 3 []) 2 3)
        (ok false)
        (multi_consume ℕ_discrete takes_all no_items 7 2 3 100 at_ten false).0
multi_consume-first_right_example =
    multi_consume-first_right ℕ_discrete takes_all no_items 7 1 3 100 at_ten false
      (Reachable-IsValid ℕ_discrete false true no_items fresh) no_items-live refl
