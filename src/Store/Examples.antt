-- ===== src/Store/Examples.antt =====
-- The theorems about the stores on small histories.
use pyservicelib.Base.{
  ℕ, ◌≡◌, refl, Bool, true, false, List, [], ◌∷◌, none, some, ℕ_discrete, Result, ok,
}
use pyservicelib.Base.Dicts.{get, put}
use pyservicelib.Store.Rotating.{init as init_map}
use pyservicelib.Store.Rotating.Refinement.{
  Call, set_call, create_call, get_call, pop_call, rotate_timer, run, dict_run, run-dict_run,
}
use pyservicelib.Store.Joining.{
  Storage, Times, init, admit, expire, rotate, join_value, from_prev, create, expired, assign,
}
use pyservicelib.Store.Joining.Inv.{IsValid}
use pyservicelib.Store.Joining.Rotation.{Keeps, rotate-Keeps}
use pyservicelib.Store.Joining.Rounds.{IsOpen, join_round-waiting, round, asked, answer, Leaves}
use pyservicelib.Store.Joining.Spin.{join_value-expire}
use pyservicelib.Store.Joining.Steps.{Reachable, fresh, after, admitted, rotated, Reachable-IsValid}

abbrev history : List (Call ℕ ℕ)
history =
    set_call 1 10
    ∷ rotate_timer
    ∷ create_call 1 11
    ∷ set_call 2 20
    ∷ rotate_timer
    ∷ pop_call 1
    ∷ get_call 1
    ∷ get_call 2
    ∷ []

run-dict_run_example : run ℕ_discrete (init_map 0) history ≡ dict_run ℕ_discrete [] history
run-dict_run_example = run-dict_run ℕ_discrete 0 history

abbrev at_ten : Times
at_ten = record { looked = 10; created = 10; locked = 11; renewed = 12 }

-- A first left value for key 7, which lives for 100, and then a rotation.
abbrev empty_storage : Storage ℕ ℕ
empty_storage = init false true

abbrev one_item : Storage ℕ ℕ
one_item = (admit ℕ_discrete empty_storage 7 0 100 at_ten true).0

one_item-Reachable : Reachable ℕ_discrete false true (rotate ℕ_discrete one_item)
one_item-Reachable =
    after one_item (rotate ℕ_discrete one_item)
      (after empty_storage one_item fresh (admitted 7 0 100 at_ten true)) rotated

Reachable-IsValid_example : IsValid ℕ_discrete (rotate ℕ_discrete one_item)
Reachable-IsValid_example =
    Reachable-IsValid ℕ_discrete false true (rotate ℕ_discrete one_item) one_item-Reachable

one_item-IsValid : IsValid ℕ_discrete one_item
one_item-IsValid =
    Reachable-IsValid ℕ_discrete false true one_item
      (after empty_storage one_item fresh (admitted 7 0 100 at_ten true))

rotate-Keeps_example : Keeps ℕ_discrete one_item (rotate ℕ_discrete one_item)
rotate-Keeps_example = rotate-Keeps ℕ_discrete one_item one_item-IsValid

-- True when both sides have a value.
abbrev both : List (List ℕ) → Result Bool
both ((x ∷ xs) ∷ (y ∷ ys) ∷ rest) = ok true
both _ = ok false

one_item-IsOpen : IsOpen ℕ_discrete one_item 7 100 at_ten
unfolding admit from_prev create init get put ℕ_discrete
one_item-IsOpen = (refl, refl)

join_round-waiting_example :
    ((round ℕ_discrete one_item 7 1 5 both 100 at_ten true).1
      ≡ answer (both (asked ℕ_discrete one_item 7 1 5 both 100 at_ten true)))
    × IsValid ℕ_discrete (round ℕ_discrete one_item 7 1 5 both 100 at_ten true).0
    × Leaves ℕ_discrete 7
        (asked ℕ_discrete one_item 7 1 5 both 100 at_ten true)
        (both (asked ℕ_discrete one_item 7 1 5 both 100 at_ten true))
        (round ℕ_discrete one_item 7 1 5 both 100 at_ten true).0
join_round-waiting_example =
    join_round-waiting ℕ_discrete one_item 7 1 5 both 100 at_ten true one_item-IsValid
      one_item-IsOpen

-- The request is cancelled at 20, long before its deadline.
abbrev expired_item : Storage ℕ ℕ
expired_item = record one_item {
  items = assign one_item.items 0 (record (one_item.items 0) { processed = true });
}

one_item-there : get ℕ_discrete one_item.current 7 ≡ some 0
unfolding admit from_prev create init get put ℕ_discrete
one_item-there = refl

one_item-expire : expire ℕ_discrete one_item 0 20 ≡ some (expired_item, (one_item.items 0).values)
unfolding admit from_prev create init get put expire
one_item-expire = refl

one_item-young : expired (one_item.items 0).deadline 10 ≡ false
unfolding admit from_prev create init get put ℕ_discrete
one_item-young = refl

join_value-expire_example :
    join_value ℕ_discrete expired_item 7 1 5 both 100 true (at_ten ∷ at_ten ∷ []) ≡ none
join_value-expire_example =
    join_value-expire ℕ_discrete 7 1 5 both 100 true one_item expired_item 0 20
      (one_item.items 0).values (at_ten ∷ at_ten ∷ []) one_item-there one_item-expire
      (one_item-young, (one_item-young, tt))
