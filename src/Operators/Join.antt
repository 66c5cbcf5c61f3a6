-- ===== src/Operators/Join.antt =====
-- operators/join.py and operators/multijoin.py: what the operators ask of the join storage. The
-- functions of the user are parameters. A position past a list's end is `IndexError`.
pub mod Laws
use pyservicelib.Base.{
  ℕ, Bool, true, false, not, ◌&&◌, List, [], ◌∷◌, ltb, ◌==◌, if◌then◌else◌, length, get_elem?,
  Option, none, some, Result, ok, err, index_error, ◌>>=◌,
}
use pyservicelib.Base.Dicts.{}
use pyservicelib.Store.Joining.{Storage, Times, Outcome, join_round}

-- api/models/join_type.py
pub data JoinType : Type 0 where
  undefined : JoinType
  inner : JoinType
  left : JoinType
  right : JoinType
  outer : JoinType

module _ {A : Type 0} where
  -- `values[n]`
  pub item_at : List A → ℕ → Result A
  item_at xs n = elim (get_elem? xs n) [ none ↦ err index_error | some x ↦ ok x ]

module _ {V : Type 0} where
  -- `len(values) > n and len(values[n]) != 0`
  pub has_at : List (List V) → ℕ → Bool
  has_at values n = elim (get_elem? values n) [ none ↦ false | some xs ↦ not (length xs == 0) ]

  pub can_call : JoinType → List (List V) → Bool
  can_call undefined values = false
  can_call inner values = has_at values 0 && has_at values 1
  can_call left values = has_at values 0
  can_call right values = has_at values 1
  can_call outer values = true

  -- The callback of `JoinStream._consume`. The arguments of the call are evaluated first.
  pub join_callback :
      JoinType → (join : List V → List V → Result Bool) → List (List V) → Result Bool
  join_callback join_type join values =
      if can_call join_type values
      then (item_at values 0 >>= λ left_values.
          (item_at values 1 >>= λ right_values. join left_values right_values))
      else ok false

  -- The callback of `MultiJoinStream._consume`.
  pub multi_join_callback : (multi_join : List (List V) → Result Bool) → List (List V) → Result Bool
  multi_join_callback multi_join values = if has_at values 0 then multi_join values else ok false

module _ {K V : Type 0} (dec : Discrete K) where
  -- One round of `JoinStream._consume`: index 0 is `consume`, index 1 is `consume_right`.
  pub consume :
      JoinType
      → (join : K → List V → List V → Result Bool) → Storage K V
      → K
      → (index : ℕ) → V
      → (ttl : ℕ) → Times
      → (in_request : Bool) → Storage K V × Outcome
  consume join_type join s key index value ttl t in_request =
      join_round dec s key index value (join_callback join_type (join key)) ttl t in_request

  -- One round of `MultiJoinStream._consume`: index 0 is `consume`, link n is index n.
  pub multi_consume :
      (multi_join : K → List (List V) → Result Bool)
      → Storage K V
      → K
      → (index : ℕ) → V
      → (ttl : ℕ) → Times
      → (in_request : Bool) → Storage K V × Outcome
  multi_consume multi_join s key index value ttl t in_request =
      join_round dec s key index value (multi_join_callback (multi_join key)) ttl t in_request
