-- ===== src/Operators/Join/Laws.antt =====
-- When the join operators call the function of the user.
use pyservicelib.Base.{
  subst, suc, ◌+◌, replicate, ℕ, ◌≡◌, refl, ap, ◌∙◌, Bool, true, false, not, ◌&&◌, List, [], ◌∷◌,
  arith, if◌then◌else◌, none, Result, ok, err, index_error,
}
use pyservicelib.Store.Joining.{Storage, Times, raised, returned, expired, later, append_at}
use pyservicelib.Store.Joining.Inv.{IsValid}
use pyservicelib.Store.Joining.Rounds.{Leaves, live, waiting, answer, IsOpen, join_round-waiting}
use pyservicelib.Operators.Join.{
  multi_join_callback, multi_consume, JoinType, undefined, inner, left, right, outer, item_at,
  has_at, can_call, join_callback, consume,
}

-- Which sides need a value: of an inner join both, of a left or right join that side, of an outer
-- join none.
abbrev pub emits : JoinType → (left_empty right_empty : Bool) → Bool
emits undefined l r = false
emits inner l r = not l && not r
emits left l r = not l
emits right l r = not r
emits outer l r = true

module _ {V : Type 0} where
  abbrev pub is_empty : List V → Bool
  is_empty [] = true
  is_empty (x ∷ xs) = false

  -- On an item with both lists, the callback calls the function with the values of both sides
  -- exactly where the join type lets it, and is false elsewhere.
  pub join_callback-emits :
      (join_type : JoinType) (join : List V → List V → Result Bool)
      (left_values right_values : List V) (rest : List (List V))
      → (join_callback join_type join (left_values ∷ right_values ∷ rest) ≡ (
          if emits join_type (is_empty left_values) (is_empty right_values)
          then join left_values right_values
          else ok false))
  unfolding join_callback has_at can_call item_at
  join_callback-emits join_type join left_values right_values rest = ground arith

  join_callback-one_list :
      (join_type : JoinType) (join : List V → List V → Result Bool) (v : V) (vs : List V)
      → emits join_type false true ≡ true
      → join_callback join_type join ((v ∷ vs) ∷ []) ≡ err index_error
  unfolding join_callback has_at can_call item_at
  join_callback-one_list join_type join v vs e = ground arith

module _ {K V : Type 0} (dec : Discrete K) where
  -- The first left value of a key, of which no bucket holds a live item, in a left or an outer join
  -- on a valid storage: unless the time to live is over before the item's lock is taken, `consume`
  -- raises `IndexError`, whatever the function of the user is.
  pub consume-first_left :
      (join_type : JoinType) (join : K → List V → List V → Result Bool) (s : Storage K V) (key : K)
      (value : V) (ttl : ℕ) (t : Times) (in_request : Bool)
      → emits join_type false true ≡ true
      → IsValid dec s
      → live dec s key t.looked ≡ none
      → expired (later t.created ttl) t.locked ≡ false
      → (consume dec join_type join s key 0 value ttl t in_request).1 ≡ raised index_error
  unfolding consume
  consume-first_left join_type join s key value ttl t in_request e v absent young =
      let callback = join_callback join_type (join key) in
      let waits =
        join_round-waiting dec s key 0 value callback ttl t in_request v
          (rw (absent, IsOpen) young) in
      let alone : append_at (waiting dec s key 0 t.looked) 0 value ≡ (value ∷ []) ∷ [] =
        rw (absent, waiting) refl in
      waits.0
      ∙ ap (λ vs. answer (callback vs)) alone
      ∙ ap answer (join_callback-one_list join_type (join key) value [] e)

  first_right-asked :
      (multi_join : List (List V) → Result Bool) (k : ℕ) (value : V)
      → multi_join_callback multi_join (append_at (replicate (suc k + 1) []) (suc k) value)
        ≡ ok false
  unfolding multi_join_callback has_at
  first_right-asked multi_join k value =
      let next : suc k + 1 ≡ suc (suc k) = omega arith in rw next refl

  -- The first value of a key on a link of a multi join, of which no bucket holds a live item: unless
  -- the time to live is over before the item's lock is taken, the function of the user is not
  -- called, whatever it is, the round answers false, and the storage keeps the value in the list
  -- of its link.
  pub multi_consume-first_right :
      (multi_join : K → List (List V) → Result Bool) (s : Storage K V) (key : K) (k : ℕ) (value : V)
      (ttl : ℕ) (t : Times) (in_request : Bool)
      → IsValid dec s
      → live dec s key t.looked ≡ none
      → expired (later t.created ttl) t.locked ≡ false
      → ((multi_consume dec multi_join s key (suc k) value ttl t in_request).1 ≡ returned false)
        × Leaves dec key
            (append_at (replicate (suc k + 1) []) (suc k) value)
            (ok false)
            (multi_consume dec multi_join s key (suc k) value ttl t in_request).0
  unfolding multi_consume
  multi_consume-first_right multi_join s key k value ttl t in_request v absent young =
      let callback = multi_join_callback (multi_join key) in
      let waits =
        join_round-waiting dec s key (suc k) value callback ttl t in_request v
          (rw (absent, IsOpen) young) in
      let alone : append_at (waiting dec s key (suc k) t.looked) (suc k) value
          ≡ append_at (replicate (suc k + 1) []) (suc k) value =
        rw (absent, waiting) refl in
      let kept_asked = append_at (replicate (suc k + 1) []) (suc k) value in
      let result = (multi_consume dec multi_join s key (suc k) value ttl t in_request).0 in
      let no : callback kept_asked ≡ ok false = first_right-asked (multi_join key) k value in
      (
        waits.0 ∙ ap (λ vs. answer (callback vs)) alone ∙ ap answer no,
        subst (λ r. Leaves dec key kept_asked r result) no
            (subst (λ vs. Leaves dec key vs (callback vs) result) alone waits.2),
      )
