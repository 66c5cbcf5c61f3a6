-- ===== src/Operators/Case/Laws.antt =====
-- Which branch of a case stream gets a value.
use pyservicelib.Base.{
  ℕ, zero, suc, ◌≡◌, refl, List, [], ◌∷◌, ◌++◌, arith, append-nil, append_assoc, length, get_elem?,
  length-append, none, some, Result, ok, err, index_error,
}
use pyservicelib.Base.Int.{ℤ, pos, negsuc}
use pyservicelib.Operators.Flow.{Effect, raise, hand_on}
use pyservicelib.Operators.Case.{
  WhenStream, CaseStream, when_consume, fresh, add_stream, build, branch, route, consume_case,
}

module _ {S A : Type 0} where
  -- The stream that has been given these branches one by one.
  abbrev pub added : CaseStream S A → List (WhenStream S A) → CaseStream S A
  added c [] = c
  added c (w ∷ ws) = added (add_stream c w) ws

  -- The branches with the positions from `n` on.
  abbrev pub numbered : ℕ → List (WhenStream S A) → List (WhenStream S A)
  numbered n [] = []
  numbered n (w ∷ ws) = record w { index = n } ∷ numbered (suc n) ws

  added-numbered :
      (c : CaseStream S A) (ws : List (WhenStream S A))
      → (added c ws).when_streams ≡ c.when_streams ++ numbered (length c.when_streams) ws
  unfolding add_stream
  added-numbered c [] = rw append-nil refl
  added-numbered c (w ∷ ws) =
      let next : length (c.when_streams ++ (record w { index = length c.when_streams } ∷ []))
          ≡ suc (length c.when_streams) =
        omega
          (arith, length-append c.when_streams (record w { index = length c.when_streams } ∷ [])) in
      rw (added-numbered (add_stream c w) ws, next, append_assoc) refl

  -- What becomes of a value by the answer of the selector: it goes to the branch of that number,
  -- counted as the branches were added, and any other number raises `IndexError`.
  abbrev pub expected : List (WhenStream S A) → Result ℤ → A → Effect S
  expected ws (err e) value = raise e
  expected ws (ok (negsuc n)) value = raise index_error
  expected ws (ok (pos i)) value = elim (get_elem? ws i) [
    | none ↦ raise index_error
    | some w ↦ hand_on w.caller value
  ]

  route-expected :
      (ws : List (WhenStream S A)) (n : ℕ) (r : Result ℤ) (value : A) (s : S)
      → route (numbered n ws) r value s ≡ expected ws r value s
  unfolding route branch when_consume
  route-expected ws n (err e) value s = refl
  route-expected ws n (ok (negsuc k)) value s = refl
  route-expected [] n (ok (pos i)) value s = ground arith
  route-expected (w ∷ ws) n (ok (pos zero)) value s = ground arith
  route-expected (w ∷ ws) n (ok (pos (suc i))) value s =
      ground (arith, route-expected ws (suc n) (ok (pos i)) value s)

  -- A case stream that was given branches one by one and then built knows each branch by its
  -- position, and hands every value to the branch whose number the selector gives; another number
  -- raises `IndexError` and hands nothing on, and so does an exception of the selector.
  pub consume_case-expected :
      (build_switch : List (WhenStream S A) → A → Result ℤ) (ws : List (WhenStream S A)) (value : A)
      (s : S)
      → consume_case (build build_switch (added fresh ws)) value s
        ≡ expected ws (build_switch (numbered 0 ws) value) value s
  unfolding consume_case build fresh
  consume_case-expected build_switch ws value s =
      rw (added-numbered fresh ws) (route-expected ws 0 _ value s)
