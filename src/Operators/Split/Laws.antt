-- ===== src/Operators/Split/Laws.antt =====
-- In which order a built split stream serves its links.
use pyservicelib.Base.{
  ◌≡◌, ◌↔◌, refl, Bool, true, false, List, [], ◌∷◌, ◌++◌, if◌then◌else◌, none, some, ok, err,
  value_error, arith, Bool-cases, inl, inr,
}
use pyservicelib.Operators.Split.{SplitLink, sort_key, insert, sort, all_consumed, build}

module _ {S A : Type 0} where
  -- The links whose key is `key`, in their order.
  abbrev pub with_key : Bool → List (SplitLink S A) → List (SplitLink S A)
  with_key key [] = []
  with_key true (x ∷ xs) = if sort_key x then x ∷ with_key true xs else with_key true xs
  with_key false (x ∷ xs) = if sort_key x then with_key false xs else x ∷ with_key false xs

  insert_late :
      (x : SplitLink S A) (xs rest : List (SplitLink S A))
      → sort_key x ≡ true
      → insert x (with_key false xs ++ with_key true rest)
        ≡ with_key false xs ++ (x ∷ with_key true rest)
  unfolding insert
  insert_late x [] [] h = refl
  insert_late x [] (y ∷ ys) h = ground (arith, insert_late x [] ys h)
  insert_late x (y ∷ ys) rest h = ground (arith, insert_late x ys rest h)

  insert_early :
      (x : SplitLink S A) (xs : List (SplitLink S A)) → sort_key x ≡ false → insert x xs ≡ x ∷ xs
  unfolding insert
  insert_early x [] h = refl
  insert_early x (y ∷ ys) h = rw h refl

  sort-with_key : (xs : List (SplitLink S A)) → sort xs ≡ with_key false xs ++ with_key true xs
  unfolding sort
  sort-with_key [] = refl
  sort-with_key (x ∷ xs) = elim (Bool-cases (sort_key x)) [
    | inl late ↦ rw (sort-with_key xs, late) (insert_late x xs xs late)
    | inr early ↦ rw (sort-with_key xs, early) (insert_early x _ early)
  ]

  -- The links whose caller exists and is asynchronous, in their order, and the others in theirs.
  abbrev pub asynchronous : List (SplitLink S A) → List (SplitLink S A)
  asynchronous [] = []
  asynchronous (x ∷ xs) = elim x.caller [
    | none ↦ asynchronous xs
    | some c ↦ if c.is_async then x ∷ asynchronous xs else asynchronous xs
  ]

  abbrev pub direct : List (SplitLink S A) → List (SplitLink S A)
  direct [] = []
  direct (x ∷ xs) = elim x.caller [
    | none ↦ x ∷ direct xs
    | some c ↦ if c.is_async then direct xs else x ∷ direct xs
  ]

  abbrev pub HaveConsumers : List (SplitLink S A) → Type 0
  HaveConsumers [] = Unit {0}
  HaveConsumers (x ∷ xs) = (x.consumer ≡ true) × HaveConsumers xs

  asynchronous-with_key : (xs : List (SplitLink S A)) → with_key false xs ≡ asynchronous xs
  asynchronous-with_key [] = refl
  asynchronous-with_key (x ∷ xs) = ground (arith, asynchronous-with_key xs)

  direct-with_key : (xs : List (SplitLink S A)) → with_key true xs ≡ direct xs
  direct-with_key [] = refl
  direct-with_key (x ∷ xs) = ground (arith, direct-with_key xs)

  all_consumed-HaveConsumers :
      (xs : List (SplitLink S A)) → (all_consumed xs ≡ true) ↔ HaveConsumers xs
  all_consumed-HaveConsumers [] = ((λ h. tt), λ h. refl)
  all_consumed-HaveConsumers (x ∷ xs) = ground (arith, all_consumed-HaveConsumers xs)

  build-sorted :
      (links : List (SplitLink S A))
      → build links
        ≡ (if all_consumed links then ok (asynchronous links ++ direct links) else err value_error)
  unfolding build
  build-sorted links =
      rw (sort-with_key links, asynchronous-with_key links, direct-with_key links) refl

  -- build answers a list exactly if every link has a consumer and the list is the links whose caller
  -- is asynchronous, followed by the others (those without a caller included), each group in the
  -- order of declaration; and it raises ValueError exactly if some link has no consumer.
  pub build-asynchronous :
      (links sorted : List (SplitLink S A))
      → ((build links ≡ ok sorted)
          ↔ (HaveConsumers links × (sorted ≡ asynchronous links ++ direct links)))
        × ((build links ≡ err value_error) ↔ ¬ HaveConsumers links)
  build-asynchronous links sorted =
      let whole = all_consumed-HaveConsumers links in
      elim (Bool-cases (all_consumed links)) [
        | inl all ↦ rw (build-sorted links, all) (ground (arith, whole))
        | inr lacks ↦ rw (build-sorted links, lacks) (ground (arith, whole))
      ]
