-- ===== src/Store/Joining/Inv.antt =====
-- What every step of the join storage keeps.
use pyservicelib.Base.{
  ℕ, ◌+◌, ◌≡◌, ◌⊎◌, inl, inr, Bool, true, false, arith, length, none, some, Option-cases,
  Bool-cases,
}
use pyservicelib.Base.Dicts.{
  get, put, delete, IsUnique, AreDisjoint, get-put, get-delete, put-IsUnique, delete-IsUnique,
  length-put, length-delete_count,
}
use pyservicelib.Store.Joining.{
  Item, Storage, Times, if_metrics, expired, create, from_prev, admit, remove_item, renews, renewed,
  finish, expire_cleanup,
}

module _ {K V : Type 0} (dec : Discrete K) where
  -- No bucket holds a key twice, no key stands in both, and the gauge shows the number of entries.
  pub record IsValid (s : Storage K V) : Type 0 where
    pub current_unique : IsUnique dec s.current
    pub prev_unique : IsUnique dec s.prev
    pub apart : AreDisjoint dec s.current s.prev
    pub counted :
        s.metrics_enabled ≡ true
        → s.count_added ≡ s.count_removed + (length s.current + length s.prev)

  create-IsValid :
      (s : Storage K V) (key : K) (index ttl now : ℕ) (r : Bool)
      → get dec s.prev key ≡ none
      → IsValid s
      → IsValid (create dec s key index ttl now r).0
  unfolding create
  create-IsValid s key index ttl now r absent v = record {
    current_unique = put-IsUnique dec s.current key s.next_id v.current_unique;
    prev_unique = v.prev_unique;
    apart = λ j. ground (arith, get-put dec s.current key s.next_id j, v.apart j);
    counted = λ m. ground (arith, length-put dec s.current key s.next_id, v.counted m);
  }

  remove_item-IsValid :
      (s : Storage K V) (key : K) (i : ℕ) → IsValid s → IsValid (remove_item dec s key i).0
  unfolding remove_item
  remove_item-IsValid s key i v = record {
    current_unique =
        ground (arith, v.current_unique, delete-IsUnique dec s.current key v.current_unique);
    prev_unique = ground (arith, v.prev_unique, delete-IsUnique dec s.prev key v.prev_unique);
    apart =
        λ j. ground (arith, get-delete dec s.current key j, get-delete dec s.prev key j, v.apart j);
    counted = λ m. ground (
      arith,
      length-delete_count dec s.current key v.current_unique,
      length-delete_count dec s.prev key v.prev_unique,
      v.counted,
    );
  }

  moved-IsValid :
      (s : Storage K V) (key : K) (i j : ℕ)
      → get dec s.current key ≡ some j ⊎ get dec s.prev key ≡ some j
      → IsValid s
      → IsValid (record s { current = put dec s.current key i; prev = delete dec s.prev key })
  moved-IsValid s key i j there v = record {
    current_unique = put-IsUnique dec s.current key i v.current_unique;
    prev_unique = delete-IsUnique dec s.prev key v.prev_unique;
    apart =
        λ k. ground (arith, get-put dec s.current key i k, get-delete dec s.prev key k, v.apart k);
    counted = λ m. ground (
      arith,
      length-put dec s.current key i,
      length-delete_count dec s.prev key v.prev_unique,
      v.counted m,
      v.apart key,
    );
  }

  dropped-IsValid :
      (s : Storage K V) (key : K) (i : ℕ)
      → get dec s.prev key ≡ some i
      → IsValid s
      → IsValid (record s {
        prev = delete dec s.prev key;
        count_removed = s.count_removed + if_metrics s.metrics_enabled 1;
      })
  dropped-IsValid s key i there v = record {
    current_unique = v.current_unique;
    prev_unique = delete-IsUnique dec s.prev key v.prev_unique;
    apart = λ j. ground (arith, get-delete dec s.prev key j, v.apart j);
    counted = λ m. ground (arith, length-delete_count dec s.prev key v.prev_unique, v.counted m);
  }

  from_prev-IsValid :
      (s : Storage K V) (key : K) (index ttl : ℕ) (t : Times) (r : Bool)
      → IsValid s
      → IsValid (from_prev dec s key index ttl t r).0
  unfolding from_prev
  from_prev-IsValid s key index ttl t r v = elim (Option-cases (get dec s.prev key)) [
    | inl e ↦ rw (e, from_prev) (create-IsValid s key index ttl t.created r e v)
    | inr (i, e) ↦ elim (Bool-cases (expired (s.items i).deadline t.looked)) [
      | inl old ↦
          rw (e, old, from_prev)
            (create-IsValid _ key index ttl t.created r
              (ground (arith, get-delete dec s.prev key key)) (dropped-IsValid s key i e v))
      | inr live ↦ rw (e, live, from_prev) (moved-IsValid s key i i (inr e) v)
    ]
  ]

  pub admit-IsValid :
      (s : Storage K V) (key : K) (index ttl : ℕ) (t : Times) (r : Bool)
      → IsValid s
      → IsValid (admit dec s key index ttl t r).0
  unfolding admit
  admit-IsValid s key index ttl t r v = ground (arith, from_prev-IsValid s key index ttl t r v, v)

  -- A step that changes items only.
  pub items-IsValid :
      (s : Storage K V) (items : ℕ → Item V) → IsValid s → IsValid (record s { items = items })
  items-IsValid s items v = record {
    current_unique = v.current_unique;
    prev_unique = v.prev_unique;
    apart = v.apart;
    counted = v.counted;
  }

  renews_held :
      (s : Storage K V) (key : K) (i ttl : ℕ)
      → renews dec s key i ttl ≡ true
      → get dec s.current key ≡ some i ⊎ get dec s.prev key ≡ some i
  unfolding renews
  renews_held s key i ttl h = ground arith

  renewed-IsValid :
      (s : Storage K V) (key : K) (i ttl now : ℕ)
      → get dec s.current key ≡ some i ⊎ get dec s.prev key ≡ some i
      → IsValid s
      → IsValid (renewed dec s key i ttl now)
  unfolding renewed
  renewed-IsValid s key i ttl now there v = items-IsValid _ _ (moved-IsValid s key i i there v)

  pub finish-IsValid :
      (s : Storage K V) (key : K) (i ttl : ℕ) (processed : Bool) (now : ℕ)
      → IsValid s
      → IsValid (finish dec s key i ttl processed now)
  unfolding finish
  finish-IsValid s key i ttl true now v = remove_item-IsValid _ key i (items-IsValid s _ v)
  finish-IsValid s key i ttl false now v = elim (Bool-cases (renews dec s key i ttl)) [
    | inl again ↦ rw again (renewed-IsValid s key i ttl now (renews_held s key i ttl again) v)
    | inr done ↦ rw done (items-IsValid s _ v)
  ]

  pub expire_cleanup-IsValid :
      (s : Storage K V) (key : K) (i : ℕ) → IsValid s → IsValid (expire_cleanup dec s key i)
  unfolding expire_cleanup
  expire_cleanup-IsValid s key i v =
      let w = remove_item-IsValid s key i v in
      record {
        current_unique = w.current_unique;
        prev_unique = w.prev_unique;
        apart = w.apart;
        counted = w.counted;
      }
