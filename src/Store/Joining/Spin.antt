-- ===== src/Store/Joining/Spin.antt =====
-- `_join_value` while the expiry task of its item is at work.
use pyservicelib.Base.{
  ℕ, ◌≡◌, refl, Bool, true, false, List, [], ◌∷◌, arith, none, some, All, Result,
}
use pyservicelib.Base.Dicts.{get}
use pyservicelib.Store.Joining.{
  Storage, Times, retry, expired, admit, deposit, join_round, join_value, expire,
}

module _ {K V : Type 0} (dec : Discrete K) where
  -- A processed item that the current bucket still holds before its deadline.
  record IsHeld (s : Storage K V) (key : K) (i : ℕ) : Type 0 where
    held : get dec s.current key ≡ some i
    used : (s.items i).processed ≡ true

  module _ (key : K) (index : ℕ) (value : V) (callback : List (List V) → Result Bool) (ttl : ℕ)
      (in_request : Bool) where
    join_round-retry :
        (s : Storage K V) (i : ℕ) (t : Times)
        → IsHeld s key i
        → expired (s.items i).deadline t.looked ≡ false
        → join_round dec s key index value callback ttl t in_request ≡ (s, retry)
    unfolding join_round admit deposit
    join_round-retry s i t h young = ground (arith, h.held, h.used, young)

    join_value-retry :
        (s : Storage K V) (i : ℕ) (ts : List Times)
        → IsHeld s key i
        → All (λ t. expired (s.items i).deadline t.looked ≡ false) ts
        → join_value dec s key index value callback ttl in_request ts ≡ none
    unfolding join_value
    join_value-retry s i [] h young = refl
    join_value-retry s i (t ∷ ts) h (y, ys) =
        ground (arith, join_round-retry s i t h y, join_value-retry s i ts h ys)

    -- What the expiry task leaves: the item processed, its deadline and the buckets as they were.
    expire-IsHeld :
        (s s' : Storage K V) (i now : ℕ) (asked : List (List V))
        → get dec s.current key ≡ some i
        → expire dec s i now ≡ some (s', asked)
        → IsHeld s' key i × ((s'.items i).deadline ≡ (s.items i).deadline)
    unfolding expire
    expire-IsHeld s s' i now asked there e = ground arith

    -- The expiry task has marked an item processed that the current bucket holds and has not
    -- removed it yet. Then `_join_value` for its key is still looping however many rounds it ran,
    -- as long as the clock reads less than the item's deadline.
    pub join_value-expire :
        (s s' : Storage K V) (i now : ℕ) (asked : List (List V)) (ts : List Times)
        → get dec s.current key ≡ some i
        → expire dec s i now ≡ some (s', asked)
        → All (λ t. expired (s.items i).deadline t.looked ≡ false) ts
        → join_value dec s' key index value callback ttl in_request ts ≡ none
    unfolding expire
    join_value-expire s s' i now asked ts there e young =
        let (h, same) = expire-IsHeld s s' i now asked there e in
        join_value-retry s' i ts h (rw same young)
