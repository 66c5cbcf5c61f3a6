-- ===== src/Store/Joining/Rotation.antt =====
-- What a tick of the rotation timer changes.
use pyservicelib.Base.{
  ℕ, ◌+◌, ◌-◌, max, ◌≡◌, refl, ◌⊎◌, inl, inr, [], ◌∷◌, arith, length, Option, none,
}
use pyservicelib.Base.Dicts.{
  Dict, get, put, update, or_else, IsUnique, AreDisjoint, get-put, update-IsUnique, get-update,
  length-update,
}
use pyservicelib.Store.Joining.{Storage, rescue, rotate}
use pyservicelib.Store.Joining.Inv.{IsValid}

module _ {K : Type 0} (dec : Discrete K) where
  -- With no key in both buckets, every entry is rescued.
  rescue-all :
      (m p : Dict K ℕ)
      → IsUnique dec p
      → AreDisjoint dec m p
      → (rescue dec m p ≡ (update dec m p, length p))
  unfolding rescue update get
  rescue-all m [] u d = refl
  rescue-all m ((k, i) ∷ p) (new, u) d =
      let absent : get dec m k ≡ none = ground (arith, d k) in
      let apart : AreDisjoint dec (put dec m k i) p =
        λ j. ground (arith, d j, get-put dec m k i j) in
      rw (absent, rescue-all (put dec m k i) p u apart)

module _ {K V : Type 0} (dec : Discrete K) where
  -- The item that either bucket holds for a key.
  abbrev pub find : Storage K V → K → Option ℕ
  find s key = or_else (get dec s.current key) (get dec s.prev key)

  abbrev swapped : Storage K V → ℕ → Storage K V
  swapped s total = record s {
    current = [];
    prev = update dec s.current s.prev;
    high_water_mark = total;
    count_removed = s.count_removed + 0;
    evictions_total = s.evictions_total + 0;
  }

  -- On a valid storage the rescue loses nothing, so nothing is evicted.
  rotate_cases :
      (s : Storage K V)
      → IsValid dec s
      → (rotate dec s ≡ s)
        ⊎ (rotate dec s ≡ swapped s (length s.current + length s.prev))
        ⊎ (rotate dec s ≡ record s {
          high_water_mark = max (length s.current + length s.prev) s.high_water_mark;
        })
  unfolding rotate
  rotate_cases s v =
      let whole = rescue-all dec s.current s.prev v.prev_unique v.apart in
      let none_lost : length s.prev - length s.prev ≡ 0 = omega arith in
      rw (whole, none_lost) (ground arith)

  abbrev pub Keeps : Storage K V → Storage K V → Type 0
  Keeps s t =
      IsValid dec t
      × ((key : K) → find t key ≡ find s key)
      × ((i : ℕ) → t.items i ≡ s.items i)
      × (t.evictions_total ≡ s.evictions_total)

  marked-Keeps :
      (s : Storage K V) (mark : ℕ) → IsValid dec s → Keeps s (record s { high_water_mark = mark })
  marked-Keeps s mark v = (
    record {
      current_unique = v.current_unique;
      prev_unique = v.prev_unique;
      apart = v.apart;
      counted = v.counted;
    },
    λ key. refl,
    λ i. refl,
    refl,
  )

  swapped-Keeps : (s : Storage K V) (mark : ℕ) → IsValid dec s → Keeps s (swapped s mark)
  unfolding get
  swapped-Keeps s mark v = (
    record {
      current_unique = tt;
      prev_unique = update-IsUnique dec s.current s.prev v.current_unique;
      apart = λ k. inl refl;
      counted =
          λ m. omega (arith, length-update dec s.current s.prev v.prev_unique v.apart, v.counted m);
    },
    λ key. ground (arith, get-update dec s.current s.prev key v.prev_unique, v.apart key),
    λ i. refl,
    omega arith,
  )

  -- A tick of the timer of a valid storage keeps it valid, keeps the item of every key and the
  -- items themselves, and counts no eviction.
  pub rotate-Keeps : (s : Storage K V) → IsValid dec s → Keeps s (rotate dec s)
  rotate-Keeps s v = elim (rotate_cases s v) [
    | inl e ↦ rw e (marked-Keeps s s.high_water_mark v)
    | inr (inl e) ↦ rw e (swapped-Keeps s _ v)
    | inr (inr e) ↦ rw e (marked-Keeps s _ v)
  ]
