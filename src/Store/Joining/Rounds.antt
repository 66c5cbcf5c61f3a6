-- ===== src/Store/Joining/Rounds.antt =====
-- What one round of `_join_value` asks the callback, and what it leaves behind.
use pyservicelib.Base.{
  ℕ, ◌+◌, ◌≡◌, refl, ap, subst, ◌∙◌, Bool, true, false, inl, inr, List, [], arith, replicate,
  Option, none, some, if◌then◌else◌, Bool-cases, Result, ok, err,
}
use pyservicelib.Base.Dicts.{get, or_else, get-put, get-delete}
use pyservicelib.Store.Joining.{
  Storage, Times, Outcome, retry, raised, returned, expired, later, append_at, create, from_prev,
  admit, remove_item, deposited, deposit, settle, renewed, finish, join_round,
}
use pyservicelib.Store.Joining.Inv.{IsValid, admit-IsValid, items-IsValid, finish-IsValid}
use pyservicelib.Store.Joining.Rotation.{find}

abbrev pub answer : Result Bool → Outcome
answer (ok b) = returned b
answer (err e) = raised e

module _ {K V : Type 0} (dec : Discrete K) (s : Storage K V) (key : K) where
  -- The item of a bucket, unless its deadline has passed.
  abbrev alive : ℕ → Option ℕ → Option ℕ
  alive now none = none
  alive now (some i) = if expired (s.items i).deadline now then none else some i

  abbrev pub live : ℕ → Option ℕ
  live now = or_else (alive now (get dec s.current key)) (alive now (get dec s.prev key))

  -- The values that wait for the key, before a new one of stream `index`.
  abbrev pub waiting : (index now : ℕ) → List (List V)
  waiting index now = elim (live now) [
    | none ↦ replicate (index + 1) []
    | some i ↦ (s.items i).values
  ]

  -- A live item is not processed yet and stays live until its lock is taken.
  abbrev pub IsOpen : ℕ → Times → Type 0
  IsOpen ttl t = elim (live t.looked) [
    | none ↦ expired (later t.created ttl) t.locked ≡ false
    | some i ↦ ((s.items i).processed ≡ false) × (expired (s.items i).deadline t.locked ≡ false)
  ]

  abbrev Admitted : (index : ℕ) → Times → Storage K V × ℕ → Type 0
  Admitted index t (s', i) =
      ((s'.items i).values ≡ waiting index t.looked)
      × ((s'.items i).processed ≡ false)
      × (expired (s'.items i).deadline t.locked ≡ false)
      × (get dec s'.current key ≡ some i)

  prev-Admitted :
      (index ttl : ℕ) (t : Times) (r : Bool) (p : Option ℕ)
      → get dec s.prev key ≡ p
      → alive t.looked (get dec s.current key) ≡ none
      → IsOpen ttl t
      → Admitted index t (from_prev dec s key index ttl t r)
  unfolding from_prev create
  prev-Admitted index ttl t r none e n h = ground (arith, get-put dec s.current key s.next_id key)
  prev-Admitted index ttl t r (some i) e n h =
      ground (arith, get-put dec s.current key s.next_id key, get-put dec s.current key i key)

  admit-Admitted :
      (index ttl : ℕ) (t : Times) (r : Bool) (c : Option ℕ)
      → get dec s.current key ≡ c
      → IsOpen ttl t
      → Admitted index t (admit dec s key index ttl t r)
  unfolding admit
  admit-Admitted index ttl t r none e h =
      ground (arith, prev-Admitted index ttl t r (get dec s.prev key) refl)
  admit-Admitted index ttl t r (some i) e h =
      elim (Bool-cases (expired (s.items i).deadline t.looked)) [
        | inl old ↦
            rw (e, old, admit)
              (prev-Admitted index ttl t r (get dec s.prev key) refl (rw (e, old)) h)
        | inr young ↦ ground arith
      ]

module _ {K V : Type 0} (dec : Discrete K) where
  deposit-deposited :
      (s : Storage K V) (i index : ℕ) (value : V) (now : ℕ)
      → (s.items i).processed ≡ false
      → expired (s.items i).deadline now ≡ false
      → deposit dec s i index value now ≡ some (deposited dec s i index value)
  unfolding deposit
  deposit-deposited s i index value now p e = rw (p, e)

  pub deposited-IsValid :
      (s : Storage K V) (i index : ℕ) (value : V)
      → IsValid dec s
      → IsValid dec (deposited dec s i index value)
  unfolding deposited
  deposited-IsValid s i index value v = items-IsValid dec s _ v

  -- A processed item is in no bucket any more.
  find-finish-true :
      (s : Storage K V) (key : K) (i ttl now : ℕ)
      → IsValid dec s
      → get dec s.current key ≡ some i
      → find dec (finish dec s key i ttl true now) key ≡ none
  unfolding finish remove_item
  find-finish-true s key i ttl now v there =
      ground (arith, get-delete dec s.current key key, v.apart key)

  -- Any other stays, with its values.
  find-finish-false :
      (s : Storage K V) (key : K) (i ttl now : ℕ)
      → get dec s.current key ≡ some i
      → (find dec (finish dec s key i ttl false now) key ≡ some i)
        × (((finish dec s key i ttl false now).items i).values ≡ (s.items i).values)
        × (((finish dec s key i ttl false now).items i).processed ≡ false)
  unfolding finish renewed
  find-finish-false s key i ttl now there = ground (arith, get-put dec s.current key i key)

  deposited-values :
      (s : Storage K V) (i index : ℕ) (value : V)
      → ((deposited dec s i index value).items i).values ≡ append_at (s.items i).values index value
  unfolding deposited
  deposited-values s i index value = ground arith

  deposited-there :
      (s : Storage K V) (key : K) (i index : ℕ) (value : V)
      → get dec s.current key ≡ some i
      → get dec (deposited dec s i index value).current key ≡ some i
  unfolding deposited
  deposited-there s key i index value there = there

  -- What a round leaves of an item that holds `asked`, by the callback's answer.
  abbrev pub Leaves : K → List (List V) → Result Bool → Storage K V → Type 0
  Leaves key asked (ok true) t = find dec t key ≡ none
  Leaves key asked _ t = (i : ℕ) × (find dec t key ≡ some i) × ((t.items i).values ≡ asked)

  abbrev Settles : K → List (List V) → Result Bool → Storage K V × Outcome → Type 0
  Settles key asked r (t, o) = (o ≡ answer r) × IsValid dec t × Leaves key asked r t

  settle-Settles :
      (s : Storage K V) (key : K) (i ttl now : ℕ) (r : Result Bool)
      → IsValid dec s
      → get dec s.current key ≡ some i
      → Settles key (s.items i).values r (settle dec s key i ttl now r)
  settle-Settles s key i ttl now (ok true) v there =
      (refl, finish-IsValid dec s key i ttl true now v, find-finish-true s key i ttl now v there)
  settle-Settles s key i ttl now (ok false) v there =
      let (found, kept, p) = find-finish-false s key i ttl now there in
      (refl, finish-IsValid dec s key i ttl false now v, (i, found, kept))
  settle-Settles s key i ttl now (err x) v there = (refl, v, (i, rw there refl, refl))

  module _ (s : Storage K V) (key : K) (index : ℕ) (value : V)
      (callback : List (List V) → Result Bool) (ttl : ℕ) (t : Times) (in_request : Bool) where
    abbrev ending : Storage K V → ℕ → Storage K V × Outcome
    ending s' i = elim (deposit dec s' i index value t.locked) [
      | none ↦ (s', retry)
      | some s'' ↦ settle dec s'' key i ttl t.renewed (callback (s''.items i).values)
    ]

    ending-Settles :
        (s' : Storage K V) (i : ℕ) (before : List (List V))
        → (s'.items i).values ≡ before
        → (s'.items i).processed ≡ false
        → expired (s'.items i).deadline t.locked ≡ false
        → get dec s'.current key ≡ some i
        → IsValid dec s'
        → Settles key
            (append_at before index value)
            (callback (append_at before index value))
            (ending s' i)
    ending-Settles s' i before values p e there v =
        let s'' : Storage K V = deposited dec s' i index value in
        let held : (s''.items i).values ≡ append_at before index value =
          deposited-values s' i index value ∙ ap (λ m. append_at m index value) values in
        let ends =
          settle-Settles s'' key i ttl t.renewed (callback (s''.items i).values)
            (deposited-IsValid s' i index value v) (deposited-there s' key i index value there) in
        rw (deposit-deposited s' i index value t.locked p e, ending)
          (subst
            (λ vs.
              Settles key vs (callback vs)
                (settle dec s'' key i ttl t.renewed (callback (s''.items i).values)))
            held ends)

    abbrev pub asked : List (List V)
    asked = append_at (waiting dec s key index t.looked) index value

    abbrev pub round : Storage K V × Outcome
    round = join_round dec s key index value callback ttl t in_request

    -- In a round on a valid storage that finds a live item which is not processed, or none, and
    -- takes its lock before it runs out: the callback is asked about the values that waited and
    -- the new one behind those of its stream, and its answer or its exception ends the loop. The
    -- storage stays valid. Where the callback answers true no bucket holds the key any more;
    -- where it answers false or raises, the key's item stays, with these values.
    pub join_round-waiting :
        IsValid dec s
        → IsOpen dec s key ttl t
        → (round.1 ≡ answer (callback asked))
          × IsValid dec round.0
          × Leaves key asked (callback asked) round.0
    unfolding join_round
    join_round-waiting v open_item =
        let (s', i) = admit dec s key index ttl t in_request in
        let (values, p, e, there) =
          admit-Admitted dec s key index ttl t in_request (get dec s.current key) refl open_item in
        ending-Settles s' i (waiting dec s key index t.looked) values p e there
          (admit-IsValid dec s key index ttl t in_request v)
