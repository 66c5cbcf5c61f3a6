-- ===== src/Store/Joining/Steps.antt =====
-- The life of a join storage: the steps of its calls, expiry tasks and timer, in any order.
use pyservicelib.Base.{ℕ, ◌≡◌, refl, inl, Bool, List, arith, some}
use pyservicelib.Base.Dicts.{get}
use pyservicelib.Store.Joining.{
  Storage, Times, admit, deposit, finish, expire, expire_cleanup, rotate, init, stop,
}
use pyservicelib.Store.Joining.Inv.{
  IsValid, admit-IsValid, finish-IsValid, expire_cleanup-IsValid, items-IsValid,
}
use pyservicelib.Store.Joining.Rounds.{deposited-IsValid}
use pyservicelib.Store.Joining.Rotation.{rotate-Keeps}

module _ {K V : Type 0} (dec : Discrete K) where
  -- What one call, task or timer does between two awaits. Any item number may take part: the
  -- holder of an item does not know whether a bucket still holds it.
  pub data Step (s : Storage K V) : Storage K V → Type 0 where
    admitted :
        (key : K) (index ttl : ℕ) (t : Times) (in_request : Bool)
        → Step s (admit dec s key index ttl t in_request).0
    deposited_in :
        (i index : ℕ) (value : V) (now : ℕ) (s' : Storage K V)
        → deposit dec s i index value now ≡ some s'
        → Step s s'
    finished :
        (key : K) (i ttl : ℕ) (processed : Bool) (now : ℕ)
        → Step s (finish dec s key i ttl processed now)
    expired_at :
        (i now : ℕ) (s' : Storage K V) (asked : List (List V))
        → expire dec s i now ≡ some (s', asked)
        → Step s s'
    cleaned : (key : K) (i : ℕ) → Step s (expire_cleanup dec s key i)
    rotated : Step s (rotate dec s)
    stopped_now : Step s (stop s)

  pub data Reachable (renew_ttl metrics_enabled : Bool) : Storage K V → Type 0 where
    fresh : Reachable renew_ttl metrics_enabled (init renew_ttl metrics_enabled)
    after :
        (s s' : Storage K V)
        → Reachable renew_ttl metrics_enabled s
        → Step s s'
        → Reachable renew_ttl metrics_enabled s'

  init-IsValid : (r m : Bool) → IsValid dec (init {K = K} {V = V} r m)
  unfolding init get
  init-IsValid r m = record {
    current_unique = tt;
    prev_unique = tt;
    apart = λ k. inl refl;
    counted = λ e. refl;
  }

  deposit-IsValid :
      (s s' : Storage K V) (i index : ℕ) (value : V) (now : ℕ)
      → deposit dec s i index value now ≡ some s'
      → IsValid dec s
      → IsValid dec s'
  unfolding deposit
  deposit-IsValid s s' i index value now e v =
      ground (arith, deposited-IsValid dec s i index value v)

  expire-IsValid :
      (s s' : Storage K V) (i now : ℕ) (asked : List (List V))
      → expire dec s i now ≡ some (s', asked)
      → IsValid dec s
      → IsValid dec s'
  unfolding expire
  expire-IsValid s s' i now asked e v = ground (arith, items-IsValid dec s _ v)

  Step-IsValid : (s s' : Storage K V) → Step s s' → IsValid dec s → IsValid dec s'
  unfolding stop
  Step-IsValid s _ (admitted key index ttl t r) v = admit-IsValid dec s key index ttl t r v
  Step-IsValid s _ (deposited_in i index value now s' e) v =
      deposit-IsValid s s' i index value now e v
  Step-IsValid s _ (finished key i ttl processed now) v =
      finish-IsValid dec s key i ttl processed now v
  Step-IsValid s _ (expired_at i now s' asked e) v = expire-IsValid s s' i now asked e v
  Step-IsValid s _ (cleaned key i) v = expire_cleanup-IsValid dec s key i v
  Step-IsValid s _ rotated v = (rotate-Keeps dec s v).0
  Step-IsValid s _ stopped_now v = record {
    current_unique = v.current_unique;
    prev_unique = v.prev_unique;
    apart = v.apart;
    counted = v.counted;
  }

  -- Every storage that a history of calls, expiry tasks, rotations and a stop leads to, in
  -- whatever order their steps come, is valid: no bucket holds a key twice, no key stands in
  -- both, and with metrics enabled the gauge is the number of entries.
  pub Reachable-IsValid :
      (renew_ttl metrics_enabled : Bool) (s : Storage K V)
      → Reachable renew_ttl metrics_enabled s
      → IsValid dec s
  Reachable-IsValid r m _ fresh = init-IsValid r m
  Reachable-IsValid r m _ (after s s' past step) =
      Step-IsValid s s' step (Reachable-IsValid r m s past)
