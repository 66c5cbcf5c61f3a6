-- ===== src/Operators/Flow.antt =====
-- What a stream hands its values on to, and the tracing span around it.
use pyservicelib.Base.{
  ℕ, suc, Bool, true, false, List, [], ◌∷◌, Option, none, some, Result, ok, err, Error,
}

-- What a call does to everything downstream, and how it ends.
abbrev pub Effect : Type 0 → Type 0
Effect S = S → S × Result (Unit {0})

module _ {S : Type 0} where
  abbrev pub done : Effect S
  done s = (s, ok tt)

  abbrev pub raise : Error → Effect S
  raise e s = (s, err e)

  -- The second runs unless the first raises.
  abbrev pub follow : S × Result (Unit {0}) → Effect S → S × Result (Unit {0})
  follow (s, ok u) next = next s
  follow (s, err e) next = (s, err e)

  -- `for x in xs: await body(x)`
  unfoldable pub for_each : {A : Type 0} → (A → Effect S) → List A → Effect S
  for_each body [] s = (s, ok tt)
  for_each body (x ∷ xs) s = follow (body x s) (for_each body xs)

pub record Caller (S A : Type 0) : Type 0 where
  pub call : A → Effect S
  pub is_async : Bool

module _ {S A : Type 0} where
  -- `if self._caller is not None: await self._caller.consume(value)`
  abbrev pub hand_on : Option (Caller S A) → A → Effect S
  hand_on none value s = (s, ok tt)
  hand_on (some c) value s = c.call value s

-- The spans that a stream has started and ended.
pub record Spans : Type 0 where
  pub started : ℕ
  pub ended : ℕ

module _ {S : Type 0} where
  -- `tracing` is a tracer that samples. The span ends also where the body raises.
  abbrev pub spanned : (tracing : Bool) → Effect S → Effect (S × Spans)
  spanned false body (s, p) = let (s', r) = body s in ((s', p), r)
  spanned true body (s, p) =
      let (s', r) = body s in ((s', record { started = suc p.started; ended = suc p.ended }), r)
