-- ===== src/Runtime/Contexts/Bounded.antt =====
-- Context.bounded: the deadline of the child.
use pyservicelib.Base.{ℕ, ◌+◌, ◌-◌, ◌≤◌, ◌≡◌, true, arith}
use pyservicelib.Base.Int.{ℤ}
use pyservicelib.Runtime.Contexts.{Contexts, Context, is_expired, bounded}

-- Where a context has expired, by a cancellation or by its deadline, a child that was bounded from
-- it before has expired too, whatever its timeout: at once if the two readings of the clock that
-- bounded makes are the same, and else after no more than the time between them.
pub bounded-is_expired :
    (s t : Contexts) (c : Context) (timeout : ℤ) (time later now : ℕ)
    → later ≤ now
    → is_expired t c now ≡ true
    → is_expired t (bounded s c timeout time later).1 (now + (later - time)) ≡ true
unfolding bounded
bounded-is_expired s t c timeout time later now q e = ground arith
