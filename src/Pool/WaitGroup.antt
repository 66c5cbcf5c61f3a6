-- ===== src/Pool/WaitGroup.antt =====
-- runtime/pool/pool.py: _AsyncWaitGroup, a count with an event that is set while it is 0.
use pyservicelib.Base.{ℕ, suc, ◌-◌, Bool, true, false, ◌==◌, if◌then◌else◌}

pub record WaitGroup : Type 0 where
  pub count : ℕ
  pub event : Bool

unfoldable pub init : WaitGroup
init = record { count = 0; event = true }

unfoldable pub add : WaitGroup → WaitGroup
add g = record { count = suc g.count; event = if g.count == 0 then false else g.event }

unfoldable pub done : WaitGroup → WaitGroup
done g = record { count = g.count - 1; event = if g.count - 1 == 0 then true else g.event }
