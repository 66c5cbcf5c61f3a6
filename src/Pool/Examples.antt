-- ===== src/Pool/Examples.antt =====
-- A pool that is given one task and takes it.
use pyservicelib.Base.{true, false, []}
use pyservicelib.Pool.Queued.{init, add, executor_round}
use pyservicelib.Pool.Queued.Steps.{
  History, Reachable, fresh, after, added, round, IsSound, Reachable-IsSound,
}

abbrev empty_pool : History
empty_pool = record { pool = init 2 true; finished = [] }

abbrev one_task : History
one_task = record { pool = (add (init 2 true) false).0; finished = [] }

abbrev one_running : History
one_running = record { pool = (executor_round (add (init 2 true) false).0 0).0; finished = [] }

one_running-Reachable : Reachable 2 true one_running
one_running-Reachable =
    after one_task one_running (after empty_pool one_task fresh (added false)) (round 0)

Reachable-IsSound_example : IsSound one_running
Reachable-IsSound_example = Reachable-IsSound 2 true one_running one_running-Reachable
