-- ===== src/Pool/Threads/Examples.antt =====
-- A pool of two threads with one task, which the first thread takes before the pool is stopped.
use pyservicelib.Base.{refl, []}
use pyservicelib.Pool.Threads.{init, add_task, shutdown, clears, takes}
use pyservicelib.Pool.Threads.Steps.{
  History, IsSound, Reachable, fresh, after, adds, shuts, begins, gets, takes_next, threads-IsSound,
}

abbrev start : History
start = record { executor = init 2; taken = []; gone = 0 }

abbrev one_added : History
one_added = record start { executor = (add_task start.executor).0 }

abbrev one_begun : History
one_begun = record one_added { executor = clears one_added.executor 0 }

abbrev one_taken : History
one_taken = takes_next one_begun 0

abbrev closed : History
closed = record one_taken { executor = shutdown one_taken.executor }

closed-Reachable : Reachable 2 closed
unfolding init add_task clears takes shutdown
closed-Reachable =
    after one_taken closed
      (after one_begun one_taken
        (after one_added one_begun (after start one_added fresh adds) (begins 0 refl))
        (gets 0 refl))
      shuts

threads-IsSound_example : IsSound closed
threads-IsSound_example = threads-IsSound 2 closed closed-Reachable
