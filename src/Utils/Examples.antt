-- ===== src/Utils/Examples.antt =====
-- The lock with two tasks: one holds it to write, and the other one sleeps until it may read.
use pyservicelib.Base.{refl, [], ◌∷◌}
use pyservicelib.Utils.RwLock.{init, can_read, can_write, enter_write, wait_write}
use pyservicelib.Utils.RwLock.Tasks.{Tasks, idle, read_looks, read_sleeps, write_looks, writing}
use pyservicelib.Utils.RwLock.Steps.{
  Reachable, fresh, after, goes, read_comes, read_waits, write_announced, write_entered,
  IsExclusive, Reachable-IsExclusive,
}

abbrev at_rest : Tasks
at_rest = record { lock = init; phases = idle ∷ idle ∷ [] }

abbrev announced : Tasks
announced = record { lock = wait_write init; phases = write_looks ∷ idle ∷ [] }

abbrev entered : Tasks
entered = goes (enter_write (wait_write init)) (writing ∷ idle ∷ [])

abbrev come : Tasks
come = record entered { phases = writing ∷ read_looks ∷ [] }

abbrev asleep : Tasks
asleep = record come { phases = writing ∷ read_sleeps ∷ [] }

asleep-Reachable : Reachable 2 asleep
unfolding init can_read can_write wait_write enter_write
asleep-Reachable =
    after come asleep
      (after entered come
        (after announced entered
          (after at_rest announced fresh (write_announced [] (idle ∷ []) refl))
          (write_entered [] (idle ∷ []) refl refl))
        (read_comes (writing ∷ []) [] refl))
      (read_waits (writing ∷ []) [] refl refl)

Reachable-IsExclusive_example : IsExclusive asleep
Reachable-IsExclusive_example = Reachable-IsExclusive 2 asleep asleep-Reachable
