-- ===== src/Utils/RwLock.antt =====
-- runtime/utils/asyncrwlock.py: AsyncRWLock. Its fields change only under its condition, so what
-- runs between two waits is one step. The steps that may call notify_all also say whether they do.
pub mod Tasks
pub mod Steps
use pyservicelib.Base.{ℕ, suc, ◌+◌, ◌-◌, Bool, true, false, not, ◌&&◌, ◌==◌}

pub record RwLock : Type 0 where
  pub readers : ℕ
  pub writer : Bool
  pub waiting_writers : ℕ

unfoldable pub init : RwLock
init = record { readers = 0; writer = false; waiting_writers = 0 }

-- What a reader waits for.
unfoldable pub can_read : RwLock → Bool
can_read l = not l.writer && (l.waiting_writers == 0)

pub enter_read : RwLock → RwLock
enter_read l = record l { readers = l.readers + 1 }

pub exit_read : RwLock → RwLock × Bool
exit_read l = (record l { readers = l.readers - 1 }, l.readers - 1 == 0)

-- A writer announces itself.
unfoldable pub wait_write : RwLock → RwLock
wait_write l = record l { waiting_writers = l.waiting_writers + 1 }

unfoldable pub can_write : RwLock → Bool
can_write l = not l.writer && (l.readers == 0)

-- The `finally` of a writer that waited.
abbrev pub end_wait : RwLock → RwLock × Bool
end_wait l = (record l { waiting_writers = l.waiting_writers - 1 }, not l.writer)

unfoldable pub enter_write : RwLock → RwLock × Bool
enter_write l = end_wait (record l { writer = true })

-- A writer is cancelled while it waits.
pub give_up : RwLock → RwLock × Bool
give_up l = end_wait l

pub exit_write : RwLock → RwLock × Bool
exit_write l = (record l { writer = false }, true)
