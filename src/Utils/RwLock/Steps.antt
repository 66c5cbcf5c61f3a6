-- ===== src/Utils/RwLock/Steps.antt =====
-- Tasks that share one AsyncRWLock: who may hold it at the same time, and who sleeps.
use pyservicelib.Base.{
  ℕ, ◌+◌, ◌≤◌, ◌<◌, ◌≡◌, ◌⊎◌, ◌↔◌, inl, inr, refl, Bool, true, false, List, ◌∷◌, ◌++◌, arith,
  replicate, if◌then◌else◌,
}
use pyservicelib.Utils.RwLock.{
  RwLock, init, can_read, enter_read, exit_read, wait_write, can_write, enter_write, give_up,
  exit_write,
}
use pyservicelib.Utils.RwLock.Tasks.{
  Phase, idle, read_looks, read_sleeps, reading, write_looks, write_sleeps, writing, Tasks, count,
  waiters, notified, notified-Counts, notified-awake, count-none, all-Moves,
}

-- One task among the others goes from a phase to the next, and the others are notified or not.
abbrev pub goes : RwLock × Bool → List Phase → Tasks
goes (lock, notify) phases = record { lock = lock; phases = notified notify phases }

pub data Step (s : Tasks) : Tasks → Type 0 where
  read_comes :
      (before rest : List Phase)
      → s.phases ≡ before ++ (idle ∷ rest)
      → Step s (record s { phases = before ++ (read_looks ∷ rest) })
  read_entered :
      (before rest : List Phase)
      → s.phases ≡ before ++ (read_looks ∷ rest)
      → can_read s.lock ≡ true
      → Step s (record { lock = enter_read s.lock; phases = before ++ (reading ∷ rest) })
  read_waits :
      (before rest : List Phase)
      → s.phases ≡ before ++ (read_looks ∷ rest)
      → can_read s.lock ≡ false
      → Step s (record s { phases = before ++ (read_sleeps ∷ rest) })
  read_cancelled :
      (before rest : List Phase) (p : Phase)
      → s.phases ≡ before ++ (p ∷ rest)
      → (p ≡ read_looks) ⊎ (p ≡ read_sleeps)
      → Step s (record s { phases = before ++ (idle ∷ rest) })
  read_exited :
      (before rest : List Phase)
      → s.phases ≡ before ++ (reading ∷ rest)
      → Step s (goes (exit_read s.lock) (before ++ (idle ∷ rest)))
  write_announced :
      (before rest : List Phase)
      → s.phases ≡ before ++ (idle ∷ rest)
      → Step s (record { lock = wait_write s.lock; phases = before ++ (write_looks ∷ rest) })
  write_entered :
      (before rest : List Phase)
      → s.phases ≡ before ++ (write_looks ∷ rest)
      → can_write s.lock ≡ true
      → Step s (goes (enter_write s.lock) (before ++ (writing ∷ rest)))
  write_waits :
      (before rest : List Phase)
      → s.phases ≡ before ++ (write_looks ∷ rest)
      → can_write s.lock ≡ false
      → Step s (record s { phases = before ++ (write_sleeps ∷ rest) })
  write_cancelled :
      (before rest : List Phase) (p : Phase)
      → s.phases ≡ before ++ (p ∷ rest)
      → (p ≡ write_looks) ⊎ (p ≡ write_sleeps)
      → Step s (goes (give_up s.lock) (before ++ (idle ∷ rest)))
  write_exited :
      (before rest : List Phase)
      → s.phases ≡ before ++ (writing ∷ rest)
      → Step s (goes (exit_write s.lock) (before ++ (idle ∷ rest)))

pub data Reachable (n : ℕ) : Tasks → Type 0 where
  fresh : Reachable n (record { lock = init; phases = replicate n idle })
  after : (s t : Tasks) → Reachable n s → Step s t → Reachable n t

-- The fields count the tasks, a writer has no readers beside it, and no task sleeps without cause.
abbrev Fits : RwLock → List Phase → Type 0
Fits l ps =
    (l.readers ≡ count reading ps)
    × (l.waiting_writers ≡ waiters ps)
    × ((if l.writer then 1 else 0) ≡ count writing ps)
    × ((l.writer ≡ false) ⊎ (l.readers ≡ 0))

abbrev Sleeps : RwLock → List Phase → Type 0
Sleeps l ps =
    ((count read_sleeps ps ≡ 0) ⊎ (can_read l ≡ false))
    × ((count write_sleeps ps ≡ 0) ⊎ (can_write l ≡ false))

record IsSound (s : Tasks) : Type 0 where
  fits : Fits s.lock s.phases
  sleeps : Sleeps s.lock s.phases

-- A step that notifies nobody.
quiet :
    (l : RwLock) (ps : List Phase)
    → Fits l ps × Sleeps l ps
    → IsSound (record { lock = l; phases = ps })
quiet l ps (f, v) = record { fits = f; sleeps = v }

-- A step that notifies all, or leaves no task asleep without cause.
sound :
    (r : RwLock × Bool) (ps : List Phase)
    → Fits r.0 ps × ((r.1 ≡ true) ⊎ Sleeps r.0 ps)
    → IsSound (goes r ps)
sound (l, true) ps (f, v) =
    let c = notified-Counts true ps in
    let (r, w) = notified-awake ps in
    record { fits = ground (arith, f, c.readers, c.waiting, c.writers); sleeps = (inl r, inl w) }
sound (l, false) ps (f, inl e) = cc
sound (l, false) ps (f, inr v) = record { fits = f; sleeps = v }

Step-IsSound : (s t : Tasks) → Step s t → IsSound s → IsSound t
unfolding can_read can_write enter_read exit_read wait_write enter_write give_up exit_write
Step-IsSound s _ (read_comes before rest e) v =
    quiet _ _ (ground (arith, v.fits, v.sleeps, all-Moves s.phases before rest idle read_looks e))
Step-IsSound s _ (read_entered before rest e g) v =
    quiet _ _
      (ground (arith, v.fits, v.sleeps, all-Moves s.phases before rest read_looks reading e))
Step-IsSound s _ (read_waits before rest e g) v =
    quiet _ _
      (ground (arith, v.fits, v.sleeps, all-Moves s.phases before rest read_looks read_sleeps e))
Step-IsSound s _ (read_cancelled before rest p e q) v =
    quiet _ _ (ground (arith, v.fits, v.sleeps, all-Moves s.phases before rest p idle e))
Step-IsSound s _ (read_exited before rest e) v =
    sound (exit_read s.lock) (before ++ (idle ∷ rest))
      (ground (arith, v.fits, v.sleeps, all-Moves s.phases before rest reading idle e))
Step-IsSound s _ (write_announced before rest e) v =
    quiet _ _ (ground (arith, v.fits, v.sleeps, all-Moves s.phases before rest idle write_looks e))
Step-IsSound s _ (write_entered before rest e g) v =
    sound (enter_write s.lock) (before ++ (writing ∷ rest))
      (ground (arith, v.fits, v.sleeps, all-Moves s.phases before rest write_looks writing e))
Step-IsSound s _ (write_waits before rest e g) v =
    quiet _ _
      (ground (arith, v.fits, v.sleeps, all-Moves s.phases before rest write_looks write_sleeps e))
Step-IsSound s _ (write_cancelled before rest p e q) v =
    sound (give_up s.lock) (before ++ (idle ∷ rest))
      (ground (arith, v.fits, v.sleeps, all-Moves s.phases before rest p idle e))
Step-IsSound s _ (write_exited before rest e) v =
    sound (exit_write s.lock) (before ++ (idle ∷ rest))
      (ground (arith, v.fits, v.sleeps, all-Moves s.phases before rest writing idle e))

fresh-IsSound : (n : ℕ) → IsSound (record { lock = init; phases = replicate n idle })
unfolding init
fresh-IsSound n = quiet _ _ (
    ground (
      arith,
      count-none reading n refl,
      count-none writing n refl,
      count-none write_looks n refl,
      count-none write_sleeps n refl,
      count-none read_sleeps n refl,
    ))

Reachable-IsSound : (n : ℕ) (s : Tasks) → Reachable n s → IsSound s
Reachable-IsSound n _ fresh = fresh-IsSound n
Reachable-IsSound n _ (after s t past step) = Step-IsSound s t step (Reachable-IsSound n s past)

-- At most one task writes, and none reads beside it; a reader may enter just where no writer waits
-- or writes, and a writer just where no task writes or reads; and a reader or a writer sleeps only
-- while it may not enter.
abbrev pub IsExclusive : Tasks → Type 0
IsExclusive s =
    (count writing s.phases ≤ 1)
    × ((count writing s.phases ≡ 0) ⊎ (count reading s.phases ≡ 0))
    × ((count writing s.phases + waiters s.phases ≡ 0) ↔ (can_read s.lock ≡ true))
    × ((count writing s.phases + count reading s.phases ≡ 0) ↔ (can_write s.lock ≡ true))
    × ((count read_sleeps s.phases ≡ 0) ⊎ (0 < count writing s.phases + waiters s.phases))
    × ((count write_sleeps s.phases ≡ 0) ⊎ (0 < count writing s.phases + count reading s.phases))

-- Whatever n tasks do with one lock, cancelled while they wait included: at most one task writes,
-- and none reads beside it; a reader may enter just where no writer waits or writes, and a writer
-- just where no task writes or reads; and no wake-up is missed: a reader sleeps only while a writer
-- waits or writes, and a writer only while a task writes or reads.
pub Reachable-IsExclusive : (n : ℕ) (s : Tasks) → Reachable n s → IsExclusive s
unfolding can_read can_write
Reachable-IsExclusive n s past =
    let v = Reachable-IsSound n s past in ground (arith, v.fits, v.sleeps)
