-- ===== src/Utils/RwLock/Tasks.antt =====
-- Tasks that share one AsyncRWLock: where each stands, and how many stand where.
use pyservicelib.Base.{
  ℕ, zero, suc, ◌+◌, ◌≤◌, ◌≡◌, refl, Bool, true, false, List, [], ◌∷◌, ◌++◌, arith, replicate,
}
use pyservicelib.Utils.RwLock.{RwLock}

-- A task that wants to read or to write is about to look at what it waits for, or sleeps at the
-- condition until it is notified.
pub data Phase : Type 0 where
  idle read_looks read_sleeps reading write_looks write_sleeps writing : Phase

pub record Tasks : Type 0 where
  pub lock : RwLock
  pub phases : List Phase

abbrev pub same : Phase → Phase → ℕ
same idle idle = 1
same read_looks read_looks = 1
same read_sleeps read_sleeps = 1
same reading reading = 1
same write_looks write_looks = 1
same write_sleeps write_sleeps = 1
same writing writing = 1
same _ _ = 0

-- The number of tasks in a phase.
abbrev pub count : Phase → List Phase → ℕ
count p [] = 0
count p (q ∷ qs) = same p q + count p qs

-- The writers that wait.
abbrev pub waiters : List Phase → ℕ
waiters ps = count write_looks ps + count write_sleeps ps

abbrev pub woken : Phase → Phase
woken read_sleeps = read_looks
woken write_sleeps = write_looks
woken p = p

-- The tasks after notify_all, where it was called.
abbrev pub notified : Bool → List Phase → List Phase
notified false ps = ps
notified true [] = []
notified true (p ∷ ps) = woken p ∷ notified true ps

-- The counts that the lock depends on.
pub record Counts (ps qs : List Phase) : Type 0 where
  pub readers : count reading qs ≡ count reading ps
  pub writers : count writing qs ≡ count writing ps
  pub waiting : waiters qs ≡ waiters ps
  pub fewer_readers : count read_sleeps qs ≤ count read_sleeps ps
  pub fewer_writers : count write_sleeps qs ≤ count write_sleeps ps

pub notified-Counts : (b : Bool) (ps : List Phase) → Counts ps (notified b ps)
notified-Counts false ps = record {
  readers = refl;
  writers = refl;
  waiting = refl;
  fewer_readers = omega arith;
  fewer_writers = omega arith;
}
notified-Counts true [] = record {
  readers = refl;
  writers = refl;
  waiting = refl;
  fewer_readers = omega arith;
  fewer_writers = omega arith;
}
notified-Counts true (p ∷ ps) =
    let c = notified-Counts true ps in
    record {
      readers = ground (arith, c.readers);
      writers = ground (arith, c.writers);
      waiting = ground (arith, c.waiting);
      fewer_readers = ground (arith, c.fewer_readers);
      fewer_writers = ground (arith, c.fewer_writers);
    }

-- notify_all leaves no task asleep.
pub notified-awake :
    (ps : List Phase)
    → (count read_sleeps (notified true ps) ≡ 0) × (count write_sleeps (notified true ps) ≡ 0)
notified-awake [] = (refl, refl)
notified-awake (p ∷ ps) = ground (arith, notified-awake ps)

pub count-none : (p : Phase) (n : ℕ) → same p idle ≡ 0 → count p (replicate n idle) ≡ 0
count-none p zero h = refl
count-none p (suc n) h = omega (arith, count-none p n h)

count-append :
    (p q : Phase) (before rest : List Phase)
    → count p (before ++ (q ∷ rest)) ≡ same p q + count p (before ++ rest)
count-append p q [] rest = refl
count-append p q (x ∷ xs) rest = omega (arith, count-append p q xs rest)

-- What a move of one task from phase `p` to phase `q` does to the count of `r`.
abbrev pub Moved : List Phase → List Phase → (p q r : Phase) → Type 0
Moved ps qs p q r = (same r p ≤ count r ps) × (count r qs + same r p ≡ count r ps + same r q)

moved :
    (ps before rest : List Phase) (p q r : Phase)
    → ps ≡ before ++ (p ∷ rest)
    → Moved ps (before ++ (q ∷ rest)) p q r
moved ps before rest p q r e =
    rw e (omega (arith, count-append r p before rest, count-append r q before rest))

abbrev pub Moves : List Phase → List Phase → (p q : Phase) → Type 0
Moves ps qs p q =
    Moved ps qs p q reading
    × Moved ps qs p q writing
    × Moved ps qs p q write_looks
    × Moved ps qs p q write_sleeps
    × Moved ps qs p q read_sleeps

pub all-Moves :
    (ps before rest : List Phase) (p q : Phase)
    → ps ≡ before ++ (p ∷ rest)
    → Moves ps (before ++ (q ∷ rest)) p q
all-Moves ps before rest p q e = (
  moved ps before rest p q reading e,
  moved ps before rest p q writing e,
  moved ps before rest p q write_looks e,
  moved ps before rest p q write_sleeps e,
  moved ps before rest p q read_sleeps e,
)
