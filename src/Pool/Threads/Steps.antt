-- ===== src/Pool/Threads/Steps.antt =====
-- The threads of AsyncThreadPoolExecutor through any history of their steps.
use pyservicelib.Base.{
  ℕ, zero, suc, ◌+◌, ◌≡◌, ◌⊎◌, inl, inr, refl, ap, sym, ◌∙◌, true, false, List, [], ◌∷◌, ◌++◌,
  replicate, Option, none, some, if◌then◌else◌, append-nil, subst, append_assoc, arith, Bool-cases,
}
use pyservicelib.Pool.Threads.{
  looking, cleared, waiting, running, Executor, init, add_task, shutdown, wakes, clears, takes_from,
  takes, turns,
}

-- The executor, the tasks in the order in which threads took them, and how many threads ended.
pub record History : Type 0 where
  pub executor : Executor
  pub taken : List ℕ
  pub gone : ℕ

abbrev pub tasks : List (Option ℕ) → List ℕ
tasks [] = []
tasks (none ∷ entries) = tasks entries
tasks (some t ∷ entries) = t ∷ tasks entries

abbrev pub seals : List (Option ℕ) → ℕ
seals [] = 0
seals (none ∷ entries) = suc (seals entries)
seals (some t ∷ entries) = seals entries

abbrev first_task : List (Option ℕ) → List ℕ
first_task [] = []
first_task (none ∷ entries) = []
first_task (some t ∷ entries) = t ∷ []

abbrev ended_by : List (Option ℕ) → ℕ → ℕ
ended_by [] n = n
ended_by (none ∷ entries) n = suc n
ended_by (some t ∷ entries) n = n

-- `takes` by the thread i.
abbrev pub takes_next : History → ℕ → History
takes_next h i = record {
  executor = takes h.executor i;
  taken = h.taken ++ first_task h.executor.task_queue;
  gone = ended_by h.executor.task_queue h.gone;
}

pub data Step (h : History) : History → Type 0 where
  adds : Step h (record h { executor = (add_task h.executor).0 })
  shuts : Step h (record h { executor = shutdown h.executor })
  wakes_up :
      (i : ℕ) → h.executor.scheduled i ≡ true → Step h (record h { executor = wakes h.executor i })
  begins :
      (i : ℕ)
      → h.executor.workers i ≡ looking
      → Step h (record h { executor = clears h.executor i })
  gets : (i : ℕ) → h.executor.workers i ≡ cleared → Step h (takes_next h i)
  resumes :
      (i : ℕ)
      → h.executor.workers i ≡ waiting
      → h.executor.available i ≡ true
      → Step h (record h { executor = turns h.executor i })
  finishes :
      (i t : ℕ)
      → h.executor.workers i ≡ running t
      → Step h (record h { executor = turns h.executor i })

pub data Reachable (threads : ℕ) : History → Type 0 where
  fresh : Reachable threads (record { executor = init threads; taken = []; gone = 0 })
  after : (h k : History) → Reachable threads h → Step h k → Reachable threads k

-- 0, 1, 2, … below a number.
abbrev pub numbers : ℕ → List ℕ
numbers zero = []
numbers (suc n) = numbers n ++ (n ∷ [])

-- No task stands behind an entry that ends a thread.
abbrev pub IsSealed : List (Option ℕ) → Type 0
IsSealed [] = Unit {0}
IsSealed (none ∷ entries) = tasks entries ≡ []
IsSealed (some t ∷ entries) = IsSealed entries

pub record IsSound (h : History) : Type 0 where
  -- A thread sleeps over no entry: its event is set, or will be.
  pub awake :
      (i : ℕ)
      → h.executor.workers i ≡ waiting
      → (h.executor.task_queue ≡ [])
        ⊎ (h.executor.available i ≡ true)
        ⊎ (h.executor.scheduled i ≡ true)
  pub ordered : h.taken ++ tasks h.executor.task_queue ≡ numbers h.executor.next_task
  pub sealed : IsSealed h.executor.task_queue
  -- Each thread has one entry that ends it, once the pool is stopped.
  pub shared :
      seals h.executor.task_queue + h.gone ≡ (if h.executor.stopped then h.executor.threads else 0)
  -- A thread ends when all tasks were taken.
  pub drained : (h.gone ≡ 0) ⊎ (tasks h.executor.task_queue ≡ [])

tasks-append : (xs ys : List (Option ℕ)) → tasks (xs ++ ys) ≡ tasks xs ++ tasks ys
tasks-append [] ys = refl
tasks-append (none ∷ xs) ys = tasks-append xs ys
tasks-append (some t ∷ xs) ys = ap (◌∷◌ t) (tasks-append xs ys)

seals-append : (xs ys : List (Option ℕ)) → seals (xs ++ ys) ≡ seals xs + seals ys
seals-append [] ys = omega arith
seals-append (none ∷ xs) ys = omega (arith, seals-append xs ys)
seals-append (some t ∷ xs) ys = seals-append xs ys

tasks-replicate : (n : ℕ) → tasks (replicate n none) ≡ []
tasks-replicate zero = refl
tasks-replicate (suc n) = tasks-replicate n

seals-replicate : (n : ℕ) → seals (replicate n none) ≡ n
seals-replicate zero = refl
seals-replicate (suc n) = ap suc (seals-replicate n)

IsSealed-append : (xs ys : List (Option ℕ)) → seals xs ≡ 0 → IsSealed ys → IsSealed (xs ++ ys)
IsSealed-append [] ys e v = v
IsSealed-append (none ∷ xs) ys e v = absurd (omega arith)
IsSealed-append (some t ∷ xs) ys e v = IsSealed-append xs ys e v

nil-IsSealed : (xs : List (Option ℕ)) → tasks xs ≡ [] → IsSealed xs
nil-IsSealed [] e = tt
nil-IsSealed (none ∷ xs) e = e
nil-IsSealed (some t ∷ xs) e = ground (arith, e)

IsSealed-replicate : (n : ℕ) → IsSealed (replicate n none)
IsSealed-replicate zero = tt
IsSealed-replicate (suc n) = tasks-replicate n

appended-IsSound :
    (h : History)
    → IsSound h
    → seals h.executor.task_queue ≡ 0
    → h.gone ≡ 0
    → h.executor.stopped ≡ false
    → IsSound (record h {
      executor = record h.executor {
        task_queue = h.executor.task_queue ++ (some h.executor.next_task ∷ []);
        scheduled = λ i. true;
        next_task = suc h.executor.next_task;
      };
    })
appended-IsSound h v none_yet start on =
    let q = h.executor.task_queue in
    let last : List (Option ℕ) = some h.executor.next_task ∷ [] in
    record {
      awake = λ i e. inr (inr refl);
      ordered =
          ap (λ ts. h.taken ++ ts) (tasks-append q last)
          ∙ sym (append_assoc h.taken (tasks q) (h.executor.next_task ∷ []))
          ∙ ap (λ ts. ts ++ (h.executor.next_task ∷ [])) v.ordered;
      sealed = IsSealed-append q last none_yet tt;
      shared = ground (arith, v.shared, seals-append q last);
      drained = inl start;
    }

adds-IsSound : (h : History) → IsSound h → IsSound (record h { executor = (add_task h.executor).0 })
unfolding add_task
adds-IsSound h v = elim (Bool-cases h.executor.stopped) [
  | inl over ↦ ground (arith, v)
  | inr on ↦
      let none_yet : seals h.executor.task_queue ≡ 0 = ground (arith, v.shared) in
      let start : h.gone ≡ 0 = ground (arith, v.shared) in
      ground (arith, appended-IsSound h v none_yet start on)
]

sealed_off-IsSound :
    (h : History)
    → IsSound h
    → seals h.executor.task_queue ≡ 0
    → h.gone ≡ 0
    → IsSound (record h {
      executor = record h.executor {
        stopped = true;
        task_queue = h.executor.task_queue ++ replicate h.executor.threads none;
        scheduled = λ i. true;
      };
    })
sealed_off-IsSound h v none_yet start =
    let q = h.executor.task_queue in
    let ends : List (Option ℕ) = replicate h.executor.threads none in
    record {
      awake = λ i e. inr (inr refl);
      ordered =
          ap (λ ts. h.taken ++ ts)
            (tasks-append q ends
              ∙ ap (λ ts. tasks q ++ ts) (tasks-replicate h.executor.threads)
              ∙ append-nil (tasks q))
          ∙ v.ordered;
      sealed = IsSealed-append q ends none_yet (IsSealed-replicate h.executor.threads);
      shared =
          omega (arith, none_yet, start, seals-append q ends, seals-replicate h.executor.threads);
      drained = inl start;
    }

shuts-IsSound : (h : History) → IsSound h → IsSound (record h { executor = shutdown h.executor })
unfolding shutdown
shuts-IsSound h v = elim (Bool-cases h.executor.stopped) [
  | inl over ↦ ground (arith, v)
  | inr on ↦
      let none_yet : seals h.executor.task_queue ≡ 0 = ground (arith, v.shared) in
      let start : h.gone ≡ 0 = ground (arith, v.shared) in
      ground (arith, sealed_off-IsSound h v none_yet start)
]

wakes-IsSound :
    (h : History) (i : ℕ) → IsSound h → IsSound (record h { executor = wakes h.executor i })
unfolding wakes
wakes-IsSound h i v = record {
  awake = λ j e. let old = v.awake j e in ground arith;
  ordered = v.ordered;
  sealed = v.sealed;
  shared = v.shared;
  drained = v.drained;
}

clears-IsSound :
    (h : History) (i : ℕ) → IsSound h → IsSound (record h { executor = clears h.executor i })
unfolding clears
clears-IsSound h i v = record {
  awake = λ j e. let old = v.awake j in ground arith;
  ordered = v.ordered;
  sealed = v.sealed;
  shared = v.shared;
  drained = v.drained;
}

turns-IsSound :
    (h : History) (i : ℕ) → IsSound h → IsSound (record h { executor = turns h.executor i })
unfolding turns
turns-IsSound h i v = record {
  awake = λ j e. let old = v.awake j in ground arith;
  ordered = v.ordered;
  sealed = v.sealed;
  shared = v.shared;
  drained = v.drained;
}

takes_from-IsSound :
    (h : History) (i : ℕ) (entries : List (Option ℕ))
    → h.executor.task_queue ≡ entries
    → IsSound h
    → IsSound (record {
      executor = takes_from h.executor i entries;
      taken = h.taken ++ first_task entries;
      gone = ended_by entries h.gone;
    })
takes_from-IsSound h i [] e v = record {
  awake = λ j w. inl e;
  ordered = ap (λ ts. ts ++ tasks h.executor.task_queue) (append-nil h.taken) ∙ v.ordered;
  sealed = v.sealed;
  shared = v.shared;
  drained = v.drained;
}
takes_from-IsSound h i (none ∷ entries) e v =
    let bare : tasks entries ≡ [] = subst IsSealed e v.sealed in
    record {
      awake = λ j w. let old = v.awake j in ground arith;
      ordered =
          ap (λ ts. ts ++ tasks entries) (append-nil h.taken)
          ∙ ap (λ q. h.taken ++ tasks q) (sym e)
          ∙ v.ordered;
      sealed = nil-IsSealed entries bare;
      shared = ground (arith, ap seals e, v.shared);
      drained = inr bare;
    }
takes_from-IsSound h i (some t ∷ entries) e v = record {
  awake = λ j w. let old = v.awake j in ground arith;
  ordered =
      append_assoc h.taken (t ∷ []) (tasks entries)
      ∙ ap (λ q. h.taken ++ tasks q) (sym e)
      ∙ v.ordered;
  sealed = subst IsSealed e v.sealed;
  shared = ground (arith, ap seals e, v.shared);
  drained = ground (arith, ap tasks e, v.drained);
}

takes-IsSound : (h : History) (i : ℕ) → IsSound h → IsSound (takes_next h i)
unfolding takes
takes-IsSound h i v = takes_from-IsSound h i h.executor.task_queue refl v

init-IsSound : (n : ℕ) → IsSound (record { executor = init n; taken = []; gone = 0 })
unfolding init
init-IsSound n = record {
  awake = λ j w. inl refl;
  ordered = refl;
  sealed = tt;
  shared = refl;
  drained = inl refl;
}

Step-IsSound : (h k : History) → Step h k → IsSound h → IsSound k
Step-IsSound h k adds v = adds-IsSound h v
Step-IsSound h k shuts v = shuts-IsSound h v
Step-IsSound h k (wakes_up i e) v = wakes-IsSound h i v
Step-IsSound h k (begins i e) v = clears-IsSound h i v
Step-IsSound h k (gets i e) v = takes-IsSound h i v
Step-IsSound h k (resumes i e r) v = turns-IsSound h i v
Step-IsSound h k (finishes i t e) v = turns-IsSound h i v

-- Through any order of the steps of the threads and of the calls of `add_task` and of `shutdown`, a
-- thread that waits has an empty queue before it, or its event is set, or is about to be; the tasks
-- that threads took, followed by those of the queue, are all the tasks in the order in which they
-- were added; no task stands behind an entry that ends a thread; once the pool is stopped, the
-- entries that end a thread and the threads that ended are together as many as the threads, and
-- before that there is none; and when a thread has ended, no task is left in the queue.
pub threads-IsSound : (n : ℕ) (h : History) → Reachable n h → IsSound h
threads-IsSound n h fresh = init-IsSound n
threads-IsSound n h (after g k r step) = Step-IsSound g k step (threads-IsSound n g r)
