-- ===== src/Pool/Queued/Steps.antt =====
-- A task pool through any history of its steps: no task is lost or runs twice, and no executor
-- sleeps over work that it could do.
use pyservicelib.Base.{
  ℕ, ◌+◌, ◌≤◌, ◌<◌, ◌≡◌, ◌⊎◌, ◌↔◌, inl, inr, refl, Bool, true, false, List, [], ◌∷◌, ◌++◌, ltb,
  ◌==◌, arith, length, length-append, if◌then◌else◌, Bool-cases,
}
use pyservicelib.Pool.WaitGroup
use pyservicelib.Pool.Queued.{
  QueuedPool, init, without, add, promote, take_first, executor_round, task_done, set_target, start,
  stop,
}

-- How often a task stands in a list.
abbrev pub occurs : ℕ → List ℕ → ℕ
occurs i [] = 0
occurs i (j ∷ js) = (if j == i then 1 else 0) + occurs i js

-- A pool, and the tasks that it has finished.
pub record History : Type 0 where
  pub pool : QueuedPool
  pub finished : List ℕ

pub data Step (h : History) : History → Type 0 where
  added : (context_error : Bool) → Step h (record h { pool = (add h.pool context_error).0 })
  -- A watch names a task that was added.
  promoted : (i : ℕ) → i < h.pool.next_id → Step h (record h { pool = promote h.pool i })
  round : (slot : ℕ) → Step h (record h { pool = (executor_round h.pool slot).0 })
  ended :
      (i : ℕ)
      → 0 < occurs i h.pool.running_tasks
      → Step h (record { pool = task_done h.pool i; finished = i ∷ h.finished })
  resized : (count : ℕ) → Step h (record h { pool = set_target h.pool count })
  starts : (count : ℕ) → Step h (record h { pool = (start h.pool count).0 })
  stops : Step h (record h { pool = stop h.pool })

pub data Reachable (target : ℕ) (metrics_enabled : Bool) : History → Type 0 where
  fresh :
      Reachable target metrics_enabled
        (record { pool = init target metrics_enabled; finished = [] })
  after :
      (h k : History)
      → Reachable target metrics_enabled h
      → Step h k
      → Reachable target metrics_enabled k

-- Where a task that was added is: once in the queue, among the running tasks or the finished ones.
abbrev pub places : History → ℕ → ℕ
places h i = occurs i h.pool.queue + (occurs i h.pool.running_tasks + occurs i h.finished)

pub record IsSound (h : History) : Type 0 where
  pub placed : (i : ℕ) → places h i ≡ (if ltb i h.pool.next_id then 1 else 0)
  -- A task is marked running from the moment that it leaves the queue.
  pub marked :
      (i : ℕ)
      → (h.pool.is_running i ≡ true) ↔ (0 < occurs i h.pool.running_tasks + occurs i h.finished)
  -- stop waits for the event of the wait group: it is set where nothing is queued or running.
  pub counted : h.pool.wg.count ≡ length h.pool.queue + length h.pool.running_tasks
  pub drained : (h.pool.wg.event ≡ true) ↔ (h.pool.wg.count ≡ 0)
  -- Executors sleep only where the queue is empty or all may be busy.
  pub awake :
      (h.pool.changed ≡ true) ⊎ (h.pool.queue ≡ []) ⊎ (h.pool.target ≤ length h.pool.running_tasks)
  pub gauged :
      (h.pool.metrics_enabled ≡ false)
      ⊎ (h.pool.queue_length ≡ length h.pool.queue)
        × (h.pool.executors_busy ≡ length h.pool.running_tasks)

pub occurs-append : (i : ℕ) (xs ys : List ℕ) → occurs i (xs ++ ys) ≡ occurs i xs + occurs i ys
occurs-append i [] ys = omega arith
occurs-append i (x ∷ xs) ys = omega (arith, occurs-append i xs ys)

pub occurs-without :
    (i j : ℕ) (xs : List ℕ)
    → 0 < occurs i xs
    → occurs j (without i xs) + (if i == j then 1 else 0) ≡ occurs j xs
occurs-without i j [] h = omega arith
occurs-without i j (x ∷ xs) h = ground (arith, occurs-without i j xs)

pub length-without : (i : ℕ) (xs : List ℕ) → 0 < occurs i xs → length (without i xs) + 1 ≡ length xs
length-without i [] h = omega arith
length-without i (x ∷ xs) h = ground (arith, length-without i xs)

fresh-IsSound : (target : ℕ) (m : Bool) → IsSound (record { pool = init target m; finished = [] })
unfolding init WaitGroup.init
fresh-IsSound target m = record {
  placed = λ i. ground arith;
  marked = λ i. ground arith;
  counted = refl;
  drained = ground arith;
  awake = inr (inl refl);
  gauged = inr (refl, refl);
}

added-IsSound :
    (h : History) (c : Bool) → IsSound h → IsSound (record h { pool = (add h.pool c).0 })
unfolding add WaitGroup.add
added-IsSound h c v =
    let last = h.pool.next_id ∷ [] in
    record {
      placed = λ i. ground (arith, v.placed i, occurs-append i h.pool.queue last);
      marked = λ i. ground (arith, v.marked i);
      counted = ground (arith, v.counted, length-append h.pool.queue last);
      drained = ground (arith, v.drained);
      awake = ground (arith, v.awake);
      gauged = ground (arith, v.gauged, length-append h.pool.queue last);
    }

promoted-IsSound :
    (h : History) (i : ℕ)
    → i < h.pool.next_id
    → IsSound h
    → IsSound (record h { pool = promote h.pool i })
unfolding promote
promoted-IsSound h i old v = record {
  placed = λ j. ground (arith, v.placed i, v.placed j, v.marked i, occurs-without i j h.pool.queue);
  marked = λ j. ground (arith, v.marked j);
  counted = ground (arith, v.counted, v.placed i, v.marked i, length-without i h.pool.queue);
  drained = ground (arith, v.drained);
  awake = ground (arith, v.awake);
  gauged = ground (arith, v.gauged, v.placed i, v.marked i, length-without i h.pool.queue);
}

taken-IsSound :
    (h : History) (queue : List ℕ)
    → h.pool.queue ≡ queue
    → IsSound h
    → IsSound (record h { pool = (take_first h.pool queue).0 })
taken-IsSound h [] e v = record {
  placed = λ j. ground (arith, v.placed j);
  marked = λ j. ground (arith, v.marked j);
  counted = ground (arith, v.counted);
  drained = ground (arith, v.drained);
  awake = ground (arith, v.awake);
  gauged = ground (arith, v.gauged);
}
taken-IsSound h (i ∷ is) e v = record {
  placed = λ j. ground (arith, v.placed j);
  marked = λ j. ground (arith, v.marked j);
  counted = ground (arith, v.counted);
  drained = ground (arith, v.drained);
  awake = ground (arith, v.awake);
  gauged = ground (arith, v.gauged);
}

round-IsSound :
    (h : History) (slot : ℕ)
    → IsSound h
    → IsSound (record h { pool = (executor_round h.pool slot).0 })
unfolding executor_round
round-IsSound h slot v = elim (Bool-cases (ltb slot h.pool.target)) [
  | inl on ↦ rw on (taken-IsSound h h.pool.queue refl v)
  | inr off ↦ rw off v
]

ended-IsSound :
    (h : History) (i : ℕ)
    → 0 < occurs i h.pool.running_tasks
    → IsSound h
    → IsSound (record { pool = task_done h.pool i; finished = i ∷ h.finished })
unfolding task_done WaitGroup.done
ended-IsSound h i there v = record {
  placed = λ j. ground (arith, v.placed j, occurs-without i j h.pool.running_tasks there);
  marked = λ j. ground (arith, v.marked j, occurs-without i j h.pool.running_tasks there);
  counted = ground (arith, v.counted, length-without i h.pool.running_tasks there);
  drained = ground (arith, v.drained);
  awake = inl refl;
  gauged = ground (arith, v.gauged, length-without i h.pool.running_tasks there);
}

-- A step that changes neither the tasks nor their counts, and sets `changed` if it changes the
-- target.
same-IsSound :
    (h : History) (target : ℕ) (changed started stopped : Bool)
    → (changed ≡ true) ⊎ (changed ≡ h.pool.changed) × (target ≡ h.pool.target)
    → IsSound h
    → IsSound (record h {
      pool = record h.pool {
        target = target;
        changed = changed;
        started = started;
        stopped = stopped;
      };
    })
same-IsSound h target changed started stopped c v = record {
  placed = v.placed;
  marked = v.marked;
  counted = v.counted;
  drained = v.drained;
  awake = ground (arith, v.awake);
  gauged = v.gauged;
}

Step-IsSound : (h k : History) → Step h k → IsSound h → IsSound k
unfolding set_target start stop
Step-IsSound h _ (added c) v = added-IsSound h c v
Step-IsSound h _ (promoted i old) v = promoted-IsSound h i old v
Step-IsSound h _ (round slot) v = round-IsSound h slot v
Step-IsSound h _ (ended i there) v = ended-IsSound h i there v
Step-IsSound h _ (resized count) v =
    ground (arith, v, same-IsSound h count true h.pool.started h.pool.stopped (inl refl) v)
Step-IsSound h _ (starts count) v =
    ground (arith, v, same-IsSound h count true true h.pool.stopped (inl refl) v)
Step-IsSound h _ stops v =
    ground (arith, v, same-IsSound h h.pool.target true h.pool.started true (inl refl) v)

-- Through every history of a pool in the order of arrival, tasks promoted, executors started and
-- retired, the pool stopped, and in whatever order the steps come: each task that was added
-- stands once in the queue, among the running tasks or among the finished ones, and no other
-- does; the event that stop waits for is set exactly where nothing is queued or running; the
-- event that executors wait for is set unless the queue is empty or the target number of tasks
-- runs; and with metrics enabled the gauges are the numbers of queued and running tasks.
pub Reachable-IsSound :
    (target : ℕ) (metrics_enabled : Bool) (h : History)
    → Reachable target metrics_enabled h
    → IsSound h
Reachable-IsSound target m _ fresh = fresh-IsSound target m
Reachable-IsSound target m _ (after h k past step) =
    Step-IsSound h k step (Reachable-IsSound target m h past)
