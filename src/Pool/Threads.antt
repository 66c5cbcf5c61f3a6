-- ===== src/Pool/Threads.antt =====
-- runtime/pool/threadpool.py: AsyncThreadPoolExecutor and the loop of its threads. A task is named
-- by the number of the tasks added before it, a thread by its place. Each function is a step of one
-- thread, and the steps of the threads come in any order; `add_task` with its calls of `wake`, and
-- the same of `shutdown`, are one step.
pub mod Steps
mod Examples
use pyservicelib.Base.{
  ℕ, suc, Bool, true, false, List, [], ◌∷◌, ◌++◌, replicate, Option, none, some, ◌==◌,
  if◌then◌else◌, Result, ok, err, runtime_error,
}

-- Where `_executor` stands: at the top of its loop, past `clear`, at the wait, in a task, after it.
pub data Worker : Type 0 where
  looking cleared waiting ended : Worker
  running : ℕ → Worker

pub record Executor : Type 0 where
  -- The entries; the one without a task ends a thread.
  pub task_queue : List (Option ℕ)
  pub threads : ℕ
  pub workers : ℕ → Worker
  pub available : ℕ → Bool
  -- `available.set` is among the callbacks of the thread's loop.
  pub scheduled : ℕ → Bool
  pub stopped : Bool
  pub next_task : ℕ

unfoldable pub init : (threads : ℕ) → Executor
init threads = record {
  task_queue = [];
  threads = threads;
  workers = λ i. looking;
  available = λ i. false;
  scheduled = λ i. false;
  stopped = false;
  next_task = 0;
}

abbrev pub at : {A : Type 0} → (ℕ → A) → ℕ → A → ℕ → A
at f i a j = if i == j then a else f j

pub add_task : Executor → Executor × Result ℕ
add_task s = if s.stopped then (s, err runtime_error) else (
  record s {
    task_queue = s.task_queue ++ (some s.next_task ∷ []);
    scheduled = λ i. true;
    next_task = suc s.next_task;
  },
  ok s.next_task,
)

-- `shutdown` and `aclose` before they wait for the threads.
pub shutdown : Executor → Executor
shutdown s = if s.stopped then s else record s {
  stopped = true;
  task_queue = s.task_queue ++ replicate s.threads none;
  scheduled = λ i. true;
}

-- The callback of `wake` runs.
pub wakes : Executor → ℕ → Executor
wakes s i = record s { available = at s.available i true; scheduled = at s.scheduled i false }

-- `self._available.clear()`
pub clears : Executor → ℕ → Executor
clears s i = record s { available = at s.available i false; workers = at s.workers i cleared }

-- `get_nowait`, and where the thread goes from there.
abbrev pub takes_from : Executor → ℕ → List (Option ℕ) → Executor
takes_from s i [] = record s { workers = at s.workers i waiting }
takes_from s i (none ∷ entries) = record s { task_queue = entries; workers = at s.workers i ended }
takes_from s i (some t ∷ entries) = record s {
  task_queue = entries;
  workers = at s.workers i (running t);
}

pub takes : Executor → ℕ → Executor
takes s i = takes_from s i s.task_queue

-- The wait or the task is over.
pub turns : Executor → ℕ → Executor
turns s i = record s { workers = at s.workers i looking }
