-- ===== src/Pool/Queued.antt =====
-- runtime/pool/_queuedpool.py: QueuedPool in the order of arrival (`priority=False`). A task is
-- named by a number, as by its `id`. Each function is what runs between two awaits.
pub mod Steps
use pyservicelib.Base.{
  ℕ, suc, ◌+◌, ◌-◌, Bool, true, false, not, ◌&&◌, ◌||◌, List, [], ◌∷◌, ◌++◌, ltb, leb, ◌==◌, length,
  if◌then◌else◌, Option, none, some, Result, ok, err, cancelled_error, runtime_error,
}
use pyservicelib.Pool.WaitGroup.{WaitGroup}
use pyservicelib.Pool.WaitGroup

pub record QueuedPool : Type 0 where
  pub queue : List ℕ
  pub running_tasks : List ℕ
  pub next_id : ℕ
  -- `task.state == "running"`
  pub is_running : ℕ → Bool
  pub changed : Bool
  pub started : Bool
  pub stopped : Bool
  pub target : ℕ
  pub wg : WaitGroup
  pub metrics_enabled : Bool
  -- The gauges are what was added less what was taken off.
  pub queue_length : ℕ
  pub executors_busy : ℕ
  pub tasks_total : ℕ
  pub rejected_total : ℕ
  pub cancelled_total : ℕ

unfoldable pub init : (target : ℕ) (metrics_enabled : Bool) → QueuedPool
init target metrics_enabled = record {
  queue = [];
  running_tasks = [];
  next_id = 0;
  is_running = λ i. false;
  changed = false;
  started = false;
  stopped = false;
  target = target;
  wg = WaitGroup.init;
  metrics_enabled = metrics_enabled;
  queue_length = 0;
  executors_busy = 0;
  tasks_total = 0;
  rejected_total = 0;
  cancelled_total = 0;
}

abbrev pub if_metrics : Bool → ℕ
if_metrics enabled = if enabled then 1 else 0

-- `del d[i]`, for a key that stands once.
abbrev pub without : ℕ → List ℕ → List ℕ
without i [] = []
without i (j ∷ js) = if j == i then js else j ∷ without i js

abbrev pub set_running : (ℕ → Bool) → ℕ → ℕ → Bool
set_running is_running i j = if j == i then true else is_running j

-- `_add`: the request that calls may have been cancelled.
pub add : QueuedPool → (context_error : Bool) → QueuedPool × Result (Unit {0})
add p context_error =
    let rejected = record p { rejected_total = p.rejected_total + if_metrics p.metrics_enabled } in
    if context_error
    then (rejected, err cancelled_error)
    else if p.stopped
    then (rejected, err runtime_error)
    else (
      record p {
        queue = p.queue ++ (p.next_id ∷ []);
        next_id = suc p.next_id;
        wg = WaitGroup.add p.wg;
        queue_length = p.queue_length + if_metrics p.metrics_enabled;
        changed = true;
      },
      ok tt,
    )

abbrev pub is_first : ℕ → List ℕ → Bool
is_first i [] = false
is_first i (j ∷ js) = j == i

abbrev pub is_nil : List ℕ → Bool
is_nil [] = true
is_nil (j ∷ js) = false

-- `_promote`, when the request of a task is cancelled or its deadline has passed.
pub promote : QueuedPool → ℕ → QueuedPool
promote p i =
    let moved = not (is_nil p.queue) && not (is_first i p.queue) in
    if p.is_running i
    then p
    else if moved
    then record p {
      queue = i ∷ without i p.queue;
      cancelled_total = p.cancelled_total + if_metrics p.metrics_enabled;
      changed = true;
    }
    else record p { changed = true }

-- What one round of `_executor` does: it takes a task, waits for `changed`, or ends.
pub data Round : Type 0 where
  ends : Round
  waits : Round
  takes : ℕ → Round

abbrev pub take_first : QueuedPool → List ℕ → QueuedPool × Round
take_first p [] =
    (if p.stopped then p else record p { changed = false }, if p.stopped then ends else waits)
take_first p (i ∷ is) =
    if leb p.target (length p.running_tasks) then (record p { changed = false }, waits) else (
      record p {
        queue = is;
        running_tasks = i ∷ p.running_tasks;
        is_running = set_running p.is_running i;
        queue_length = p.queue_length - if_metrics p.metrics_enabled;
        executors_busy = p.executors_busy + if_metrics p.metrics_enabled;
      },
      takes i,
    )

pub executor_round : QueuedPool → (slot : ℕ) → QueuedPool × Round
executor_round p slot = if ltb slot p.target then take_first p p.queue else (p, ends)

-- The end of `_run_task`, and what `_executor` does after it.
pub task_done : QueuedPool → ℕ → QueuedPool
task_done p i = record p {
  running_tasks = without i p.running_tasks;
  tasks_total = p.tasks_total + if_metrics p.metrics_enabled;
  wg = WaitGroup.done p.wg;
  executors_busy = p.executors_busy - if_metrics p.metrics_enabled;
  changed = true;
}

-- What `_manager` and `start` change besides the executor tasks.
pub set_target : QueuedPool → ℕ → QueuedPool
set_target p count =
    if count == p.target || p.stopped then p else record p { target = count; changed = true }

pub start : QueuedPool → (count : ℕ) → QueuedPool × Result (Unit {0})
start p count =
    if p.stopped
    then (p, err runtime_error)
    else if p.started
    then (p, err runtime_error)
    else (record p { started = true; target = count; changed = true }, ok tt)

-- `stop`, with the part of `_shutdown` before it waits.
unfoldable pub stop : QueuedPool → QueuedPool
stop p = if p.stopped then p else record p { stopped = true; changed = true }
