-- ===== src/Pool/Delay.antt =====
-- runtime/pool/delaypool.py: DelayPoolImpl. A task is named by the number of the tasks that were
-- added before it; times are floats, and `due` is the time at which a delay ends.
pub mod Dispatch
pub mod Firing
pub mod Sound
pub mod Adding
pub mod Calls
pub mod Steps
use pyservicelib.Base.{
  ℕ, zero, suc, ◌+◌, ◌-◌, Bool, true, false, not, ◌==◌, List, [], ◌∷◌, Option, none, some,
  if◌then◌else◌, length, Result, ok, err, cancelled_error, runtime_error,
}
use pyservicelib.Base.Loops.{Loop, out_of_fuel, ends, ◌>>=◌}
use pyservicelib.Pool.WaitGroup.{WaitGroup}
use pyservicelib.Pool.WaitGroup
use pyservicelib.Pool.Queued.{if_metrics, set_running, without}
use pyservicelib.Pool.Heap.{Entry, IndexedHeap, empty, push, pop, remove}
use pyservicelib.Pool.Heap.Keys.{Floats, same, keys}

pub record DelayPool (F : Type 0) : Type 0 where
  pub queue : IndexedHeap (F × ℕ)
  pub running_tasks : List ℕ
  -- The time of the timer, where there is one.
  pub armed_at : Option F
  pub counter : ℕ
  -- `task.state == "running"` and `task.expedited`
  pub is_running : ℕ → Bool
  pub is_expedited : ℕ → Bool
  pub started : Bool
  pub stopped : Bool
  pub wg : WaitGroup
  pub metrics_enabled : Bool
  pub wait_queue_length : ℕ
  pub tasks_total : ℕ
  pub cancelled_total : ℕ

unfoldable pub init : {F : Type 0} → (metrics_enabled : Bool) → DelayPool F
init metrics_enabled = record {
  queue = empty;
  running_tasks = [];
  armed_at = none;
  counter = 0;
  is_running = λ i. false;
  is_expedited = λ i. false;
  started = false;
  stopped = false;
  wg = WaitGroup.init;
  metrics_enabled = metrics_enabled;
  wait_queue_length = 0;
  tasks_total = 0;
  cancelled_total = 0;
}

pub start : {F : Type 0} → DelayPool F → DelayPool F × Result (Unit {0})
start p =
    if p.stopped
    then (p, err runtime_error)
    else if p.started
    then (p, err runtime_error)
    else (record p { started = true }, ok tt)

pub stop : {F : Type 0} → DelayPool F → DelayPool F
stop p = record p { stopped = true }

-- `peek`, and the time in the key.
abbrev pub first_when : {F : Type 0} → List (Entry (F × ℕ)) → Option F
first_when [] = none
first_when (x ∷ xs) = some ((x.key).0)

-- The end of `_run_task`, and of its runner.
pub task_done : {F : Type 0} → DelayPool F → ℕ → DelayPool F
task_done p i = record p {
  running_tasks = without i p.running_tasks;
  cancelled_total =
      p.cancelled_total + (if p.is_expedited i then if_metrics p.metrics_enabled else 0);
  tasks_total = p.tasks_total + if_metrics p.metrics_enabled;
  wait_queue_length = p.wait_queue_length - if_metrics p.metrics_enabled;
  wg = WaitGroup.done p.wg;
}

module _ {F : Type 0} (floats : Floats F) where
  abbrev pub same_when : Option F → Option F → Bool
  same_when none none = true
  same_when none (some b) = false
  same_when (some a) none = false
  same_when (some a) (some b) = same floats a b

  -- `_arm`
  abbrev pub arm : DelayPool F → DelayPool F
  arm p =
      let when = first_when p.queue.items in
      if same_when when p.armed_at then p else record p { armed_at = when }

  -- `a < b`
  abbrev pub less : F → F → Bool
  less a b = not (floats.le b a)

  -- `task.deadline_ts is not None and task.deadline_ts < when`
  abbrev pub is_early : Option F → F → Bool
  is_early none due = false
  is_early (some deadline) due = less deadline due

  abbrev pub earlier : Option F → F → F
  earlier none due = due
  earlier (some deadline) due = if less deadline due then deadline else due

  -- `add_task`: the request may have been cancelled.
  unfoldable pub add_task :
      DelayPool F
      → (context_error : Bool) (due : F) (deadline_ts : Option F)
      → Loop (DelayPool F × Result (Unit {0}))
  add_task p context_error due deadline_ts = elim context_error [
    | true ↦ ends (p, err cancelled_error)
    | false ↦ elim p.stopped [
      | true ↦ ends (p, err runtime_error)
      | false ↦
          push (keys floats) p.queue p.counter (earlier deadline_ts due, p.counter) >>= λ queue.
          ends (
            arm (record p {
              queue = queue;
              counter = suc p.counter;
              is_expedited =
                  λ j. if j == p.counter then is_early deadline_ts due else p.is_expedited j;
              wg = WaitGroup.add p.wg;
              wait_queue_length = p.wait_queue_length + if_metrics p.metrics_enabled;
            }),
            ok tt,
          )
    ]
  ]

  -- `_dispatch`
  pub dispatch : DelayPool F → ℕ → Loop (DelayPool F)
  dispatch p i = elim (p.is_running i) [
    | true ↦ ends p
    | false ↦ remove (keys floats) p.queue i >>= λ r. ends (record p {
      queue = r.0;
      is_running = set_running p.is_running i;
      running_tasks = i ∷ p.running_tasks;
    })
  ]

  -- `_cancel`, when the request of a task is cancelled.
  unfoldable pub cancel : DelayPool F → ℕ → Loop (DelayPool F)
  cancel p i =
      dispatch (record p { is_expedited = set_running p.is_expedited i }) i >>= λ q. ends (arm q)

  -- The loop of `_ready`.
  pub ready_loop : ℕ → DelayPool F → (now : F) → Loop (DelayPool F)
  ready_loop zero p now = out_of_fuel
  ready_loop (suc fuel) p now = elim (first_when p.queue.items) [
    | none ↦ ends p
    | some when ↦ elim (floats.le when now) [
      | false ↦ ends p
      | true ↦ pop (keys floats) p.queue >>= λ r.
          dispatch (record p { queue = r.0 }) ((r.1).task) >>= λ q. ready_loop fuel q now
    ]
  ]

  -- `_ready`, what the timer calls.
  pub ready : DelayPool F → (now : F) → Loop (DelayPool F)
  ready p now = ready_loop (suc (length p.queue.items)) (record p { armed_at = none }) now >>= λ q.
      ends (arm q)
