-- ===== src/Pool/Delay/Steps.antt =====
-- DelayPoolImpl through any history of its steps.
use pyservicelib.Base.{
  ℕ, ◌<◌, ◌≡◌, inr, refl, sym, subst, Bool, true, false, List, [], ◌∷◌, Option, arith, Result,
}
use pyservicelib.Base.Loops.{ends, Ends}
use pyservicelib.Pool.WaitGroup.{WaitGroup}
use pyservicelib.Pool.WaitGroup
use pyservicelib.Pool.Queued.Steps.{occurs, occurs-without, length-without}
use pyservicelib.Pool.Heap.Keys.{Floats, keys}
use pyservicelib.Pool.Heap.Views.{empty-IsValid}
use pyservicelib.Pool.Delay.{
  DelayPool, init, start, stop, earlier, add_task, cancel, ready, task_done,
}
use pyservicelib.Pool.Delay.Sound.{IsSound}
use pyservicelib.Pool.Delay.Adding.{Answered, add_task-Answered}
use pyservicelib.Pool.Delay.Calls.{Cancelled, Ready, cancel-Cancelled, ready-Ready}

pub record History (F : Type 0) : Type 0 where
  pub pool : DelayPool F
  pub finished : List ℕ

pub data Step {F : Type 0} (floats : Floats F) (h : History F) : History F → Type 0 where
  added :
      (context_error : Bool) (due : F) (deadline_ts : Option F) (q : DelayPool F)
      (result : Result (Unit {0}))
      → add_task floats h.pool context_error due deadline_ts ≡ ends (q, result)
      → Step floats h (record h { pool = q })
  -- A watch names a task that was added.
  cancelled :
      (i : ℕ) (q : DelayPool F)
      → i < h.pool.counter
      → cancel floats h.pool i ≡ ends q
      → Step floats h (record h { pool = q })
  fired :
      (now : F) (q : DelayPool F)
      → ready floats h.pool now ≡ ends q
      → Step floats h (record h { pool = q })
  ended :
      (i : ℕ)
      → 0 < occurs i h.pool.running_tasks
      → Step floats h (record { pool = task_done h.pool i; finished = i ∷ h.finished })
  starts : Step floats h (record h { pool = (start h.pool).0 })
  stops : Step floats h (record h { pool = stop h.pool })

pub data Reachable {F : Type 0} (floats : Floats F) (metrics_enabled : Bool)
    : History F → Type 0 where
  fresh : Reachable floats metrics_enabled (record { pool = init metrics_enabled; finished = [] })
  after :
      (h k : History F)
      → Reachable floats metrics_enabled h
      → Step floats h k
      → Reachable floats metrics_enabled k

module _ {F : Type 0} (floats : Floats F) where
  fresh-IsSound : (metrics_enabled : Bool) → IsSound floats [] (init metrics_enabled)
  unfolding init WaitGroup.init
  fresh-IsSound m = record {
    kept = record {
      valid = empty-IsValid (keys floats);
      placed = λ i. ground arith;
      marked = λ i. ground arith;
      counted = refl;
      drained = ground arith;
      gauged = inr refl;
    };
    armed = refl;
  }

  ended-IsSound :
      (finished : List ℕ) (p : DelayPool F) (i : ℕ)
      → 0 < occurs i p.running_tasks
      → IsSound floats finished p
      → IsSound floats (i ∷ finished) (task_done p i)
  unfolding task_done WaitGroup.done
  ended-IsSound finished p i there v = record {
    kept = record {
      valid = v.kept.valid;
      placed = λ j. ground (arith, v.kept.placed j, occurs-without i j p.running_tasks there);
      marked = λ j. ground (arith, v.kept.marked j, occurs-without i j p.running_tasks there);
      counted = ground (arith, v.kept.counted, length-without i p.running_tasks there);
      drained = ground (arith, v.kept.drained);
      gauged =
          ground (arith, v.kept.gauged, v.kept.counted, length-without i p.running_tasks there);
    };
    armed = v.armed;
  }

  -- What no flag of the pool matters to.
  flags-IsSound :
      (finished : List ℕ) (p : DelayPool F) (started stopped : Bool)
      → IsSound floats finished p
      → IsSound floats finished (record p { started = started; stopped = stopped })
  flags-IsSound finished p started stopped v = record {
    kept = record {
      valid = v.kept.valid;
      placed = v.kept.placed;
      marked = v.kept.marked;
      counted = v.kept.counted;
      drained = v.kept.drained;
      gauged = v.kept.gauged;
    };
    armed = v.armed;
  }

  started-IsSound :
      (finished : List ℕ) (p : DelayPool F)
      → IsSound floats finished p
      → IsSound floats finished ((start p).0)
  unfolding start
  started-IsSound finished p v = ground (arith, v, flags-IsSound finished p true p.stopped v)

  Answered-IsSound :
      (finished : List ℕ) (p : DelayPool F) (c s : Bool) (when : F)
      (r : DelayPool F × Result (Unit {0}))
      → IsSound floats finished p
      → Answered floats finished p c s when r
      → IsSound floats finished (r.0)
  Answered-IsSound finished p true s when (q, result) v (e, f) =
      subst (IsSound floats finished) (sym e) v
  Answered-IsSound finished p false true when (q, result) v (e, f) =
      subst (IsSound floats finished) (sym e) v
  Answered-IsSound finished p false false when (q, result) v (a, f) = a.sound

  Step-IsSound :
      (h k : History F)
      → Step floats h k
      → IsSound floats h.finished h.pool
      → IsSound floats k.finished k.pool
  unfolding stop
  Step-IsSound h _ (added c due deadline q result e) v =
      Answered-IsSound h.finished h.pool c h.pool.stopped (earlier floats deadline due) (q, result)
        v (subst (Ends _) e (add_task-Answered floats h.finished h.pool c due deadline v))
  Step-IsSound h _ (cancelled i q old e) v =
      let r : Cancelled floats h.finished h.pool i q =
        subst (Ends (Cancelled floats h.finished h.pool i)) e
          (cancel-Cancelled floats h.finished h.pool i v old) in
      r.sound
  Step-IsSound h _ (fired now q e) v =
      let r : Ready floats h.finished h.pool now q =
        subst (Ends (Ready floats h.finished h.pool now)) e
          (ready-Ready floats h.finished h.pool now v) in
      record { kept = r.fired.kept; armed = r.armed }
  Step-IsSound h _ (ended i there) v = ended-IsSound h.finished h.pool i there v
  Step-IsSound h _ starts v = started-IsSound h.finished h.pool v
  Step-IsSound h _ stops v = flags-IsSound h.finished h.pool h.pool.started true v

  -- Through every history of a delay pool, in whatever order tasks are added, cancelled, started
  -- by the timer and end, and the pool is started and stopped: each task that was added waits in
  -- the queue, runs or has finished, exactly one of these and once; the queue is a valid heap; the
  -- timer is set for the first time that a task waits for, and is off where none waits; the event
  -- that stop waits for is set exactly where the count of the wait group is 0, which is the number
  -- of the tasks that wait or run; and with metrics enabled the gauge shows that number.
  pub history-IsSound :
      (metrics_enabled : Bool) (h : History F)
      → Reachable floats metrics_enabled h
      → IsSound floats h.finished h.pool
  history-IsSound m _ fresh = fresh-IsSound m
  history-IsSound m _ (after h k past step) = Step-IsSound h k step (history-IsSound m h past)
