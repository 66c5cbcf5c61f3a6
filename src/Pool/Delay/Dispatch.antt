-- ===== src/Pool/Delay/Dispatch.antt =====
-- DelayPoolImpl: what holds between two steps, and what `_dispatch` does.
use pyservicelib.Base.{
  ℕ, ◌+◌, ◌-◌, ◌<◌, ◌≡◌, ◌⊎◌, ◌↔◌, refl, sym, subst, true, false, List, ◌∷◌, ltb, if◌then◌else◌,
  length, arith,
}
use pyservicelib.Base.Dicts.{is_some}
use pyservicelib.Base.Loops.{Ends, Ends-bind, Ends-cases}
use pyservicelib.Pool.Queued.{set_running}
use pyservicelib.Pool.Queued.Steps.{occurs}
use pyservicelib.Pool.Heap.{IndexedHeap}
use pyservicelib.Pool.Heap.Keys.{Floats, keys}
use pyservicelib.Pool.Heap.Swaps.{lookup}
use pyservicelib.Pool.Heap.Views.{IsValid, Holds, without_task, lookup_inside}
use pyservicelib.Pool.Heap.Remove.{remove-Answers, Removal}
use pyservicelib.Pool.Delay.{DelayPool, dispatch}

-- What holds between two steps, with the tasks that have finished.
pub record IsKept {F : Type 0} (floats : Floats F) (finished : List ℕ) (p : DelayPool F)
    : Type 0 where
  pub valid : IsValid (keys floats) p.queue
  -- A task that was added is once in the queue, among the running tasks or the finished ones.
  pub placed :
      (i : ℕ)
      → (if is_some (lookup p.queue i) then 1 else 0)
          + (occurs i p.running_tasks + occurs i finished)
        ≡ (if ltb i p.counter then 1 else 0)
  pub marked :
      (i : ℕ) → (p.is_running i ≡ true) ↔ (0 < occurs i p.running_tasks + occurs i finished)
  pub counted : p.wg.count ≡ length p.queue.items + length p.running_tasks
  pub drained : (p.wg.event ≡ true) ↔ (p.wg.count ≡ 0)
  pub gauged : (p.metrics_enabled ≡ false) ⊎ (p.wait_queue_length ≡ p.wg.count)

abbrev pub dispatched : {F : Type 0} → DelayPool F → ℕ → IndexedHeap (F × ℕ) → DelayPool F
dispatched p i queue = record p {
  queue = queue;
  is_running = set_running p.is_running i;
  running_tasks = i ∷ p.running_tasks;
}

-- What `_dispatch` does to a task that is not running yet.
pub record Dispatched {F : Type 0} (floats : Floats F) (p : DelayPool F) (i : ℕ) (q : DelayPool F)
    : Type 0 where
  pub queue : IndexedHeap (F × ℕ)
  pub held : Holds (keys floats) (length p.queue.items - 1) (without_task (lookup p.queue) i) queue
  pub rest : q ≡ dispatched p i queue

module _ {F : Type 0} (floats : Floats F) where
  pub dispatched-IsKept :
      (finished : List ℕ) (p : DelayPool F) (i : ℕ) (queue : IndexedHeap (F × ℕ))
      → IsKept floats finished p
      → is_some (lookup p.queue i) ≡ true
      → Holds (keys floats) (length p.queue.items - 1) (without_task (lookup p.queue) i) queue
      → IsKept floats finished (dispatched p i queue)
  dispatched-IsKept finished p i queue v there d = record {
    valid = d.valid;
    placed = λ j. ground (arith, v.placed j, v.placed i, d.shown j);
    marked = λ j. ground (arith, v.marked j);
    counted = ground (arith, v.counted, d.sized, lookup_inside p.queue i v.valid.indexed there);
    drained = v.drained;
    gauged = v.gauged;
  }

  pub Dispatched-IsKept :
      (finished : List ℕ) (p q : DelayPool F) (i : ℕ)
      → IsKept floats finished p
      → is_some (lookup p.queue i) ≡ true
      → Dispatched floats p i q
      → IsKept floats finished q
  Dispatched-IsKept finished p q i v there d =
      subst (IsKept floats finished) (sym d.rest)
        (dispatched-IsKept finished p i d.queue v there d.held)

  pub waiting_idle :
      (finished : List ℕ) (p : DelayPool F) (i : ℕ)
      → IsKept floats finished p
      → is_some (lookup p.queue i) ≡ true
      → p.is_running i ≡ false
  waiting_idle finished p i v there = ground (arith, v.placed i, v.marked i)

  -- A task that still waits leaves the queue.
  pub dispatch_waiting :
      (p : DelayPool F) (i : ℕ)
      → IsValid (keys floats) p.queue
      → p.is_running i ≡ false
      → is_some (lookup p.queue i) ≡ true
      → Ends (Dispatched floats p i) (dispatch floats p i)
  unfolding dispatch
  dispatch_waiting p i v idle there =
      Ends-cases (Dispatched floats p i) (p.is_running i) _ _ (λ run. absurd (ground arith))
        (λ still.
          Ends-bind (Removal (keys floats) p.queue i) (Dispatched floats p i) _ _
            (remove-Answers (keys floats) p.queue i v)
            λ r t. record {
              queue = r.0;
              held = record {
                valid = t.held.valid;
                sized = ground (arith, t.held.sized);
                shown = t.held.shown;
              };
              rest = refl;
            })

  -- One that was popped is not there.
  pub dispatch_popped :
      (p : DelayPool F) (h : IndexedHeap (F × ℕ)) (i : ℕ)
      → Holds (keys floats) (length p.queue.items - 1) (without_task (lookup p.queue) i) h
      → p.is_running i ≡ false
      → Ends (Dispatched floats p i) (dispatch floats (record p { queue = h }) i)
  unfolding dispatch
  dispatch_popped p h i held idle =
      Ends-cases (Dispatched floats p i) (p.is_running i) _ _ (λ run. absurd (ground arith))
        (λ still.
          Ends-bind (Removal (keys floats) h i) (Dispatched floats p i) _ _
            (remove-Answers (keys floats) h i held.valid)
            λ r t. record {
              queue = r.0;
              held = record {
                valid = t.held.valid;
                sized = ground (arith, t.held.sized, held.sized, held.shown i);
                shown = λ u. ground (arith, t.held.shown u, held.shown u);
              };
              rest = refl;
            })
