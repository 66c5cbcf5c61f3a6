-- ===== src/Pool/Delay/Adding.antt =====
-- DelayPoolImpl.add_task: how it ends.
use pyservicelib.Base.{
  ℕ, suc, ◌+◌, ◌≡◌, refl, ap, ◌∙◌, sym, subst, Bool, true, false, List, Option, none, ◌==◌,
  if◌then◌else◌, length, arith, Error, Result, ok, err, cancelled_error, runtime_error,
}
use pyservicelib.Base.Loops.{Ends, Ends-bind, Ends-cases}
use pyservicelib.Pool.WaitGroup.{WaitGroup}
use pyservicelib.Pool.WaitGroup
use pyservicelib.Pool.Queued.{if_metrics}
use pyservicelib.Pool.Heap.{IndexedHeap}
use pyservicelib.Pool.Heap.Keys.{Floats, keys}
use pyservicelib.Pool.Heap.Swaps.{lookup}
use pyservicelib.Pool.Heap.Views.{Holds, with_task}
use pyservicelib.Pool.Heap.Push.{push-Holds}
use pyservicelib.Pool.Delay.{DelayPool, arm, earlier, is_early, add_task}
use pyservicelib.Pool.Delay.Dispatch.{IsKept}
use pyservicelib.Pool.Delay.Sound.{IsSound, arm-IsSound, arm-queue, arm-counter}

-- How `add_task` ends where it takes the task: the others keep their times.
pub record Added {F : Type 0} (floats : Floats F) (finished : List ℕ) (p : DelayPool F) (when : F)
    (q : DelayPool F) : Type 0 where
  pub sound : IsSound floats finished q
  pub waits : (t : ℕ) → lookup q.queue t ≡ with_task (lookup p.queue) p.counter (when, p.counter) t
  pub grown : q.counter ≡ suc p.counter

abbrev pub Rejected : {F : Type 0} → DelayPool F → Error → DelayPool F × Result (Unit {0}) → Type 0
Rejected p e (q, result) = (q ≡ p) × (result ≡ err e)

-- How it ends on each branch: the request was cancelled, the pool was stopped, or neither.
abbrev pub Answered :
    {F : Type 0}
    → Floats F
    → List ℕ
    → DelayPool F
    → (context_error stopped : Bool) (when : F) → DelayPool F × Result (Unit {0})
    → Type 0
Answered floats finished p true stopped when r = Rejected p cancelled_error r
Answered floats finished p false true when r = Rejected p runtime_error r
Answered floats finished p false false when (q, result) =
    Added floats finished p when q × (result ≡ ok tt)

module _ {F : Type 0} (floats : Floats F) where
  new_absent :
      (finished : List ℕ) (p : DelayPool F)
      → IsKept floats finished p
      → lookup p.queue p.counter ≡ none
  new_absent finished p v = ground (arith, v.placed p.counter)

  stopped_Answered :
      (finished : List ℕ) (p : DelayPool F) (when : F)
      → p.stopped ≡ true
      → Answered floats finished p false p.stopped when (p, err runtime_error)
  stopped_Answered finished p when e =
      subst (λ b. Answered floats finished p false b when (p, err runtime_error)) (sym e)
        (refl, refl)

  abbrev pub taken : DelayPool F → (ℕ → Bool) → IndexedHeap (F × ℕ) → DelayPool F
  taken p flags queue = record p {
    queue = queue;
    counter = suc p.counter;
    is_expedited = flags;
    wg = WaitGroup.add p.wg;
    wait_queue_length = p.wait_queue_length + if_metrics p.metrics_enabled;
  }

  taken-IsKept :
      (finished : List ℕ) (p : DelayPool F) (when : F) (flags : ℕ → Bool)
      (queue : IndexedHeap (F × ℕ))
      → IsKept floats finished p
      → Holds
          (keys floats)
          (suc (length p.queue.items))
          (with_task (lookup p.queue) p.counter (when, p.counter))
          queue
      → IsKept floats finished (taken p flags queue)
  unfolding WaitGroup.add
  taken-IsKept finished p when flags queue v held = record {
    valid = held.valid;
    placed = λ j. ground (arith, v.placed j, held.shown j);
    marked = λ j. ground (arith, v.marked j);
    counted = ground (arith, v.counted, held.sized);
    drained = ground (arith, v.drained);
    gauged = ground (arith, v.gauged);
  }

  added_Answered :
      (finished : List ℕ) (p : DelayPool F) (when : F) (flags : ℕ → Bool)
      (queue : IndexedHeap (F × ℕ))
      → p.stopped ≡ false
      → IsKept floats finished p
      → Holds
          (keys floats)
          (suc (length p.queue.items))
          (with_task (lookup p.queue) p.counter (when, p.counter))
          queue
      → Answered floats finished p false p.stopped when (arm floats (taken p flags queue), ok tt)
  added_Answered finished p when flags queue e v held =
      let q = taken p flags queue in
      let s = arm-IsSound floats finished q (taken-IsKept finished p when flags queue v held) in
      let done : Added floats finished p when (arm floats q) = record {
        sound = s;
        waits = λ t. ap (λ h. lookup h t) (arm-queue floats q) ∙ held.shown t;
        grown = arm-counter floats q;
      } in
      subst (λ b. Answered floats finished p false b when (arm floats q, ok tt)) (sym e)
        (done, refl)

  -- In a pool between two steps, add_task ends. Where the request is cancelled or the pool was
  -- stopped it raises and changes nothing; else the task waits until the end of its delay or its
  -- deadline, whichever comes first, the other tasks keep their times, the counter goes on by one,
  -- and the pool is sound again, its timer set for the first time of all.
  pub add_task-Answered :
      (finished : List ℕ) (p : DelayPool F) (context_error : Bool) (due : F)
      (deadline_ts : Option F)
      → IsSound floats finished p
      → Ends
          (Answered floats finished p context_error p.stopped (earlier floats deadline_ts due))
          (add_task floats p context_error due deadline_ts)
  unfolding add_task
  add_task-Answered finished p true due deadline_ts v = (refl, refl)
  add_task-Answered finished p false due deadline_ts v =
      let when = earlier floats deadline_ts due in
      let all = Answered floats finished p false p.stopped when in
      Ends-cases all p.stopped _ _ (λ e. stopped_Answered finished p when e)
        (λ e.
          Ends-bind _ all _ _
            (push-Holds (keys floats) p.queue p.counter (when, p.counter) v.kept.valid
              (new_absent finished p v.kept))
            λ queue held.
              added_Answered finished p when
                (λ j. if j == p.counter then is_early floats deadline_ts due else p.is_expedited j)
                queue e v.kept held)
