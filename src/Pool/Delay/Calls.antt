-- ===== src/Pool/Delay/Calls.antt =====
-- DelayPoolImpl: how `_cancel` and `_ready` end, in a pool between two steps.
use pyservicelib.Base.{
  ℕ, suc, ◌<◌, ◌≡◌, inl, inr, refl, ap, ◌∙◌, sym, subst, Bool, true, false, List, ◌∷◌, none,
  if◌then◌else◌, length, arith, Bool-cases,
}
use pyservicelib.Base.Dicts.{is_some}
use pyservicelib.Base.Loops.{ends, ◌>>=◌, Ends, Ends-bind, Ends-map, Ends-cases}
use pyservicelib.Pool.Queued.{set_running}
use pyservicelib.Pool.Heap.Keys.{Floats}
use pyservicelib.Pool.Heap.Swaps.{lookup}
use pyservicelib.Pool.Heap.Views.{without_task}
use pyservicelib.Pool.Delay.{DelayPool, arm, dispatch, cancel, ready}
use pyservicelib.Pool.Delay.Dispatch.{
  IsKept, Dispatched, Dispatched-IsKept, dispatch_waiting, waiting_idle,
}
use pyservicelib.Pool.Delay.Firing.{Fired, ready_loop-Fired}
use pyservicelib.Pool.Delay.Sound.{
  IsArmed, IsSound, rearmed-IsKept, arm-IsSound, arm-queue, arm-running,
}

-- How `_cancel` ends.
pub record Cancelled {F : Type 0} (floats : Floats F) (finished : List ℕ) (p : DelayPool F) (i : ℕ)
    (q : DelayPool F) : Type 0 where
  pub sound : IsSound floats finished q
  pub left : (t : ℕ) → lookup q.queue t ≡ without_task (lookup p.queue) i t
  pub started :
      q.running_tasks
      ≡ (if is_some (lookup p.queue i) then i ∷ p.running_tasks else p.running_tasks)

-- How `_ready` ends.
pub record Ready {F : Type 0} (floats : Floats F) (finished : List ℕ) (p : DelayPool F) (now : F)
    (q : DelayPool F) : Type 0 where
  pub fired : Fired floats finished p now q
  pub armed : IsArmed floats q

module _ {F : Type 0} (floats : Floats F) where
  flagged-IsKept :
      (finished : List ℕ) (p : DelayPool F) (flags : ℕ → Bool)
      → IsKept floats finished p
      → IsKept floats finished (record p { is_expedited = flags })
  flagged-IsKept finished p flags v = record {
    valid = v.valid;
    placed = v.placed;
    marked = v.marked;
    counted = v.counted;
    drained = v.drained;
    gauged = v.gauged;
  }

  -- What `_arm` makes of a pool from which a waiting task was dispatched, and of one where the
  -- task runs already.
  Dispatched-Cancelled :
      (finished : List ℕ) (p q : DelayPool F) (i : ℕ)
      → IsKept floats finished p
      → is_some (lookup p.queue i) ≡ true
      → Dispatched floats p i q
      → Cancelled floats finished p i (arm floats q)
  Dispatched-Cancelled finished p q i v there d = record {
    sound = arm-IsSound floats finished q (Dispatched-IsKept floats finished p q i v there d);
    left =
        λ t. ap (λ h. lookup h t) (arm-queue floats q ∙ ap (λ s. s.queue) d.rest) ∙ d.held.shown t;
    started = arm-running floats q ∙ ap (λ s. s.running_tasks) d.rest ∙ ground arith;
  }

  running_Cancelled :
      (finished : List ℕ) (p : DelayPool F) (i : ℕ)
      → IsKept floats finished p
      → is_some (lookup p.queue i) ≡ false
      → Cancelled floats finished p i (arm floats p)
  running_Cancelled finished p i v gone = record {
    sound = arm-IsSound floats finished p v;
    left = λ t. ap (λ h. lookup h t) (arm-queue floats p) ∙ ground arith;
    started = arm-running floats p ∙ ground arith;
  }

  dispatch_running :
      (p : DelayPool F) (i : ℕ) → p.is_running i ≡ true → Ends (λ q. q ≡ p) (dispatch floats p i)
  unfolding dispatch
  dispatch_running p i e =
      Ends-cases (λ q. q ≡ p) (p.is_running i) _ _ (λ run. refl) (λ idle. absurd (ground arith))

  cancel_flagged :
      (finished : List ℕ) (p : DelayPool F) (i : ℕ)
      → IsKept floats finished p
      → i < p.counter
      → Ends (Cancelled floats finished p i) (dispatch floats p i >>= λ q. ends (arm floats q))
  cancel_flagged finished p i v old =
      let all = Cancelled floats finished p i in
      elim (Bool-cases (is_some (lookup p.queue i))) [
        | inl e ↦
            Ends-bind (Dispatched floats p i) all _ _
              (dispatch_waiting floats p i v.valid (waiting_idle floats finished p i v e) e)
              λ q d. Dispatched-Cancelled finished p q i v e d
        | inr e ↦
            Ends-bind (λ q. q ≡ p) all _ _
              (dispatch_running p i (ground (arith, v.placed i, v.marked i)))
              λ q same.
                subst (λ s. all (arm floats s)) (sym same) (running_Cancelled finished p i v e)
      ]

  -- Cancelling a task that was added to a sound pool ends: a task that still waits starts at once
  -- and leaves the queue, one that has started is left alone, the other tasks keep their times,
  -- and the pool is sound again.
  pub cancel-Cancelled :
      (finished : List ℕ) (p : DelayPool F) (i : ℕ)
      → IsSound floats finished p
      → i < p.counter
      → Ends (Cancelled floats finished p i) (cancel floats p i)
  unfolding cancel
  cancel-Cancelled finished p i v old =
      let flags = set_running p.is_expedited i in
      let flagged : DelayPool F = record p { is_expedited = flags } in
      Ends-map (Cancelled floats finished flagged i) (Cancelled floats finished p i) _
        (cancel_flagged finished flagged i (flagged-IsKept finished p flags v.kept) old)
        λ q c. record { sound = c.sound; left = c.left; started = c.started }

  armed-Ready :
      (finished : List ℕ) (p q : DelayPool F) (now : F)
      → Fired floats finished (record p { armed_at = none }) now q
      → Ready floats finished p now (arm floats q)
  armed-Ready finished p q now f =
      let s = arm-IsSound floats finished q f.kept in
      record {
        fired = record {
          new = f.new;
          started = arm-running floats q ∙ f.started;
          fired = f.fired;
          left = λ t. ap (λ h. lookup h t) (arm-queue floats q) ∙ f.left t;
          kept = s.kept;
        };
        armed = s.armed;
      }

  -- When the timer of a sound pool calls it, `_ready` ends: it starts the tasks that are due and
  -- no others, in the order of their keys, hence of their times; the tasks that are not due keep
  -- their times; each task is still in one place, and the timer is set for the first that waits.
  pub ready-Ready :
      (finished : List ℕ) (p : DelayPool F) (now : F)
      → IsSound floats finished p
      → Ends (Ready floats finished p now) (ready floats p now)
  unfolding ready
  ready-Ready finished p now v =
      let begun : DelayPool F = record p { armed_at = none } in
      Ends-bind (Fired floats finished begun now) (Ready floats finished p now) _ _
        (ready_loop-Fired floats (suc (length p.queue.items)) finished begun now (omega arith)
          (rearmed-IsKept floats finished p none v.kept))
        λ q f. armed-Ready finished p q now f
