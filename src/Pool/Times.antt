-- ===== src/Pool/Times.antt =====
-- A heap and a delay pool with a few tasks; times are numbers of seconds.
use pyservicelib.Base.{
  ℕ, ◌≡◌, ◌⊎◌, refl, true, false, leb, arith, some, none, [], ◌∷◌, ◌==◌, if◌then◌else◌, ok,
}
use pyservicelib.Base.Loops.{Ends}
use pyservicelib.Pool.WaitGroup
use pyservicelib.Pool.Heap.{IndexedHeap, empty, assign, push, remove, promote, pop, up, up_loop}
use pyservicelib.Pool.Heap.Keys.{Floats, keys}
use pyservicelib.Pool.Heap.Swaps.{lookup}
use pyservicelib.Pool.Heap.Views.{
  IsValid, Holds, Answers, Popped, with_task, with_key, empty-IsValid,
}
use pyservicelib.Pool.Heap.Push.{push-Holds}
use pyservicelib.Pool.Heap.Remove.{Removal, remove-Answers, pop-Popped}
use pyservicelib.Pool.Heap.Promote.{promote-Answers}
use pyservicelib.Pool.Delay.{DelayPool, init, add_task, ready, cancel}
use pyservicelib.Pool.Delay.Sound.{IsSound}
use pyservicelib.Pool.Delay.Adding.{Answered, add_task-Answered}
use pyservicelib.Pool.Delay.Calls.{Cancelled, Ready, cancel-Cancelled, ready-Ready}
use pyservicelib.Pool.Delay.Steps.{History, Reachable, fresh, after, added, history-IsSound}

leb_total : (a b : ℕ) → (leb a b ≡ true) ⊎ (leb b a ≡ true)
leb_total a b = ground arith

leb_trans : (a b c : ℕ) → leb a b ≡ true → leb b c ≡ true → leb a c ≡ true
leb_trans a b c p q = ground arith

zero_least : (a : ℕ) → leb 0 a ≡ true
zero_least a = ground arith

abbrev seconds : Floats ℕ
seconds = record {
  le = leb;
  total = leb_total;
  trans = leb_trans;
  minus_inf = 0;
  minus_inf_least = zero_least;
}

abbrev Heap : Type 0
Heap = IndexedHeap (ℕ × ℕ)

abbrev one_task : Heap
one_task = record {
  items = record { key = (5, 0); task = 0 } ∷ [];
  positions = assign (λ t. none) 0 0;
}

one_task-IsValid : IsValid (keys seconds) one_task
unfolding push up up_loop
one_task-IsValid =
    let held : Holds (keys seconds) 1 (with_task (lookup empty) 0 (5, 0)) one_task =
      push-Holds (keys seconds) empty 0 (5, 0) (empty-IsValid (keys seconds)) refl in
    held.valid

-- The second task is due before the first one.
abbrev two_tasks : Heap
two_tasks = record {
  items = (record { key = (3, 1); task = 1 }) ∷ (record { key = (5, 0); task = 0 }) ∷ [];
  positions = assign (assign (assign (assign (λ t. none) 0 0) 1 1) 0 1) 1 0;
}

two_tasks-IsValid : IsValid (keys seconds) two_tasks
unfolding push up up_loop
two_tasks-IsValid =
    let held : Holds (keys seconds) 2 (with_task (lookup one_task) 1 (3, 1)) two_tasks =
      push-Holds (keys seconds) one_task 1 (3, 1) one_task-IsValid refl in
    held.valid

push-Holds_example :
    Ends
      (Holds (keys seconds) 2 (with_task (lookup one_task) 1 (3, 1)))
      (push (keys seconds) one_task 1 (3, 1))
push-Holds_example = push-Holds (keys seconds) one_task 1 (3, 1) one_task-IsValid refl

remove-Answers_example :
    Ends (Removal (keys seconds) two_tasks 1) (remove (keys seconds) two_tasks 1)
remove-Answers_example = remove-Answers (keys seconds) two_tasks 1 two_tasks-IsValid

promote-Answers_example :
    Ends
      (Answers (keys seconds) true 2 (with_key (keys seconds).expedite (lookup two_tasks) 0))
      (promote (keys seconds) two_tasks 0)
promote-Answers_example = promote-Answers (keys seconds) two_tasks 0 two_tasks-IsValid

pop-Popped_example : Ends (Popped (keys seconds) two_tasks) (pop (keys seconds) two_tasks)
pop-Popped_example = pop-Popped (keys seconds) two_tasks two_tasks-IsValid (omega arith)

abbrev fresh_history : History ℕ
fresh_history = record { pool = init true; finished = [] }

fresh-Reachable : Reachable seconds true fresh_history
fresh-Reachable = fresh

-- A pool with one task, which is due at 5.
abbrev one_delayed : DelayPool ℕ
one_delayed = record {
  queue = one_task;
  running_tasks = [];
  armed_at = some 5;
  counter = 1;
  is_running = λ i. false;
  is_expedited = λ j. if j == 0 then false else false;
  started = false;
  stopped = false;
  wg = record { count = 1; event = false };
  metrics_enabled = true;
  wait_queue_length = 1;
  tasks_total = 0;
  cancelled_total = 0;
}

abbrev delayed_history : History ℕ
delayed_history = record { pool = one_delayed; finished = [] }

delayed-Reachable : Reachable seconds true delayed_history
unfolding init add_task push up up_loop WaitGroup.init WaitGroup.add
delayed-Reachable =
    after fresh_history delayed_history fresh (added false 5 none one_delayed (ok tt) refl)

history-IsSound_example : IsSound seconds [] one_delayed
history-IsSound_example = history-IsSound seconds true delayed_history delayed-Reachable

add_task-Answered_example :
    Ends
      (Answered seconds [] one_delayed false false 3)
      (add_task seconds one_delayed false 7 (some 3))
add_task-Answered_example =
    add_task-Answered seconds [] one_delayed false 7 (some 3)
      (history-IsSound seconds true delayed_history delayed-Reachable)

cancel-Cancelled_example : Ends (Cancelled seconds [] one_delayed 0) (cancel seconds one_delayed 0)
cancel-Cancelled_example =
    cancel-Cancelled seconds [] one_delayed 0
      (history-IsSound seconds true delayed_history delayed-Reachable) (omega arith)

ready-Ready_example : Ends (Ready seconds [] one_delayed 6) (ready seconds one_delayed 6)
ready-Ready_example =
    ready-Ready seconds [] one_delayed 6
      (history-IsSound seconds true delayed_history delayed-Reachable)
