-- ===== src/Pool/Delay/Firing.antt =====
-- DelayPoolImpl: what the timer starts, and in which order.
use pyservicelib.Base.{
  ℕ, zero, suc, ◌-◌, ◌<◌, ◌≡◌, inl, inr, refl, ap, ◌∙◌, sym, subst, Bool, true, false, List, [],
  ◌∷◌, ◌++◌, Option, none, some, if◌then◌else◌, length, get_elem?, arith, append_assoc,
  Option-cases, All, All-append,
}
use pyservicelib.Base.Dicts.{is_some}
use pyservicelib.Base.Loops.{Ends, Ends-bind, Ends-map, Ends-cases, Ends-option}
use pyservicelib.Pool.Heap.{Entry, IndexedHeap}
use pyservicelib.Pool.Heap.Order.{le_of}
use pyservicelib.Pool.Heap.Keys.{Floats, keys, le}
use pyservicelib.Pool.Heap.Swaps.{lookup, key_at, IsIndexed}
use pyservicelib.Pool.Heap.Views.{IsValid, Holds, Popped, without_task, root_le, lookup_inside}
use pyservicelib.Pool.Heap.Remove.{pop-Popped}
use pyservicelib.Pool.Delay.{DelayPool, first_when, ready_loop}
use pyservicelib.Pool.Delay.Dispatch.{
  IsKept, dispatched, Dispatched, dispatched-IsKept, waiting_idle, dispatch_popped,
}

module _ {F : Type 0} (floats : Floats F) where
  -- A task that waits is due.
  abbrev pub is_due : F → Option (F × ℕ) → Bool
  is_due now none = false
  is_due now (some (when, n)) = floats.le when now

  abbrev pub not_due : F → Option (F × ℕ) → Option (F × ℕ)
  not_due now o = if is_due now o then none else o

  -- Tasks that waited and were due, the one with the greatest key first.
  abbrev pub IsFired : (ℕ → Option (F × ℕ)) → F → List ℕ → Type 0
  IsFired view now [] = Unit {0}
  IsFired view now (t ∷ ts) =
      (is_due now (view t) ≡ true)
      × All (λ u. le_of (keys floats) (view u) (view t) ≡ true) ts
      × IsFired view now ts

  -- What the loop of `_ready` does.
  pub record Fired (finished : List ℕ) (p : DelayPool F) (now : F) (q : DelayPool F) : Type 0 where
    pub new : List ℕ
    pub started : q.running_tasks ≡ new ++ p.running_tasks
    pub fired : IsFired (lookup p.queue) now new
    pub left : (t : ℕ) → lookup q.queue t ≡ not_due now (lookup p.queue t)
    pub kept : IsKept floats finished q

  All-rest :
      (view rest : ℕ → Option (F × ℕ)) (x t : ℕ) (ts : List ℕ)
      → ((u : ℕ) → rest u ≡ without_task view x u)
      → is_some (rest t) ≡ true
      → All (λ u. le_of (keys floats) (rest u) (rest t) ≡ true) ts
      → All (λ u. le_of (keys floats) (view u) (view t) ≡ true) ts
  All-rest view rest x t [] e s h = tt
  All-rest view rest x t (u ∷ us) e s (h, k) =
      (ground (arith, e t, e u), All-rest view rest x t us e s k)

  IsFired-snoc :
      (view rest : ℕ → Option (F × ℕ)) (now : F) (x : ℕ) (new : List ℕ)
      → ((t : ℕ) → rest t ≡ without_task view x t)
      → is_due now (view x) ≡ true
      → ((t : ℕ) → le_of (keys floats) (view x) (view t) ≡ true)
      → IsFired rest now new
      → IsFired view now (new ++ (x ∷ []))
  IsFired-snoc view rest now x [] e d l f = (d, tt, tt)
  IsFired-snoc view rest now x (t ∷ ts) e d l (f, g, k) = (
    ground (arith, e t),
    All-append _ ts (x ∷ []) (All-rest view rest x t ts e (ground arith) g) (l t, tt),
    IsFired-snoc view rest now x ts e d l k,
  )

  keys_le_when : (a b : F × ℕ) → le floats a b ≡ true → floats.le (a.0) (b.0) ≡ true
  keys_le_when (a, m) (b, n) h = ground arith

  first_found :
      (h : IndexedHeap (F × ℕ)) (items : List (Entry (F × ℕ))) (when : F)
      → IsValid (keys floats) h
      → h.items ≡ items
      → first_when items ≡ some when
      → (x : Entry (F × ℕ)) × ((x.key).0 ≡ when)
        × (key_at h 0 ≡ some (x.key))
        × (lookup h (x.task) ≡ some (x.key))
  first_found h [] when v e f = absurd (ground arith)
  first_found h (x ∷ xs) when v e f =
      let at : get_elem? h.items 0 ≡ some x = ap (λ items. get_elem? items 0) e in
      let placed : h.positions x.task ≡ some 0 = ground (arith, v.indexed (x.task) 0) in
      (x, ground arith, ground arith, ground arith)

  not_due_yet :
      (p : DelayPool F) (now when : F) (t : ℕ)
      → IsValid (keys floats) p.queue
      → first_when p.queue.items ≡ some when
      → floats.le when now ≡ false
      → is_due now (lookup p.queue t) ≡ false
  not_due_yet p now when t v e late =
      let (x, at, root, there) = first_found p.queue p.queue.items when v refl e in
      elim (Option-cases (lookup p.queue t)) [
        | inl g ↦ rw g (refl)
        | inr (k, g) ↦ ground (
          arith,
          root_le (keys floats) p.queue t v,
          keys_le_when (x.key) k,
          floats.trans when (k.0) now,
        )
      ]

  nothing_due :
      (h : IndexedHeap (F × ℕ)) (items : List (Entry (F × ℕ))) (t : ℕ)
      → IsIndexed h
      → h.items ≡ items
      → first_when items ≡ none
      → lookup h t ≡ none
  nothing_due h [] t v e f = elim (Option-cases (h.positions t)) [
    | inl g ↦ rw g (refl)
    | inr (n, g) ↦ absurd (ground (arith, v t n, e))
  ]
  nothing_due h (x ∷ xs) t v e f = absurd (ground arith)

  Popped-least :
      (p : DelayPool F) (h : IndexedHeap (F × ℕ)) (x : Entry (F × ℕ))
      → Popped (keys floats) p.queue (h, x)
      → (t : ℕ) → le_of (keys floats) (lookup p.queue (x.task)) (lookup p.queue t) ≡ true
  Popped-least p h x popped t = elim (Option-cases (lookup p.queue t)) [
    | inl g ↦ rw g (refl)
    | inr (k, g) ↦ rw (g, popped.found) (popped.least t k g)
  ]

  -- One more task before those that the rest of the loop starts.
  Fired-more :
      (finished : List ℕ) (p q : DelayPool F) (now : F) (i : ℕ) (queue : IndexedHeap (F × ℕ))
      → Holds (keys floats) (length p.queue.items - 1) (without_task (lookup p.queue) i) queue
      → is_due now (lookup p.queue i) ≡ true
      → ((t : ℕ) → le_of (keys floats) (lookup p.queue i) (lookup p.queue t) ≡ true)
      → Fired finished (dispatched p i queue) now q
      → Fired finished p now q
  Fired-more finished p q now i queue held due least f = record {
    new = f.new ++ (i ∷ []);
    started = f.started ∙ sym (append_assoc f.new (i ∷ []) p.running_tasks);
    fired = IsFired-snoc (lookup p.queue) (lookup queue) now i f.new held.shown due least f.fired;
    left = λ t. ground (arith, f.left t, held.shown t);
    kept = f.kept;
  }

  pub ready_loop-Fired :
      (fuel : ℕ) (finished : List ℕ) (p : DelayPool F) (now : F)
      → length p.queue.items < fuel
      → IsKept floats finished p
      → Ends (Fired finished p now) (ready_loop floats fuel p now)
  unfolding ready_loop
  ready_loop-Fired zero finished p now f v = absurd (omega arith)
  ready_loop-Fired (suc fuel) finished p now f v =
      let all = Fired finished p now in
      Ends-option all (first_when p.queue.items) _ _
        (λ e. record {
          new = [];
          started = refl;
          fired = tt;
          left = λ t. ground (arith, nothing_due p.queue p.queue.items t v.valid.indexed refl e);
          kept = v;
        })
        (λ when e.
          Ends-cases all (floats.le when now) _ _
            (λ due.
              let (y, at, root, there) = first_found p.queue p.queue.items when v.valid refl e in
              let more = lookup_inside p.queue (y.task) v.valid.indexed (ground arith) in
              Ends-bind (Popped (keys floats) p.queue) all _ _
                (pop-Popped (keys floats) p.queue v.valid more)
                λ (h, x) popped.
                  let waits : is_some (lookup p.queue (x.task)) ≡ true =
                    ground (arith, popped.found) in
                  let on_time : is_due now (lookup p.queue (x.task)) ≡ true = ground (
                    arith,
                    popped.found,
                    popped.least (y.task) (y.key) there,
                    keys_le_when (x.key) (y.key),
                    floats.trans ((x.key).0) when now,
                  ) in
                  Ends-bind (Dispatched floats p (x.task)) all _ _
                    (dispatch_popped floats p h (x.task) popped.held
                      (waiting_idle floats finished p (x.task) v waits))
                    λ q d.
                      let next = dispatched p (x.task) d.queue in
                      subst (λ s. Ends all (ready_loop floats fuel s now)) (sym d.rest)
                        (Ends-map (Fired finished next now) all _
                          (ready_loop-Fired fuel finished next now (ground (arith, d.held.sized))
                            (dispatched-IsKept floats finished p (x.task) d.queue v waits d.held))
                          λ s.
                            Fired-more finished p s now (x.task) d.queue d.held on_time
                              (Popped-least p h x popped)))
            (λ late. record {
              new = [];
              started = refl;
              fired = tt;
              left = λ t. ground (arith, not_due_yet p now when t v.valid e late);
              kept = v;
            }))
