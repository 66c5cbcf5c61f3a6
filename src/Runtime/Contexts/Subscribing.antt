-- ===== src/Runtime/Contexts/Subscribing.antt =====
-- Contexts: a subscription that is added.
use pyservicelib.Base.{ℕ, ◌≡◌, inl, inr, sym, subst, true, false, List, arith, Bool-cases}
use pyservicelib.Pool.Queued.Steps.{occurs}
use pyservicelib.Runtime.Contexts.{
  Contexts, cancelled, cleanup, notify, subscribed, add_cancel_callback,
}
use pyservicelib.Runtime.Contexts.Histories.{History, IsHeld, IsSound}
use pyservicelib.Runtime.Contexts.Subscriptions.{occurs-install, cleanup_absent}
use pyservicelib.Runtime.Contexts.Notifying.{notify-IsHeld}

subscribed-IsHeld :
    (h : History) (path : List ℕ)
    → IsHeld h
    → IsHeld (record h { contexts = subscribed h.contexts path })
subscribed-IsHeld h path v =
    let s = h.contexts in
    let new = s.next_subscription in
    record {
      held = λ c m.
          ground
            (arith, v.held c m, v.held c new, v.once new, occurs-install s.callbacks new path c m);
      once = λ m. ground (arith, v.once m, v.once new);
    }

-- A cleanup of what stands nowhere.
cleaned-IsHeld :
    (h : History) (n : ℕ) (path : List ℕ)
    → h.contexts.pending n ≡ false
    → IsHeld h
    → IsHeld (record h {
      contexts = record h.contexts { callbacks = cleanup h.contexts.callbacks n path };
    })
cleaned-IsHeld h n path off v =
    let gone : (c : ℕ) → occurs n (h.contexts.callbacks c) ≡ 0 = λ c. ground (arith, v.held c n) in
    record {
      held = λ c m. ground (arith, v.held c m, cleanup_absent h.contexts.callbacks n path gone c m);
      once = v.once;
    }

subscribes_calm :
    (h : History) (path : List ℕ)
    → cancelled h.contexts.cancelled_flag path ≡ false
    → IsSound h
    → IsSound (record h { contexts = subscribed h.contexts path })
subscribes_calm h path calm v = record {
  kept = subscribed-IsHeld h path v.kept;
  waiting = λ m e. ground (arith, v.waiting m);
  earned = λ m e. ground (arith, v.earned m, v.kept.once m);
}

abbrev pub told : Contexts → List ℕ → Contexts
told s path =
    let u = notify (subscribed s path) s.next_subscription in
    record u { callbacks = cleanup u.callbacks s.next_subscription path }

subscribes_cancelled :
    (h : History) (path : List ℕ)
    → cancelled h.contexts.cancelled_flag path ≡ true
    → IsSound h
    → IsSound (record h { contexts = told h.contexts path })
subscribes_cancelled h path over v =
    let new = h.contexts.next_subscription in
    let t = subscribed h.contexts path in
    let called = notify-IsHeld (record h { contexts = t }) new (subscribed-IsHeld h path v.kept) in
    record {
      kept = cleaned-IsHeld (record h { contexts = notify t new }) new path (ground arith) called;
      waiting = λ m e. ground (arith, v.waiting m);
      earned = λ m e. ground (arith, v.earned m, v.kept.once m);
    }

add_calm :
    (s : Contexts) (path : List ℕ)
    → cancelled s.cancelled_flag path ≡ false
    → add_cancel_callback s path ≡ subscribed s path
unfolding add_cancel_callback
add_calm s path calm = rw calm (ground arith)

add_told :
    (s : Contexts) (path : List ℕ)
    → cancelled s.cancelled_flag path ≡ true
    → add_cancel_callback s path ≡ told s path
unfolding add_cancel_callback
add_told s path over = rw over (ground arith)

pub subscribes-IsSound :
    (h : History) (path : List ℕ)
    → IsSound h
    → IsSound (record h { contexts = add_cancel_callback h.contexts path })
subscribes-IsSound h path v = elim (Bool-cases (cancelled h.contexts.cancelled_flag path)) [
  | inl over ↦
      subst (λ t. IsSound (record h { contexts = t })) (sym (add_told h.contexts path over))
        (subscribes_cancelled h path over v)
  | inr calm ↦
      subst (λ t. IsSound (record h { contexts = t })) (sym (add_calm h.contexts path calm))
        (subscribes_calm h path calm v)
]
