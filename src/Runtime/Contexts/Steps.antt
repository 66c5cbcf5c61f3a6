-- ===== src/Runtime/Contexts/Steps.antt =====
-- Contexts through any history of cancellations and subscriptions.
use pyservicelib.Base.{
  ℕ, ◌≤◌, ◌<◌, ◌≡◌, inl, inr, refl, true, false, if◌then◌else◌, arith, Bool-cases,
}
use pyservicelib.Pool.Queued.Steps.{occurs}
use pyservicelib.Runtime.Contexts.{init, write, cancelled, remove}
use pyservicelib.Runtime.Contexts.Histories.{
  makes, cancels, subscribes, removes, start, after, History, Step, Reachable, count, IsSound,
}
use pyservicelib.Runtime.Contexts.Subscriptions.{occurs-cleanup, cleanup_absent}
use pyservicelib.Runtime.Contexts.Notifying.{cancels-IsSound}
use pyservicelib.Runtime.Contexts.Subscribing.{subscribes-IsSound}

removes-IsSound :
    (h : History) (n : ℕ)
    → n < h.contexts.next_subscription
    → IsSound h
    → IsSound (record {
      contexts = remove h.contexts n;
      removed = if h.contexts.pending n then write h.removed n true else h.removed;
    })
unfolding remove
removes-IsSound h n old v =
    let s = h.contexts in
    elim (Bool-cases (s.pending n)) [
      | inl on ↦
          let there : (c : ℕ) → occurs c (s.subscriptions n) ≤ occurs n (s.callbacks c) =
            λ c. ground (arith, v.kept.held c n) in
          record {
            kept = record {
              held = λ c m. ground (
                arith,
                v.kept.held c m,
                occurs-cleanup s.callbacks n (s.subscriptions n) there c m,
              );
              once = λ m. ground (arith, v.kept.once m);
            };
            waiting = λ m e. ground (arith, v.waiting m);
            earned = v.earned;
          }
      | inr off ↦
          let gone : (c : ℕ) → occurs n (s.callbacks c) ≡ 0 =
            λ c. ground (arith, v.kept.held c n) in
          record {
            kept = record {
              held = λ c m. ground (
                arith,
                v.kept.held c m,
                cleanup_absent s.callbacks n (s.subscriptions n) gone c m,
              );
              once = λ m. ground (arith, v.kept.once m);
            };
            waiting = λ m e. ground (arith, v.waiting m);
            earned = v.earned;
          }
    ]

pub Step-IsSound : (h k : History) → Step h k → IsSound h → IsSound k
Step-IsSound h _ makes v = record {
  kept = record { held = v.kept.held; once = v.kept.once };
  waiting = v.waiting;
  earned = v.earned;
}
Step-IsSound h _ (cancels c) v = cancels-IsSound h c v
Step-IsSound h _ (subscribes path) v = subscribes-IsSound h path v
Step-IsSound h _ (removes n old) v = removes-IsSound h n old v

start-IsSound : IsSound (record { contexts = init; removed = λ n. false })
unfolding init
start-IsSound = record {
  kept = record { held = λ c n. refl; once = λ n. ground arith };
  waiting = λ n e. absurd (ground arith);
  earned = λ n e. absurd (ground arith);
}

contexts-IsSound : (h : History) → Reachable h → IsSound h
contexts-IsSound _ start = start-IsSound
contexts-IsSound _ (after h k past step) = Step-IsSound h k step (contexts-IsSound h past)

-- Through every history of contexts that are made, cancelled and subscribed to, with subscriptions
-- removed: the callback of a subscription that was not removed while it was pending has been called
-- once if its context or one of the parents is cancelled, and not at all if none is.
pub notified-cancelled :
    (h : History) (n : ℕ)
    → Reachable h
    → n < h.contexts.next_subscription
    → h.removed n ≡ false
    → occurs n h.contexts.notified
      ≡ count (cancelled h.contexts.cancelled_flag (h.contexts.subscriptions n))
notified-cancelled h n past old stays =
    let v = contexts-IsSound h past in ground (arith, v.kept.once n, v.waiting n, v.earned n)
