-- ===== src/Runtime/Deadlines.antt =====
-- A context with a child, and a callback of the child.
use pyservicelib.Base.{◌≡◌, refl, true, false, [], ◌∷◌, some, arith}
use pyservicelib.Base.Int.{pos}
use pyservicelib.Pool.Queued.Steps.{occurs}
use pyservicelib.Runtime.Contexts.{Context, init, is_expired, bounded, cancel, add_cancel_callback}
use pyservicelib.Runtime.Contexts.Histories.{History, Reachable, start, after, cancels, subscribes}
use pyservicelib.Runtime.Contexts.Steps.{notified-cancelled}
use pyservicelib.Runtime.Contexts.Bounded.{bounded-is_expired}

abbrev fresh_history : History
fresh_history = record { contexts = init; removed = λ n. false }

-- The context 1 has the parent 0, and a callback.
abbrev one_callback : History
one_callback = record fresh_history { contexts = add_cancel_callback init (1 ∷ 0 ∷ []) }

-- The parent is cancelled.
abbrev parent_cancelled : History
parent_cancelled = record one_callback { contexts = cancel one_callback.contexts 0 }

parent_cancelled-Reachable : Reachable parent_cancelled
parent_cancelled-Reachable =
    after one_callback parent_cancelled
      (after fresh_history one_callback start (subscribes (1 ∷ 0 ∷ []))) (cancels 0)

notified-cancelled_example : occurs 0 parent_cancelled.contexts.notified ≡ 1
unfolding init add_cancel_callback cancel
notified-cancelled_example =
    notified-cancelled parent_cancelled 0 parent_cancelled-Reachable (omega arith) refl

abbrev old_context : Context
old_context = record { path = 0 ∷ []; deadline = some 6 }

bounded-is_expired_example : is_expired init (bounded init old_context (pos 9) 2 3).1 8 ≡ true
unfolding init
bounded-is_expired_example =
    bounded-is_expired init init old_context (pos 9) 2 3 7 (omega arith) refl
