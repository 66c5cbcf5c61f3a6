-- ===== src/Runtime/Contexts/Histories.antt =====
-- Contexts: their steps, and what holds between two.
use pyservicelib.Base.{ℕ, ◌+◌, ◌<◌, ◌≡◌, Bool, true, false, List, ltb, if◌then◌else◌}
use pyservicelib.Pool.Queued.Steps.{occurs}
use pyservicelib.Runtime.Contexts.{
  Contexts, init, write, cancelled, fresh, cancel, add_cancel_callback, remove,
}

-- The contexts, and which subscriptions were removed while they were pending.
pub record History : Type 0 where
  pub contexts : Contexts
  pub removed : ℕ → Bool

pub data Step (h : History) : History → Type 0 where
  makes : Step h (record h { contexts = fresh h.contexts })
  cancels : (c : ℕ) → Step h (record h { contexts = cancel h.contexts c })
  subscribes :
      (path : List ℕ) → Step h (record h { contexts = add_cancel_callback h.contexts path })
  removes :
      (n : ℕ)
      → n < h.contexts.next_subscription
      → Step h (record {
        contexts = remove h.contexts n;
        removed = if h.contexts.pending n then write h.removed n true else h.removed;
      })

pub data Reachable : History → Type 0 where
  start : Reachable (record { contexts = init; removed = λ n. false })
  after : (h k : History) → Reachable h → Step h k → Reachable k

abbrev pub count : Bool → ℕ
count true = 1
count false = 0

-- A pending subscription stands in each of its contexts, another one in none; each one is pending,
-- was notified once, or was removed.
pub record IsHeld (h : History) : Type 0 where
  pub held :
      (c n : ℕ)
      → occurs n (h.contexts.callbacks c)
        ≡ (if h.contexts.pending n then occurs c (h.contexts.subscriptions n) else 0)
  pub once :
      (n : ℕ)
      → occurs n h.contexts.notified + (count (h.contexts.pending n) + count (h.removed n))
        ≡ count (ltb n h.contexts.next_subscription)

pub record IsSound (h : History) : Type 0 where
  pub kept : IsHeld h
  -- None of the contexts of a pending subscription is cancelled.
  pub waiting :
      (n : ℕ)
      → h.contexts.pending n ≡ true
      → cancelled h.contexts.cancelled_flag (h.contexts.subscriptions n) ≡ false
  -- One of those of a subscription that was notified is.
  pub earned :
      (n : ℕ)
      → 0 < occurs n h.contexts.notified
      → cancelled h.contexts.cancelled_flag (h.contexts.subscriptions n) ≡ true
