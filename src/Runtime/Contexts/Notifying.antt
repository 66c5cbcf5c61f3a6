-- ===== src/Runtime/Contexts/Notifying.antt =====
-- Contexts: what notifications change and keep.
use pyservicelib.Base.{
  ℕ, ◌+◌, ◌≤◌, ◌<◌, ◌≡◌, inl, inr, refl, sym, subst, Bool, true, false, ◌||◌, List, [], ◌∷◌, ltb,
  arith, Bool-cases,
}
use pyservicelib.Pool.Queued.Steps.{occurs}
use pyservicelib.Runtime.Contexts.{Contexts, write, cancelled, notify, notify_all, cancel}
use pyservicelib.Runtime.Contexts.Histories.{History, IsHeld, IsSound}
use pyservicelib.Runtime.Contexts.Subscriptions.{occurs-cleanup}

-- What a notification changes: only what is pending, called and subscribed.
pub record IsQuieter (s t : Contexts) : Type 0 where
  flags : t.cancelled_flag ≡ s.cancelled_flag
  chains : t.subscriptions ≡ s.subscriptions
  numbers : t.next_subscription ≡ s.next_subscription
  fewer : (m : ℕ) → t.pending m ≡ true → s.pending m ≡ true

IsQuieter-notify : (s : Contexts) (n : ℕ) → IsQuieter s (notify s n)
IsQuieter-notify s n = record {
  flags = ground arith;
  chains = ground arith;
  numbers = ground arith;
  fewer = λ m e. ground arith;
}

pub notify-IsHeld :
    (h : History) (n : ℕ) → IsHeld h → IsHeld (record h { contexts = notify h.contexts n })
notify-IsHeld h n v = elim (Bool-cases (h.contexts.pending n)) [
  | inl e ↦
      let s = h.contexts in
      let there : (c : ℕ) → occurs c (s.subscriptions n) ≤ occurs n (s.callbacks c) =
        λ c. ground (arith, v.held c n) in
      record {
        held = λ c m.
            ground (arith, v.held c m, occurs-cleanup s.callbacks n (s.subscriptions n) there c m);
        once = λ m. ground (arith, v.once m);
      }
  | inr e ↦ record {
    held = λ c m. ground (arith, v.held c m);
    once = λ m. ground (arith, v.once m);
  }
]

IsQuieter-notify_all : (s : Contexts) (ns : List ℕ) → IsQuieter s (notify_all s ns)
IsQuieter-notify_all s [] = record { flags = refl; chains = refl; numbers = refl; fewer = λ m e. e }
IsQuieter-notify_all s (n ∷ ns) =
    let one = IsQuieter-notify s n in
    let rest = IsQuieter-notify_all (notify s n) ns in
    record {
      flags = cc (one.flags, rest.flags);
      chains = cc (one.chains, rest.chains);
      numbers = cc (one.numbers, rest.numbers);
      fewer = λ m e. one.fewer m (rest.fewer m e);
    }

notify_all-IsHeld :
    (h : History) (ns : List ℕ)
    → IsHeld h
    → IsHeld (record h { contexts = notify_all h.contexts ns })
notify_all-IsHeld h [] v = v
notify_all-IsHeld h (n ∷ ns) v =
    notify_all-IsHeld (record h { contexts = notify h.contexts n }) ns (notify-IsHeld h n v)

pending-notify_all :
    (s : Contexts) (ns : List ℕ) (m : ℕ) → 0 < occurs m ns → (notify_all s ns).pending m ≡ false
pending-notify_all s [] m there = absurd (omega arith)
pending-notify_all s (n ∷ ns) m there =
    let rest = IsQuieter-notify_all (notify s n) ns in
    let gone : n ≡ m → (notify s n).pending m ≡ false = λ e. ground arith in
    elim (Bool-cases ((notify_all (notify s n) ns).pending m)) [
      | inl on ↦ ground (arith, rest.fewer m on, pending-notify_all (notify s n) ns m)
      | inr off ↦ off
    ]

cancelled-write :
    (flag : ℕ → Bool) (c : ℕ) (path : List ℕ)
    → cancelled (write flag c true) path ≡ (cancelled flag path || ltb 0 (occurs c path))
cancelled-write flag c [] = ground arith
cancelled-write flag c (d ∷ path) = ground (arith, cancelled-write flag c path)

notified-notify_all :
    (s : Contexts) (ns : List ℕ) (m : ℕ)
    → 0 < occurs m (notify_all s ns).notified
    → 0 < occurs m s.notified + occurs m ns
notified-notify_all s [] m e = omega arith
notified-notify_all s (n ∷ ns) m e = ground (arith, notified-notify_all (notify s n) ns m e)

quiet_cancelled :
    (s t : Contexts) (b : Bool)
    → IsQuieter s t
    → (n : ℕ) → cancelled s.cancelled_flag (s.subscriptions n) ≡ b
    → cancelled t.cancelled_flag (t.subscriptions n) ≡ b
quiet_cancelled s t b q n calm =
    subst (λ f. cancelled f (t.subscriptions n) ≡ b) (sym q.flags)
      (subst (λ g. cancelled s.cancelled_flag (g n) ≡ b) (sym q.chains) calm)

pub cancels-IsSound :
    (h : History) (c : ℕ) → IsSound h → IsSound (record h { contexts = cancel h.contexts c })
unfolding cancel
cancels-IsSound h c v =
    let s : Contexts = record h.contexts {
      cancelled_flag = write h.contexts.cancelled_flag c true;
    } in
    let quiet = IsQuieter-notify_all s (h.contexts.callbacks c) in
    record {
      kept =
          notify_all-IsHeld (record h { contexts = s }) (h.contexts.callbacks c)
            (record { held = v.kept.held; once = v.kept.once });
      waiting = λ n e.
          let chain = h.contexts.subscriptions n in
          let was = quiet.fewer n e in
          let calm : cancelled s.cancelled_flag chain ≡ false = ground (
            arith,
            v.waiting n was,
            cancelled-write h.contexts.cancelled_flag c chain,
            v.kept.held c n,
            pending-notify_all s (h.contexts.callbacks c) n,
          ) in
          quiet_cancelled s (notify_all s (h.contexts.callbacks c)) false quiet n calm;
      earned = λ n e.
          let chain = h.contexts.subscriptions n in
          let over : cancelled s.cancelled_flag chain ≡ true = ground (
            arith,
            v.earned n,
            cancelled-write h.contexts.cancelled_flag c chain,
            v.kept.held c n,
            notified-notify_all s (h.contexts.callbacks c) n e,
          ) in
          quiet_cancelled s (notify_all s (h.contexts.callbacks c)) true quiet n over;
    }
