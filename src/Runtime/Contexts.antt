-- ===== src/Runtime/Contexts.antt =====
-- runtime/context/context.py: Context, its deadline, and the callbacks of its cancellation. A
-- context is the list of its own number and those of its parents; a subscription is a number, and
-- its callback, which changes no context, is known by it.
pub mod Histories
pub mod Subscriptions
pub mod Notifying
pub mod Subscribing
pub mod Steps
pub mod Bounded
use pyservicelib.Base.{
  ℕ, suc, ◌+◌, ◌-◌, min, Bool, true, false, ◌||◌, List, [], ◌∷◌, ◌++◌, Option, none, some, leb,
  ◌==◌, if◌then◌else◌,
}
use pyservicelib.Base.Int.{ℤ, pos_part}
use pyservicelib.Pool.Queued.{without}

-- What the contexts share: the flags of each, its callbacks in the order in which they were added,
-- and for each subscription whether it is pending and the contexts that it stands in. `notified`
-- are the callbacks that were called, the last one first.
pub record Contexts : Type 0 where
  pub next_context : ℕ
  pub cancelled_flag : ℕ → Bool
  pub callbacks : ℕ → List ℕ
  pub next_subscription : ℕ
  pub pending : ℕ → Bool
  pub subscriptions : ℕ → List ℕ
  pub notified : List ℕ

-- No deadline is none.
pub record Context : Type 0 where
  pub path : List ℕ
  pub deadline : Option ℕ

unfoldable pub init : Contexts
init = record {
  next_context = 0;
  cancelled_flag = λ c. false;
  callbacks = λ c. [];
  next_subscription = 0;
  pending = λ n. false;
  subscriptions = λ n. [];
  notified = [];
}

abbrev pub write : {A : Type 0} → (ℕ → A) → ℕ → A → ℕ → A
write f p a q = if p == q then a else f q

-- `cancelled`
abbrev pub cancelled : (ℕ → Bool) → List ℕ → Bool
cancelled flag [] = false
cancelled flag (c ∷ parents) = flag c || cancelled flag parents

abbrev pub has_passed : Option ℕ → (time : ℕ) → Bool
has_passed none time = false
has_passed (some deadline) time = leb deadline time

-- `is_expired`, at a reading of the clock.
abbrev pub is_expired : Contexts → Context → (time : ℕ) → Bool
is_expired s c time = cancelled s.cancelled_flag c.path || has_passed c.deadline time

abbrev pub fresh : Contexts → Contexts
fresh s = record s { next_context = suc s.next_context }

-- `Context(timeout)`
abbrev pub make : Contexts → Option ℕ → (time : ℕ) → Contexts × Context
make s none time = (fresh s, record { path = s.next_context ∷ []; deadline = none })
make s (some seconds) time =
    (fresh s, record { path = s.next_context ∷ []; deadline = some (time + seconds) })

-- `child`
abbrev pub child : Contexts → Context → Contexts × Context
child s c = (fresh s, record { path = s.next_context ∷ c.path; deadline = c.deadline })

-- `time_left`
abbrev pub time_left : Context → (time : ℕ) → Option ℕ
time_left c time = elim c.deadline [ none ↦ none | some deadline ↦ some (deadline - time) ]

abbrev pub at_most : ℕ → Option ℕ → ℕ
at_most n none = n
at_most n (some m) = min n m

-- `bounded`; the clock is read again for the new deadline.
pub bounded : Contexts → Context → (timeout : ℤ) (time later : ℕ) → Contexts × Context
bounded s c timeout time later = (
  fresh s,
  record {
    path = s.next_context ∷ c.path;
    deadline = some (later + at_most (pos_part timeout) (time_left c time));
  },
)

-- `cleanup`
abbrev pub cleanup : (ℕ → List ℕ) → (subscription : ℕ) → List ℕ → ℕ → List ℕ
cleanup callbacks n [] = callbacks
cleanup callbacks n (c ∷ cs) = cleanup (write callbacks c (without n (callbacks c))) n cs

abbrev pub install : (ℕ → List ℕ) → (subscription : ℕ) → List ℕ → ℕ → List ℕ
install callbacks n [] = callbacks
install callbacks n (c ∷ cs) = install (write callbacks c (callbacks c ++ (n ∷ []))) n cs

-- `notify`
abbrev pub notify : Contexts → (subscription : ℕ) → Contexts
notify s n =
    if s.pending n
    then record s {
      pending = write s.pending n false;
      callbacks = cleanup s.callbacks n (s.subscriptions n);
      notified = n ∷ s.notified;
    }
    else s

abbrev pub notify_all : Contexts → List ℕ → Contexts
notify_all s [] = s
notify_all s (n ∷ ns) = notify_all (notify s n) ns

-- `cancel`, of the context with this number.
unfoldable pub cancel : Contexts → ℕ → Contexts
cancel s c =
    notify_all (record s { cancelled_flag = write s.cancelled_flag c true }) (s.callbacks c)

abbrev pub subscribed : Contexts → List ℕ → Contexts
subscribed s path = record s {
  next_subscription = suc s.next_subscription;
  pending = write s.pending s.next_subscription true;
  subscriptions = write s.subscriptions s.next_subscription path;
  callbacks = install s.callbacks s.next_subscription path;
}

-- `add_cancel_callback`, for the subscription `s.next_subscription`.
unfoldable pub add_cancel_callback : Contexts → List ℕ → Contexts
add_cancel_callback s path =
    let t = subscribed s path in
    let u = if cancelled t.cancelled_flag path then notify t s.next_subscription else t in
    if u.pending s.next_subscription
    then u
    else record u { callbacks = cleanup u.callbacks s.next_subscription path }

-- `remove`
pub remove : Contexts → (subscription : ℕ) → Contexts
remove s n = record s {
  pending = write s.pending n false;
  callbacks = cleanup s.callbacks n (s.subscriptions n);
}
