-- ===== src/Runtime/Callers/Laws.antt =====
-- Which caller a configuration leads to.
use Prim.Native.String.{String}
use pyservicelib.Base.{
  ◌≡◌, ◌↔◌, refl, Bool, true, false, List, [], ◌∷◌, arith, if◌then◌else◌, Option, none, some,
  Result, ok, err, value_error,
}
use pyservicelib.Base.Int.{ℤ}
use pyservicelib.Runtime.Callers.{
  CallSemantics, undefined, inherited, function_call, task_pool, priority_task_pool, parallel_call,
  LinkConfig, Setting, Caller, direct_caller, task_pool_caller, priority_task_pool_caller,
  parallel_caller, link_semantics, resolved, is_async, pool_caller, priority_caller, caller_of,
  make_caller,
}

-- The first of the settings that says more than `Inherited`, else a function call.
abbrev pub first_set : List (Option CallSemantics) → CallSemantics
first_set [] = function_call
first_set (none ∷ others) = first_set others
first_set (some inherited ∷ others) = first_set others
first_set (some c ∷ others) = c

-- The settings of a link for one of its two sides.
pub record Side : Type 0 where
  pub semantics : Option CallSemantics
  pub pool : Option String
  pub priority : Option ℤ

abbrev pub side : Option LinkConfig → (outgoing : Bool) → Side
side none outgoing = record { semantics = none; pool = none; priority = none }
side (some l) true = record {
  semantics = l.call_semantics;
  pool = l.pool_name;
  priority = l.priority;
}
side (some l) false = record {
  semantics = l.income_call_semantics;
  pool = l.income_pool_name;
  priority = l.income_priority;
}

abbrev pub chosen : Setting → CallSemantics
chosen s = first_set ((side s.link s.outgoing).semantics ∷ s.default_call_semantics ∷ [])

-- The callers that the settings of the side ask for.
abbrev pub Fits : Setting → Caller → Type 0
Fits s (direct_caller a) = (chosen s ≡ function_call) × (a ≡ is_async s.link)
Fits s (task_pool_caller name) =
    (chosen s ≡ task_pool)
    × ((side s.link s.outgoing).pool ≡ some name)
    × (s.task_pools name ≡ true)
Fits s (priority_task_pool_caller name priority) =
    (chosen s ≡ priority_task_pool)
    × ((side s.link s.outgoing).pool ≡ some name)
    × ((side s.link s.outgoing).priority ≡ some priority)
    × (s.priority_task_pools name ≡ true)
Fits s parallel_caller = chosen s ≡ parallel_call

resolved-chosen : (s : Setting) → resolved s ≡ chosen s
unfolding resolved link_semantics
resolved-chosen s = ground arith

caller_of-Fits :
    (s : Setting) (k : CallSemantics) (c : Caller)
    → chosen s ≡ k
    → (caller_of k s ≡ ok c) ↔ Fits s c
unfolding is_async pool_caller priority_caller
caller_of-Fits s undefined c e = ground arith
caller_of-Fits s inherited c e = ground arith
caller_of-Fits s function_call c e = ground arith
caller_of-Fits s task_pool c e = ground arith
caller_of-Fits s priority_task_pool c e = ground arith
caller_of-Fits s parallel_call c e = ground arith

if-ok :
    (b : Bool) (r : Result Caller) (c : Caller)
    → ((if b then r else err value_error) ≡ ok c) ↔ ((b ≡ true) × (r ≡ ok c))
if-ok true r c = ((λ h. (refl, h)), (λ h. h.1))
if-ok false r c = ((λ h. cc), (λ h. cc))

-- make_caller gives a caller exactly if the stream has a consumer and the caller is the one that
-- the settings ask for: the kind is the first of the link's semantics, on the side of this
-- service, and the service's default that is set and not inherited, else a function call; a pool
-- caller has the pool of that side, which the runtime has to have, and its priority. In all other cases make_caller raises.
pub make_caller-Fits :
    (s : Setting) (c : Caller) → (make_caller s ≡ ok c) ↔ ((s.has_consumer ≡ true) × Fits s c)
unfolding make_caller
make_caller-Fits s c =
    let fits = caller_of-Fits s (chosen s) c refl in
    let only = if-ok s.has_consumer (caller_of (resolved s) s) c in
    let same : (caller_of (resolved s) s ≡ ok c) ↔ (caller_of (chosen s) s ≡ ok c) =
      rw (resolved-chosen s) ((λ h. h), (λ h. h)) in
    (λ h. ((only.0 h).0, fits.0 (same.0 (only.0 h).1)), λ h. only.1 (h.0, same.1 (fits.1 h.1)))
