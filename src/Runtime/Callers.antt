-- ===== src/Runtime/Callers.antt =====
-- runtime/common.py: RuntimeHelpers.make_caller, from the configuration of a link to the kind of
-- caller. Statistics, counters and tracers, which every kind is given, are left out.
pub mod Laws
use Prim.Native.String.{String}
use pyservicelib.Base.{
  Bool, true, false, not, if◌then◌else◌, Option, none, some, Result, ok, err, value_error,
  key_error,
}
use pyservicelib.Base.Int.{ℤ}

-- api/models/call_semantics.py
pub data CallSemantics : Type 0 where
  undefined inherited function_call task_pool priority_task_pool parallel_call : CallSemantics

pub record LinkConfig : Type 0 where
  pub call_semantics : Option CallSemantics
  pub income_call_semantics : Option CallSemantics
  pub var_async : Bool
  pub pool_name : Option String
  pub income_pool_name : Option String
  pub priority : Option ℤ
  pub income_priority : Option ℤ

-- `outgoing` is `stream_cfg.id_service == service_config.id`.
pub record Setting : Type 0 where
  pub has_consumer : Bool
  pub link : Option LinkConfig
  pub outgoing : Bool
  pub default_call_semantics : Option CallSemantics
  -- The names of the pools that the runtime has.
  pub task_pools : String → Bool
  pub priority_task_pools : String → Bool

pub data Caller : Type 0 where
  direct_caller : Bool → Caller
  task_pool_caller : String → Caller
  priority_task_pool_caller : String → ℤ → Caller
  parallel_caller : Caller

abbrev pub is_function_call : Option CallSemantics → Bool
is_function_call (some function_call) = true
is_function_call _ = false

-- `if x is None or x == CallSemantics.Inherited: x = other`
abbrev pub unless_set : Option CallSemantics → Option CallSemantics → Option CallSemantics
unless_set none other = other
unless_set (some inherited) other = other
unless_set (some c) other = some c

pub link_semantics : Setting → Option CallSemantics
link_semantics s = elim s.link [
  | none ↦ none
  | some l ↦ if s.outgoing then l.call_semantics else l.income_call_semantics
]

abbrev pub or_function_call : Option CallSemantics → CallSemantics
or_function_call none = function_call
or_function_call (some inherited) = function_call
or_function_call (some c) = c

pub resolved : Setting → CallSemantics
unfolding link_semantics
resolved s = or_function_call (unless_set (link_semantics s) s.default_call_semantics)

pub is_async : Option LinkConfig → Bool
is_async none = false
is_async (some l) = if is_function_call l.call_semantics then l.var_async else false

-- `get_task_pool`: the pool, or KeyError.
abbrev pub get_pool : (String → Bool) → String → Caller → Result Caller
get_pool pools name caller = if pools name then ok caller else err key_error

pub pool_caller : Setting → Option LinkConfig → Result Caller
pool_caller s none = err value_error
pool_caller s (some l) = elim (if s.outgoing then l.pool_name else l.income_pool_name) [
  | none ↦ err value_error
  | some name ↦ get_pool s.task_pools name (task_pool_caller name)
]

pub priority_caller : Setting → Option LinkConfig → Result Caller
priority_caller s none = err value_error
priority_caller s (some l) = elim (if s.outgoing then l.pool_name else l.income_pool_name) [
  | none ↦ err value_error
  | some name ↦ elim (if s.outgoing then l.priority else l.income_priority) [
    | none ↦ err value_error
    | some priority ↦ get_pool s.priority_task_pools name (priority_task_pool_caller name priority)
  ]
]

abbrev pub caller_of : CallSemantics → Setting → Result Caller
unfolding is_async pool_caller priority_caller
caller_of function_call s = ok (direct_caller (is_async s.link))
caller_of task_pool s = pool_caller s s.link
caller_of priority_task_pool s = priority_caller s s.link
caller_of parallel_call s = ok parallel_caller
caller_of _ s = err value_error

pub make_caller : Setting → Result Caller
unfolding resolved
make_caller s = if s.has_consumer then caller_of (resolved s) s else err value_error
