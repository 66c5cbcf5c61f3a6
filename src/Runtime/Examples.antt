-- ===== src/Runtime/Examples.antt =====
-- make_caller at one configuration.
use text.Mathlib.Text.{◌==◌}
use pyservicelib.Base.{◌≡◌, ◌↔◌, true, false, none, some, ok}
use pyservicelib.Runtime.Callers.{
  Setting, task_pool, inherited, function_call, task_pool_caller, make_caller,
}
use pyservicelib.Runtime.Callers.Laws.{Fits, make_caller-Fits}

-- The link inherits, and the service's default is the task pool.
abbrev pooled : Setting
pooled = record {
  has_consumer = true;
  link = some (record {
    call_semantics = some inherited;
    income_call_semantics = some function_call;
    var_async = false;
    pool_name = some "workers";
    income_pool_name = none;
    priority = none;
    income_priority = none;
  });
  outgoing = true;
  default_call_semantics = some task_pool;
  task_pools = λ name. name == "workers";
  priority_task_pools = λ name. false;
}

make_caller-Fits_example :
    (make_caller pooled ≡ ok (task_pool_caller "workers"))
    ↔ ((pooled.has_consumer ≡ true) × Fits pooled (task_pool_caller "workers"))
make_caller-Fits_example = make_caller-Fits pooled (task_pool_caller "workers")
