-- ===== src/Runtime/Endpoint.antt =====
-- runtime/datasource.py: what DataSourceEndpoint counts. A stream id is a number, and so is a
-- reading of the clock. The transport metrics of HTTP and gRPC are left out.
use pyservicelib.Base.{ℕ, suc, ◌-◌, Bool, if◌then◌else◌, [], ℕ_discrete}
use pyservicelib.Base.Dicts.{Dict, put, delete}

pub record Endpoint : Type 0 where
  pub metrics_enabled : Bool
  pub active_requests : ℕ
  pub pending_requests : ℕ
  pub pending_start_times : Dict ℕ ℕ
  pub messages_total : ℕ
  pub request_errors : ℕ
  pub begin_request_failed : ℕ
  pub missing_stream_id : ℕ
  pub late_result : ℕ
  pub unknown_message_id : ℕ
  pub duplicate_message_id : ℕ

unfoldable pub init : (metrics_enabled : Bool) → Endpoint
init metrics_enabled = record {
  metrics_enabled = metrics_enabled;
  active_requests = 0;
  pending_requests = 0;
  pending_start_times = [];
  messages_total = 0;
  request_errors = 0;
  begin_request_failed = 0;
  missing_stream_id = 0;
  late_result = 0;
  unknown_message_id = 0;
  duplicate_message_id = 0;
}

unfoldable pub on_missing_stream_id : Endpoint → Endpoint
on_missing_stream_id e =
    if e.metrics_enabled then record e { missing_stream_id = suc e.missing_stream_id } else e

unfoldable pub on_late_result : Endpoint → Endpoint
on_late_result e = if e.metrics_enabled then record e { late_result = suc e.late_result } else e

unfoldable pub on_unknown_message_id : Endpoint → Endpoint
on_unknown_message_id e =
    if e.metrics_enabled then record e { unknown_message_id = suc e.unknown_message_id } else e

unfoldable pub on_duplicate_message_id : Endpoint → Endpoint
on_duplicate_message_id e =
    if e.metrics_enabled then record e { duplicate_message_id = suc e.duplicate_message_id } else e

unfoldable pub on_pending_add : Endpoint → (stream_id now : ℕ) → Endpoint
on_pending_add e stream_id now =
    if e.metrics_enabled
    then record e {
      pending_requests = suc e.pending_requests;
      pending_start_times = put ℕ_discrete e.pending_start_times stream_id now;
    }
    else e

unfoldable pub on_pending_remove : Endpoint → (stream_id : ℕ) → Endpoint
on_pending_remove e stream_id =
    if e.metrics_enabled
    then record e {
      pending_requests = e.pending_requests - 1;
      pending_start_times = delete ℕ_discrete e.pending_start_times stream_id;
    }
    else e

unfoldable pub on_request_start : Endpoint → Endpoint
on_request_start e =
    if e.metrics_enabled then record e { active_requests = suc e.active_requests } else e

unfoldable pub on_request_end : Endpoint → (failed : Bool) → Endpoint
on_request_end e failed =
    if e.metrics_enabled
    then record e {
      active_requests = e.active_requests - 1;
      messages_total = if failed then e.messages_total else suc e.messages_total;
      request_errors = if failed then suc e.request_errors else e.request_errors;
    }
    else e

unfoldable pub on_begin_request_failed : Endpoint → Endpoint
on_begin_request_failed e =
    if e.metrics_enabled then record e { begin_request_failed = suc e.begin_request_failed } else e
