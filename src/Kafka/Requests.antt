-- ===== src/Kafka/Requests.antt =====
-- datasource/kafka/aiokafkads.py, _AIOKafkaTypedEndpointConsumer: a request for each record, and
-- the results that come back for it. A request is named by its stream id. Each function is what
-- runs between two awaits; the handler is the user's.
pub mod Histories
pub mod Counts
pub mod Moves
pub mod Steps
pub mod Cancelled
use pyservicelib.Base.{
  ℕ, Bool, true, false, not, ◌&&◌, Option, none, some, ◌==◌, if◌then◌else◌, ℕ_discrete, Result, ok,
  err,
}
use pyservicelib.Base.Dicts.{Dict, get, delete}
use pyservicelib.Store.Rotating.{RotatingMap}
use pyservicelib.Store.Rotating
use pyservicelib.Runtime.Endpoint.{
  Endpoint, on_missing_stream_id, on_late_result, on_unknown_message_id, on_duplicate_message_id,
  on_pending_add, on_pending_remove, on_request_start, on_request_end, on_begin_request_failed,
}

pub record Requests : Type 0 where
  pub has_result : Bool
  -- Which result contexts wait, each under its stream id and named by it.
  pub pending : RotatingMap ℕ ℕ
  pub endpoint : Endpoint

-- begin_request raised.
pub begin_failed : Requests → Requests
begin_failed s = record s { endpoint = on_begin_request_failed s.endpoint }

abbrev pub added : Requests → (sid now : ℕ) → Result (RotatingMap ℕ ℕ) → Result Requests
added s sid now (err e) = err e
added s sid now (ok pending) =
    ok (record s { pending = pending; endpoint = on_pending_add s.endpoint sid now })

-- begin_request returned: up to consume_message.
unfoldable pub begun : Requests → (sid now : ℕ) → Result Requests
begun s sid now =
    let started : Requests = record s { endpoint = on_request_start s.endpoint } in
    if s.has_result
    then added started sid now (Rotating.set ℕ_discrete s.pending sid sid)
    else ok started

-- `self._pending.pop(sid)` and `ep.on_pending_remove(sid)`
abbrev pub removed : Requests → (sid : ℕ) → Requests
removed s sid = record s {
  pending = (Rotating.pop ℕ_discrete s.pending sid).0;
  endpoint = on_pending_remove s.endpoint sid;
}

-- consume_message raised: up to end_request.
pub consume_failed : Requests → (sid : ℕ) → Requests
consume_failed s sid = if s.has_result then removed s sid else s

-- The wait for done ended: up to end_request.
pub waited : Requests → (sid : ℕ) → Requests
waited s sid = removed s sid

-- What `end_err` is then.
abbrev pub wait_failed : (cancelled done : Bool) → Bool
wait_failed cancelled done = cancelled && not done

-- The `finally`, once the request has started.
pub request_ends : Requests → (failed : Bool) → Requests
request_ends s failed = record s { endpoint = on_request_end s.endpoint failed }

-- The task is cancelled in consume_message: `except Exception` does not catch that.
pub consume_cancelled : Requests → Requests
consume_cancelled s = record s { endpoint = on_request_end s.endpoint false }

-- The callback of a message: what it answers, and the callbacks that it leaves.
abbrev pub Callback : Type 0
Callback = ℕ → Dict ℕ ℕ → Bool × Dict ℕ ℕ

-- `result._callbacks.pop(message_id, None)`, with what stands there.
abbrev pub take_off : Endpoint → Dict ℕ ℕ → (message_id : ℕ) → Option ℕ → Endpoint × Dict ℕ ℕ
take_off e callbacks message_id none = (on_duplicate_message_id e, callbacks)
take_off e callbacks message_id (some cb) = (e, delete ℕ_discrete callbacks message_id)

abbrev pub called_back :
    Endpoint → (message_id : ℕ) → (remove : Bool) → Dict ℕ ℕ → Endpoint × Dict ℕ ℕ
called_back e message_id false callbacks = (e, callbacks)
called_back e message_id true callbacks =
    take_off e callbacks message_id (get ℕ_discrete callbacks message_id)

abbrev pub answered :
    Endpoint → Callback → Dict ℕ ℕ → (message_id : ℕ) → Option ℕ → Endpoint × Dict ℕ ℕ
answered e callback callbacks message_id none = (on_unknown_message_id e, callbacks)
answered e callback callbacks message_id (some cb) =
    called_back e message_id (callback cb callbacks).0 (callback cb callbacks).1

abbrev pub result_for :
    Requests
    → (contexts : ℕ → Dict ℕ ℕ) → Callback
    → (message_id : ℕ) → Option ℕ
    → Requests × (ℕ → Dict ℕ ℕ)
result_for s contexts callback message_id none =
    (record s { endpoint = on_late_result s.endpoint }, contexts)
result_for s contexts callback message_id (some context) =
    let r =
      answered s.endpoint callback (contexts context) message_id
        (get ℕ_discrete (contexts context) message_id) in
    (record s { endpoint = r.0 }, λ c. if context == c then r.1 else contexts c)

abbrev pub result_of_stream :
    Requests
    → (contexts : ℕ → Dict ℕ ℕ) → Callback
    → (stream_id : Option ℕ) (message_id : ℕ) → Requests × (ℕ → Dict ℕ ℕ)
result_of_stream s contexts callback none message_id =
    (record s { endpoint = on_missing_stream_id s.endpoint }, contexts)
result_of_stream s contexts callback (some sid) message_id =
    result_for s contexts callback message_id (Rotating.find ℕ_discrete s.pending sid)

-- `_consume_result`, with the callbacks of each result context.
pub consume_result :
    Requests
    → (contexts : ℕ → Dict ℕ ℕ) → Callback
    → (stream_id : Option ℕ) (message_id : ℕ) → Requests × (ℕ → Dict ℕ ℕ)
consume_result s contexts callback stream_id message_id =
    if s.has_result
    then result_of_stream s contexts callback stream_id message_id
    else (s, contexts)
