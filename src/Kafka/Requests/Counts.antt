-- ===== src/Kafka/Requests/Counts.antt =====
-- A Kafka source: results that come change none of the counts of its requests.
use pyservicelib.Base.{
  ℕ, ◌≡◌, inl, inr, refl, sym, subst, Bool, true, false, Option, none, some, if◌then◌else◌,
  ℕ_discrete, arith,
}
use pyservicelib.Base.Dicts.{Dict, get}
use pyservicelib.Store.Rotating.{find}
use pyservicelib.Runtime.Endpoint.{
  Endpoint, on_missing_stream_id, on_late_result, on_unknown_message_id, on_duplicate_message_id,
  on_begin_request_failed,
}
use pyservicelib.Kafka.Requests.{
  Requests, Callback, take_off, answered, called_back, result_for, result_of_stream, consume_result,
}
use pyservicelib.Kafka.Requests.Histories.{History, IsSound}

-- The counts of the requests that run, wait and have ended are the same.
pub record IsAlike (e f : Endpoint) : Type 0 where
  enabled : f.metrics_enabled ≡ e.metrics_enabled
  running : f.active_requests ≡ e.active_requests
  waiting_now : f.pending_requests ≡ e.pending_requests
  ended_well : f.messages_total ≡ e.messages_total
  ended_badly : f.request_errors ≡ e.request_errors

pub same-IsSound :
    (h : History) (e : Endpoint)
    → IsAlike h.source.endpoint e
    → IsSound h
    → IsSound (record h { source = record h.source { endpoint = e } })
same-IsSound h e s v = record {
  valid = v.valid;
  found = v.found;
  patient = v.patient;
  placed = v.placed;
  waits = v.waits;
  counted = elim v.counted [
    | inl off ↦ inl (cc (s.enabled, off))
    | inr c ↦ inr (record {
      running = cc (s.running, c.running);
      waiting_now = cc (s.waiting_now, c.waiting_now);
      summed = omega (arith, s.ended_well, s.ended_badly, c.summed);
    })
  ];
}

pub events-IsAlike :
    (e : Endpoint)
    → IsAlike e (on_missing_stream_id e)
      × IsAlike e (on_late_result e)
      × IsAlike e (on_unknown_message_id e)
      × IsAlike e (on_duplicate_message_id e)
      × IsAlike e (on_begin_request_failed e)
      × IsAlike e e
unfolding on_missing_stream_id on_late_result on_unknown_message_id on_duplicate_message_id
    on_begin_request_failed
events-IsAlike e = ground arith

take_off-IsAlike :
    (e : Endpoint) (callbacks : Dict ℕ ℕ) (message_id : ℕ) (o : Option ℕ)
    → IsAlike e (take_off e callbacks message_id o).0
take_off-IsAlike e callbacks message_id none = (events-IsAlike e).3
take_off-IsAlike e callbacks message_id (some cb) = (events-IsAlike e).5

called_back-IsAlike :
    (e : Endpoint) (message_id : ℕ) (remove : Bool) (callbacks : Dict ℕ ℕ)
    → IsAlike e (called_back e message_id remove callbacks).0
called_back-IsAlike e message_id false callbacks = (events-IsAlike e).5
called_back-IsAlike e message_id true callbacks =
    take_off-IsAlike e callbacks message_id (get ℕ_discrete callbacks message_id)

answered-IsAlike :
    (e : Endpoint) (callback : Callback) (callbacks : Dict ℕ ℕ) (message_id : ℕ) (o : Option ℕ)
    → IsAlike e (answered e callback callbacks message_id o).0
answered-IsAlike e callback callbacks message_id none = (events-IsAlike e).2
answered-IsAlike e callback callbacks message_id (some cb) =
    called_back-IsAlike e message_id (callback cb callbacks).0 (callback cb callbacks).1

-- A source that differs in other counts only.
pub Counts : Requests → Requests → Type 0
Counts s r = (e : Endpoint) × IsAlike s.endpoint e × (r ≡ record s { endpoint = e })

result_for-Counts :
    (s : Requests) (contexts : ℕ → Dict ℕ ℕ) (callback : Callback) (message_id : ℕ) (o : Option ℕ)
    → Counts s (result_for s contexts callback message_id o).0
unfolding Counts
result_for-Counts s contexts callback message_id none =
    (on_late_result s.endpoint, (events-IsAlike s.endpoint).1, refl)
result_for-Counts s contexts callback message_id (some context) =
    let o = get ℕ_discrete (contexts context) message_id in
    (
      (answered s.endpoint callback (contexts context) message_id o).0,
      answered-IsAlike s.endpoint callback (contexts context) message_id o,
      refl,
    )

result_of_stream-Counts :
    (s : Requests) (contexts : ℕ → Dict ℕ ℕ) (callback : Callback) (stream_id : Option ℕ)
    (message_id : ℕ)
    → Counts s (result_of_stream s contexts callback stream_id message_id).0
unfolding Counts
result_of_stream-Counts s contexts callback none message_id =
    (on_missing_stream_id s.endpoint, (events-IsAlike s.endpoint).0, refl)
result_of_stream-Counts s contexts callback (some sid) message_id =
    result_for-Counts s contexts callback message_id (find ℕ_discrete s.pending sid)

pub consume_result-Counts :
    (s : Requests) (contexts : ℕ → Dict ℕ ℕ) (callback : Callback) (stream_id : Option ℕ)
    (message_id : ℕ)
    → Counts s (consume_result s contexts callback stream_id message_id).0
unfolding consume_result Counts
consume_result-Counts s contexts callback stream_id message_id =
    let r = result_of_stream s contexts callback stream_id message_id in
    elim s.has_result as (λ b. Counts s (if b then r else (s, contexts)).0) [
      | true ↦ result_of_stream-Counts s contexts callback stream_id message_id
      | false ↦ (s.endpoint, (events-IsAlike s.endpoint).5, refl)
    ]

pub Counts-IsSound :
    (h : History) (r : Requests) → Counts h.source r → IsSound h → IsSound (record h { source = r })
unfolding Counts
Counts-IsSound h r (e, s, same) v =
    subst (λ t. IsSound (record h { source = t })) (sym same) (same-IsSound h e s v)
