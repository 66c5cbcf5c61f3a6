-- ===== src/Kafka/Examples.antt =====
-- A Kafka source with one record, and its offset.
use pyservicelib.Base.{
  ℕ, ◌≡◌, ◌==◌, if◌then◌else◌, refl, true, false, List, [], ◌∷◌, some, none, ok, err, runtime_error,
  arith, ℕ_discrete,
}
use pyservicelib.Base.Dicts.{get, put}
use pyservicelib.Kafka.Lanes.{absent, created, init, process_record, cancel}
use pyservicelib.Kafka.Lanes.Histories.{
  History, Reachable, fresh, after, arrives, IsSound, fresh_history,
}
use pyservicelib.Kafka.Lanes.Steps.{lanes-IsSound}
use pyservicelib.Kafka.Lanes.Cancelled.{arrivals, cancel-arrivals}
use pyservicelib.Kafka.Offsets.{Reading, assign, positions, revoke, mark, commit_message}
use pyservicelib.Kafka.Offsets
use pyservicelib.Kafka.Offsets.Histories.{write_all, raise_all, sought}
use pyservicelib.Kafka.Offsets.Histories
use pyservicelib.Kafka.Offsets.Stale.{mark-revoke}
use pyservicelib.Store.Rotating.{find, set}
use pyservicelib.Store.Rotating
use pyservicelib.Runtime.Endpoint.{on_request_start, on_pending_add}
use pyservicelib.Runtime.Endpoint
use pyservicelib.Kafka.Requests.{Requests, begun, consume_cancelled}
use pyservicelib.Kafka.Requests.Histories.{unseen, consuming}
use pyservicelib.Kafka.Requests.Histories as Running
use pyservicelib.Kafka.Requests.Steps.{requests-IsSound}
use pyservicelib.Kafka.Requests.Cancelled.{consume_cancelled-find}

-- The record 7 of the partition 0 has come.
abbrev one_record : History
one_record = record fresh_history {
  source = record init {
    queues = λ q. if 0 == q then some (7 ∷ []) else none;
    lanes = λ q. if 0 == q then created else absent;
    paused = λ q. if 0 == q then true else false;
    consumer_paused = λ q. if 0 == q then true else false;
  };
  admitted = λ q. if 0 == q then 7 ∷ [] else [];
}

one_record-Reachable : Reachable 1 one_record
unfolding init process_record
one_record-Reachable = after fresh_history one_record fresh (arrives true 0 7 refl)

lanes-IsSound_example : IsSound 1 one_record
lanes-IsSound_example = lanes-IsSound 1 one_record one_record-Reachable

cancel-arrivals_example :
    (arrivals (cancel one_record.source true 0) ((true, 0, 8) ∷ [])).lanes 0 ≡ absent
unfolding init
cancel-arrivals_example =
    cancel-arrivals 1 one_record true 0 ((true, 0, 8) ∷ []) one_record-Reachable refl

-- A checkpoint of the partition 0, to go on from the offset 4.
abbrev reading : Reading
reading = record {
  active = true;
  checkpoint = some ((0, 4) ∷ []);
  low = λ p. 0;
  high = λ p. 9;
  expired = false;
  seek_raises = λ p. false;
}

abbrev restored : Histories.History
restored =
    let h = Histories.fresh_history true in
    let ps : List ℕ = 0 ∷ [] in
    record h {
      source = assign h.source ps reading;
      highest = write_all h.highest (sought h.source reading.seek_raises (positions reading ps));
      ever = raise_all h.ever (sought h.source reading.seek_raises (positions reading ps));
    }

abbrev revoked_source : Histories.History
revoked_source = record restored { source = revoke restored.source (0 ∷ []) }

mark-revoke_example :
    (mark revoked_source.source 0 1 6 ≡ revoked_source.source)
    × (commit_message revoked_source.source 0 1 6 ≡ err runtime_error)
unfolding Offsets.init assign get ℕ_discrete
mark-revoke_example =
    mark-revoke restored revoked_source (0 ∷ []) 0 1 6 refl (omega arith) (omega arith)
      Histories.Later.now

-- The request 5 consumes its message.
abbrev consuming_requests : Requests
consuming_requests = record {
  has_result = true;
  pending = record { current = (5, 5) ∷ []; prev = []; high_water_mark = 0; min_capacity = 1000 };
  endpoint = record {
    metrics_enabled = true;
    active_requests = 1;
    pending_requests = 1;
    pending_start_times = (5, 2) ∷ [];
    messages_total = 0;
    request_errors = 0;
    begin_request_failed = 0;
    missing_stream_id = 0;
    late_result = 0;
    unknown_message_id = 0;
    duplicate_message_id = 0;
  };
}

abbrev one_request : Running.History
one_request = record {
  source = consuming_requests;
  phase = λ sid. if 5 == sid then consuming else unseen;
  active = 5 ∷ [];
  held = 5 ∷ [];
  started = 1;
}

begun_one : begun (Running.fresh_history true true 1000).source 5 2 ≡ ok consuming_requests
unfolding Rotating.init Endpoint.init begun on_request_start on_pending_add set get put ℕ_discrete
begun_one = refl

one_request-Reachable : Running.Reachable true true 1000 one_request
unfolding Rotating.init Endpoint.init
one_request-Reachable =
    let h = Running.fresh_history true true 1000 in
    Running.Reachable.after h one_request Running.Reachable.fresh
      (Running.Step.begins 5 2 consuming_requests refl begun_one)

requests-IsSound_example : Running.IsSound one_request
requests-IsSound_example = requests-IsSound true true 1000 one_request one_request-Reachable

consume_cancelled-find_example :
    (find ℕ_discrete (consume_cancelled consuming_requests).pending 5 ≡ some 5)
    × ((consume_cancelled consuming_requests).endpoint.messages_total ≡ 1)
    × ((consume_cancelled consuming_requests).endpoint.pending_requests ≡ 1)
consume_cancelled-find_example =
    consume_cancelled-find 1000 one_request 5 one_request-Reachable refl refl refl
