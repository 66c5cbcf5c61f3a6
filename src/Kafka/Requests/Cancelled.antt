-- ===== src/Kafka/Requests/Cancelled.antt =====
-- A request of a Kafka source that is cancelled while its handler consumes the message.
use pyservicelib.Base.{ℕ, suc, ◌≡◌, true, some, length, inl, inr, ℕ_discrete, arith}
use pyservicelib.Store.Rotating.{find}
use pyservicelib.Runtime.Endpoint.{on_request_end}
use pyservicelib.Kafka.Requests.{consume_cancelled}
use pyservicelib.Kafka.Requests.Histories.{History, Reachable, consuming}
use pyservicelib.Kafka.Requests.Steps.{requests-IsSound}

-- In every history of a source with results and metrics, where a request is cancelled in
-- consume_message: it is counted as a message that was processed, its result
-- context can still be found, and the gauge of the pending requests goes on counting it.
pub consume_cancelled-find :
    (min_capacity : ℕ) (h : History) (sid : ℕ)
    → Reachable true true min_capacity h
    → h.source.has_result ≡ true
    → h.source.endpoint.metrics_enabled ≡ true
    → h.phase sid ≡ consuming
    → (find ℕ_discrete (consume_cancelled h.source).pending sid ≡ some sid)
      × ((consume_cancelled h.source).endpoint.messages_total
          ≡ suc h.source.endpoint.messages_total)
      × ((consume_cancelled h.source).endpoint.pending_requests ≡ length h.held)
unfolding consume_cancelled on_request_end
consume_cancelled-find n h sid past result on e =
    let v = requests-IsSound true true n h past in
    (
      ground (arith, v.found sid),
      ground arith,
      elim v.counted [ inl off ↦ absurd (ground arith) | inr c ↦ ground (arith, c.waiting_now) ],
    )
