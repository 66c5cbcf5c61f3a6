-- ===== src/Kafka/Requests/Steps.antt =====
-- The requests of a Kafka source through any history of their steps.
use pyservicelib.Base.{
  ℕ, suc, ◌≡◌, inl, inr, refl, ap, sym, subst, Bool, true, false, ◌∷◌, none, if◌then◌else◌,
  ℕ_discrete, Result, ok, err, arith, Bool-cases,
}
use pyservicelib.Pool.Queued.{without}
use pyservicelib.Store.Rotating.{set, find}
use pyservicelib.Store.Rotating.View.{set-inserted}
use pyservicelib.Runtime.Endpoint.{on_request_start, on_begin_request_failed}
use pyservicelib.Kafka.Lanes.{write}
use pyservicelib.Kafka.Requests.{
  Requests, begin_failed, begun, added, removed, consume_failed, consume_cancelled, request_ends,
  waited, wait_failed,
}
use pyservicelib.Kafka.Requests.Histories.{
  unseen, consuming, waiting, ending, over, lost, consume_cancels, begin_fails, begins,
  consume_raises, consume_returns, wait_ends, ends, rotates, result_comes, fresh, after, History,
  Step, Reachable, IsSound, fresh-IsSound,
}
use pyservicelib.Kafka.Requests.Counts.{
  same-IsSound, events-IsAlike, consume_result-Counts, Counts-IsSound,
}
use pyservicelib.Kafka.Requests.Moves.{
  started_plain, started_waiting, removed-IsSound, moved-IsSound, ended-IsSound, rotated-IsSound,
}

from_ok : Requests → Result Requests → Requests
from_ok default (err e) = default
from_ok default (ok s) = s

begun_at :
    (h : History) (sid time : ℕ) (s : Requests) (b : Bool)
    → h.source.has_result ≡ b
    → h.phase sid ≡ unseen
    → (if b
        then added
            (record h.source { endpoint = on_request_start h.source.endpoint })
            sid
            time
            (set ℕ_discrete h.source.pending sid sid)
        else ok (record h.source { endpoint = on_request_start h.source.endpoint }))
      ≡ ok s
    → IsSound h
    → IsSound (record {
      source = s;
      phase = write h.phase sid consuming;
      active = sid ∷ h.active;
      held = if b then sid ∷ h.held else h.held;
      started = suc h.started;
    })
unfolding from_ok
begun_at h sid time s false plain new e v =
    subst
      (λ t. IsSound (record {
        source = t;
        phase = write h.phase sid consuming;
        active = sid ∷ h.active;
        held = h.held;
        started = suc h.started;
      }))
      (ap (from_ok s) e) (started_plain h sid new plain v)
begun_at h sid time s true result new e v =
    let begun_ : Requests = record h.source { endpoint = on_request_start h.source.endpoint } in
    let absent : find ℕ_discrete h.source.pending sid ≡ none = ground (arith, v.found sid) in
    let (set_, apart) = set-inserted ℕ_discrete h.source.pending sid sid absent in
    let done = subst (λ r. added begun_ sid time r ≡ ok s) set_ e in
    subst
      (λ t. IsSound (record {
        source = t;
        phase = write h.phase sid consuming;
        active = sid ∷ h.active;
        held = sid ∷ h.held;
        started = suc h.started;
      }))
      (ap (from_ok s) done) (started_waiting h sid time new result v)

begun-IsSound :
    (h : History) (sid time : ℕ) (s : Requests)
    → h.phase sid ≡ unseen
    → begun h.source sid time ≡ ok s
    → IsSound h
    → IsSound (record {
      source = s;
      phase = write h.phase sid consuming;
      active = sid ∷ h.active;
      held = if h.source.has_result then sid ∷ h.held else h.held;
      started = suc h.started;
    })
unfolding begun
begun-IsSound h sid time s new e v = begun_at h sid time s h.source.has_result refl new e v

consume_raises-IsSound :
    (h : History) (sid : ℕ)
    → h.phase sid ≡ consuming
    → IsSound h
    → IsSound (record h {
      source = consume_failed h.source sid;
      phase = write h.phase sid (ending true);
      held = if h.source.has_result then without sid h.held else h.held;
    })
unfolding consume_failed
consume_raises-IsSound h sid e v = elim (Bool-cases h.source.has_result) [
  | inl on ↦
      subst
        (λ b. IsSound (record h {
          source = if b then removed h.source sid else h.source;
          phase = write h.phase sid (ending true);
          held = if b then without sid h.held else h.held;
        }))
        (sym on) (removed-IsSound h sid true (ground arith) (ground arith) v)
  | inr off ↦
      subst
        (λ b. IsSound (record h {
          source = if b then removed h.source sid else h.source;
          phase = write h.phase sid (ending true);
          held = if b then without sid h.held else h.held;
        }))
        (sym off)
        (moved-IsSound h sid (ending true) (ground arith) refl (ground arith)
          (λ f. absurd (ground arith)) v)
]

pub Step-IsSound : (h k : History) → Step h k → IsSound h → IsSound k
unfolding begin_failed waited consume_cancelled request_ends
Step-IsSound h _ begin_fails v =
    same-IsSound h (on_begin_request_failed h.source.endpoint) (events-IsAlike h.source.endpoint).4
      v
Step-IsSound h _ (begins sid time s new e) v = begun-IsSound h sid time s new e v
Step-IsSound h _ (consume_raises sid e) v = consume_raises-IsSound h sid e v
Step-IsSound h _ (consume_returns sid e) v =
    moved-IsSound h sid (if h.source.has_result then waiting else ending false) (ground arith)
      (ground arith) (ground arith) (λ f. ground arith) v
Step-IsSound h _ (wait_ends sid cancelled done e) v =
    removed-IsSound h sid (wait_failed cancelled done) (ground (arith, v.patient sid))
      (ground arith) v
Step-IsSound h _ (consume_cancels sid e) v =
    ended-IsSound h sid false lost (ground arith) refl (ground arith) v
Step-IsSound h _ (ends sid failed e) v =
    ended-IsSound h sid failed over (ground arith) refl (ground arith) v
Step-IsSound h _ rotates v = rotated-IsSound h v
Step-IsSound h _ (result_comes contexts callback stream_id message_id) v =
    Counts-IsSound h _ (consume_result-Counts h.source contexts callback stream_id message_id) v

-- Through every history of the requests of a Kafka source, with results that come, rotations of the
-- map and cancellations between their steps: where the source has results, the context of a request
-- can be found exactly while the request consumes its message or waits for its results, and for ever
-- once it was cancelled while it consumed its message. Where metrics are enabled, the gauge of the
-- running requests is the number of those that have started and not ended, the gauge of the pending
-- ones the number of contexts that were put into the map and not taken out, those of cancelled
-- requests included, and the processed messages, the errors and the running requests add up to the
-- requests that have started.
pub requests-IsSound :
    (has_result metrics_enabled : Bool) (min_capacity : ℕ) (h : History)
    → Reachable has_result metrics_enabled min_capacity h
    → IsSound h
requests-IsSound r m n _ fresh = fresh-IsSound r m n
requests-IsSound r m n _ (after h k past step) =
    Step-IsSound h k step (requests-IsSound r m n h past)
