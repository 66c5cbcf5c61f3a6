-- ===== src/Kafka/Requests/Histories.antt =====
-- The requests of a Kafka source: their steps, and what holds between two.
use pyservicelib.Base.{
  ℕ, suc, ◌+◌, ◌≡◌, ◌⊎◌, inr, refl, Bool, true, false, ◌&&◌, List, [], ◌∷◌, Option, none, some,
  if◌then◌else◌, length, ℕ_discrete, ok, arith,
}
use pyservicelib.Base.Dicts.{Dict}
use pyservicelib.Pool.Queued.{without}
use pyservicelib.Pool.Queued.Steps.{occurs}
use pyservicelib.Store.Rotating.{rotate, set, find, pop}
use pyservicelib.Store.Rotating
use pyservicelib.Store.Rotating.View.{
  rotate-IsValid, find-rotate, inserted, inserted-IsValid, find-inserted, pop-IsValid, find-pop,
  set-inserted, init-IsValid, find-init,
}
use pyservicelib.Store.Rotating.View
use pyservicelib.Runtime.Endpoint.{
  Endpoint, on_missing_stream_id, on_late_result, on_unknown_message_id, on_duplicate_message_id,
  on_pending_add, on_pending_remove, on_request_start, on_request_end, on_begin_request_failed,
}
use pyservicelib.Runtime.Endpoint
use pyservicelib.Kafka.Lanes.{write}
use pyservicelib.Kafka.Requests.{
  Requests, begin_failed, begun, consume_failed, consume_cancelled, waited, wait_failed,
  request_ends, Callback, consume_result,
}

-- Where a request stands: at begin_request or before, at consume_message, at the wait for done, at
-- end_request with the error or without, after it, or cancelled in consume_message.
pub data Phase : Type 0 where
  unseen consuming waiting over lost : Phase
  ending : Bool → Phase

abbrev pub is_open : Phase → Bool
is_open unseen = false
is_open over = false
is_open lost = false
is_open consuming = true
is_open waiting = true
is_open (ending failed) = true

abbrev pub is_pending : Phase → Bool
is_pending unseen = false
is_pending over = false
is_pending lost = true
is_pending consuming = true
is_pending waiting = true
is_pending (ending failed) = false

-- The source, the phases, the requests that have started and not ended, those whose result context
-- was put into the map and not taken out, and how many have started.
pub record History : Type 0 where
  pub source : Requests
  pub phase : ℕ → Phase
  pub active : List ℕ
  pub held : List ℕ
  pub started : ℕ

pub data Step (h : History) : History → Type 0 where
  begin_fails : Step h (record h { source = begin_failed h.source })
  begins :
      (sid time : ℕ) (s : Requests)
      → h.phase sid ≡ unseen
      → begun h.source sid time ≡ ok s
      → Step h (record {
        source = s;
        phase = write h.phase sid consuming;
        active = sid ∷ h.active;
        held = if h.source.has_result then sid ∷ h.held else h.held;
        started = suc h.started;
      })
  consume_raises :
      (sid : ℕ)
      → h.phase sid ≡ consuming
      → Step h (record h {
        source = consume_failed h.source sid;
        phase = write h.phase sid (ending true);
        held = if h.source.has_result then without sid h.held else h.held;
      })
  consume_cancels :
      (sid : ℕ)
      → h.phase sid ≡ consuming
      → Step h (record h {
        source = consume_cancelled h.source;
        phase = write h.phase sid lost;
        active = without sid h.active;
      })
  consume_returns :
      (sid : ℕ)
      → h.phase sid ≡ consuming
      → Step h (record h {
        phase = write h.phase sid (if h.source.has_result then waiting else ending false);
      })
  wait_ends :
      (sid : ℕ) (cancelled done : Bool)
      → h.phase sid ≡ waiting
      → Step h (record h {
        source = waited h.source sid;
        phase = write h.phase sid (ending (wait_failed cancelled done));
        held = without sid h.held;
      })
  ends :
      (sid : ℕ) (failed : Bool)
      → h.phase sid ≡ ending failed
      → Step h (record h {
        source = request_ends h.source failed;
        phase = write h.phase sid over;
        active = without sid h.active;
      })
  rotates :
      Step h
        (record h { source = record h.source { pending = rotate ℕ_discrete h.source.pending } })
  result_comes :
      (contexts : ℕ → Dict ℕ ℕ) (callback : Callback) (stream_id : Option ℕ) (message_id : ℕ)
      → Step h
          (record h { source = (consume_result h.source contexts callback stream_id message_id).0 })

abbrev pub fresh_history : (has_result metrics_enabled : Bool) (min_capacity : ℕ) → History
fresh_history has_result metrics_enabled min_capacity = record {
  source = record {
    has_result = has_result;
    pending = Rotating.init min_capacity;
    endpoint = Endpoint.init metrics_enabled;
  };
  phase = λ sid. unseen;
  active = [];
  held = [];
  started = 0;
}

pub data Reachable (has_result metrics_enabled : Bool) (min_capacity : ℕ) : History → Type 0 where
  fresh :
      Reachable has_result metrics_enabled min_capacity
        (fresh_history has_result metrics_enabled min_capacity)
  after :
      (h k : History)
      → Reachable has_result metrics_enabled min_capacity h
      → Step h k
      → Reachable has_result metrics_enabled min_capacity k

pub record IsCounted (e : Endpoint) (active held started : ℕ) : Type 0 where
  pub running : e.active_requests ≡ active
  pub waiting_now : e.pending_requests ≡ held
  pub summed : e.messages_total + (e.request_errors + active) ≡ started

abbrev pub waits_in : History → ℕ → Bool
waits_in h sid = h.source.has_result && is_pending (h.phase sid)

pub record IsSound (h : History) : Type 0 where
  pub valid : View.IsValid ℕ_discrete h.source.pending
  -- A request can be found exactly while it consumes or waits for results, or where it was cancelled
  -- in consume_message.
  pub found :
      (sid : ℕ) → find ℕ_discrete h.source.pending sid ≡ (if waits_in h sid then some sid else none)
  pub patient : (sid : ℕ) → h.phase sid ≡ waiting → h.source.has_result ≡ true
  pub placed : (sid : ℕ) → occurs sid h.active ≡ (if is_open (h.phase sid) then 1 else 0)
  pub waits : (sid : ℕ) → occurs sid h.held ≡ (if waits_in h sid then 1 else 0)
  pub counted :
      (h.source.endpoint.metrics_enabled ≡ false)
      ⊎ IsCounted h.source.endpoint (length h.active) (length h.held) h.started

pub fresh-IsSound :
    (has_result metrics_enabled : Bool) (min_capacity : ℕ)
    → IsSound (fresh_history has_result metrics_enabled min_capacity)
unfolding Endpoint.init
fresh-IsSound r m n = record {
  valid = init-IsValid ℕ_discrete n;
  found = λ sid. ground (arith, find-init {V = ℕ} ℕ_discrete n sid);
  patient = λ sid e. absurd (ground arith);
  placed = λ sid. refl;
  waits = λ sid. ground arith;
  counted = inr (record { running = refl; waiting_now = refl; summed = refl });
}
