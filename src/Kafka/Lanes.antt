-- ===== src/Kafka/Lanes.antt =====
-- datasource/kafka/aiokafkads.py, _AIOKafkaTypedEndpointConsumer: the lanes, one task for each
-- partition that has records, and the limit on the requests that run at once. A record is named by
-- its offset, a partition by a number. Each function is what runs between two awaits.
pub mod Histories
pub mod Rounds
pub mod Steps
pub mod Cancelled
use pyservicelib.Base.{
  ℕ, suc, ◌+◌, ◌-◌, Bool, true, false, not, ◌&&◌, ◌||◌, List, [], ◌∷◌, ◌++◌, Option, none, some,
  ltb, leb, ◌==◌, if◌then◌else◌, length,
}

-- Where the task of a partition stands: made but not run yet, at the wait of _acquire_concurrency,
-- or in _endpoint_request.
pub data Lane : Type 0 where
  absent : Lane
  created : Lane
  awaits_turn : Lane
  handling : Lane

pub record Lanes : Type 0 where
  pub queues : ℕ → Option (List ℕ)
  pub lanes : ℕ → Lane
  pub paused : ℕ → Bool
  -- What the consumer was told by pause and resume.
  pub consumer_paused : ℕ → Bool
  pub prefetch : ℕ
  pub active_count : ℕ
  pub stopped : Bool

unfoldable pub init : Lanes
init = record {
  queues = λ p. none;
  lanes = λ p. absent;
  paused = λ p. false;
  consumer_paused = λ p. false;
  prefetch = 1;
  active_count = 0;
  stopped = false;
}

abbrev pub write : {A : Type 0} → (ℕ → A) → ℕ → A → ℕ → A
write f p a q = if p == q then a else f q

abbrev pub records : Option (List ℕ) → List ℕ
records none = []
records (some rs) = rs

abbrev pub is_new : Option (List ℕ) → Bool
is_new none = true
is_new (some rs) = false

-- `_process_record`. A source that restores a checkpoint admits what is assigned to it.
unfoldable pub process_record : Lanes → (admitted : Bool) (partition r : ℕ) → Lanes
process_record s admitted p r =
    let queue = records (s.queues p) ++ (r ∷ []) in
    let full = leb s.prefetch (length queue) in
    if s.stopped || not admitted then s else record s {
      queues = write s.queues p (some queue);
      paused = if full then write s.paused p true else s.paused;
      consumer_paused = if full then write s.consumer_paused p true else s.consumer_paused;
      lanes = if is_new (s.queues p) then write s.lanes p created else s.lanes;
    }

-- `_resume_partition`; a partition may have been revoked.
abbrev pub resume : Lanes → (in_assignment : Bool) (partition : ℕ) → Lanes
resume s in_assignment p =
    if s.paused p
    then record s {
      paused = write s.paused p false;
      consumer_paused =
          if not s.stopped && in_assignment
          then write s.consumer_paused p false
          else s.consumer_paused;
    }
    else s

-- The `finally` of `_run_partition`.
abbrev pub lane_ends : Lanes → (in_assignment : Bool) (partition : ℕ) → Lanes
lane_ends s in_assignment p =
    resume (record s { lanes = write s.lanes p absent; queues = write s.queues p none })
      in_assignment p

-- `_run_partition` from its loop's test to the next wait, with what is in the queue.
abbrev pub lane_round : Lanes → (in_assignment : Bool) (partition : ℕ) → List ℕ → Lanes
lane_round s in_assignment p [] = lane_ends s in_assignment p
lane_round s in_assignment p (r ∷ rs) =
    if s.stopped
    then lane_ends s in_assignment p
    else record s { queues = write s.queues p (some rs); lanes = write s.lanes p awaits_turn }

-- The first steps of a task that was created.
pub lane_starts : Lanes → (in_assignment : Bool) (partition : ℕ) → Lanes
lane_starts s in_assignment p = lane_round s in_assignment p (records (s.queues p))

abbrev pub is_nil : List ℕ → Bool
is_nil [] = true
is_nil (r ∷ rs) = false

-- What follows `_dispatch_record`.
abbrev pub dispatched : Lanes → (in_assignment : Bool) (partition : ℕ) → Lanes
dispatched s in_assignment p =
    let rs = records (s.queues p) in
    lane_round (if is_nil rs then resume s in_assignment p else s) in_assignment p rs

-- A turn of the loop of `_acquire_concurrency`, and what follows it.
pub acquire : Lanes → (limit : ℕ) (in_assignment : Bool) (partition : ℕ) → Lanes
acquire s limit in_assignment p =
    if s.stopped
    then dispatched s in_assignment p
    else if (limit == 0) || ltb s.active_count limit
    then record s { active_count = suc s.active_count; lanes = write s.lanes p handling }
    else s

-- `_release_concurrency`, and what follows it.
pub request_done : Lanes → (in_assignment : Bool) (partition : ℕ) → Lanes
request_done s in_assignment p =
    dispatched (record s { active_count = s.active_count - 1 }) in_assignment p

-- `task.cancel()` of a partition that is revoked. A task that has not run yet ends without a step
-- of its own; at a wait, the `finally` clauses run.
abbrev pub cancel_at : Lane → Lanes → (in_assignment : Bool) (partition : ℕ) → Lanes
cancel_at absent s in_assignment p = s
cancel_at created s in_assignment p = record s { lanes = write s.lanes p absent }
cancel_at awaits_turn s in_assignment p = lane_ends s in_assignment p
cancel_at handling s in_assignment p =
    lane_ends (record s { active_count = s.active_count - 1 }) in_assignment p

unfoldable pub cancel : Lanes → (in_assignment : Bool) (partition : ℕ) → Lanes
cancel s in_assignment p = cancel_at (s.lanes p) s in_assignment p

unfoldable pub stop : Lanes → Lanes
stop s = record s { stopped = true }
