-- ===== src/Kafka/Lanes/Histories.antt =====
-- The lanes of a Kafka source: their steps, and what holds between two.
use pyservicelib.Base.{
  ℕ, ◌+◌, ◌≤◌, ◌<◌, ◌≡◌, ◌⊎◌, inr, refl, Bool, true, false, not, ◌||◌, List, [], ◌∷◌, ◌++◌, ltb,
  ◌==◌, if◌then◌else◌, length, arith,
}
use pyservicelib.Base.Dicts.{is_some}
use pyservicelib.Pool.Queued.{without}
use pyservicelib.Pool.Queued.Steps.{occurs}
use pyservicelib.Kafka.Lanes.{
  Lane, absent, created, awaits_turn, handling, Lanes, init, write, records, process_record,
  lane_starts, acquire, request_done, cancel, stop,
}

-- The lanes, what each partition has admitted and taken up, whether records of it were given up,
-- and the partitions whose requests run.
pub record History : Type 0 where
  pub source : Lanes
  pub admitted : ℕ → List ℕ
  pub taken : ℕ → List ℕ
  pub dropped : ℕ → Bool
  pub running : List ℕ

abbrev pub is_lane : Lane → Bool
is_lane absent = false
is_lane created = true
is_lane awaits_turn = true
is_lane handling = true

abbrev pub is_handling : Lane → Bool
is_handling absent = false
is_handling created = false
is_handling awaits_turn = false
is_handling handling = true

-- What a round of a lane takes up, and whether it gives records up.
abbrev pub first_of : List ℕ → List ℕ
first_of [] = []
first_of (r ∷ rs) = r ∷ []

abbrev pub after_round : History → (partition : ℕ) → List ℕ → Lanes → History
after_round h p running s = record h {
  source = s;
  taken =
      if h.source.stopped
      then h.taken
      else write h.taken p (h.taken p ++ first_of (records (h.source.queues p)));
  dropped = if h.source.stopped then write h.dropped p true else h.dropped;
  running = running;
}

abbrev pub drops : History → (partition : ℕ) → List ℕ → Lanes → History
drops h p running s = record h { source = s; dropped = write h.dropped p true; running = running }

pub data Step (limit : ℕ) (h : History) : History → Type 0 where
  -- The consumer gives out no record of a partition that it was told to pause.
  arrives :
      (assigned : Bool) (p r : ℕ)
      → h.source.consumer_paused p ≡ false
      → Step limit h (record h {
        source = process_record h.source assigned p r;
        admitted =
            if h.source.stopped || not assigned
            then h.admitted
            else write h.admitted p (h.admitted p ++ (r ∷ []));
      })
  starts :
      (a : Bool) (p : ℕ)
      → h.source.lanes p ≡ created
      → Step limit h (after_round h p h.running (lane_starts h.source a p))
  gets_turn :
      (a : Bool) (p : ℕ)
      → h.source.lanes p ≡ awaits_turn
      → h.source.stopped ≡ false
      → Step limit h (record h {
        source = acquire h.source limit a p;
        running =
            if (limit == 0) || ltb h.source.active_count limit then p ∷ h.running else h.running;
      })
  turned_away :
      (a : Bool) (p : ℕ)
      → h.source.lanes p ≡ awaits_turn
      → h.source.stopped ≡ true
      → Step limit h (after_round h p h.running (acquire h.source limit a p))
  ends :
      (a : Bool) (p : ℕ)
      → h.source.lanes p ≡ handling
      → Step limit h (after_round h p (without p h.running) (request_done h.source a p))
  -- A lane that has run is cancelled; an exception of the handler ends it likewise.
  cancels_waiting :
      (a : Bool) (p : ℕ)
      → h.source.lanes p ≡ awaits_turn
      → Step limit h (drops h p h.running (cancel h.source a p))
  cancels_handling :
      (a : Bool) (p : ℕ)
      → h.source.lanes p ≡ handling
      → Step limit h (drops h p (without p h.running) (cancel h.source a p))
  stops : Step limit h (record h { source = stop h.source })

abbrev pub fresh_history : History
fresh_history = record {
  source = init;
  admitted = λ p. [];
  taken = λ p. [];
  dropped = λ p. false;
  running = [];
}

pub data Reachable (limit : ℕ) : History → Type 0 where
  fresh : Reachable limit fresh_history
  after : (h k : History) → Reachable limit h → Step limit h k → Reachable limit k

pub record IsSound (limit : ℕ) (h : History) : Type 0 where
  -- A partition has a queue exactly while it has a lane.
  pub laned : (p : ℕ) → is_some (h.source.queues p) ≡ is_lane (h.source.lanes p)
  -- A paused partition has a lane, which will resume it.
  pub resumed : (p : ℕ) → h.source.paused p ≡ true → is_lane (h.source.lanes p) ≡ true
  pub told : (p : ℕ) → h.source.paused p ≡ true → h.source.consumer_paused p ≡ true
  pub positive : 0 < h.source.prefetch
  pub prefetched :
      (p : ℕ)
      → length (records (h.source.queues p)) + (if h.source.paused p then 0 else 1)
        ≤ h.source.prefetch
  -- Records are taken up in the order in which they came, and each once.
  pub ordered :
      (p : ℕ) → (h.dropped p ≡ true) ⊎ (h.admitted p ≡ h.taken p ++ records (h.source.queues p))
  pub counted : h.source.active_count ≡ length h.running
  pub placed : (p : ℕ) → occurs p h.running ≡ (if is_handling (h.source.lanes p) then 1 else 0)
  pub limited : (limit ≡ 0) ⊎ (h.source.active_count ≤ limit)

pub fresh-IsSound : (limit : ℕ) → IsSound limit fresh_history
unfolding init
fresh-IsSound limit = record {
  laned = λ p. refl;
  resumed = λ p e. absurd (ground arith);
  told = λ p e. absurd (ground arith);
  positive = omega arith;
  prefetched = λ p. ground arith;
  ordered = λ p. inr refl;
  counted = refl;
  placed = λ p. refl;
  limited = inr (omega arith);
}
