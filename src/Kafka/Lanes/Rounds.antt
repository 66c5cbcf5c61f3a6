-- ===== src/Kafka/Lanes/Rounds.antt =====
-- The lanes of a Kafka source: a record that comes, and the rounds of a lane.
use pyservicelib.Base.{
  ℕ, ◌≤◌, ◌≡◌, Bool, true, false, not, ◌||◌, List, [], ◌∷◌, ◌++◌, ◌==◌, if◌then◌else◌, length,
  length-append, append_assoc, append-nil, arith,
}
use pyservicelib.Pool.Queued.Steps.{occurs}
use pyservicelib.Kafka.Lanes.{
  created, write, records, process_record, resume, lane_ends, lane_round, is_nil,
}
use pyservicelib.Kafka.Lanes.Histories.{History, is_lane, first_of, drops, IsSound}

pub arrives-IsSound :
    (limit : ℕ) (h : History) (assigned : Bool) (p r : ℕ)
    → h.source.consumer_paused p ≡ false
    → IsSound limit h
    → IsSound limit (record h {
      source = process_record h.source assigned p r;
      admitted =
          if h.source.stopped || not assigned
          then h.admitted
          else write h.admitted p (h.admitted p ++ (r ∷ []));
    })
unfolding process_record
arrives-IsSound limit h c p r e v = record {
  laned = λ q. ground (arith, v.laned q, v.laned p);
  resumed = λ q f. ground (arith, v.resumed q, v.laned p);
  told = λ q f. ground (arith, v.told q);
  positive = ground (arith, v.positive);
  prefetched = λ q.
      ground
        (arith, v.prefetched q, v.told p, length-append (records (h.source.queues p)) (r ∷ []));
  ordered = λ q.
      ground (arith, v.ordered q, append_assoc (h.taken p) (records (h.source.queues p)) (r ∷ []));
  counted = ground (arith, v.counted);
  placed = λ q. ground (arith, v.placed q, v.laned p);
  limited = ground (arith, v.limited);
}

abbrev pub round_after : History → (a : Bool) (p : ℕ) (active : ℕ) → List ℕ → List ℕ → History
round_after h a p active running rs =
    let s = record h.source { active_count = active } in
    record h {
      source = lane_round (if is_nil rs then resume s a p else s) a p rs;
      taken = if h.source.stopped then h.taken else write h.taken p (h.taken p ++ first_of rs);
      dropped = if h.source.stopped then write h.dropped p true else h.dropped;
      running = running;
    }

abbrev pub started : History → (a : Bool) (p : ℕ) → List ℕ → History
started h a p rs = record h {
  source = lane_round h.source a p rs;
  taken = if h.source.stopped then h.taken else write h.taken p (h.taken p ++ first_of rs);
  dropped = if h.source.stopped then write h.dropped p true else h.dropped;
}

-- A round of a lane whose request, if it had one, has left the running ones.
pub round-IsSound :
    (limit : ℕ) (h : History) (a : Bool) (p active : ℕ) (running rs : List ℕ)
    → records (h.source.queues p) ≡ rs
    → is_lane (h.source.lanes p) ≡ true
    → active ≡ length running
    → active ≤ h.source.active_count
    → ((q : ℕ) → occurs q running ≡ (if p == q then 0 else occurs q h.running))
    → IsSound limit h
    → IsSound limit (round_after h a p active running rs)
round-IsSound limit h a p active running [] e there c less o v = record {
  laned = λ q. ground (arith, v.laned q);
  resumed = λ q f. ground (arith, v.resumed q);
  told = λ q f. ground (arith, v.told q);
  positive = ground (arith, v.positive);
  prefetched = λ q. ground (arith, v.prefetched q, v.positive);
  ordered = λ q. ground (arith, v.ordered q, append-nil (h.taken p));
  counted = ground (arith, c);
  placed = λ q. ground (arith, v.placed q, o q);
  limited = ground (arith, v.limited);
}
round-IsSound limit h a p active running (r ∷ rs) e there c less o v = record {
  laned = λ q. ground (arith, v.laned q);
  resumed = λ q f. ground (arith, v.resumed q);
  told = λ q f. ground (arith, v.told q);
  positive = ground (arith, v.positive);
  prefetched = λ q. ground (arith, v.prefetched q);
  ordered = λ q. ground (arith, v.ordered q, append_assoc (h.taken p) (r ∷ []) rs);
  counted = ground (arith, c);
  placed = λ q. ground (arith, v.placed q, o q);
  limited = ground (arith, v.limited);
}

pub started-IsSound :
    (limit : ℕ) (h : History) (a : Bool) (p : ℕ) (rs : List ℕ)
    → records (h.source.queues p) ≡ rs
    → h.source.lanes p ≡ created
    → IsSound limit h
    → IsSound limit (started h a p rs)
started-IsSound limit h a p [] e new v = record {
  laned = λ q. ground (arith, v.laned q);
  resumed = λ q f. ground (arith, v.resumed q);
  told = λ q f. ground (arith, v.told q);
  positive = ground (arith, v.positive);
  prefetched = λ q. ground (arith, v.prefetched q, v.positive);
  ordered = λ q. ground (arith, v.ordered q, append-nil (h.taken p));
  counted = ground (arith, v.counted);
  placed = λ q. ground (arith, v.placed q);
  limited = ground (arith, v.limited);
}
started-IsSound limit h a p (r ∷ rs) e new v =
    round-IsSound limit h a p h.source.active_count h.running (r ∷ rs) e (ground arith) v.counted
      (omega arith) (λ q. ground (arith, v.placed q)) v

-- The end of a lane whose records are given up.
pub dropped-IsSound :
    (limit : ℕ) (h : History) (a : Bool) (p active : ℕ) (running : List ℕ)
    → is_lane (h.source.lanes p) ≡ true
    → active ≡ length running
    → active ≤ h.source.active_count
    → ((q : ℕ) → occurs q running ≡ (if p == q then 0 else occurs q h.running))
    → IsSound limit h
    → IsSound limit (drops h p running (lane_ends (record h.source { active_count = active }) a p))
dropped-IsSound limit h a p active running there c less o v = record {
  laned = λ q. ground (arith, v.laned q);
  resumed = λ q f. ground (arith, v.resumed q);
  told = λ q f. ground (arith, v.told q);
  positive = ground (arith, v.positive);
  prefetched = λ q. ground (arith, v.prefetched q, v.positive);
  ordered = λ q. ground (arith, v.ordered q);
  counted = ground (arith, c);
  placed = λ q. ground (arith, v.placed q, o q);
  limited = ground (arith, v.limited);
}
